-- ===== src/Blocking/Tests.antt =====
-- hpfeeds/blocking/reactor.py: a reactor whose protocol answers what it receives.
use hpfeeds.Prelude.{◌≡◌, refl, List, take, drop, flatten, arith, [], ◌∷◌, true, false}
use hpfeeds.Python.Result.{ok}
use hpfeeds.Python.Exec.{modify}
use hpfeeds.Python.Struct.{Bytes, pack_byte, pack_header}
use hpfeeds.Python.Values.{text, bytes}
use hpfeeds.Wire.Opcode.{sizes}
use hpfeeds.Wire.Message.{msgpublish, strpack8, force_bytes, msghdr}
use hpfeeds.Wire.Message.Published.{Event}
use hpfeeds.Wire.Tests.{ascii, published}
use hpfeeds.Wire.Unpacker.{empty}
use hpfeeds.Protocol.Stream.{receive}
use hpfeeds.Blocking.Protocol.{handlers}
use hpfeeds.Blocking.Protocol.Delivery.{keep_all, client_received-publishes}
use hpfeeds.Blocking.Reactor.{
  Reactor, try_again, result, Events, put_item, put_token, write, connect, select_,
}
use hpfeeds.Blocking.Reactor.Flow.{
  Flows, connects, selects, puts_item, puts_token, Reach, start, and_then, idle, write-Keeps,
  Reach-Flows,
}

-- The socket has received a byte and takes two.
abbrev both : Events
both = record {
  sock_read = true;
  outbox_read = true;
  sock_write = false;
  recv = result (7 ∷ []);
  sent_first = result 2;
  sent = try_again;
}

abbrev pub connected : Reactor
connected = (connect true idle).1

abbrev one_item : Reactor
one_item = (put_item (1 ∷ 2 ∷ 3 ∷ []) connected).1

abbrev one_token : Reactor
one_token = (put_token one_item).1

Reach-one_token : Reach write one_token
Reach-one_token =
    and_then (and_then (and_then start (connects true)) (puts_item (1 ∷ 2 ∷ 3 ∷ []))) puts_token

Reach-Flows_example : Flows (select_ write both one_token).1
Reach-Flows_example = Reach-Flows write write-Keeps (and_then Reach-one_token (selects both))

abbrev pub event : Event
event = (65 ∷ [], 66 ∷ [], 9 ∷ [])

-- The event's message, in two chunks.
abbrev pub event_chunks : List Bytes
event_chunks = take 7 published ∷ drop 7 published ∷ []

pub published-ok :
    msgpublish ascii (text (65 ∷ [])) (text (66 ∷ [])) (bytes (9 ∷ [])) ≡ ok published
unfolding msgpublish strpack8 force_bytes msghdr pack_byte pack_header
published-ok = refl

client_received-publishes_example :
    receive ascii (handlers ascii (65 ∷ []) (115 ∷ [])) 2 event_chunks connected ≡ (
      ok tt,
      record (keep_all ascii (65 ∷ []) (115 ∷ []) (event ∷ []) connected) { unpacker = empty },
    )
unfolding sizes flatten connect modify
client_received-publishes_example =
    client_received-publishes ascii (65 ∷ []) (115 ∷ []) 2 (event ∷ []) event_chunks connected
      (omega arith) refl (published, [], published-ok, omega arith, refl, refl)
