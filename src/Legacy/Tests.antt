-- ===== src/Legacy/Tests.antt =====
-- hpfeeds/client.py: a client on concrete answers.
use hpfeeds.Prelude.{◌≡◌, refl, List, [], ◌∷◌, true, false, none, some}
use hpfeeds.Python.Result.{ok, err, out_of_fuel}
use hpfeeds.Python.Exec.{for_each, pure, raise, lift, gets, modify, try, ◌>>=◌}
use hpfeeds.Python.Struct.{Bytes, pack_byte, pack_header, unpack_header}
use hpfeeds.Python.Values.{text, bytes}
use hpfeeds.Wire.Opcode.{sizes}
use hpfeeds.Wire.Message.{
  msgauth, msgpublish, msgsubscribe, hashsecret, strpack8, strunpack8, force_bytes, force_str,
  msghdr, readinfo, readpublish,
}
use hpfeeds.Wire.Unpacker.{empty, feed, check, ready, pop, unpack}
use hpfeeds.Wire.Tests.{ascii, published}
use hpfeeds.Blocking.Tests.{published-ok}
use hpfeeds.Client.Tests.{challenge}
use hpfeeds.Legacy.Connection.{
  send_error, Config, Client, chunk_of, send_done, recv, received, take_recv, take_send,
  take_lookup, sent_by, send, next, next_message, feed_unpacker, close_old, try_addresses,
  looked_up, greet, on_first, on_greeting, do_auth, connect, connect_loop, tryconnect,
}
use hpfeeds.Legacy.Run.{
  publish, send_publish, loses, send_subscribe, subscribe_each, subscribe_all, receive_loop,
  receive_once, message_loop, each_message, on_message, run_round, run, stop,
}
use hpfeeds.Legacy.Resubscribed.{Subscribes, subscribe_all-tryconnect}
use hpfeeds.Legacy.Dropped.{publish-drops}
use hpfeeds.Legacy.Stops.{run-spins}

abbrev cfg : Config
cfg = record { lib = ascii; ident = 65 ∷ []; secret = 115 ∷ []; reconnect = true; order = λ ts. ts }

-- One lookup is refused, and of two addresses the second takes the connection.
abbrev lost : Client
lost = record {
  connected = false;
  stopped = false;
  subscriptions = (66 ∷ []) ∷ [];
  brokername = [];
  unpacker = empty;
  sock_open = false;
  sent = (1 ∷ []) ∷ [];
  lookups = none ∷ some (false ∷ true ∷ []) ∷ [];
  recvs = chunk_of challenge ∷ [];
  sends = send_done ∷ send_done ∷ [];
}

abbrev back : Client
back = (tryconnect cfg 2 lost).1

abbrev told : Client
told = (subscribe_all cfg back).1

runs-ok :
    (tryconnect cfg 2 lost ≡ (ok tt, back))
    × (subscribe_all cfg back ≡ (ok tt, told))
    × (told.connected ≡ true)
unfolding tryconnect connect_loop connect do_auth on_greeting on_first greet looked_up try_addresses
    close_old feed_unpacker next_message next send sent_by take_lookup take_recv take_send feed
    unpack ready check pop unpack_header sizes msgauth hashsecret strpack8 strunpack8 force_bytes
    force_str msghdr readinfo pack_byte pack_header lift raise try gets modify pure ◌>>=◌
    subscribe_all subscribe_each loses send_subscribe msgsubscribe
runs-ok = (refl, refl, refl)

subscribe_all-tryconnect_example :
    (rand : Bytes) × (m : Bytes) × (ms : List Bytes) × (msgauth ascii rand
        (text (65 ∷ []))
        (115 ∷ [])
      ≡ ok m)
    × Subscribes cfg told.subscriptions ms
    × (told.sent ≡ m ∷ ms)
subscribe_all-tryconnect_example =
    subscribe_all-tryconnect cfg 2 lost back told refl runs-ok.0 runs-ok.1 runs-ok.2

-- A connection on which an event is published.
abbrev listening : Client
listening = record lost { connected = true; subscriptions = []; recvs = chunk_of published ∷ [] }

abbrev heard : Client
heard = (run cfg (λ i c p. stop) (λ r. stop) 5 listening).1

heard-ok : run cfg (λ i c p. stop) (λ r. stop) 5 listening ≡ (ok tt, heard)
unfolding run run_round subscribe_all subscribe_each receive_loop receive_once recv received
    take_recv loses message_loop each_message on_message stop feed_unpacker next_message next feed
    unpack ready check pop unpack_header sizes strunpack8 force_str readpublish lift raise try gets
    modify pure ◌>>=◌
heard-ok = refl

abbrev once : Config
once = record cfg { reconnect = false }

abbrev alone : Client
alone = record lost { subscriptions = [] }

run-spins_example : run once (λ i c p. stop) (λ r. stop) 1000 alone ≡ (err out_of_fuel, alone)
run-spins_example = run-spins once (λ i c p. stop) (λ r. stop) 1000 alone refl refl refl refl

-- The first send fails; the second one is the new connection's.
abbrev failing : Client
failing = record lost { connected = true; subscriptions = []; sends = send_error ∷ send_done ∷ [] }

abbrev dropped : Client
dropped = (publish cfg 2 ((66 ∷ []) ∷ []) (bytes (9 ∷ [])) failing).1

dropped-ok : publish cfg 2 ((66 ∷ []) ∷ []) (bytes (9 ∷ [])) failing ≡ (ok tt, dropped)
unfolding publish send_publish msgpublish loses for_each tryconnect connect_loop connect do_auth
    on_greeting on_first greet looked_up try_addresses close_old feed_unpacker next_message next
    send sent_by take_lookup take_recv take_send feed unpack ready check pop unpack_header sizes
    msgauth hashsecret strpack8 strunpack8 force_bytes force_str msghdr readinfo pack_byte
    pack_header lift raise try gets modify pure ◌>>=◌
dropped-ok = refl

publish-drops_example :
    (rand : Bytes) × (a : Bytes) × (msgauth ascii rand (text (65 ∷ [])) (115 ∷ []) ≡ ok a)
    × (dropped.sent ≡ a ∷ [])
    × (dropped.connected ≡ true)
publish-drops_example =
    publish-drops cfg 2 (66 ∷ []) (bytes (9 ∷ [])) published send_error (send_done ∷ []) failing
      dropped refl published-ok refl (λ e. cc) dropped-ok
