-- ===== src/EndToEnd/Tests.antt =====
-- Two clients and the broker: the theorems on one event.
use hpfeeds.Prelude.{
  ℕ, ◌==◌, List, take, drop, ◌≡◌, refl, ap, [], ◌∷◌, ◌++◌, arith, if◌then◌else◌, nat_eq, list_eq,
  contains, text_eq, flatten, to_set,
}
use hpfeeds.Python.Result.{ok}
use hpfeeds.Python.Exec.{modify, lift, raise, pure, gets, try, for_each, ◌>>=◌}
use hpfeeds.Python.Struct.{Bytes, pack_byte, pack_header, unpack_header}
use hpfeeds.Wire.Opcode.{op_info, op_auth, sizes}
use hpfeeds.Wire.Message.{
  msginfo, msgauth, hashsecret, msgpublish, strpack8, force_bytes, msghdr, readpublish, strunpack8,
  force_str,
}
use hpfeeds.Wire.Tests.{ascii, published}
use hpfeeds.Wire.Unpacker.{empty, feed, unpack, ready, check, pop}
use hpfeeds.Client.Session.{packet}
use hpfeeds.Client.Tests.{cfg}
use hpfeeds.Broker.State.{Broker, self, assign, on_conn, server, write, record_metric, new_conn}
use hpfeeds.Broker.Publish.{publish, publish_to, send_event, event}
use hpfeeds.Broker.Lifecycle.{made, info, is_closing}
use hpfeeds.Broker.Handlers.{on_publish, dispatch, message_received}
use hpfeeds.Broker.Loop.{next, round, guarded, pending_loop, process_pending, data_received}
use hpfeeds.Broker.Delivery.{sent, sending}
use hpfeeds.Broker.Forwards.Chunks
use hpfeeds.Broker.Steps.{started}
use hpfeeds.Broker.Accepts.Chunks.{admitted}
use hpfeeds.Wire.Unpacker.Frames.{encode}
use hpfeeds.Python.Values.{text, bytes, codes}
use hpfeeds.EndToEnd.Handshake.{client-answers, receive-made}
use hpfeeds.Broker.Tests.{env, row, two}
use hpfeeds.Protocol.Stream
use hpfeeds.Blocking.Reactor.{connect}
use hpfeeds.Blocking.Protocol.{handlers}
use hpfeeds.Blocking.Protocol.Delivery.{keep_all}
use hpfeeds.Blocking.Tests.{connected, event_chunks}
use hpfeeds.EndToEnd.Published.{subscribed_events, own_events, OnWire, MayPublish, receive-packet}

one_event-OnWire : OnWire cfg ((66 ∷ [], 9 ∷ []) ∷ []) (flatten event_chunks)
unfolding packet msgpublish strpack8 force_bytes msghdr pack_byte pack_header sizes flatten
one_event-OnWire = (published, [], refl, omega arith, refl, refl)

two-MayPublish : MayPublish 1 two ((66 ∷ [], 9 ∷ []) ∷ [])
unfolding contains text_eq new_conn
two-MayPublish = (refl, (λ d h. ground arith), tt)

wrote-published : sent (Chunks.receive env 1 2 event_chunks two).1 2 ≡ sent two 2 ++ published ∷ []
unfolding contains text_eq new_conn data_received self assign on_conn record_metric feed modify gets
    process_pending guarded pending_loop next round unpack ready check pop unpack_header sizes
    message_received dispatch readpublish strunpack8 force_str on_publish server publish to_set
    for_each publish_to send_event is_closing event msgpublish strpack8 force_bytes msghdr pack_byte
    pack_header write try lift raise pure ◌>>=◌
wrote-published = refl

receive-packet_example :
    ((Chunks.receive env 1 2 event_chunks two).0 ≡ ok tt)
    × (Stream.receive ascii (handlers ascii (67 ∷ []) (115 ∷ [])) 2 event_chunks connected ≡ (
      ok tt,
      record (keep_all ascii
          (67 ∷ [])
          (115 ∷ [])
          (subscribed_events two.subscriptions 2 (own_events cfg ((66 ∷ [], 9 ∷ []) ∷ [])))
          connected) { unpacker = empty },
    ))
unfolding contains new_conn flatten connect modify
receive-packet_example =
    receive-packet env 1 cfg (67 ∷ []) (115 ∷ []) 2 2 ((66 ∷ [], 9 ∷ []) ∷ []) event_chunks
      event_chunks (published ∷ []) two 2 connected refl one_event-OnWire (omega arith)
      (omega arith) refl refl refl two-MayPublish wrote-published refl refl

-- Connection 1 is about to be made.
abbrev fresh : Broker
unfolding on_conn
fresh = on_conn 1 (λ _. new_conn (5 ∷ [])) started

abbrev challenge : Bytes
challenge = encode (op_info, 2 ∷ 104 ∷ 112 ∷ 5 ∷ [])

abbrev answer : Bytes
answer = encode (op_auth, 1 ∷ 65 ∷ 5 ∷ 115 ∷ [])

abbrev answer_chunks : List Bytes
answer_chunks = take 7 answer ∷ drop 7 answer ∷ []

challenge-ok : msginfo ascii (text (codes "hp")) (bytes (5 ∷ [])) ≡ ok challenge
unfolding msginfo strpack8 force_bytes msghdr pack_byte pack_header
challenge-ok = refl

answer-ok : msgauth ascii (5 ∷ []) (text (65 ∷ [])) (115 ∷ []) ≡ ok answer
unfolding msgauth hashsecret strpack8 force_bytes msghdr pack_byte pack_header
answer-ok = refl

wrote-challenge : sent (made env 1 fresh).1 1 ≡ sent fresh 1 ++ challenge ∷ []
unfolding made server self record_metric info lift write assign modify on_conn new_conn msginfo
    strpack8 force_bytes msghdr pack_byte pack_header ◌>>=◌
wrote-challenge = refl

gave-answer :
    (Stream.receive ascii
      (handlers ascii (65 ∷ []) (115 ∷ []))
      2
      (challenge ∷ [])
      connected).1.given
    ≡ connected.given ++ flatten answer_chunks
unfolding flatten connect modify sizes
gave-answer =
    ap (λ o. o.1.given)
      (client-answers ascii (65 ∷ []) (115 ∷ []) (5 ∷ []) challenge answer 2 (codes "hp")
        (challenge ∷ []) connected challenge-ok (omega arith) answer-ok refl refl (omega arith))

receive-made_example :
    ((made env 1 fresh).0 ≡ ok tt)
    × ((Stream.receive ascii (handlers ascii (65 ∷ []) (115 ∷ [])) 2 (challenge ∷ []) connected).0
        ≡ ok tt)
    × ((Chunks.receive env 1 2 answer_chunks (made env 1 fresh).1).0 ≡ ok tt)
    × ((d : ℕ)
        → (Chunks.receive env 1 2 answer_chunks (made env 1 fresh).1).1.conns d ≡ (
            if 1 == d
            then admitted env 1
                (65 ∷ [])
                (111 ∷ [])
                row
                (sending (challenge ∷ []) (new_conn (5 ∷ [])))
            else fresh.conns d))
unfolding on_conn sizes flatten connect modify text_eq
receive-made_example =
    receive-made env 1 (65 ∷ []) (111 ∷ []) (115 ∷ []) row 2 0 (5 ∷ []) challenge answer
      (challenge ∷ []) answer_chunks (challenge ∷ []) fresh connected refl challenge-ok
      (omega arith) answer-ok (omega arith) refl refl refl refl (omega arith) wrote-challenge refl
      gave-answer
