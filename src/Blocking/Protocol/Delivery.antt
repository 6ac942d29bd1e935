-- ===== src/Blocking/Protocol/Delivery.antt =====
-- hpfeeds/blocking: what the broker publishes to a session ends up in the session's queue.
use hpfeeds.Prelude.{ℕ, ◌<◌, ◌≡◌, refl, List, [], ◌∷◌, ◌∙◌, arith, length, flatten}
use hpfeeds.Python.Result.{ok}
use hpfeeds.Python.Exec.{pure, raise, lift, modify, ◌>>=◌}
use hpfeeds.Python.Exec.Bind.{bind_of_ok}
use hpfeeds.Python.Struct.{Bytes}
use hpfeeds.Python.Values.{Text, Library}
use hpfeeds.Wire.Message.Published.{Event, IsFrame, AllFrames, Written, frames-Written}
use hpfeeds.Wire.Unpacker.{Message, empty}
use hpfeeds.Protocol.{message_received}
use hpfeeds.Protocol.Stream.{Apart, handle, handle_all, receive, receive-encode}
use hpfeeds.Wire.Unpacker.Stream.{empty-waits}
use hpfeeds.Blocking.Reactor.{Received, Reactor, put_item, put_token, write, close}
use hpfeeds.Blocking.Protocol.{
  handlers, on_info, on_publish, on_error, on_unexpected, connection_ready, keep,
}

module _ (lib : Library) (ident secret : Text) where
  pub handlers-Apart : Apart lib (handlers lib ident secret)
  unfolding message_received on_error on_info on_publish on_unexpected connection_ready close write
      put_item put_token lift raise modify pure ◌>>=◌
  handlers-Apart = record {
    get-put = λ u s. refl;
    put-put = λ u v s. refl;
    put-get = λ s. refl;
    handle-put = λ (op, payload) u s. ground arith;
  }

  abbrev pub keep_all : List Received → Reactor → Reactor
  keep_all [] s = s
  keep_all (m ∷ ms) s = keep_all ms (keep m s)

  handle-frame :
      (e : Event) (f : Message) (s : Reactor)
      → IsFrame lib e f
      → handle lib (handlers lib ident secret) f s ≡ (ok tt, keep e s)
  unfolding message_received on_publish lift modify ◌>>=◌
  handle-frame e (op, payload) s (p, q) = rw (p, q) refl

  handle_all-frames :
      (es : List Event) (fs : List Message) (s : Reactor)
      → AllFrames lib es fs
      → handle_all lib (handlers lib ident secret) fs s ≡ (ok tt, keep_all es s)
  unfolding pure
  handle_all-frames [] fs s a = rw a refl
  handle_all-frames (e ∷ es) [] s a = elim a [ ]
  handle_all-frames (e ∷ es) (f ∷ fs) s (p, a) =
      bind_of_ok (handle lib (handlers lib ident secret) f) _ s (keep e s) tt (handle-frame e f s p)
      ∙ handle_all-frames es fs (keep e s) a

  -- Events that the broker built with msgpublish, within the limit of the opcode, reach the queue
  -- of a session that waits for a header: each of them once, in order and unchanged, however the
  -- connection cuts their bytes into chunks. Nothing else changes, and the parser is left empty.
  pub client_received-publishes :
      (fuel : ℕ) (es : List Event) (cs : List Bytes) (s : Reactor)
      → length es < fuel
      → s.unpacker ≡ empty
      → Written lib es (flatten cs)
      → receive lib (handlers lib ident secret) fuel cs s
        ≡ (ok tt, record (keep_all es s) { unpacker = empty })
  client_received-publishes fuel es cs s l e w =
      let (fs, ff, q, n, a) = frames-Written lib es (flatten cs) w in
      receive-encode lib (handlers lib ident secret) handlers-Apart fuel fs cs s (keep_all es s) ff
        (omega (arith, n)) (rw e empty-waits) (rw e q) (handle_all-frames es fs s a)
