-- ===== src/Blocking/Session.antt =====
-- hpfeeds/blocking/session.py, class ClientSession: the calls of the threads that use it.
use hpfeeds.Prelude.{ℕ, zero, suc, List, [], ◌∷◌, if◌then◌else◌, add, discard, list_eq}
use hpfeeds.Python.Result.{stop_iteration, out_of_fuel}
use hpfeeds.Python.Exec.{pure, raise, lift, gets, modify, for_each, ◌>>=◌, ◌>>◌}
use hpfeeds.Python.Struct.{Bytes}
use hpfeeds.Python.Values.{Text, Library, text, bytes}
use hpfeeds.Wire.Message.{msgpublish, msgsubscribe, msgunsubscribe}
use hpfeeds.Blocking.Reactor.{Received, M, write}
use hpfeeds.Blocking.Queue.{recv_byte, take_item}

-- The two statements of Queue.get on the read queue, in one thread: the first blocks where there is no
-- byte, and the second where there is no item.
unfoldable pub recv_received : ℕ → M (Unit {0})
recv_received zero = raise out_of_fuel
recv_received (suc n) = modify (λ s. record s { read_queue = recv_byte n s.read_queue })

unfoldable pub take_received : List Received → M Received
take_received [] = raise out_of_fuel
take_received (m ∷ ms) = do
  modify (λ s. record s { read_queue = take_item ms s.read_queue })
  pure m

-- ClientSession.read
unfoldable pub read : M Received
read = do
  tokens ← gets (λ s. s.read_queue.tokens)
  recv_received tokens
  items ← gets (λ s. s.read_queue.items)
  take_received items

-- ClientSession.__next__
unfoldable pub next_message : M Received
next_message = do closing ← gets (λ s. s.closing); if closing then raise stop_iteration else read

module _ (lib : Library) (ident : Text) where
  -- ClientSession.publish
  unfoldable pub publish : Text → Bytes → M (Unit {0})
  publish channel payload = do
    m ← lift (msgpublish lib (text ident) (text channel) (bytes payload))
    write m

  -- ClientSession.publish_iter
  unfoldable pub publish_iter : Text → List Bytes → M (Unit {0})
  publish_iter channel payloads = for_each payloads (publish channel)

  -- ClientSession.subscribe
  unfoldable pub subscribe : Text → M (Unit {0})
  subscribe channel = do
    modify (λ s. record s { subscriptions = add channel s.subscriptions })
    m ← lift (msgsubscribe lib (text ident) (text channel))
    write m

  -- ClientSession.unsubscribe
  unfoldable pub unsubscribe : Text → M (Unit {0})
  unsubscribe channel = do
    modify (λ s. record s { subscriptions = discard channel s.subscriptions })
    m ← lift (msgunsubscribe lib (text ident) (text channel))
    write m
