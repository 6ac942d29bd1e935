-- ===== src/Broker/Publish.antt =====
-- hpfeeds/broker/server.py: Server.publish; hpfeeds/asyncio/protocol.py: BaseProtocol.publish.
use hpfeeds.Prelude.{ℕ, Bool, Option, none, some, if◌then◌else◌, length, to_set, nat_eq}
use hpfeeds.Python.Result.{Error, Result, err, type_error, is_clean}
use hpfeeds.Python.Exec.{gets, lift, for_each, try, ◌>>=◌, ◌>>◌}
use hpfeeds.Python.Struct.{Bytes}
use hpfeeds.Python.Values.{Text, Library, text, bytes}
use hpfeeds.Wire.Message.{msgpublish}
use hpfeeds.Broker.State.{
  Env, M, client_send_buffer_fill, receive_publish_count, receive_publish_size, self, record_metric,
  write, close,
}
use hpfeeds.Broker.Lifecycle.{is_closing, lost}

-- msgpublish(source.ak, chan, data): None has no length.
unfoldable pub event : Library → Option Text → Text → Bytes → Result Bytes
event lib none chan payload = err type_error
event lib (some ak) chan payload = msgpublish lib (text ak) (text chan) (bytes payload)

-- `except Exception`: what the model calls running out of fuel is no exception.
abbrev pub any_exception : Error → Bool
any_exception = is_clean

module _ (env : Env) where
  -- dest.publish(source.ak, chan, data)
  unfoldable pub send_event : ℕ → ℕ → Text → Bytes → M (Unit {0})
  send_event source dest chan payload = do
    ak ← self source (λ x. x.ak)
    m ← lift (event env.lib ak chan payload)
    write dest m

  -- The body of the loop over the subscribers.
  unfoldable pub publish_to : ℕ → Text → Bytes → ℕ → M (Unit {0})
  publish_to source chan payload dest = do
    ak ← self dest (λ x. x.ak)
    record_metric (client_send_buffer_fill ak (length payload))
    closing ← is_closing dest
    if closing
        then lost env dest
        else try any_exception (send_event source dest chan payload) (close dest)

  unfoldable pub publish : ℕ → Text → Bytes → M (Unit {0})
  publish source chan payload = do
    ak ← self source (λ x. x.ak)
    record_metric (receive_publish_count ak chan)
    record_metric (receive_publish_size ak chan (length payload))
    dests ← gets (λ b. b.subscriptions chan)
    for_each (env.conn_order (to_set dests)) (publish_to source chan payload)
