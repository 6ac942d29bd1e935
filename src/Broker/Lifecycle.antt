-- ===== src/Broker/Lifecycle.antt =====
-- hpfeeds/broker/connection.py: a connection is made and lost, and backpressure starts and ends;
-- hpfeeds/asyncio/protocol.py: error and info.
pub mod Effects
use hpfeeds.Prelude.{
  ℕ, List, [], ◌∷◌, Bool, true, false, not, Option, none, some, if◌then◌else◌, contains, add,
  discard, nat_eq,
}
use hpfeeds.Python.Exec.{pure, when, gets, modify, lift, for_each, ◌>>=◌, ◌>>◌}
use hpfeeds.Python.Struct.{Bytes}
use hpfeeds.Python.Values.{Text, text, bytes, codes}
use hpfeeds.Wire.Message.{msgerror, msginfo}
use hpfeeds.Broker.State.{
  Broker, Conn, Env, M, client_connections_inc, client_connections_dec, connection_made,
  connection_lost, connection_error, deadline_timer_expired, client_send_buffer_deadline_start,
  client_send_buffer_deadline_recover, self, assign, record_metric, server, write, close, new_conn,
}
use hpfeeds.Broker.Subscriptions.{unsubscribe}

-- Connection.is_closing
unfoldable pub is_closing : ℕ → M Bool
is_closing c = self c (λ x. x.transport.closing)

abbrev set_connections : (List ℕ → List ℕ) → M (Unit {0})
set_connections f = modify (λ b. record b { connections = f b.connections })

-- Connection.pause_writing
unfoldable pub pause_writing : ℕ → M (Unit {0})
pause_writing c = do
  ak ← self c (λ x. x.ak)
  record_metric (client_send_buffer_deadline_start ak)
  assign c (λ x. record x { timer = true })

-- Connection.resume_writing
unfoldable pub resume_writing : ℕ → M (Unit {0})
resume_writing c = do
  timer ← self c (λ x. x.timer)
  when timer (do
    ak ← self c (λ x. x.ak)
    record_metric (client_send_buffer_deadline_recover ak)
    assign c (λ x. record x { timer = false }))

module _ (env : Env) where
  -- BaseProtocol.error
  unfoldable pub error : ℕ → Text → M (Unit {0})
  error c reason = do m ← lift (msgerror env.lib (text reason)); write c m

  -- BaseProtocol.info
  unfoldable pub info : ℕ → Text → Bytes → M (Unit {0})
  info c name rand = do m ← lift (msginfo env.lib (text name) (bytes rand)); write c m

  -- Connection.connection_made. The keep-alive options of the socket are left out, and so are peer and
  -- port, which only __str__ reads: the server opens AF_INET sockets, whose peer's name is a pair.
  unfoldable pub made : ℕ → M (Unit {0})
  made c = do
    record_metric client_connections_inc
    record_metric connection_made
    server c
    set_connections (add c)
    rand ← self c (λ x. x.authrand)
    server c
    info c env.name rand

  -- Connection.connection_lost
  unfoldable pub lost : ℕ → M (Unit {0})
  lost c = do
    server c
    connections ← gets (λ b. b.connections)
    if not (contains c connections) then pure tt else do
      record_metric client_connections_dec
      ak ← self c (λ x. x.ak)
      record_metric (connection_lost ak)
      active ← self c (λ x. x.active)
      for_each (env.chan_order active) (unsubscribe c)
      set_connections (discard c)
      assign c (λ x. record x { attached = false })

  -- The body of `deadline_timer` after its 60 seconds.
  unfoldable pub deadline_expired : ℕ → M (Unit {0})
  deadline_expired c = do
    ak ← self c (λ x. x.ak)
    record_metric (connection_error ak deadline_timer_expired)
    error c (codes "Backpressure deadline timer expired")
    close c
