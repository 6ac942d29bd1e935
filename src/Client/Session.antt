-- ===== src/Client/Session.antt =====
-- hpfeeds/asyncio/client.py: the session, the protocol object of its current connection, and the
-- calls on them. A session is not shared, so its state is one record.
use hpfeeds.Prelude.{
  ℕ, zero, suc, ◌==◌, ◌≡◌, List, [], ◌∷◌, ◌++◌, Bool, true, false, not, Option, none, some,
  if◌then◌else◌, contains, add, discard, list_eq,
}
use hpfeeds.Python.Result.{
  Result, ok, err, is_protocol_exception, invalid_state, runtime_error, not_implemented,
  out_of_fuel, stop_iteration,
}
use hpfeeds.Python.Exec.{Exec, pure, raise, lift, gets, modify, when, for_each, try, ◌>>=◌, ◌>>◌}
use hpfeeds.Python.Struct.{Bytes}
use hpfeeds.Python.Values.{Text, Library, text, bytes}
use hpfeeds.Wire.Opcode.{op_error, op_info, op_auth, op_publish, op_subscribe, op_unsubscribe}
use hpfeeds.Wire.Message.{
  msgauth, msgpublish, msgsubscribe, msgunsubscribe, readerror, readinfo, readauth, readpublish,
  readsubscribe, readunsubscribe,
}
use hpfeeds.Wire.Unpacker.{Unpacker, Message, empty, feed, unpack}

-- What a client writes: `packet` gives the bytes of it.
pub data Packet : Type 0 where
  authenticates : Bytes → Packet
  publishes : Text → Bytes → Packet
  subscribes unsubscribes : Text → Packet

-- What the session runs on: Python's library, the ident and the secret, and the order in which a
-- set is iterated.
pub record Config : Type 0 where
  pub lib : Library
  pub ident : Text
  pub secret : Text
  pub order : List Text → List Text
  pub contains-order : (t : Text) (ts : List Text) → contains t (order ts) ≡ contains t ts

pub record Session : Type 0 where
  pub subscriptions : List Text
  pub read_queue : List (Text × Text × Bytes)
  -- `self.protocol is not None`
  pub connected : Bool
  -- whether the futures are done
  pub when_connected : Bool
  pub when_closed : Bool
  pub closing : Bool
  -- the protocol object of the current connection
  pub unpacker : Unpacker
  pub written : List Packet
  pub hung_up : Bool

abbrev pub M : Type 0 → Type 0
M A = Exec Session A

-- ClientSession.__init__, up to the first attempt to connect.
abbrev pub opened : Session
opened = record {
  subscriptions = [];
  read_queue = [];
  connected = false;
  when_connected = false;
  when_closed = false;
  closing = false;
  unpacker = empty;
  written = [];
  hung_up = false;
}

-- self.transport.close()
unfoldable pub hang_up : M (Unit {0})
hang_up = modify (λ s. record s { hung_up = true })

module _ (cfg : Config) where
  unfoldable pub packet : Packet → Result Bytes
  packet (authenticates rand) = msgauth cfg.lib rand (text cfg.ident) cfg.secret
  packet (publishes chan payload) = msgpublish cfg.lib (text cfg.ident) (text chan) (bytes payload)
  packet (subscribes chan) = msgsubscribe cfg.lib (text cfg.ident) (text chan)
  packet (unsubscribes chan) = msgunsubscribe cfg.lib (text cfg.ident) (text chan)

  -- BaseProtocol.auth, publish, subscribe, unsubscribe: self.transport.write(msg…(…))
  unfoldable pub send : Packet → M (Unit {0})
  send p = do m ← lift (packet p); modify (λ s. record s { written = s.written ++ p ∷ [] })

  -- ClientProtocol.error and info
  unfoldable pub send_forbidden : M (Unit {0})
  send_forbidden = raise runtime_error

  -- self.client.when_connected.set_result(None)
  unfoldable pub fire_connected : M (Unit {0})
  fire_connected = do
    done ← gets (λ s. s.when_connected)
    if done then raise invalid_state else modify (λ s. record s { when_connected = true })

  -- _Protocol.connection_ready
  unfoldable pub connection_ready : M (Unit {0})
  connection_ready = do
    modify (λ s. record s { connected = true })
    topics ← gets (λ s. s.subscriptions)
    for_each (cfg.order topics) (λ topic. send (subscribes topic))
    fire_connected

  -- ClientProtocol.on_info
  unfoldable pub on_info : Text → Bytes → M (Unit {0})
  on_info name rand = do send (authenticates rand); connection_ready

  -- _Protocol.on_publish
  unfoldable pub on_publish : Text → Text → Bytes → M (Unit {0})
  on_publish ident chan payload =
      modify (λ s. record s { read_queue = s.read_queue ++ (ident, chan, payload) ∷ [] })

  -- ClientProtocol.on_auth, on_subscribe, on_unsubscribe
  unfoldable pub on_unexpected : M (Unit {0})
  on_unexpected = hang_up

  -- A handler returns None, so the loop goes on.
  abbrev handled_by : M (Unit {0}) → M Bool
  handled_by handler = do handler; pure false

  -- BaseProtocol.message_received. A client has no on_error. The result says whether the loop stops.
  unfoldable pub message_received : ℕ → Bytes → M Bool
  message_received opcode payload =
      if opcode == op_error
      then (do reason ← lift (readerror cfg.lib payload); raise not_implemented)
      else if opcode == op_info
      then (do (name, rand) ← lift (readinfo cfg.lib payload); handled_by (on_info name rand))
      else if opcode == op_auth
      then (do fields ← lift (readauth cfg.lib payload); handled_by on_unexpected)
      else if opcode == op_publish
      then (do
        (ident, chan, event) ← lift (readpublish cfg.lib payload)
        handled_by (on_publish ident chan event))
      else if opcode == op_subscribe
      then (do fields ← lift (readsubscribe cfg.lib payload); handled_by on_unexpected)
      else if opcode == op_unsubscribe
      then (do fields ← lift (readunsubscribe cfg.lib payload); handled_by on_unexpected)
      else (do hang_up; pure true)

  unfoldable pub next : Result (Message × Unpacker) → M (Option Message)
  next (ok (m, u)) = do modify (λ s. record s { unpacker = u }); pure (some m)
  next (err stop_iteration) = pure none
  next (err e) = raise e

  unfoldable pub round : M (Unit {0}) → Option Message → M (Unit {0})
  round loop none = pure tt
  round loop (some (opcode, payload)) = do
    stop ← message_received opcode payload
    when (not stop) loop

  -- for opcode, data in self.unpacker: …
  unfoldable pub pending_loop : ℕ → M (Unit {0})
  pending_loop zero = raise out_of_fuel
  pending_loop (suc fuel) = do
    u ← gets (λ s. s.unpacker)
    m ← next (unpack u)
    round (pending_loop fuel) m

  -- BaseProtocol.data_received
  unfoldable pub data_received : ℕ → Bytes → M (Unit {0})
  data_received fuel chunk = do
    modify (λ s. record s { unpacker = feed chunk s.unpacker })
    try is_protocol_exception (pending_loop fuel) hang_up

  -- _Protocol.connection_lost
  unfoldable pub connection_lost : M (Unit {0})
  connection_lost = do
    done ← gets (λ s. s.when_closed)
    if done then raise invalid_state else modify (λ s. record s { when_closed = true })

  -- ClientSession.reconnect, from where `when_closed` fires to where the next connection is made.
  unfoldable pub reconnect : M (Unit {0})
  reconnect = do
    modify (λ s. record s { when_connected = false })
    closing ← gets (λ s. s.closing)
    when (not closing) (
        modify (λ s. record s {
          connected = false;
          when_closed = false;
          unpacker = empty;
          written = [];
          hung_up = false;
        }))

  -- ClientSession.publish
  unfoldable pub publish : Text → Bytes → M (Unit {0})
  publish chan payload = do
    connected ← gets (λ s. s.connected)
    when connected (send (publishes chan payload))

  -- ClientSession.subscribe
  unfoldable pub subscribe : Text → M (Unit {0})
  subscribe topic = do
    topics ← gets (λ s. s.subscriptions)
    when (not (contains topic topics)) (do
      modify (λ s. record s { subscriptions = add topic s.subscriptions })
      connected ← gets (λ s. s.connected)
      when connected (send (subscribes topic)))

  -- ClientSession.unsubscribe
  unfoldable pub unsubscribe : Text → M (Unit {0})
  unsubscribe topic = do
    topics ← gets (λ s. s.subscriptions)
    when (contains topic topics) (do
      modify (λ s. record s { subscriptions = discard topic s.subscriptions })
      connected ← gets (λ s. s.connected)
      when connected (send (unsubscribes topic)))

  -- ClientSession.close, up to its wait for `when_closed`.
  unfoldable pub close : M (Unit {0})
  close = do
    modify (λ s. record s { closing = true })
    connected ← gets (λ s. s.connected)
    when connected hang_up
