-- ===== src/Protocol.antt =====
-- hpfeeds/blocking/protocol.py and hpfeeds/twisted/protocol.py, class BaseProtocol of each: how a
-- chunk becomes calls of the handlers. The two differ in names alone.
pub mod Stream
pub mod Ends
pub mod Rules
pub mod Tests
use hpfeeds.Prelude.{
  ℕ, zero, suc, ◌==◌, ◌≡◌, List, [], ◌∷◌, Bool, true, false, Option, none, some, if◌then◌else◌,
}
use hpfeeds.Python.Result.{Result, ok, err, is_protocol_exception, out_of_fuel, stop_iteration}
use hpfeeds.Python.Exec.{Exec, pure, raise, lift, gets, modify, try, ◌>>=◌, ◌>>◌}
use hpfeeds.Python.Struct.{Bytes}
use hpfeeds.Python.Values.{Text, Library}
use hpfeeds.Wire.Opcode.{op_error, op_info, op_auth, op_publish, op_subscribe, op_unsubscribe}
use hpfeeds.Wire.Message.{
  readerror, readinfo, readauth, readpublish, readsubscribe, readunsubscribe,
}
use hpfeeds.Wire.Unpacker.{Unpacker, Message, feed, unpack}

-- What a protocol class does with each message, in a state that holds its parser.
pub record Handlers (S : Type 0) : Type 0 where
  pub on_error : Text → Exec S (Unit {0})
  pub on_info : Text → Bytes → Exec S (Unit {0})
  pub on_auth : Text → Bytes → Exec S (Unit {0})
  pub on_publish : Text → Text → Bytes → Exec S (Unit {0})
  pub on_subscribe : Text → Text → Exec S (Unit {0})
  pub on_unsubscribe : Text → Text → Exec S (Unit {0})
  -- the connection is dropped, after `protocol_error`
  pub drop_connection : Exec S (Unit {0})
  pub unpacker : S → Unpacker
  pub set_unpacker : Unpacker → S → S

module _ {S : Type 0} (lib : Library) (h : Handlers S) where
  -- message_received
  unfoldable pub message_received : ℕ → Bytes → Exec S (Unit {0})
  message_received opcode payload =
      if opcode == op_error
      then (do reason ← lift (readerror lib payload); h.on_error reason)
      else if opcode == op_info
      then (do (name, rand) ← lift (readinfo lib payload); h.on_info name rand)
      else if opcode == op_auth
      then (do (ident, secret) ← lift (readauth lib payload); h.on_auth ident secret)
      else if opcode == op_publish
      then (do (ident, chan, event) ← lift (readpublish lib payload); h.on_publish ident chan event)
      else if opcode == op_subscribe
      then (do (ident, chan) ← lift (readsubscribe lib payload); h.on_subscribe ident chan)
      else if opcode == op_unsubscribe
      then (do (ident, chan) ← lift (readunsubscribe lib payload); h.on_unsubscribe ident chan)
      else h.drop_connection

  unfoldable pub next : Result (Message × Unpacker) → Exec S (Option Message)
  next (ok (m, u)) = do modify (h.set_unpacker u); pure (some m)
  next (err stop_iteration) = pure none
  next (err e) = raise e

  unfoldable pub round : Exec S (Unit {0}) → Option Message → Exec S (Unit {0})
  round loop none = pure tt
  round loop (some (opcode, payload)) = do message_received opcode payload; loop

  -- for opcode, data in self.unpacker: self.message_received(opcode, data)
  unfoldable pub message_loop : ℕ → Exec S (Unit {0})
  message_loop zero = raise out_of_fuel
  message_loop (suc fuel) = do u ← gets h.unpacker; m ← next (unpack u); round (message_loop fuel) m

  -- data_received
  unfoldable pub data_received : ℕ → Bytes → Exec S (Unit {0})
  data_received fuel chunk = do
    modify (λ s. h.set_unpacker (feed chunk (h.unpacker s)) s)
    try is_protocol_exception (message_loop fuel) h.drop_connection
