-- ===== src/Broker/Loop.antt =====
-- hpfeeds/asyncio/protocol.py: BaseProtocol.process_pending and data_received, on the handlers of
-- the broker's connections. The loop takes fuel: handling a message can start the loop over again
-- inside (Connection.authenticate), and a message can leave the buffer as it was.
use hpfeeds.Prelude.{ℕ, zero, suc, [], ◌∷◌, not, Option, none, some, length}
use hpfeeds.Python.Result.{Result, ok, err, stop_iteration, out_of_fuel, is_protocol_exception}
use hpfeeds.Python.Exec.{pure, raise, when, try, ◌>>=◌, ◌>>◌}
use hpfeeds.Python.Struct.{Bytes}
use hpfeeds.Python.Values.{Text}
use hpfeeds.Wire.Unpacker.{Unpacker, Message, feed, unpack}
use hpfeeds.Broker.State.{Env, M, client_receive_buffer_fill, self, assign, record_metric, close}
use hpfeeds.Broker.Handlers.{message_received}

-- self.ak, where it is neither None nor empty
abbrev pub meter_fill : ℕ → Option Text → ℕ → M (Unit {0})
meter_fill c none n = pure tt
meter_fill c (some []) n = pure tt
meter_fill c (some (t ∷ ts)) n = record_metric (client_receive_buffer_fill (t ∷ ts) n)

-- The next message: None where the iteration ends, and the parser is moved on.
unfoldable pub next : ℕ → Result (Message × Unpacker) → M (Option Message)
next c (ok (m, u)) = do assign c (λ x. record x { unpacker = u }); pure (some m)
next c (err stop_iteration) = pure none
next c (err e) = raise e

-- `try … except ProtocolException` round the loop
unfoldable pub guarded : ℕ → M (Unit {0}) → M (Unit {0})
guarded c loop = try is_protocol_exception loop (close c)

module _ (env : Env) where
  -- The rest of a round, once the next message is there.
  unfoldable pub round : M (Unit {0}) → M (Unit {0}) → ℕ → Option Message → M (Unit {0})
  round pending loop c none = pure tt
  round pending loop c (some (opcode, payload)) = do
    stop ← message_received env pending c opcode payload
    when (not stop) loop

  -- for opcode, data in self.unpacker: …
  unfoldable pub pending_loop : ℕ → ℕ → M (Unit {0})
  pending_loop zero c = raise out_of_fuel
  pending_loop (suc fuel) c = do
    u ← self c (λ x. x.unpacker)
    m ← next c (unpack u)
    round (guarded c (pending_loop fuel c)) (pending_loop fuel c) c m

  unfoldable pub process_pending : ℕ → ℕ → M (Unit {0})
  process_pending fuel c = guarded c (pending_loop fuel c)

  -- Connection.data_received
  unfoldable pub data_received : ℕ → ℕ → Bytes → M (Unit {0})
  data_received fuel c chunk = do
    ak ← self c (λ x. x.ak)
    meter_fill c ak (length chunk)
    assign c (λ x. record x { unpacker = feed chunk x.unpacker })
    process_pending fuel c
