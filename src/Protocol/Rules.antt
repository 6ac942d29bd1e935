-- ===== src/Protocol/Rules.antt =====
-- What the loop over the messages keeps, if every message keeps it.
use hpfeeds.Prelude.{ℕ, zero, suc, ◌≡◌, true, Option, none, some}
use hpfeeds.Python.Result.{Error, Result, ok, err, stop_iteration, is_protocol_exception}
use hpfeeds.Python.Exec.{modify}
use hpfeeds.Python.Exec.Keeps.{
  Keeps, Outcome, Keeps-raise, Keeps-pure, Keeps-bind, Keeps-gets, Keeps-try,
}
use hpfeeds.Python.Exec.{Exec}
use hpfeeds.Python.Struct.{Bytes}
use hpfeeds.Python.Values.{Library}
use hpfeeds.Wire.Unpacker.{Unpacker, Message, unpack}
use hpfeeds.Protocol.{Handlers, message_received, next, round, message_loop, data_received}

module _ {S : Type 0} (lib : Library) (h : Handlers S) {P : S → Type 0} {E : Error → S → Type 0}
    (raises : (e : Error) (s : S) → P s → E e s)
    (puts : (f : S → Unpacker) → Keeps P E (modify (λ s. h.set_unpacker (f s) s)))
    (handles : (opcode : ℕ) (payload : Bytes) → Keeps P E (message_received lib h opcode payload))
    (drops : (e : Error) (t : S)
      → is_protocol_exception e ≡ true
      → E e t
      → Outcome P E (h.drop_connection t)) where
  next-Keeps : (r : Result (Message × Unpacker)) → Keeps P E (next lib h r)
  unfolding next
  next-Keeps (ok (m, u)) = Keeps-bind _ _ (puts (λ s. u)) (λ _. Keeps-pure (some m))
  next-Keeps (err stop_iteration) = Keeps-pure none
  next-Keeps (err e) = Keeps-raise _ (raises _)

  round-Keeps :
      (loop : Exec S (Unit {0})) (m : Option Message)
      → Keeps P E loop
      → Keeps P E (round lib h loop m)
  unfolding round
  round-Keeps loop none k = Keeps-pure tt
  round-Keeps loop (some (opcode, payload)) k = Keeps-bind _ _ (handles opcode payload) (λ _. k)

  message_loop-Keeps : (fuel : ℕ) → Keeps P E (message_loop lib h fuel)
  unfolding message_loop
  message_loop-Keeps zero = Keeps-raise _ (raises _)
  message_loop-Keeps (suc fuel) =
      Keeps-bind _ _ (Keeps-gets _)
        λ u. Keeps-bind _ _ (next-Keeps (unpack u)) λ m. round-Keeps _ m (message_loop-Keeps fuel)

  -- Where every message keeps an invariant, so does a chunk of bytes.
  pub data_received-Keeps : (fuel : ℕ) (chunk : Bytes) → Keeps P E (data_received lib h fuel chunk)
  unfolding data_received
  data_received-Keeps fuel chunk =
      Keeps-bind _ _ (puts _) (λ _. Keeps-try _ _ _ (message_loop-Keeps fuel) drops)
