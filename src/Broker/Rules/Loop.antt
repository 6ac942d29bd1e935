-- ===== src/Broker/Rules/Loop.antt =====
-- What the loop over the messages keeps, if every message keeps it.
use hpfeeds.Prelude.{ℕ, zero, suc, ◌≡◌, refl, [], ◌∷◌, true, Option, none, some, arith}
use hpfeeds.Python.Result.{
  Error, Result, ok, err, is_clean, is_protocol_exception, out_of_fuel, stop_iteration,
}
use hpfeeds.Python.Exec.Keeps.{Keeps, keeps_rules, Keeps-pure, Keeps-try, Keeps-bind, Keeps-raise}
use hpfeeds.Python.Struct.{Bytes}
use hpfeeds.Python.Values.{Text}
use hpfeeds.Wire.Unpacker.{Unpacker, Message, unpack}
use hpfeeds.Broker.State.{Broker, Conn, Env, Row, found, now, M, assign, close}
use hpfeeds.Broker.Loop.{
  meter_fill, next, round, guarded, pending_loop, process_pending, data_received,
}
use hpfeeds.Broker.Rules.{Stable, Keeps-self, Keeps-message_received}

protocol-clean : (e : Error) → is_protocol_exception e ≡ true → is_clean e ≡ true
protocol-clean e h = ground arith

module _ (env : Env) {P : Broker → Type 0} {E : Error → Broker → Type 0} {G : Text → Row → Type 0}
    (st : Stable env P E G)
    (granted : (ident : Text) (row : Row)
      → env.get_authkey ident ≡ now (found (some row))
      → G ident row) where
  open st use {recovered, at_close, at_metric}

  -- The loop, guarded, keeps what it keeps without the guard.
  pub Keeps-guarded : (c : ℕ) (loop : M (Unit {0})) → Keeps P E loop → Keeps P E (guarded c loop)
  unfolding guarded
  Keeps-guarded c loop k =
      Keeps-try is_protocol_exception loop (close c) k
        (λ e t h o. (at_close c).at t (recovered e (protocol-clean e h) t o))

  pub Keeps-round :
      (pending loop : M (Unit {0})) (c : ℕ) (m : Option Message)
      → Keeps P E pending
      → Keeps P E loop
      → Keeps P E (round env pending loop c m)
  unfolding round
  Keeps-round pending loop c none kp kl = Keeps-pure tt
  Keeps-round pending loop c (some (opcode, payload)) kp kl =
      search (keeps_rules, Keeps-message_received env st granted)

  module _
      (at_unpacker : (c : ℕ) (f : Conn → Unpacker)
        → Keeps P E (assign c (λ x. record x { unpacker = f x })))
      (at_raise : (e : Error) (b : Broker) → P b → E e b) where
    Keeps-next : (c : ℕ) (r : Result (Message × Unpacker)) → Keeps P E (next c r)
    unfolding next
    Keeps-next c (ok (m, u)) = search (keeps_rules, at_unpacker)
    Keeps-next c (err stop_iteration) = Keeps-pure none
    Keeps-next c (err e) = Keeps-raise _ (at_raise _)

    pub Keeps-pending_loop : (fuel c : ℕ) → Keeps P E (pending_loop env fuel c)
    unfolding pending_loop
    Keeps-pending_loop zero c = Keeps-raise out_of_fuel (at_raise out_of_fuel)
    Keeps-pending_loop (suc fuel) c =
        let ih = Keeps-pending_loop fuel c in
        Keeps-bind _ _ (Keeps-self env st c _) λ u.
          Keeps-bind _ _ (Keeps-next c (unpack u))
            λ m. Keeps-round _ _ c m (Keeps-guarded c _ ih) ih

    pub Keeps-process_pending : (fuel c : ℕ) → Keeps P E (process_pending env fuel c)
    unfolding process_pending
    Keeps-process_pending fuel c = Keeps-guarded c _ (Keeps-pending_loop fuel c)

    Keeps-meter_fill : (c : ℕ) (ak : Option Text) (n : ℕ) → Keeps P E (meter_fill c ak n)
    Keeps-meter_fill c none n = Keeps-pure tt
    Keeps-meter_fill c (some []) n = Keeps-pure tt
    Keeps-meter_fill c (some (t ∷ ts)) n = at_metric _ refl

    pub Keeps-data_received :
        (fuel c : ℕ) (chunk : Bytes) → Keeps P E (data_received env fuel c chunk)
    unfolding data_received
    Keeps-data_received fuel c chunk =
        search
          (keeps_rules, Keeps-self env st, Keeps-meter_fill, at_unpacker, Keeps-process_pending)
