-- ===== src/Broker/Ends/Run.antt =====
-- hpfeeds/asyncio/protocol.py: on the broker, the loop over the messages of a chunk comes to an end.
use hpfeeds.Prelude.{
  ℕ, zero, suc, ◌+◌, ◌≤◌, ◌<◌, ◌≡◌, refl, sym, ap, ◌∙◌, [], arith, length, length-append, inl, inr,
  nat_eq, list_eq,
}
use mathlib.Core.Path.{subst}
use hpfeeds.Python.Result.{Result, ok, err, out_of_fuel, Result-cases}
use hpfeeds.Python.Exec.Keeps.{Keeps, Outcome, Keeps-raise}
use hpfeeds.Python.Struct.{Bytes}
use hpfeeds.Wire.Unpacker.{Unpacker, feed, unpack}
use hpfeeds.Wire.Unpacker.Bounds.{IsStuck, unpack-cases}
use hpfeeds.Broker.State.{Broker, Env}
use hpfeeds.Broker.Loop.{pending_loop, data_received}
use hpfeeds.Broker.Rules.Loop.{Keeps-guarded}
use hpfeeds.Broker.Forwards.{moved, moved-Forwarded, Forwarded-unpacker}
use hpfeeds.Broker.Ends.{Holds, Left, Stable-Holds, round-Holds, last_Holds}
use hpfeeds.Broker.Forwards.Chunks.{data_received_lem}

-- The parser is the one that is stuck.
stuck-Keeps :
    (env : Env) (c : ℕ) (u : Unpacker)
    → IsStuck u
    → (fuel : ℕ)
    → Keeps (Holds env c (λ v. v ≡ u)) (Left env c (λ v. v ≡ u)) (pending_loop env fuel c)
unfolding pending_loop
stuck-Keeps env c u (m, e) zero =
    Keeps-raise out_of_fuel (λ b p. (p, λ q. subst IsStuck (sym p) (m, e)))
stuck-Keeps env c u (m, e) (suc fuel) = record {
  at = λ b p.
      round-Holds env c (λ v. v ≡ u) fuel m u b (ap unpack p ∙ e) (stuck-Keeps env c u (m, e) fuel)
        refl;
}

-- What holds of a shorter buffer, or of a stuck parser, holds of a longer one.
weaker :
    (env : Env) (c : ℕ) (R S : Unpacker → Type 0) (o : Result (Unit {0}) × Broker)
    → ((u : Unpacker) → R u → S u)
    → Outcome (Holds env c R) (Left env c R) o
    → Outcome (Holds env c S) (Left env c S) o
weaker env c R S (ok a, b) f h = f _ h
weaker env c R S (err e, b) f h = (f _ h.0, h.1)

abbrev Within : ℕ → Unpacker → Type 0
Within n u = length u.buf ≤ n

loop-step :
    (env : Env) (c fuel n : ℕ) (b : Broker)
    → ((k : ℕ)
        → k < fuel
        → Keeps (Holds env c (Within k)) (Left env c (Within k)) (pending_loop env fuel c))
    → n < suc fuel
    → length (b.conns c).unpacker.buf ≤ n
    → Outcome (Holds env c (Within n)) (Left env c (Within n)) (pending_loop env (suc fuel) c b)
loop-step env c fuel n b ih l p = elim (Result-cases (unpack (b.conns c).unpacker)) [
  | inr (x, e) ↦ last_Holds env c (Within n) fuel x b e p
  | inl ((m, v), e) ↦ elim (unpack-cases (b.conns c).unpacker v m e) [
    | inl shorter ↦
        weaker env c (Within (length v.buf)) (Within n) _ (λ u h. omega (arith, h, shorter, p))
          (round-Holds env c (Within (length v.buf)) fuel m v b e
            (ih (length v.buf) (omega (arith, shorter, p, l))) (omega arith))
    | inr same ↦
        let stuck : IsStuck v = (m, subst (λ w. unpack w ≡ ok (m, v)) (sym same) e) in
        weaker env c (λ w. w ≡ v) (Within n) _
          (λ u h. omega (arith, ap (λ w. length w.buf) (h ∙ same), p))
          (round-Holds env c (λ w. w ≡ v) fuel m v b e (stuck-Keeps env c v stuck fuel) refl)
  ]
]

-- On a buffer that is no longer than the fuel allows, the loop makes it no longer, and runs out of
-- fuel only on a parser that is stuck.
loop-Keeps :
    (env : Env) (c fuel n : ℕ)
    → n < fuel
    → Keeps (Holds env c (Within n)) (Left env c (Within n)) (pending_loop env fuel c)
loop-Keeps env c zero n l = absurd (omega (arith, l))
loop-Keeps env c (suc fuel) n l = record {
  at = λ b p. loop-step env c fuel n b (loop-Keeps env c fuel) l p;
}

Outcome-IsStuck :
    (env : Env) (c n : ℕ) (o : Result (Unit {0}) × Broker)
    → Outcome (Holds env c (Within n)) (Left env c (Within n)) o
    → o.0 ≡ err out_of_fuel
    → IsStuck (o.1.conns c).unpacker
Outcome-IsStuck env c n (ok a, b) h e = absurd (cc)
Outcome-IsStuck env c n (err x, b) h e = h.1 (cc)

fed_short : (chunk : Bytes) (u : Unpacker) → length (feed chunk u).buf ≤ length u.buf + length chunk
unfolding feed
fed_short chunk u = rw (length-append u.buf chunk) (omega arith)

-- The loop over the messages of a chunk ends on the broker too, whatever the handlers do, the loop
-- that authenticate starts inside included: with more fuel than the connection's parser has bytes,
-- it runs out of fuel only where the parser has come to a message that leaves the buffer as it is.
pub data_received-IsStuck :
    (env : Env) (fuel c : ℕ) (chunk : Bytes) (b : Broker)
    → length (b.conns c).unpacker.buf + length chunk < fuel
    → (data_received env fuel c chunk b).0 ≡ err out_of_fuel
    → IsStuck ((data_received env fuel c chunk b).1.conns c).unpacker
data_received-IsStuck env fuel c chunk b l =
    let n = length (b.conns c).unpacker.buf + length chunk in
    let (ms, e) = data_received_lem env c fuel chunk b in
    let v = feed chunk (b.conns c).unpacker in
    let start : Broker = record b { metrics = ms } in
    let runs =
      Keeps-guarded env (Stable-Holds env c (Within n)) (λ i row g. tt) c (pending_loop env fuel c)
        (loop-Keeps env c fuel n l) in
    Outcome-IsStuck env c n (data_received env fuel c chunk b) (
      rw e (
        runs.at (moved c v start) (
          subst (Within n) (sym (Forwarded-unpacker c v [] start _ (moved-Forwarded c v start)))
            (fed_short chunk (b.conns c).unpacker))))
