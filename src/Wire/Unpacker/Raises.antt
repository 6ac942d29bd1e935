-- ===== src/Wire/Unpacker/Raises.antt =====
-- hpfeeds/protocol.py: the exceptions of the parser are those of `ready` and of struct.
use hpfeeds.Prelude.{ℕ, ◌≡◌, Bool, true, false, arith, inl, inr, if◌then◌else◌, ℤ, take}
use hpfeeds.Python.Result.{Error, Result, ok, err, is_feed_exception, is_clean, ◌>>=◌}
use hpfeeds.Python.Struct.{Bytes, unpack_header, unpack_header-cases}
use hpfeeds.Wire.Unpacker.{Unpacker, unpack, ready, pop, check}

-- It is no FeedException, nor the model's mark of a loop that would go on.
abbrev Unfed : {A : Type 0} → Result A → Type 0
Unfed r = (e : Error) → r ≡ err e → (is_feed_exception e ≡ false) × (is_clean e ≡ true)

Unfed-bind :
    {A B : Type 0} (r : Result A) (f : A → Result B)
    → Unfed r
    → ((a : A) → Unfed (f a))
    → Unfed (r >>= f)
Unfed-bind (ok a) f u v e h = v a e h
Unfed-bind (err x) f u v e h = u e (cc)

Unfed-ok : {A : Type 0} (a : A) → Unfed (ok a)
Unfed-ok a e h = absurd (cc)

Unfed-if : {A : Type 0} (b : Bool) (m n : Result A) → Unfed m → Unfed n → Unfed (if b then m else n)
Unfed-if true m n u v = u
Unfed-if false m n u v = v

unpack_header-Unfed : (x : Bytes) → Unfed (unpack_header x)
unpack_header-Unfed x e h = elim (unpack_header-cases x) [
  | inl p ↦ ground (arith, p, h)
  | inr (a, p) ↦ ground (arith, p, h)
]

check-Unfed : (buf : Bytes) (h : ℤ × ℕ) → Unfed (check buf h)
unfolding check
check-Unfed buf h e p = ground arith

ready-Unfed : (u : Unpacker) → Unfed (ready u)
unfolding ready
ready-Unfed u = Unfed-if _ _ _ (Unfed-ok false) (
    Unfed-bind (unpack_header (take 5 u.buf)) (check u.buf) (unpack_header-Unfed _)
      (check-Unfed u.buf))

pop-Unfed : (u : Unpacker) → Unfed (pop u)
unfolding pop
pop-Unfed u = Unfed-bind (unpack_header (take 5 u.buf)) _ (unpack_header-Unfed _) (λ a. Unfed-ok _)

pub unpack-Unfed :
    (u : Unpacker) (e : Error)
    → unpack u ≡ err e
    → (is_feed_exception e ≡ false) × (is_clean e ≡ true)
unfolding unpack
unpack-Unfed u =
    Unfed-bind (ready u) _ (ready-Unfed u) (λ r. Unfed-if r _ _ (pop-Unfed u) (λ e h. ground arith))
