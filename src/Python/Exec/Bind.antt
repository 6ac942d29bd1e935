-- ===== src/Python/Exec/Bind.antt =====
-- A statement after one that returned, and the other way round.
use hpfeeds.Prelude.{Bool, true, false, ◌≡◌, refl, ◌⊎◌, inl, inr, ap}
use hpfeeds.Python.Result.{Error, Result, ok, err}
use hpfeeds.Python.Exec.{Exec, continue, after_try, handled, try, ◌>>=◌}

module _ {ℓ} {S A B : Type ℓ} where
  pub bind_of_ok :
      (m : Exec S A) (f : A → Exec S B) (s t : S) (a : A) → m s ≡ (ok a, t) → (m >>= f) s ≡ f a t
  unfolding ◌>>=◌
  bind_of_ok m f s t a e = rw e

  pub bind_of_err :
      (m : Exec S A) (f : A → Exec S B) (s t : S) (x : Error)
      → m s ≡ (err x, t)
      → (m >>= f) s ≡ (err x, t)
  unfolding ◌>>=◌
  bind_of_err m f s t x e = rw e refl

  continue-eq-ok :
      (r : Result A) (f : A → Exec S B) (s u : S) {b : B}
      → continue r f s ≡ (ok b, u)
      → (a : A) × (r ≡ ok a) × (f a s ≡ (ok b, u))
  continue-eq-ok (ok a) f s u e = (a, refl, e)
  continue-eq-ok (err x) f s u e = cc

  pub bind-eq-ok :
      (m : Exec S A) (f : A → Exec S B) (s u : S) {b : B}
      → (m >>= f) s ≡ (ok b, u)
      → (a : A) × (t : S) × (m s ≡ (ok a, t)) × (f a t ≡ (ok b, u))
  unfolding ◌>>=◌
  bind-eq-ok m f s u e = let (a, p, q) = continue-eq-ok (m s).0 f (m s).1 u e in (a, (m s).1, cc, q)

  continue-eq-err :
      (r : Result A) (f : A → Exec S B) (s : S) (x : Error)
      → (continue r f s).0 ≡ err x
      → (r ≡ err x) ⊎ ((a : A) × (r ≡ ok a) × ((f a s).0 ≡ err x))
  continue-eq-err (ok a) f s x e = inr (a, refl, e)
  continue-eq-err (err y) f s x e = inl (cc)

  -- What a sequence raises, the first statement raises, or else the second.
  pub bind-eq-err :
      (m : Exec S A) (f : A → Exec S B) (s : S) (x : Error)
      → ((m >>= f) s).0 ≡ err x
      → ((m s).0 ≡ err x) ⊎ ((a : A) × ((m s).0 ≡ ok a) × ((f a (m s).1).0 ≡ err x))
  unfolding ◌>>=◌
  bind-eq-err m f s x e = continue-eq-err (m s).0 f (m s).1 x e

module _ {S : Type 0} (caught : Error → Bool) (h : Exec S (Unit {0})) where
  handled-eq-err :
      (b : Bool) (e x : Error) (s : S) → (handled b e h s).0 ≡ err x → (e ≡ x) ⊎ ((h s).0 ≡ err x)
  handled-eq-err true e x s p = inr p
  handled-eq-err false e x s p = inl (cc)

  after_try-eq-err :
      (r : Result (Unit {0})) (s : S) (x : Error)
      → (after_try caught h r s).0 ≡ err x
      → (r ≡ err x) ⊎ ((h s).0 ≡ err x)
  after_try-eq-err (ok a) s x p = inl p
  after_try-eq-err (err e) s x p = elim (handled-eq-err (caught e) e x s p) [
    | inl q ↦ inl (cc)
    | inr q ↦ inr q
  ]

  -- What a try raises, its body raises, or else its handler.
  pub try-eq-err :
      (m : Exec S (Unit {0})) (s : S) (x : Error)
      → (try caught m h s).0 ≡ err x
      → ((m s).0 ≡ err x) ⊎ ((h (m s).1).0 ≡ err x)
  unfolding try
  try-eq-err m s x p = after_try-eq-err (m s).0 (m s).1 x p

  handled-eq-ok : (b : Bool) (e : Error) (s t : S) → handled b e h s ≡ (ok tt, t) → h s ≡ (ok tt, t)
  handled-eq-ok true e s t p = p
  handled-eq-ok false e s t p = cc

  after_try-eq-ok :
      (r : Result (Unit {0})) (s t : S)
      → after_try caught h r s ≡ (ok tt, t)
      → ((r ≡ ok tt) × (s ≡ t)) ⊎ (h s ≡ (ok tt, t))
  after_try-eq-ok (ok a) s t p = inl (ap (λ o. o.0) p, ap (λ o. o.1) p)
  after_try-eq-ok (err e) s t p = inr (handled-eq-ok (caught e) e s t p)

  -- A try that returned: its body did, or else the handler.
  pub try-eq-ok :
      (m : Exec S (Unit {0})) (s t : S)
      → try caught m h s ≡ (ok tt, t)
      → (m s ≡ (ok tt, t)) ⊎ (h (m s).1 ≡ (ok tt, t))
  unfolding try
  try-eq-ok m s t p = elim (after_try-eq-ok (m s).0 (m s).1 t p) [
    | inl (q, r) ↦ inl (cc)
    | inr q ↦ inr q
  ]
