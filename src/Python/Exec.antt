-- ===== src/Python/Exec.antt =====
-- Methods that change objects and may raise. What was written before an exception stays written, so
-- the state comes back beside the exception too.
pub mod Keeps
pub mod Bind
pub mod Simulates
use hpfeeds.Prelude.{◌≡◌, Bool, true, false, List, [], ◌∷◌, if◌then◌else◌}
use hpfeeds.Python.Result.{Error, Result, ok, err, is_protocol_exception}

abbrev pub Exec {ℓ} : Type ℓ → Type ℓ → Type ℓ
Exec S A = S → Result A × S

module _ {ℓ} {S A : Type ℓ} where
  -- An attribute is read.
  unfoldable pub gets : (S → A) → Exec S A
  gets attribute t = (ok (attribute t), t)

  -- A call that changes nothing and may raise.
  unfoldable pub lift : Result A → Exec S A
  lift result t = (result, t)

  unfoldable pub raise : Error → Exec S A
  raise x t = (err x, t)

  unfoldable pub pure : A → Exec S A
  pure a t = (ok a, t)

module _ {ℓ} {S A B : Type ℓ} where
  abbrev pub continue : Result A → (A → Exec S B) → Exec S B
  continue (err x) rest t = (err x, t)
  continue (ok a) rest t = rest a t

  -- One statement after another.
  infixl 10 ◌>>=◌ ◌>>◌
  unfoldable pub ◌>>=◌ : Exec S A → (A → Exec S B) → Exec S B
  unfolding gets lift raise pure
  ◌>>=◌ m rest t = let (r, t') = m t in continue r rest t'

  abbrev pub ◌>>◌ : Exec S A → Exec S B → Exec S B
  m >> n = m >>= λ _. n

module _ {S : Type 0} where
  -- An assignment.
  unfoldable pub modify : (S → S) → Exec S (Unit {0})
  modify f s = (ok tt, f s)

  -- if b: m
  abbrev pub when : Bool → Exec S (Unit {0}) → Exec S (Unit {0})
  when b m = if b then m else pure tt

  -- for x in xs: …
  unfoldable pub for_each : {A : Type 0} → List A → (A → Exec S (Unit {0})) → Exec S (Unit {0})
  unfolding pure ◌>>=◌
  for_each [] f = pure tt
  for_each (x ∷ xs) f = f x >> for_each xs f

  abbrev pub handled : Bool → Error → Exec S (Unit {0}) → Exec S (Unit {0})
  handled true e h s = h s
  handled false e h s = (err e, s)

  abbrev pub after_try : (Error → Bool) → Exec S (Unit {0}) → Result (Unit {0}) → Exec S (Unit {0})
  after_try caught h (ok a) s = (ok a, s)
  after_try caught h (err e) s = handled (caught e) e h s

  -- try: m, with a handler of the exceptions that `caught` picks
  unfoldable pub try : (Error → Bool) → Exec S (Unit {0}) → Exec S (Unit {0}) → Exec S (Unit {0})
  try caught m h s = let (r, s') = m s in after_try caught h r s'
