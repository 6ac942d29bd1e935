-- ===== src/Python/Exec/Keeps.antt =====
-- Invariants of actions, one rule for each way to build an action: `P` holds of the state as long
-- as the action goes on, and `E` of an exception and the state in which it is raised.
use hpfeeds.Prelude.{◌≡◌, refl, Bool, true, false, List, [], ◌∷◌, if◌then◌else◌}
use hpfeeds.Python.Result.{Error, Result, ok, err}
use hpfeeds.Python.Exec.{
  Exec, pure, raise, lift, gets, modify, for_each, try, continue, ◌>>=◌, handled, after_try,
}

abbrev pub Outcome {ℓ} :
    {S A : Type ℓ} → (S → Type ℓ) → (Error → S → Type ℓ) → Result A × S → Type ℓ
Outcome P E (ok a, s) = P s
Outcome P E (err e, s) = E e s

pub record Keeps {ℓ} {S A : Type ℓ} (P : S → Type ℓ) (E : Error → S → Type ℓ) (m : Exec S A)
    : Type ℓ where
  pub at : (s : S) → P s → Outcome P E (m s)

module _ {ℓ} {S A : Type ℓ} {P : S → Type ℓ} {E : Error → S → Type ℓ} where
  pub Keeps-gets : (f : S → A) → Keeps P E (gets f)
  unfolding gets
  Keeps-gets f = record { at = λ s h. h }

  pub Keeps-pure : (a : A) → Keeps P E (pure a)
  unfolding pure
  Keeps-pure a = record { at = λ s h. h }

  pub Keeps-raise : (e : Error) → ((s : S) → P s → E e s) → Keeps P E (raise {A = A} e)
  unfolding raise
  Keeps-raise e k = record { at = k }

  pub Keeps-lift :
      (r : Result A) → ((e : Error) → r ≡ err e → (s : S) → P s → E e s) → Keeps P E (lift r)
  unfolding lift
  Keeps-lift (ok a) k = record { at = λ s h. h }
  Keeps-lift (err e) k = record { at = k e refl }

  pub Keeps-if :
      (b : Bool) (m n : Exec S A)
      → (b ≡ true → Keeps P E m)
      → (b ≡ false → Keeps P E n)
      → Keeps P E (if b then m else n)
  Keeps-if true m n km kn = km refl
  Keeps-if false m n km kn = kn refl

module _ {ℓ} {S A B : Type ℓ} {P : S → Type ℓ} {E : Error → S → Type ℓ} where
  -- the rest of the block may use that `r` did not raise
  pub Keeps-bind-lift :
      (r : Result A) (f : A → Exec S B)
      → ((e : Error) → r ≡ err e → (s : S) → P s → E e s)
      → ((a : A) → r ≡ ok a → Keeps P E (f a))
      → Keeps P E (lift r >>= f)
  unfolding ◌>>=◌
  Keeps-bind-lift (ok a) f k kf = record { at = (kf a refl).at }
  Keeps-bind-lift (err e) f k kf = record { at = k e refl }

  pub Outcome-continue :
      (f : A → Exec S B) (r : Result A) (s : S)
      → ((a : A) → Keeps P E (f a))
      → Outcome P E (r, s)
      → Outcome P E (continue r f s)
  Outcome-continue f (ok a) s kf h = (kf a).at s h
  Outcome-continue f (err e) s kf h = h

  pub Keeps-bind :
      (m : Exec S A) (f : A → Exec S B)
      → Keeps P E m
      → ((a : A) → Keeps P E (f a))
      → Keeps P E (m >>= f)
  unfolding ◌>>=◌
  Keeps-bind m f km kf = record { at = λ s h. Outcome-continue f (m s).0 (m s).1 kf (km.at s h) }

-- An action that raises nothing.
pub Outcome-ok {ℓ} :
    {S A : Type ℓ} (P : S → Type ℓ) (E : Error → S → Type ℓ) (o : Result A × S) (a : A)
    → o.0 ≡ ok a
    → P o.1
    → Outcome P E o
Outcome-ok P E (ok a', s) a e p = p
Outcome-ok P E (err e', s) a e p = absurd (cc)

module _ {S : Type 0} (P : S → Type 0) (E : Error → S → Type 0) where
  handled-Keeps :
      (b : Bool) (e : Error) (h : Exec S (Unit {0})) (s : S)
      → (b ≡ true → Outcome P E (h s))
      → E e s
      → Outcome P E (handled b e h s)
  handled-Keeps true e h s kh ke = kh refl
  handled-Keeps false e h s kh ke = ke

  tried :
      (caught : Error → Bool) (h : Exec S (Unit {0})) (r : Result (Unit {0})) (s : S)
      → ((e : Error) (t : S) → caught e ≡ true → E e t → Outcome P E (h t))
      → Outcome P E (r, s)
      → Outcome P E (after_try caught h r s)
  tried caught h (ok a) s k o = o
  tried caught h (err e) s k o = handled-Keeps (caught e) e h s (λ c. k e s c o) o

module _ {S : Type 0} {P : S → Type 0} {E : Error → S → Type 0} where
  pub Keeps-modify : (f : S → S) → ((s : S) → P s → P (f s)) → Keeps P E (modify f)
  unfolding modify
  Keeps-modify f k = record { at = k }

  pub Keeps-for_each :
      {A : Type 0} (xs : List A) (f : A → Exec S (Unit {0}))
      → ((x : A) → Keeps P E (f x))
      → Keeps P E (for_each xs f)
  unfolding for_each
  Keeps-for_each [] f k = Keeps-pure tt
  Keeps-for_each (x ∷ xs) f k =
      Keeps-bind (f x) (λ _. for_each xs f) (k x) (λ _. Keeps-for_each xs f k)

  pub Keeps-try :
      (caught : Error → Bool) (m h : Exec S (Unit {0}))
      → Keeps P E m
      → ((e : Error) (t : S) → caught e ≡ true → E e t → Outcome P E (h t))
      → Keeps P E (try caught m h)
  unfolding try
  Keeps-try caught m h km k = record {
    at = λ s p. tried P E caught h (m s).0 (m s).1 k (km.at s p);
  }

pub ruleset keeps_rules = (
  Keeps-pure, Keeps-raise, Keeps-lift, Keeps-gets, Keeps-modify, Keeps-if, Keeps-bind,
  Keeps-for_each,
)
