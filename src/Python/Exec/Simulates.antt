-- ===== src/Python/Exec/Simulates.antt =====
-- Two programs over different states that do the same, up to the exception for what has fired: a rule for each way to build an action.
use hpfeeds.Prelude.{
  ◌≡◌, refl, Bool, true, false, List, [], ◌∷◌, if◌then◌else◌, ap, sym, ◌∙◌, ◌⊎◌, inl, inr,
}
use mathlib.Core.Path.{subst}
use hpfeeds.Python.Result.{Error, Result, ok, err, already_called, invalid_state}
use hpfeeds.Python.Exec.{
  Exec, pure, raise, lift, gets, modify, for_each, try, continue, ◌>>=◌, handled, after_try,
}

-- The same result, but that the one raises AlreadyCalledError where the other raises InvalidStateError.
abbrev pub Agrees : {A : Type 0} → Result A → Result A → Type 0
Agrees r r' = (r' ≡ r) ⊎ ((r ≡ err already_called) × (r' ≡ err invalid_state))

-- Seen through `f`, the states are the same, and the results agree.
abbrev pub Alike : {S T A : Type 0} → (S → T) → Result A × S → Result A × T → Type 0
Alike f o o' = Agrees o.0 o'.0 × (o'.1 ≡ f o.1)

pub record Simulates {S T : Type 0} (f : S → T) {A : Type 0} (m : Exec S A) (n : Exec T A)
    : Type 0 where
  pub at : (s : S) → Alike f (m s) (n (f s))

module _ {S T : Type 0} (f : S → T) where
  pub pure-Simulates : {A : Type 0} (a : A) → Simulates f (pure a) (pure a)
  unfolding pure
  pure-Simulates a = record { at = λ s. (inl refl, refl) }

  pub raise-Simulates : {A : Type 0} (e : Error) → Simulates f (raise {A = A} e) (raise e)
  unfolding raise
  raise-Simulates e = record { at = λ s. (inl refl, refl) }

  pub fired-Simulates :
      {A : Type 0} → Simulates f (raise {A = A} already_called) (raise invalid_state)
  unfolding raise
  fired-Simulates = record { at = λ s. (inr (refl, refl), refl) }

  pub gets-Simulates :
      {A : Type 0} (p : S → A) (q : T → A)
      → ((s : S) → q (f s) ≡ p s)
      → Simulates f (gets p) (gets q)
  unfolding gets
  gets-Simulates p q k = record { at = λ s. (inl (ap ok (k s)), refl) }

  pub modify-Simulates :
      (p : S → S) (q : T → T) → ((s : S) → q (f s) ≡ f (p s)) → Simulates f (modify p) (modify q)
  unfolding modify
  modify-Simulates p q k = record { at = λ s. (inl refl, k s) }

  pub lift-Simulates : {A : Type 0} (r : Result A) → Simulates f (lift r) (lift r)
  unfolding lift
  lift-Simulates r = record { at = λ s. (inl refl, refl) }

  pub if-Simulates :
      {A : Type 0} (b : Bool) (m m' : Exec S A) (n n' : Exec T A)
      → (b ≡ true → Simulates f m n)
      → (b ≡ false → Simulates f m' n')
      → Simulates f (if b then m else m') (if b then n else n')
  if-Simulates true m m' n n' k k' = k refl
  if-Simulates false m m' n n' k k' = k' refl

  module _ {A B : Type 0} where
    continue-same :
        (r : Result A) (k : A → Exec S B) (k' : A → Exec T B) (s : S)
        → ((a : A) → Simulates f (k a) (k' a))
        → Alike f (continue r k s) (continue r k' (f s))
    continue-same (ok a) k k' s h = (h a).at s
    continue-same (err e) k k' s h = (inl refl, refl)

    continue-Simulates :
        (r r' : Result A) (k : A → Exec S B) (k' : A → Exec T B) (s : S) (t : T)
        → ((a : A) → Simulates f (k a) (k' a))
        → Alike f (r, s) (r', t)
        → Alike f (continue r k s) (continue r' k' t)
    continue-Simulates r r' k k' s t h (inl e, p) =
        subst (λ (o : Result A × T). Alike f (continue r k s) (continue o.0 k' o.1))
          (ap (λ x. (x, f s)) (sym e) ∙ ap (λ x. (r', x)) (sym p)) (continue-same r k k' s h)
    continue-Simulates r r' k k' s t h (inr (e, e'), p) = rw (e, e') (inr (refl, refl), p)

    pub bind-Simulates :
        (m : Exec S A) (n : Exec T A) (k : A → Exec S B) (k' : A → Exec T B)
        → Simulates f m n
        → ((a : A) → Simulates f (k a) (k' a))
        → Simulates f (m >>= k) (n >>= k')
    unfolding ◌>>=◌
    bind-Simulates m n k k' hm hk = record {
      at = λ s. continue-Simulates (m s).0 (n (f s)).0 k k' (m s).1 (n (f s)).1 hk (hm.at s);
    }

  pub for_each-Simulates :
      {X : Type 0} (xs : List X) (m : X → Exec S (Unit {0})) (n : X → Exec T (Unit {0}))
      → ((x : X) → Simulates f (m x) (n x))
      → Simulates f (for_each xs m) (for_each xs n)
  unfolding for_each
  for_each-Simulates [] m n h = pure-Simulates tt
  for_each-Simulates (x ∷ xs) m n h =
      bind-Simulates (m x) (n x) (λ _. for_each xs m) (λ _. for_each xs n) (h x)
        (λ _. for_each-Simulates xs m n h)

  -- A handler that catches neither of the two exceptions.
  module _ (caught : Error → Bool) (passes : caught already_called ≡ false)
      (passes' : caught invalid_state ≡ false) (h : Exec S (Unit {0})) (h' : Exec T (Unit {0}))
      (kh : Simulates f h h') where
    handled-Simulates :
        (b : Bool) (e : Error) (s : S) → Alike f (handled b e h s) (handled b e h' (f s))
    handled-Simulates true e s = kh.at s
    handled-Simulates false e s = (inl refl, refl)

    after_try-same :
        (r : Result (Unit {0})) (s : S)
        → Alike f (after_try caught h r s) (after_try caught h' r (f s))
    after_try-same (ok a) s = (inl refl, refl)
    after_try-same (err e) s = handled-Simulates (caught e) e s

    after_try-Simulates :
        (r r' : Result (Unit {0})) (s : S) (t : T)
        → Alike f (r, s) (r', t)
        → Alike f (after_try caught h r s) (after_try caught h' r' t)
    after_try-Simulates r r' s t (inl e, p) =
        subst
          (λ (o : Result (Unit {0}) × T).
            Alike f (after_try caught h r s) (after_try caught h' o.0 o.1))
          (ap (λ x. (x, f s)) (sym e) ∙ ap (λ x. (r', x)) (sym p)) (after_try-same r s)
    after_try-Simulates r r' s t (inr (e, e'), p) =
        rw (e, e', passes, passes') (inr (refl, refl), p)

    pub try-Simulates :
        (m : Exec S (Unit {0})) (n : Exec T (Unit {0}))
        → Simulates f m n
        → Simulates f (try caught m h) (try caught n h')
    unfolding try
    try-Simulates m n k = record {
      at = λ s. after_try-Simulates (m s).0 (n (f s)).0 (m s).1 (n (f s)).1 (k.at s);
    }

pub ruleset simulates_rules = (
  pure-Simulates, raise-Simulates, gets-Simulates, modify-Simulates, lift-Simulates, if-Simulates,
  bind-Simulates, for_each-Simulates,
)
