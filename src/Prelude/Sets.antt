-- ===== src/Prelude/Sets.antt =====
-- Python's `set` and `list` seen through membership: generic lists with a test of equality.
use Prim.Native.Nat.{ℕ, suc, ◌-◌, ◌≤◌}
use mathlib.Core.Path.{◌≡◌, refl}
use mathlib.Core.Logic.{◌↔◌}
use mathlib.Core.Bool.{Bool, true, false, ◌||◌}
use mathlib.Core.List.{List, [], ◌∷◌, ◌++◌}
use native.Mathlib.Omega.{arith}
use hpfeeds.Prelude.Tests.{◌==◌, ==_iff, text_eq, text_eq_iff, if◌then◌else◌}

pub record Eq {ℓ} (A : Type ℓ) : Type ℓ where
  pub beq : A → A → Bool
  pub beq_iff : (a b : A) → (beq a b ≡ true) ↔ (a ≡ b)

instance abbrev pub nat_eq : Eq ℕ
nat_eq = record { beq = ◌==◌; beq_iff = ==_iff }

instance abbrev pub list_eq : Eq (List ℕ)
list_eq = record { beq = text_eq; beq_iff = text_eq_iff }

module _ {ℓ} {A : Type ℓ} ⦃e : Eq A⦄ where
  -- a in xs
  unfoldable pub contains : A → List A → Bool
  contains a [] = false
  contains a (x ∷ xs) = e.beq x a || contains a xs

  unfoldable pub count : A → List A → ℕ
  count a [] = 0
  count a (x ∷ xs) = if e.beq x a then suc (count a xs) else count a xs

  -- xs.add(a) of a set
  unfoldable pub add : A → List A → List A
  unfolding contains
  add a xs = if contains a xs then xs else a ∷ xs

  -- xs.discard(a) of a set, and xs.remove(a) of a list: the first occurrence goes
  unfoldable pub discard : A → List A → List A
  discard a [] = []
  discard a (x ∷ xs) = if e.beq x a then xs else x ∷ discard a xs

  -- set(xs), in the order of first occurrence from the end
  unfoldable pub to_set : List A → List A
  unfolding add
  to_set [] = []
  to_set (x ∷ xs) = add x (to_set xs)

  pub count-contains : (a : A) (xs : List A) → contains a xs ≡ false → count a xs ≡ 0
  unfolding contains count
  count-contains a [] h = refl
  count-contains a (x ∷ xs) h = ground (arith, count-contains a xs)

  pub contains-count : (a : A) (xs : List A) → count a xs ≡ 0 → contains a xs ≡ false
  unfolding contains count
  contains-count a [] h = refl
  contains-count a (x ∷ xs) h = ground (arith, contains-count a xs)

  pub count-discard_self : (a : A) (xs : List A) → count a (discard a xs) ≡ count a xs - 1
  unfolding count discard
  count-discard_self a [] = refl
  count-discard_self a (x ∷ xs) = ground (arith, count-discard_self a xs)

  pub count-discard_ne :
      (a b : A) (xs : List A) → e.beq a b ≡ false → count b (discard a xs) ≡ count b xs
  unfolding count discard
  count-discard_ne a b [] h = refl
  count-discard_ne a b (x ∷ xs) h =
      ground (arith, count-discard_ne a b xs, e.beq_iff x a, e.beq_iff x b, e.beq_iff a b)

  pub contains-add : (a b : A) (xs : List A) → contains b (add a xs) ≡ (e.beq a b || contains b xs)
  unfolding add
  contains-add a b xs = ground (arith, e.beq_iff a b)

  pub count-add_self : (a : A) (xs : List A) → count a xs ≤ 1 → count a (add a xs) ≤ 1
  unfolding add count
  count-add_self a xs h = ground (arith, count-contains a xs)

  pub count-add_ne : (a b : A) (xs : List A) → e.beq a b ≡ false → count b (add a xs) ≡ count b xs
  unfolding add count
  count-add_ne a b xs h = ground arith

  pub contains-to_set : (a : A) (xs : List A) → contains a (to_set xs) ≡ contains a xs
  unfolding to_set contains
  contains-to_set a [] = refl
  contains-to_set a (x ∷ xs) =
      ground (arith, contains-to_set a xs, contains-to_set x xs, contains-add x a (to_set xs))

  pub count-to_set : (a : A) (xs : List A) → count a (to_set xs) ≤ 1
  unfolding to_set count
  count-to_set a [] = omega arith
  count-to_set a (x ∷ xs) = ground (
    arith,
    count-to_set a xs,
    e.beq_iff x a,
    count-add_self a (to_set xs),
    count-add_ne x a (to_set xs),
  )

  pub contains-append_self : (a : A) (xs : List A) → contains a (xs ++ a ∷ []) ≡ true
  unfolding contains
  contains-append_self a [] = ground (arith, e.beq_iff a a)
  contains-append_self a (x ∷ xs) = ground (arith, contains-append_self a xs)

  pub contains-discard_ne :
      (a b : A) (xs : List A) → e.beq a b ≡ false → contains b (discard a xs) ≡ contains b xs
  unfolding contains discard
  contains-discard_ne a b [] h = refl
  contains-discard_ne a b (x ∷ xs) h =
      ground (arith, contains-discard_ne a b xs, e.beq_iff x a, e.beq_iff x b, e.beq_iff a b)

  pub discard-absent : (a : A) (xs : List A) → contains a xs ≡ false → discard a xs ≡ xs
  unfolding contains discard
  discard-absent a [] h = refl
  discard-absent a (x ∷ xs) h = ground (arith, discard-absent a xs)
