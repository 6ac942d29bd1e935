-- ===== src/Prelude/Int.antt =====
-- Python's integers where the program meets negative ones: comparison and slice bounds.
use Prim.Native.Nat.{ℕ, suc, ◌+◌, ◌-◌}
use mathlib.Core.Bool.{Bool, true, false}
use mathlib.Core.List.{List}
use hpfeeds.Prelude.Tests.{ltb, leb, if◌then◌else◌}
use hpfeeds.Prelude.Lists.{length, take, drop}

-- `negsuc n` is -(n + 1).
pub data ℤ : Type 0 where
  pos : ℕ → ℤ
  negsuc : ℕ → ℤ

-- a - b, as an integer.
abbrev pub sub_ℕ : ℕ → ℕ → ℤ
sub_ℕ a b = if leb b a then pos (a - b) else negsuc (b - a - 1)

-- z - k for a natural number k.
abbrev pub sub_nat : ℤ → ℕ → ℤ
sub_nat (pos n) k = sub_ℕ n k
sub_nat (negsuc n) k = negsuc (n + k)

-- a < b
abbrev pub lt_int : ℤ → ℤ → Bool
lt_int (pos a) (pos b) = ltb a b
lt_int (pos a) (negsuc b) = false
lt_int (negsuc a) (pos b) = true
lt_int (negsuc a) (negsuc b) = ltb b a

module _ {ℓ} {A : Type ℓ} where
  -- xs[:k]; a negative bound counts from the end, and stops at the start.
  abbrev pub slice_to : List A → ℤ → List A
  slice_to xs (pos n) = take n xs
  slice_to xs (negsuc n) = take (length xs - suc n) xs

  -- del xs[:k], that is xs[k:]
  abbrev pub slice_from : List A → ℤ → List A
  slice_from xs (pos n) = drop n xs
  slice_from xs (negsuc n) = drop (length xs - suc n) xs
