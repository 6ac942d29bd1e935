-- ===== src/Python/Result/Clean.antt =====
-- Results that are neither the model's mark of a loop that would go on nor an exception that
-- hpfeeds/exceptions.py declares.
use hpfeeds.Prelude.{◌≡◌, Bool, true, false, arith, if◌then◌else◌}
use hpfeeds.Python.Result.{Error, Result, ok, err, is_clean, is_own, ◌>>=◌}

pub record Clean {ℓ} {A : Type ℓ} (r : Result A) : Type ℓ where
  pub at : (e : Error) → r ≡ err e → is_clean e ≡ true
  pub foreign : (e : Error) → r ≡ err e → is_own e ≡ false

module _ {ℓ} {A : Type ℓ} where
  pub Clean-ok : (a : A) → Clean (ok a)
  Clean-ok a = record { at = λ e h. ground arith; foreign = λ e h. ground arith }

  pub Clean-err : (e : Error) → is_clean e ≡ true → is_own e ≡ false → Clean {A = A} (err e)
  Clean-err e c o = record { at = λ e' h. ground arith; foreign = λ e' h. ground arith }

  pub Clean-if : (b : Bool) (m n : Result A) → Clean m → Clean n → Clean (if b then m else n)
  Clean-if true m n cm cn = cm
  Clean-if false m n cm cn = cn

pub Clean-bind {ℓ κ} :
    {A : Type ℓ} {B : Type κ} (m : Result A) (f : A → Result B)
    → Clean m
    → ((a : A) → Clean (f a))
    → Clean (m >>= f)
Clean-bind (ok a) f cm cf = cf a
Clean-bind (err e) f cm cf = record {
  at = λ e' h. cm.at e' (ground arith);
  foreign = λ e' h. cm.foreign e' (ground arith);
}

pub ruleset clean_rules = (Clean-ok, Clean-if, Clean-bind)
