-- ===== src/Auth/Tests.antt =====
-- hpfeeds/broker/auth: the theorems on small databases.
use hpfeeds.Prelude.{ℕ, suc, ◌≡◌, refl, [], ◌∷◌, none, some, arith}
use hpfeeds.Python.Result.{ok, err, key_error}
use hpfeeds.Python.Exec.{Exec}
use hpfeeds.Python.Values.{codes}
use hpfeeds.Broker.State.{failed, now, awaitable}
use hpfeeds.Auth.Json.{Json, Fields, object, array, string, no_items, no_fields, field}
use hpfeeds.Auth.Document.{Serves, loads, loads-Serves}
use hpfeeds.Auth.Multi.{function, coroutine_function, Backend, ask, ask-first, unknown, fresh}
use hpfeeds.Auth.Multi.Finalizers.{session, session-run_all}

abbrev bob : Json
bob = object (
    field (codes "owner") (string (codes "bob")) (
      field (codes "secret") (string (codes "s")) (
        field (codes "pubchans") (array no_items)
          (field (codes "subchans") (array no_items) no_fields))))

abbrev users : Fields
users = field (codes "bob") bob no_fields

loads-Serves_example : Serves (codes "bob") (loads (some (object users) ∷ none ∷ []) no_fields)
loads-Serves_example = loads-Serves (some (object users) ∷ none ∷ []) (codes "bob")

abbrev tick : Exec ℕ (Unit {0})
tick n = (ok tt, suc n)

abbrev crash : Exec ℕ (Unit {0})
crash n = (err key_error, suc n)

abbrev nobody : Backend ℕ
nobody = record {
  answer = λ ident n. (unknown, suc n);
  start = λ n. (ok (some (function crash)), suc n);
}

abbrev later : Backend ℕ
later = record {
  answer = λ ident n. (awaitable, suc n);
  start = λ n. (ok (some (coroutine_function tick)), suc n);
}

abbrev never : Backend ℕ
never = record {
  answer = λ ident n. (now failed, suc n);
  start = λ n. (ok (some (function tick)), suc n);
}

-- Two of three are asked.
ask-first_example : ask (nobody ∷ later ∷ never ∷ []) (codes "bob") 0 ≡ (awaitable, 2)
ask-first_example = ask-first (codes "bob") (nobody ∷ []) (never ∷ []) later 0 (refl, tt) (λ e. cc)

-- Three are started; the first finalizer raises, and the second is a coroutine function.
session-run_all_example : session (nobody ∷ later ∷ never ∷ []) (fresh, 0) ≡ (ok tt, (fresh, 5))
session-run_all_example =
    session-run_all (nobody ∷ later ∷ never ∷ []) 0
      (
        (some (function crash), refl),
        ((some (coroutine_function tick), refl), ((some (function tick), refl), tt)),
      )
      ((λ s e h. ground arith), ((λ s e h. ground arith), tt))
