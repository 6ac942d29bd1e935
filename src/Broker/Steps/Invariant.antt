-- ===== src/Broker/Steps/Invariant.antt =====
-- An invariant that every call keeps holds after every step.
use hpfeeds.Prelude.{ℕ, ◌≡◌, List, ◌++◌, Bool, some}
use hpfeeds.Python.Result.{Result, ok, err}
use hpfeeds.Python.Exec.Keeps.{Keeps, Outcome, keeps_rules}
use hpfeeds.Python.Struct.{Bytes}
use hpfeeds.Python.Values.{Text}
use hpfeeds.Wire.Unpacker.{Unpacker}
use hpfeeds.Broker.State.{Broker, Conn, Env, Row, found, now, assign, on_conn, new_conn}
use hpfeeds.Broker.Lifecycle.{made, pause_writing, resume_writing, deadline_expired}
use hpfeeds.Broker.Rules.{Stable, Keeps-self, Keeps-error, Keeps-on_auth_result}
use hpfeeds.Broker.Rules.Loop.{Keeps-process_pending, Keeps-data_received}
use hpfeeds.Broker.Steps.{
  Fresh, Step, Reach, connect, receive, answer, disconnect, break_off, full, drained, expired, here,
  next, without_task,
}

-- The state after the call, whether it raised or not.
pub outcome :
    {A : Type 0} (P : Broker → Type 0) (o : Result A × Broker) → Outcome P (λ e. P) o → P o.1
outcome P (ok a, s) h = h
outcome P (err e, s) h = h

module _ (env : Env) {P : Broker → Type 0} {G : Text → Row → Type 0} (st : Stable env P (λ e. P) G)
    (granted : (ident : Text) (row : Row)
      → env.get_authkey ident ≡ now (found (some row))
      → G ident row)
    (at_unpacker : (c : ℕ) (f : Conn → Unpacker)
      → Keeps P (λ e. P) (assign c (λ x. record x { unpacker = f x })))
    (at_timer : (c : ℕ) (t : Bool) → Keeps P (λ e. P) (assign c (λ x. record x { timer = t })))
    (at_tasks : (rest : List (ℕ × Text × Bytes)) (b : Broker) → P b → P (without_task rest b))
    (at_made : (c : ℕ) (rand : Bytes) (b : Broker)
      → Fresh c b
      → P b
      → P (made env c (on_conn c (λ _. new_conn rand) b)).1) where
  open st use {at_metric, at_close, at_lost}

  Keeps-pause_writing : (c : ℕ) → Keeps P (λ e. P) (pause_writing c)
  unfolding pause_writing
  Keeps-pause_writing c = search (keeps_rules, Keeps-self env st, at_metric, at_timer)

  Keeps-resume_writing : (c : ℕ) → Keeps P (λ e. P) (resume_writing c)
  unfolding resume_writing
  Keeps-resume_writing c = search (keeps_rules, Keeps-self env st, at_metric, at_timer) depth 9

  Keeps-deadline_expired : (c : ℕ) → Keeps P (λ e. P) (deadline_expired env c)
  unfolding deadline_expired
  Keeps-deadline_expired c =
      search (keeps_rules, Keeps-self env st, Keeps-error env st, at_metric, at_close)

  pub Step-keeps : {b b' : Broker} → Step env G b b' → P b → P b'
  Step-keeps {b} (connect c rand f) h = at_made c rand b f h
  Step-keeps {b} (receive fuel c chunk) h =
      outcome P _
        ((Keeps-data_received env st granted at_unpacker (λ e s p. p) fuel c chunk).at b h)
  Step-keeps {b} (answer fuel c ident secret a front back e g) h = outcome P _ (
      (Keeps-on_auth_result env st _ c ident secret a
          (Keeps-process_pending env st granted at_unpacker (λ e s p. p) fuel c) g).at
        _ (at_tasks (front ++ back) b h))
  Step-keeps {b} (disconnect c) h = outcome P _ ((at_lost c).at b h)
  Step-keeps {b} (break_off c) h = outcome P _ ((at_close c).at b h)
  Step-keeps {b} (full c) h = outcome P _ ((Keeps-pause_writing c).at b h)
  Step-keeps {b} (drained c) h = outcome P _ ((Keeps-resume_writing c).at b h)
  Step-keeps {b} (expired c) h = outcome P _ ((Keeps-deadline_expired c).at b h)

  pub Reach-keeps : {s b : Broker} → P s → Reach env G s b → P b
  Reach-keeps p here = p
  Reach-keeps p (next r st') = Step-keeps st' (Reach-keeps p r)
