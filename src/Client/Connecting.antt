-- ===== src/Client/Connecting.antt =====
-- hpfeeds/asyncio/client.py: the task of a session, reconnect with _tryconnect, over what happens
-- while it waits.
use hpfeeds.Prelude.{ℕ, zero, suc, ◌≡◌, refl, List, [], ◌∷◌, ◌++◌, Bool, true, false, if◌then◌else◌}
use hpfeeds.Python.Result.{Error}

-- What create_connection gives: a connection, an OSError, or another exception.
pub data Attempt : Type 0 where
  made os_error : Attempt
  other : Error → Attempt

-- What the task waits for: create_connection, asyncio.sleep(1), when_closed; or it has returned.
pub data Stage : Type 0 where
  connecting sleeping awaiting finished : Stage

pub record Task : Type 0 where
  pub stage : Stage
  -- whether there is a connection, whose connection_lost sets when_closed
  pub live : Bool
  pub closing : Bool

-- What happens meanwhile: create_connection comes back, the second is over, the connection is lost,
-- and close is called.
pub data Event : Type 0 where
  answered : Attempt → Event
  slept lost closed : Event

-- while not self.closing: …
unfoldable pub around : Bool → Task
around closing = record {
  stage = if closing then finished else connecting;
  live = false;
  closing = closing;
}

-- _tryconnect, and the `except Exception` round the call of it
unfoldable pub tried : Attempt → Task → Task
tried made t = record t { stage = awaiting; live = true }
tried os_error t = record t { stage = sleeping }
tried (other e) t = record t { stage = awaiting }

unfoldable pub on_lost : Stage → Bool → Task → Task
unfolding around
on_lost awaiting true t = around t.closing
on_lost s l t = t

unfoldable pub on_answer : Stage → Attempt → Task → Task
unfolding tried
on_answer connecting a t = tried a t
on_answer s a t = t

unfoldable pub on_slept : Stage → Task → Task
on_slept sleeping t = record t { stage = connecting }
on_slept s t = t

-- An event that cannot come at the task's stage leaves it as it is.
unfoldable pub step : Event → Task → Task
unfolding on_lost on_answer on_slept
step (answered a) t = on_answer t.stage a t
step slept t = on_slept t.stage t
step lost t = on_lost t.stage t.live t
step closed t = record t { closing = true }

abbrev pub run : List Event → Task → Task
run [] t = t
run (e ∷ es) t = run es (step e t)

-- Attempts that fail with an OSError, and the second after each.
abbrev pub refused : ℕ → List Event
refused zero = []
refused (suc n) = answered os_error ∷ slept ∷ refused n

abbrev pub stands : Stage → Bool → Bool → Task
stands s l c = record { stage = s; live = l; closing = c }

-- The task waits for a connection that is not there.
abbrev pub Stranded : Task → Type 0
Stranded t = (t.stage ≡ awaiting) × (t.live ≡ false)

run-refused :
    (n : ℕ) (es : List Event) (c : Bool)
    → run (refused n ++ es) (stands connecting false c) ≡ run es (stands connecting false c)
unfolding step on_answer tried on_slept
run-refused zero es c = refl
run-refused (suc n) es c = run-refused n es c

run-Stranded : (es : List Event) (c : Bool) → Stranded (run es (stands awaiting false c))
unfolding step on_answer on_slept on_lost
run-Stranded [] c = (refl, refl)
run-Stranded (answered a ∷ es) c = run-Stranded es c
run-Stranded (slept ∷ es) c = run-Stranded es c
run-Stranded (lost ∷ es) c = run-Stranded es c
run-Stranded (closed ∷ es) c = run-Stranded es true

-- From where the task tries to connect, after any number of attempts that fail with an OSError: one
-- that succeeds gives it a connection, and once that is lost it tries again, or is over where the
-- session is closing. But one that fails with another exception leaves it waiting for a connection
-- that is not there, whatever happens from then on.
pub run-cases :
    (n : ℕ) (e : Error) (es : List Event) (c : Bool)
    → (run (refused n ++ answered made ∷ []) (stands connecting false c) ≡ stands awaiting true c)
      × (run (refused n ++ answered made ∷ lost ∷ []) (stands connecting false c)
          ≡ stands (if c then finished else connecting) false c)
      × Stranded (run (refused n ++ answered (other e) ∷ es) (stands connecting false c))
unfolding step on_answer tried on_lost around
run-cases n e es c = (
  run-refused n (answered made ∷ []) c,
  run-refused n (answered made ∷ lost ∷ []) c,
  rw (run-refused n (answered (other e) ∷ es) c) (run-Stranded es c),
)
