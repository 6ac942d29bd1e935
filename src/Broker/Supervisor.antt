-- ===== src/Broker/Supervisor.antt =====
-- hpfeeds/broker/utils/supervisor.py: the task that runs a coroutine again and again, over how each
-- run of it and each sleep after it end.
use hpfeeds.Prelude.{ℕ, suc, ◌+◌, ◌≡◌, List, [], ◌∷◌, ◌++◌, arith, length}
use hpfeeds.Python.Result.{Error}

-- A run of the coroutine, and asyncio.sleep(1): it comes to its end, raises an Exception, or raises
-- CancelledError.
pub data Await : Type 0 where
  returned cancelled : Await
  failed : Error → Await

-- A task that still runs, or that ended with what is not caught.
pub data Task : Type 0 where
  running : Task
  ended_cancelled : Task
  ended_failed : Error → Task

-- `await asyncio.sleep(1)`, which nothing guards, and the next round.
unfoldable pub after_sleep : Await → Task × ℕ → ℕ → Task × ℕ
after_sleep returned next starts = next
after_sleep cancelled next starts = (ended_cancelled, starts)
after_sleep (failed e) next starts = (ended_failed e, starts)

-- `_task`: how it ends, and how often the coroutine was started.
unfoldable pub supervise : List (Await × Await) → ℕ → Task × ℕ
supervise [] starts = (running, starts)
supervise ((cancelled, sleep) ∷ rs) starts = (ended_cancelled, suc starts)
supervise ((returned, sleep) ∷ rs) starts =
    after_sleep sleep (supervise rs (suc starts)) (suc starts)
supervise ((failed e, sleep) ∷ rs) starts =
    after_sleep sleep (supervise rs (suc starts)) (suc starts)

-- Rounds in which nothing is cancelled.
abbrev pub AllFinish : List (Await × Await) → Type 0
AllFinish [] = Unit {0}
AllFinish ((returned, returned) ∷ rs) = AllFinish rs
AllFinish ((failed e, returned) ∷ rs) = AllFinish rs
AllFinish _ = ⊥

-- However often the coroutine returns or fails, it is started again, and the task goes on; when a run
-- is cancelled the task ends with it.
supervise-cancelled :
    (rs : List (Await × Await)) (starts : ℕ)
    → AllFinish rs
    → (supervise rs starts ≡ (running, length rs + starts))
      × ((sleep : Await) (more : List (Await × Await))
          → supervise (rs ++ (cancelled, sleep) ∷ more) starts
            ≡ (ended_cancelled, suc (length rs + starts)))
unfolding supervise after_sleep
supervise-cancelled [] starts a = (ground arith, λ sleep more. ground arith)
supervise-cancelled ((returned, returned) ∷ rs) starts a =
    let (p, q) = supervise-cancelled rs (suc starts) a in
    (ground (arith, p), λ sleep more. ground (arith, q sleep more))
supervise-cancelled ((failed e, returned) ∷ rs) starts a =
    let (p, q) = supervise-cancelled rs (suc starts) a in
    (ground (arith, p), λ sleep more. ground (arith, q sleep more))
supervise-cancelled ((returned, cancelled) ∷ rs) starts a = elim a [ ]
supervise-cancelled ((returned, failed e) ∷ rs) starts a = elim a [ ]
supervise-cancelled ((failed x, cancelled) ∷ rs) starts a = elim a [ ]
supervise-cancelled ((failed x, failed e) ∷ rs) starts a = elim a [ ]
supervise-cancelled ((cancelled, sleep) ∷ rs) starts a = elim a [ ]
