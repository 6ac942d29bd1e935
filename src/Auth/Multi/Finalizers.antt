-- ===== src/Auth/Multi/Finalizers.antt =====
-- hpfeeds/broker/auth/multi.py: what is started is finalized.
use hpfeeds.Prelude.{
  ◌≡◌, refl, List, [], ◌∷◌, ◌++◌, Option, true, none, some, ap, sym, ◌∙◌, inl, inr, append-nil,
  append_assoc,
}
use hpfeeds.Python.Result.{Result, Result-cases, ok, err, Error, is_clean}
use hpfeeds.Python.Exec.{Exec, pure, gets, for_each, try, ◌>>=◌, ◌>>◌}
use hpfeeds.Auth.Multi.{
  Finalizer, function, coroutine_function, called, Backend, Multi, fresh, outside, self, add,
  finalize, close, collect, start_one, start,
}

module _ {S : Type 0} where
  -- What the functions among the finalizers leave, one after another, whether they raise or not.
  abbrev pub run_all : List (Finalizer S) → S → S
  run_all [] s = s
  run_all (function f ∷ fs) s = run_all fs (f s).1
  run_all (coroutine_function f ∷ fs) s = run_all fs s

  abbrev pub AllClean : List (Finalizer S) → Type 0
  AllClean [] = Unit {0}
  AllClean (function f ∷ fs) =
      ((s : S) (e : Error) → (f s).0 ≡ err e → is_clean e ≡ true) × AllClean fs
  AllClean (coroutine_function f ∷ fs) = AllClean fs

  -- No start raises, from where the one before it left off.
  abbrev pub AllStart : List (Backend S) → S → Type 0
  AllStart [] s = Unit {0}
  AllStart (a ∷ bs) s =
      ((f : Option (Finalizer S)) × ((a.start s).0 ≡ ok f)) × AllStart bs (a.start s).1

  abbrev pub given : Result (Option (Finalizer S)) → List (Finalizer S)
  given (ok (some f)) = f ∷ []
  given (ok none) = []
  given (err e) = []

  -- The finalizers that the backends give, in order, and what their starts leave.
  abbrev pub finalizers : List (Backend S) → S → List (Finalizer S)
  finalizers [] s = []
  finalizers (a ∷ bs) s = given (a.start s).0 ++ finalizers bs (a.start s).1

  abbrev pub started : List (Backend S) → S → S
  started [] s = s
  started (a ∷ bs) s = started bs (a.start s).1

  -- The backends are added, and the authenticator is started and closed.
  unfoldable pub session : List (Backend S) → Exec (Multi S × S) (Unit {0})
  session bs = do for_each bs add; stop ← start; stop

  abbrev with_closing : List (Finalizer S) → Multi S → Multi S
  with_closing fs m = record m { close_fn = m.close_fn ++ fs }

  finalize_lem :
      (f : Exec S (Unit {0})) (s : S)
      → ((e : Error) → (f s).0 ≡ err e → is_clean e ≡ true)
      → finalize (function f) s ≡ (ok tt, (f s).1)
  unfolding try called pure
  finalize_lem f s h = elim (Result-cases (f s).0) [
    | inl (tt, e) ↦ rw e refl
    | inr (e, p) ↦ rw (p, h e p) refl
  ]

  for_each-finalize :
      (fs : List (Finalizer S)) (m : Multi S) (s : S)
      → AllClean fs
      → for_each fs (λ f. outside (finalize f)) (m, s) ≡ (ok tt, (m, run_all fs s))
  unfolding for_each outside try called pure ◌>>=◌
  for_each-finalize [] m s h = refl
  for_each-finalize (function f ∷ fs) m s (h, rest) =
      rw (finalize_lem f s (h s)) (for_each-finalize fs m (f s).1 rest)
  for_each-finalize (coroutine_function f ∷ fs) m s rest = for_each-finalize fs m s rest

  close-run_all :
      (m : Multi S) (s : S)
      → AllClean m.close_fn
      → close (m, s) ≡ (ok tt, (fresh, run_all m.close_fn s))
  unfolding close gets self ◌>>=◌
  close-run_all m s h = rw (for_each-finalize m.close_fn m s h) refl

  abbrev with_stack : List (Backend S) → Multi S → S → Result (Unit {0}) × (Multi S × S)
  with_stack bs m s = (ok tt, (record m { stack = bs }, s))

  abbrev with_finalizers : List (Finalizer S) → Multi S → S → Result (Unit {0}) × (Multi S × S)
  with_finalizers fs m s = (ok tt, (record m { close_fn = fs }, s))

  for_each-add :
      (bs : List (Backend S)) (m : Multi S) (s : S)
      → for_each bs add (m, s) ≡ (ok tt, (record m { stack = m.stack ++ bs }, s))
  unfolding for_each add self pure ◌>>=◌
  for_each-add [] m s = ap (λ cs. with_stack cs m s) (sym (append-nil m.stack))
  for_each-add (a ∷ bs) m s =
      for_each-add bs (record m { stack = m.stack ++ a ∷ [] }) s
      ∙ ap (λ cs. with_stack cs m s) (append_assoc m.stack (a ∷ []) bs)

  start_one_lem :
      (a : Backend S) (f : Option (Finalizer S)) (m : Multi S) (s : S)
      → (a.start s).0 ≡ ok f
      → start_one a (m, s) ≡ (ok tt, (with_closing (given (a.start s).0) m, (a.start s).1))
  unfolding start_one outside collect self pure ◌>>=◌
  start_one_lem a none m s e =
      rw e (ap (λ fs. with_finalizers fs m (a.start s).1) (sym (append-nil m.close_fn)))
  start_one_lem a (some f) m s e = rw e refl

  for_each-start_one :
      (bs : List (Backend S)) (m : Multi S) (s : S)
      → AllStart bs s
      → for_each bs start_one (m, s) ≡ (ok tt, (with_closing (finalizers bs s) m, started bs s))
  unfolding for_each pure ◌>>=◌
  for_each-start_one [] m s h = ap (λ fs. with_finalizers fs m s) (sym (append-nil m.close_fn))
  for_each-start_one (a ∷ bs) m s ((f, e), rest) = rw (start_one_lem a f m s e) (
      for_each-start_one bs (with_closing (given (a.start s).0) m) (a.start s).1 rest
      ∙ ap (λ fs. with_finalizers fs m (started bs (a.start s).1))
          (append_assoc m.close_fn (given (a.start s).0) (finalizers bs (a.start s).1)))

  -- Backends are added to a new authenticator, which is started and closed. Where no start raises:
  -- closing runs each finalizer that a start gave and that is a plain function, once and in the order
  -- in which the backends were added, also where some of them raise; nothing is raised, and the
  -- authenticator is as new. A finalizer that is a coroutine function is called and never awaited, so
  -- that it does nothing.
  pub session-run_all :
      (bs : List (Backend S)) (s : S)
      → AllStart bs s
      → AllClean (finalizers bs s)
      → session bs (fresh, s) ≡ (ok tt, (fresh, run_all (finalizers bs s) (started bs s)))
  unfolding session start gets pure ◌>>=◌
  session-run_all bs s h k =
      rw (for_each-add bs fresh s, for_each-start_one bs (record fresh { stack = bs }) s h)
        (close-run_all (record { stack = bs; close_fn = finalizers bs s }) (started bs s) k)
