-- ===== src/Watching/Watches/Current.antt =====
-- hpfeeds/broker/utils/inotify.py: the paths that are watched are those that the file depends on.
use hpfeeds.Prelude.{
  ℕ, ◌≡◌, refl, List, [], ◌∷◌, Bool, true, false, not, ◌&&◌, ◌||◌, Option, none, some, arith,
  text_eq, text_eq_iff, contains, contains-to_set, to_set, list_eq, sym, ◌∙◌, ap, if◌then◌else◌,
}
use hpfeeds.Python.Result.{Result, ok, err, ◌>>=◌, os_error}
use hpfeeds.Python.Values.{Text}
use hpfeeds.Watching.Paths.{resolve_paths}
use hpfeeds.Watching.Watches.{
  Watcher, unused, descriptor, watching, without, forget, forget_alias, minus, Base, unwatched,
  unwatch, unwatch_all, watch_all, rewatch, renew, watch_loop, watch_task,
}

bind-eq-ok :
    {A B : Type 0} (r : Result A) (k : A → Result B) (b : B)
    → (r >>= k) ≡ ok b
    → (a : A) × (r ≡ ok a) × (k a ≡ ok b)
bind-eq-ok (ok a) k b e = (a, refl, e)
bind-eq-ok (err x) k b e = cc

pub watching-without :
    (p q : Text) (ds : List (Text × ℕ))
    → descriptor q (without p ds) ≡ (if text_eq p q then none else descriptor q ds)
unfolding without descriptor
watching-without p q [] = ground arith
watching-without p q ((k, wd) ∷ ds) =
    ground (arith, watching-without p q ds, text_eq_iff k p, text_eq_iff k q, text_eq_iff p q)

contains-minus :
    (q : Text) (xs ys : List Text)
    → contains q (minus xs ys) ≡ (contains q xs && not (contains q ys))
unfolding minus contains
contains-minus q [] ys = refl
contains-minus q (x ∷ xs) ys = ground (arith, contains-minus q xs ys, text_eq_iff x q)

-- After a path was taken out.
abbrev Without : Text → Watcher → Watcher → Type 0
Without p w w' = (q : Text) → watching w' q ≡ (not (text_eq p q) && watching w q)

forget-Without :
    (p : Text) (w w' : Watcher) (o : Option ℕ)
    → descriptor p w.descriptors ≡ o
    → forget p w o ≡ ok w'
    → Without p w w'
unfolding forget
forget-Without p w w' none d e q = ground (arith, text_eq_iff p q)
forget-Without p w w' (some wd) d e q = ground (arith, watching-without p q w.descriptors)

module _ (base : Base) where
  unwatched-Without :
      (p : Text) (w w' : Watcher) (r : Result Watcher)
      → base.unwatch p w ≡ r
      → unwatched base p w r ≡ ok w'
      → Without p w w'
  unfolding unwatched forget_alias
  unwatched-Without p w w' (ok v) b e q = base.unwatch-removes p q w w' (b ∙ e)
  unwatched-Without p w w' (err os_error) b e q = forget-Without p w w' _ refl e q
  unwatched-Without p w w' (err x) b e q = cc

  unwatch-Without : (p : Text) (w w' : Watcher) → unwatch base p w ≡ ok w' → Without p w w'
  unfolding unwatch
  unwatch-Without p w w' e = unwatched-Without p w w' (base.unwatch p w) refl e

  unwatch_all-ok :
      (ps : List Text) (w w' : Watcher)
      → unwatch_all base ps w ≡ ok w'
      → (q : Text) → watching w' q ≡ (not (contains q ps) && watching w q)
  unfolding unwatch_all contains
  unwatch_all-ok [] w w' e q = ground arith
  unwatch_all-ok (p ∷ ps) w w' e q =
      let (v, a, b) = bind-eq-ok (unwatch base p w) (unwatch_all base ps) w' e in
      ground (arith, unwatch_all-ok ps v w' b q, unwatch-Without p w v a q)

  watch_all-ok :
      (ps : List Text) (w w' : Watcher)
      → watch_all base ps w ≡ ok w'
      → (q : Text) → watching w' q ≡ (contains q ps || watching w q)
  unfolding watch_all contains
  watch_all-ok [] w w' e q = ground arith
  watch_all-ok (p ∷ ps) w w' e q =
      let (v, a, b) = bind-eq-ok (base.watch p w) (watch_all base ps) w' e in
      ground (arith, watch_all-ok ps v w' b q, base.watch-adds p q w v a)

  -- Exactly these paths are watched.
  abbrev pub Watches : List Text → Watcher → Type 0
  Watches ps w = (q : Text) → watching w q ≡ contains q ps

  rewatch-Watches :
      (old_paths paths : List Text) (w w' : Watcher)
      → Watches old_paths w
      → rewatch base old_paths paths w ≡ ok w'
      → Watches paths w'
  unfolding rewatch
  rewatch-Watches old_paths paths w w' h e q =
      let (v, a, b) = bind-eq-ok (unwatch_all base (base.order (minus old_paths paths)) w) _ w' e in
      ground (
        arith,
        h q,
        unwatch_all-ok (base.order (minus old_paths paths)) w v a q,
        watch_all-ok (base.order (minus paths old_paths)) v w' b q,
        base.contains-order q (minus old_paths paths),
        base.contains-order q (minus paths old_paths),
        contains-minus q old_paths paths,
        contains-minus q paths old_paths,
      )

  renew-Watches :
      (alias : Text) (paths : List Text) (w w' : Watcher)
      → contains alias paths ≡ true
      → Watches paths w
      → renew base alias w ≡ ok w'
      → Watches paths w'
  unfolding renew
  renew-Watches alias paths w w' c h e q =
      let (v, a, b) = bind-eq-ok (unwatch base alias w) _ w' e in
      ground (
        arith,
        h q,
        c,
        text_eq_iff alias q,
        unwatch-Without alias w v a q,
        base.watch-adds alias q v w' b,
      )

  same-Watches :
      (old_paths paths : List Text) (w w' : Watcher)
      → Watches old_paths w
      → ◌≡◌ {A = Result (List Text × Watcher)} (ok (old_paths, w)) (ok (paths, w'))
      → Watches paths w'
  same-Watches old_paths paths w w' h e q =
      let p : old_paths ≡ paths = cc in
      let r : w ≡ w' = cc in ap (λ v. watching v q) (sym r) ∙ h q ∙ ap (contains q) p

  -- Each event is one of a path that was found in its round.
  abbrev pub Known : ℕ → Text → Text → List ((Text → Option Text) × Text) → Type 0
  Known fuel cwd path [] = Unit {0}
  Known fuel cwd path ((readlink, alias) ∷ rounds) =
      ((found : List Text)
        → resolve_paths readlink fuel cwd path ≡ ok found
        → contains alias found ≡ true)
      × Known fuel cwd path rounds

  watch_loop-Watches :
      (fuel : ℕ) (cwd path : Text) (rounds : List ((Text → Option Text) × Text))
      (old_paths paths : List Text) (w w' : Watcher)
      → Known fuel cwd path rounds
      → Watches old_paths w
      → watch_loop base fuel cwd path rounds old_paths w ≡ ok (paths, w')
      → Watches paths w'
  unfolding watch_loop
  watch_loop-Watches fuel cwd path [] old_paths paths w w' k h e =
      same-Watches old_paths paths w w' h e
  watch_loop-Watches fuel cwd path ((readlink, alias) ∷ rounds) old_paths paths w w' (k, ks) h e =
      let (found, a, e1) = bind-eq-ok (resolve_paths readlink fuel cwd path) _ (paths, w') e in
      let (w1, b, e2) = bind-eq-ok (rewatch base old_paths (to_set found) w) _ (paths, w') e1 in
      let (w2, c, e3) = bind-eq-ok (renew base alias w1) _ (paths, w') e2 in
      watch_loop-Watches fuel cwd path rounds (to_set found) paths w2 w' ks
        (renew-Watches alias (to_set found) w1 w2 (contains-to_set alias found ∙ k found a)
          (rewatch-Watches old_paths (to_set found) w w1 h b) c)
        e3

  if-Watches :
      (b : Bool) (fuel : ℕ) (cwd path : Text) (rounds : List ((Text → Option Text) × Text))
      (paths : List Text) (w : Watcher)
      → Known fuel cwd path rounds
      → (if b then watch_loop base fuel cwd path rounds [] unused else ok ([], unused))
        ≡ ok (paths, w)
      → Watches paths w
  unfolding contains descriptor
  if-Watches true fuel cwd path rounds paths w k e =
      watch_loop-Watches fuel cwd path rounds [] paths unused w k (λ q. refl) e
  if-Watches false fuel cwd path rounds paths w k e = same-Watches [] paths unused w (λ q. refl) e

  -- After any number of events, as the links of the file system change between them, the task
  -- watches exactly the paths that it found last, also where a path could not be unwatched because it
  -- is gone: as long as no call raises, and each event is one of a path that it watches.
  pub watch_task-Watches :
      (fuel : ℕ) (exists : Bool) (cwd path : Text) (rounds : List ((Text → Option Text) × Text))
      (paths : List Text) (w : Watcher)
      → Known fuel cwd path rounds
      → watch_task base fuel exists cwd path rounds ≡ ok (paths, w)
      → (q : Text) → watching w q ≡ contains q paths
  unfolding watch_task
  watch_task-Watches fuel exists cwd path rounds paths w k e =
      if-Watches exists fuel cwd path rounds paths w k e
