-- ===== src/Watching/Watches.antt =====
-- hpfeeds/broker/utils/inotify.py, class Watcher and _watch_task. The base class of Watcher is in the
-- package aionotify: its watch and unwatch are parameters, on the tables that both classes use.
pub mod Current
use hpfeeds.Prelude.{
  ℕ, ◌==◌, ◌≡◌, List, [], ◌∷◌, Bool, true, false, not, ◌&&◌, ◌||◌, Option, none, some, text_eq,
  contains, to_set, list_eq, nat_eq, if◌then◌else◌,
}
use hpfeeds.Python.Result.{Error, Result, ok, err, ◌>>=◌, os_error, key_error}
use hpfeeds.Python.Values.{Text}
use hpfeeds.Watching.Paths.{resolve_paths}

pub record Watcher : Type 0 where
  pub descriptors : List (Text × ℕ)
  pub requests : List Text
  pub aliases : List ℕ

abbrev pub unused : Watcher
unused = record { descriptors = []; requests = []; aliases = [] }

unfoldable pub descriptor : Text → List (Text × ℕ) → Option ℕ
descriptor p [] = none
descriptor p ((k, wd) ∷ ds) = if text_eq k p then some wd else descriptor p ds

abbrev is_some : Option ℕ → Bool
is_some none = false
is_some (some wd) = true

-- alias in self.descriptors
abbrev pub watching : Watcher → Text → Bool
watching w p = is_some (descriptor p w.descriptors)

-- del of a key
unfoldable pub without : Text → List (Text × ℕ) → List (Text × ℕ)
without p [] = []
without p ((k, wd) ∷ ds) = if text_eq k p then without p ds else (k, wd) ∷ without p ds

unfoldable pub remove : Text → List Text → List Text
remove p [] = []
remove p (k ∷ ks) = if text_eq k p then remove p ks else k ∷ remove p ks

unfoldable pub remove_wd : ℕ → List ℕ → List ℕ
remove_wd n [] = []
remove_wd n (k ∷ ks) = if k == n then remove_wd n ks else k ∷ remove_wd n ks

unfoldable pub forget : Text → Watcher → Option ℕ → Result Watcher
forget p w none = ok w
forget p w (some wd) =
    if contains p w.requests && contains wd w.aliases
    then ok (record {
      descriptors = without p w.descriptors;
      requests = remove p w.requests;
      aliases = remove_wd wd w.aliases;
    })
    else err key_error

-- Watcher.forget_alias
unfoldable pub forget_alias : Text → Watcher → Result Watcher
forget_alias p w = forget p w (descriptor p w.descriptors)

-- set(xs) - set(ys)
unfoldable pub minus : List Text → List Text → List Text
minus [] ys = []
minus (x ∷ xs) ys = if contains x ys then minus xs ys else x ∷ minus xs ys

-- aionotify.Watcher, and the order in which a set is iterated: a path is watched after `watch`, and
-- not after `unwatch`, and the others stay.
pub record Base : Type 0 where
  pub watch : Text → Watcher → Result Watcher
  pub unwatch : Text → Watcher → Result Watcher
  pub order : List Text → List Text
  pub watch-adds :
      (p q : Text) (w w' : Watcher)
      → watch p w ≡ ok w'
      → watching w' q ≡ (text_eq p q || watching w q)
  pub unwatch-removes :
      (p q : Text) (w w' : Watcher)
      → unwatch p w ≡ ok w'
      → watching w' q ≡ (not (text_eq p q) && watching w q)
  pub contains-order : (t : Text) (ts : List Text) → contains t (order ts) ≡ contains t ts

module _ (base : Base) where
  -- except IOError
  unfoldable pub unwatched : Text → Watcher → Result Watcher → Result Watcher
  unwatched p w (ok w') = ok w'
  unwatched p w (err os_error) = forget_alias p w
  unwatched p w (err e) = err e

  -- Watcher.unwatch
  unfoldable pub unwatch : Text → Watcher → Result Watcher
  unwatch p w = unwatched p w (base.unwatch p w)

  unfoldable pub unwatch_all : List Text → Watcher → Result Watcher
  unwatch_all [] w = ok w
  unwatch_all (p ∷ ps) w = do w' ← unwatch p w; unwatch_all ps w'

  unfoldable pub watch_all : List Text → Watcher → Result Watcher
  watch_all [] w = ok w
  watch_all (p ∷ ps) w = do w' ← base.watch p w; watch_all ps w'

  -- Unwatch what is not among the paths any more, and watch what is new.
  unfoldable pub rewatch : List Text → List Text → Watcher → Result Watcher
  rewatch old_paths paths w = do
    w' ← unwatch_all (base.order (minus old_paths paths)) w
    watch_all (base.order (minus paths old_paths)) w'

  -- The path of an event is watched anew.
  unfoldable pub renew : Text → Watcher → Result Watcher
  renew alias w = do w' ← unwatch alias w; base.watch alias w'

  -- The loop of _watch_task, for as many events as there are: the links as they are when it resolves
  -- them, and the alias of the event that it waits for. The result has the paths of the last round.
  unfoldable pub watch_loop :
      ℕ
      → Text
      → Text
      → List ((Text → Option Text) × Text)
      → List Text
      → Watcher
      → Result (List Text × Watcher)
  watch_loop fuel cwd path [] paths w = ok (paths, w)
  watch_loop fuel cwd path ((readlink, alias) ∷ rounds) old_paths w = do
    found ← resolve_paths readlink fuel cwd path
    w' ← rewatch old_paths (to_set found) w
    w'' ← renew alias w'
    watch_loop fuel cwd path rounds (to_set found) w''

  -- _watch_task, whose finally closes the watcher
  unfoldable pub watch_task :
      ℕ → Bool → Text → Text → List ((Text → Option Text) × Text) → Result (List Text × Watcher)
  watch_task fuel exists cwd path rounds =
      if exists then watch_loop fuel cwd path rounds [] unused else ok ([], unused)
