-- ===== src/Watching/Paths.antt =====
-- hpfeeds/broker/utils/inotify.py, _resolve_paths in its mode that is not strict. What os.readlink
-- answers is a parameter, a target or an error, and does not change while the function runs.
pub mod Plain
pub mod Ends
use hpfeeds.Prelude.{
  ℕ, zero, suc, ◌==◌, List, [], ◌∷◌, ◌++◌, Bool, true, false, ◌||◌, Option, none, some, text_eq,
  if◌then◌else◌,
}
use hpfeeds.Python.Result.{Result, ok, err, runtime_error, out_of_fuel}
use hpfeeds.Python.Exec.{Exec, pure, raise, gets, modify, ◌>>=◌, ◌>>◌}
use hpfeeds.Python.Values.{Text, onto}

-- os.path.sep
abbrev pub sep : ℕ
sep = 47

abbrev dot : ℕ
dot = 46

-- `seen`: the link is resolved to a path, or being resolved. `found` starts with the last one found.
pub record Seen : Type 0 where
  pub seen : List (Text × Option Text)
  pub found : List Text

abbrev pub M : Type 0 → Type 0
M A = Exec Seen A

-- seen.get(p), where a key that is missing is told from a value of None
unfoldable pub lookup : Text → List (Text × Option Text) → Option (Option Text)
lookup p [] = none
lookup p ((k, v) ∷ kvs) = if text_eq k p then some v else lookup p kvs

unfoldable pub set_seen : Text → Option Text → M (Unit {0})
set_seen p v = modify (λ s. record s { seen = (p, v) ∷ s.seen })

unfoldable pub add_found : Text → M (Unit {0})
add_found p = modify (λ s. record s { found = p ∷ s.found })

-- rest.startswith(os.path.sep)
abbrev pub is_absolute : Text → Bool
is_absolute [] = false
is_absolute (c ∷ cs) = c == sep

-- rest.split(os.path.sep)
unfoldable pub split_path : Text → List Text
split_path [] = [] ∷ []
split_path (c ∷ cs) = let names = split_path cs in if c == sep then [] ∷ names else onto c names

-- path.rpartition(os.path.sep)[0]: what is before the last separator
abbrev pub before : Bool → ℕ → Option Text → Option Text
before b c none = if b then some [] else none
before b c (some p) = some (c ∷ p)

abbrev pub up_to_last : Text → Option Text
up_to_last [] = none
up_to_last (c ∷ cs) = before (c == sep) c (up_to_last cs)

abbrev pub or_empty : Option Text → Text
or_empty none = []
or_empty (some p) = p

abbrev pub parent : Text → Text
parent p = or_empty (up_to_last p)

-- not name or name == '.'
abbrev pub is_current : Text → Bool
is_current [] = true
is_current (c ∷ cs) = text_eq (c ∷ cs) (dot ∷ [])

-- name == '..'
abbrev pub is_parent : Text → Bool
is_parent name = text_eq name (dot ∷ dot ∷ [])

abbrev pub or_root : Text → Text
or_root [] = sep ∷ []
or_root (c ∷ cs) = c ∷ cs

-- return found
abbrev pub collect : Result (Unit {0}) → Seen → Result (List Text)
collect (ok u) s = ok s.found
collect (err e) s = err e

module _ (readlink : Text → Option Text) where
  -- What a path is that was not seen yet: a link's target is resolved from where the link is.
  unfoldable pub follow : (Text → Text → M Text) → Text → Text → Option Text → M Text
  follow resolve path newpath none = pure newpath
  follow resolve path newpath (some target) = do
    set_seen newpath none
    p ← resolve path target
    set_seen newpath (some p)
    pure p

  unfoldable pub on_seen : (Text → Text → M Text) → Text → Text → Option (Option Text) → M Text
  on_seen resolve path newpath (some (some p)) = pure p
  on_seen resolve path newpath (some none) = raise runtime_error
  on_seen resolve path newpath none = do
    add_found newpath
    follow resolve path newpath (readlink newpath)

  unfoldable pub enter : (Text → Text → M Text) → Text → Text → M Text
  enter resolve path newpath = do
    v ← gets (λ s. lookup newpath s.seen)
    on_seen resolve path newpath v

  -- for name in rest.split(os.path.sep): …
  unfoldable pub walk : (Text → Text → M Text) → List Text → Text → M Text
  walk resolve [] path = pure path
  walk resolve (name ∷ names) path =
      if is_current name
      then walk resolve names path
      else if is_parent name
      then walk resolve names (parent path)
      else (do p ← enter resolve path (path ++ sep ∷ name); walk resolve names p)

  -- _resolve
  unfoldable pub resolve : ℕ → Text → Text → M Text
  resolve zero path rest = raise out_of_fuel
  resolve (suc fuel) path rest =
      walk (resolve fuel) (split_path rest) (if is_absolute rest then [] else path)

  -- _resolve_paths, without its state at the end
  unfoldable pub find_paths : ℕ → Text → Text → M (Unit {0})
  find_paths fuel cwd path = do
    p ← resolve fuel (if is_absolute path then [] else cwd) path
    add_found (or_root p)

  unfoldable pub resolve_paths : ℕ → Text → Text → Result (List Text)
  resolve_paths fuel cwd path =
      let (r, s) = find_paths fuel cwd path (record { seen = []; found = path ∷ [] }) in collect r s
