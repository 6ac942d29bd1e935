-- ===== src/Watching/Paths/Ends.antt =====
-- hpfeeds/broker/utils/inotify.py: the resolution of links ends.
use hpfeeds.Prelude.{
  ℕ, zero, suc, ◌+◌, ◌-◌, ap, ◌≤◌, ◌<◌, ◌≡◌, refl, ◌⊎◌, inl, inr, List, [], ◌∷◌, ◌++◌, true, Option,
  none, some, arith, length, text_eq_iff, text_eq, contains, list_eq, Bool, Bool-cases, false,
  if◌then◌else◌,
}
use mathlib.Core.Path.{subst}
use hpfeeds.Watching.Paths.Plain.{
  Plain, top, below, IsName, AllSingle, split_path-AllSingle, parent-Plain,
}
use hpfeeds.Python.Result.{Result, ok, err, runtime_error}
use hpfeeds.Python.Exec.{continue, ◌>>◌, pure, raise, gets, modify, ◌>>=◌}
use hpfeeds.Python.Values.{Text}
use hpfeeds.Watching.Paths.{
  Seen, M, lookup, set_seen, add_found, split_path, is_current, is_parent, parent, sep, follow,
  on_seen, enter, walk, resolve, find_paths, collect, resolve_paths, is_absolute, or_root,
}

abbrev unseen : Option (Option Text) → ℕ
unseen none = 1
unseen (some v) = 0

-- How many of these links were not seen yet.
abbrev pub free : List Text → List (Text × Option Text) → ℕ
free [] kvs = 0
free (l ∷ ls) kvs = unseen (lookup l kvs) + free ls kvs

free-set :
    (ls : List Text) (k : Text) (v : Option Text) (kvs : List (Text × Option Text))
    → free ls ((k, v) ∷ kvs) ≤ free ls kvs
unfolding lookup
free-set [] k v kvs = omega arith
free-set (l ∷ ls) k v kvs = ground (arith, free-set ls k v kvs)

free-set_lt :
    (ls : List Text) (k : Text) (v : Option Text) (kvs : List (Text × Option Text))
    → contains k ls ≡ true
    → lookup k kvs ≡ none
    → free ls ((k, v) ∷ kvs) < free ls kvs
unfolding lookup contains
free-set_lt [] k v kvs c n = cc
free-set_lt (l ∷ ls) k v kvs c n =
    ground (arith, free-set ls k v kvs, free-set_lt ls k v kvs, text_eq_iff l k, text_eq_iff k l)

module _ (readlink : Text → Option Text) where
  -- What was resolved is a plain path.
  abbrev Fine : List (Text × Option Text) → Type 0
  Fine [] = Unit {0}
  Fine ((k, none) ∷ kvs) = Fine kvs
  Fine ((k, some p) ∷ kvs) = Plain readlink p × Fine kvs

  lookup-Fine :
      (k p : Text) (kvs : List (Text × Option Text))
      → Fine kvs
      → lookup k kvs ≡ some (some p)
      → Plain readlink p
  unfolding lookup
  lookup-Fine k p [] h e = cc
  lookup-Fine k p ((l, none) ∷ kvs) h e = elim (Bool-cases (text_eq l k)) [
    | inl b ↦ absurd (ground (arith, b, e))
    | inr b ↦ lookup-Fine k p kvs h (rw (b, lookup) at e)
  ]
  lookup-Fine k p ((l, some q) ∷ kvs) (h, rest) e = elim (Bool-cases (text_eq l k)) [
    | inl b ↦ subst (Plain readlink) (ground (arith, b, e)) h
    | inr b ↦ lookup-Fine k p kvs rest (rw (b, lookup) at e)
  ]

  module _ (links : List Text)
      (known : (p name t : Text)
        → Plain readlink p
        → IsName name
        → readlink (p ++ sep ∷ name) ≡ some t
        → contains (p ++ sep ∷ name) links ≡ true) where
    abbrev Left : ℕ → Seen → Type 0
    Left n s = (free links s.seen ≤ n) × Fine s.seen

    -- A call gives a plain path, or raises the error for a loop of links.
    abbrev Good : ℕ → Result Text × Seen → Type 0
    Good n (ok p, s) = Plain readlink p × Left n s
    Good n (err e, s) = (e ≡ runtime_error) × Left n s

    bind-Good :
        (n : ℕ) (r : Result Text) (s : Seen) (k : Text → M Text)
        → Good n (r, s)
        → ((p : Text) (t : Seen) → Plain readlink p → Left n t → Good n (k p t))
        → Good n (continue r k s)
    bind-Good n (ok p) s k (g, h) kg = kg p s g h
    bind-Good n (err e) s k h kg = h

    after_resolve :
        (m n : ℕ) (newpath : Text) (r : Result Text) (s : Seen)
        → m ≤ n
        → Good m (r, s)
        → Good n (continue r (λ p. set_seen newpath (some p) >> pure p) s)
    unfolding set_seen modify pure ◌>>=◌
    after_resolve m n newpath (ok p) s l (g, (h, f)) =
        (g, (omega (arith, h, l, free-set links newpath (some p) s.seen), (g, f)))
    after_resolve m n newpath (err e) s l (q, (h, f)) = (q, (omega (arith, h, l), f))

    module _ (n : ℕ) (resolver : Text → Text → M Text)
        (deeper : (m : ℕ)
          → m < n
          → (path rest : Text) (s : Seen) → Plain readlink path
          → Left m s
          → Good m (resolver path rest s)) where
      follow-Good :
          (path name : Text) (o : Option Text) (s : Seen)
          → Plain readlink path
          → IsName name
          → readlink (path ++ sep ∷ name) ≡ o
          → lookup (path ++ sep ∷ name) s.seen ≡ none
          → Left n s
          → Good n (follow readlink resolver path (path ++ sep ∷ name) o s)
      unfolding follow set_seen modify pure ◌>>=◌
      follow-Good path name none s g i e u h = (below path name _ g i refl e, h)
      follow-Good path name (some target) s g i e u (h, f) =
          let newpath = path ++ sep ∷ name in
          let less = free-set_lt links newpath none s.seen (known path name target g i e) u in
          let s1 : Seen = record s { seen = (newpath, none) ∷ s.seen } in
          let o = resolver path target s1 in
          after_resolve (n - 1) n newpath o.0 o.1 (omega arith)
            (deeper (n - 1) (omega (arith, h, less)) path target s1 g (omega (arith, h, less), f))

      on_seen-Good :
          (path name : Text) (v : Option (Option Text)) (s : Seen)
          → Plain readlink path
          → IsName name
          → lookup (path ++ sep ∷ name) s.seen ≡ v
          → Left n s
          → Good n (on_seen readlink resolver path (path ++ sep ∷ name) v s)
      unfolding on_seen add_found raise modify pure ◌>>=◌
      on_seen-Good path name (some (some p)) s g i e (h, f) =
          (lookup-Fine (path ++ sep ∷ name) p s.seen f e, (h, f))
      on_seen-Good path name (some none) s g i e h = (refl, h)
      on_seen-Good path name none s g i e h =
          follow-Good path name (readlink (path ++ sep ∷ name))
            (record s { found = (path ++ sep ∷ name) ∷ s.found }) g i refl e h

      walk-Good :
          (names : List Text) (path : Text) (s : Seen)
          → AllSingle names
          → Plain readlink path
          → Left n s
          → Good n (walk readlink resolver names path s)
      unfolding walk enter gets pure ◌>>=◌
      walk-Good [] path s a g h = (g, h)
      walk-Good (name ∷ names) path s (one, rest) g h = elim (Bool-cases (is_current name)) [
        | inl b ↦ rw b (walk-Good names path s rest g h)
        | inr b ↦ elim (Bool-cases (is_parent name)) [
          | inl d ↦ rw (b, d) (walk-Good names (parent path) s rest (parent-Plain readlink g) h)
          | inr d ↦
              let o =
                on_seen readlink resolver path (path ++ sep ∷ name)
                  (lookup (path ++ sep ∷ name) s.seen) s in
              rw (b, d)
                (bind-Good n o.0 o.1 (walk readlink resolver names)
                  (on_seen-Good path name (lookup (path ++ sep ∷ name) s.seen) s g (b, d, one) refl
                    h)
                  (λ p t pg ph. walk-Good names p t rest pg ph))
        ]
      ]

    from : (b : Bool) (path : Text) → Plain readlink path → Plain readlink (if b then [] else path)
    from true path g = top
    from false path g = g

    resolve-Good :
        (fuel n : ℕ)
        → n < fuel
        → (path rest : Text) (s : Seen) → Plain readlink path
        → Left n s
        → Good n (resolve readlink fuel path rest s)
    unfolding resolve
    resolve-Good zero n l path rest s g h = absurd (omega (arith, l))
    resolve-Good (suc fuel) n l path rest s g h =
        walk-Good n (resolve readlink fuel) (λ m k. resolve-Good fuel m (omega (arith, k, l)))
          (split_path rest) _ s (split_path-AllSingle rest) (from (is_absolute rest) path g) h

    free-nil : (ls : List Text) → free ls [] ≤ length ls
    unfolding lookup
    free-nil [] = omega arith
    free-nil (l ∷ ls) = omega (arith, free-nil ls)

    collected :
        (n : ℕ) (r : Result Text) (s : Seen)
        → Good n (r, s)
        → let o = continue r (λ p. add_found (or_root p)) s in
          ((ps : List Text) × (collect o.0 o.1 ≡ ok ps)) ⊎ (collect o.0 o.1 ≡ err runtime_error)
    unfolding add_found modify
    collected n (ok p) s h = inl (_, refl)
    collected n (err e) s (q, h) = inr (ap err q)

    -- Where os.readlink finds only finitely many symbolic links below paths that have no link on them
    -- themselves, and the current directory is such a path: resolving any path ends, with a list of
    -- paths or with the RuntimeError for a loop of links, however the links point at each other. The
    -- calls of _resolve nest at most once for each link, and once more. What os.readlink says of any
    -- other text, as "/./a" or a path with a link on it, makes no difference.
    pub resolve_paths_ends :
        (fuel : ℕ) (cwd path : Text)
        → Plain readlink cwd
        → length links < fuel
        → ((ps : List Text) × (resolve_paths readlink fuel cwd path ≡ ok ps))
          ⊎ (resolve_paths readlink fuel cwd path ≡ err runtime_error)
    unfolding resolve_paths find_paths ◌>>=◌
    resolve_paths_ends fuel cwd path g l =
        let s : Seen = record { seen = []; found = path ∷ [] } in
        let o = resolve readlink fuel (if is_absolute path then [] else cwd) path s in
        collected (length links) o.0 o.1 (
          resolve-Good fuel (length links) l _ path s (from (is_absolute path) cwd g)
            (free-nil links, tt))
