-- ===== src/Watching/Paths/Plain.antt =====
-- hpfeeds/broker/utils/inotify.py: the paths on which os.readlink is called.
use hpfeeds.Prelude.{
  ◌≡◌, refl, ◌==◌, List, [], ◌∷◌, ◌++◌, ℕ, Bool-cases, inl, inr, sym, true, false, Option, none,
  some, arith, contains, nat_eq, append_assoc, ap, ◌∙◌,
}
use mathlib.Core.Path.{subst}
use hpfeeds.Python.Values.{Text, onto}
use hpfeeds.Watching.Paths.{
  sep, split_path, is_current, is_parent, before, up_to_last, or_empty, parent, is_absolute,
}

-- A name without a separator.
abbrev pub IsSingle : Text → Type 0
IsSingle name = contains sep name ≡ false

-- A name that is neither empty nor "." nor "..".
abbrev pub IsName : Text → Type 0
IsName name = (is_current name ≡ false) × (is_parent name ≡ false) × IsSingle name

-- A path that goes down by names from the top, with no link on it: what os.getcwd gives. The top is
-- written as the empty text, or as a separator.
pub data Plain (readlink : Text → Option Text) : Text → Type 0 where
  top : Plain readlink []
  root : Plain readlink (sep ∷ [])
  below :
      (p name q : Text)
      → Plain readlink p
      → IsName name
      → q ≡ p ++ sep ∷ name
      → readlink q ≡ none
      → Plain readlink q

up_to_last-IsSingle : (name : Text) → IsSingle name → up_to_last name ≡ none
unfolding contains
up_to_last-IsSingle [] h = refl
up_to_last-IsSingle (c ∷ cs) h =
    ap (before (c == sep) c) (up_to_last-IsSingle cs (ground (arith, h))) ∙ ground (arith, h)

up_to_last-append : (p name : Text) → IsSingle name → up_to_last (p ++ sep ∷ name) ≡ some p
up_to_last-append [] name h = ap (before true sep) (up_to_last-IsSingle name h)
up_to_last-append (c ∷ cs) name h = ap (before (c == sep) c) (up_to_last-append cs name h)

abbrev pub AllSingle : List Text → Type 0
AllSingle [] = Unit {0}
AllSingle (name ∷ names) = IsSingle name × AllSingle names

onto-AllSingle :
    (c : ℕ) (names : List Text) → (c == sep) ≡ false → AllSingle names → AllSingle (onto c names)
unfolding contains
onto-AllSingle c [] e h = (ground (arith, e), tt)
onto-AllSingle c (name ∷ names) e (h, rest) = (ground (arith, e, h), rest)

pub split_path-AllSingle : (s : Text) → AllSingle (split_path s)
unfolding split_path contains
split_path-AllSingle [] = (refl, tt)
split_path-AllSingle (c ∷ cs) = elim (Bool-cases (c == sep)) [
  | inl e ↦ rw e (refl, split_path-AllSingle cs)
  | inr e ↦ rw e (onto-AllSingle c (split_path cs) e (split_path-AllSingle cs))
]

module _ (readlink : Text → Option Text) where
  pub parent-Plain : {q : Text} → Plain readlink q → Plain readlink (parent q)
  parent-Plain top = top
  parent-Plain root = top
  parent-Plain (below p name q h n e r) =
      subst (Plain readlink) (sym (ap parent e ∙ ap or_empty (up_to_last-append p name n.2))) h

  -- What is below a plain path starts with a separator.
  pub Plain-is_absolute :
      {p : Text} → Plain readlink p → (s : Text) → is_absolute (p ++ sep ∷ s) ≡ true
  Plain-is_absolute top s = refl
  Plain-is_absolute root s = refl
  Plain-is_absolute (below p name q h n e r) s =
      ap (λ x. is_absolute (x ++ sep ∷ s)) e
      ∙ ap is_absolute (append_assoc p (sep ∷ name) (sep ∷ s))
      ∙ Plain-is_absolute h (name ++ sep ∷ s)
