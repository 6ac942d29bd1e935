-- ===== src/Auth/Variables.antt =====
-- hpfeeds/broker/auth/env.py: users from the variables of the environment.
use hpfeeds.Prelude.{
  ℕ, sym, ◌∙◌, inl, inr, Bool-cases, ◌≡◌, refl, ◌==◌, List, [], ◌∷◌, ◌++◌, false, Option, none,
  some, if◌then◌else◌, arith, contains, nat_eq, ap,
}
use hpfeeds.Python.Values.{Text, codes, onto}
use hpfeeds.Broker.State.{Row}

abbrev pub comma : ℕ
comma = 44

abbrev underscore : ℕ
underscore = 95

-- s.split(',')
unfoldable pub split : Text → List Text
split [] = [] ∷ []
split (a ∷ s) = let pieces = split s in if a == comma then [] ∷ pieces else onto a pieces

-- ','.join(pieces)
abbrev pub join : List Text → Text
join [] = []
join (piece ∷ []) = piece
join (piece ∷ next ∷ pieces) = piece ++ comma ∷ join (next ∷ pieces)

module _ (environ : Text → Option Text) (upper : Text → Text) where
  -- get_key
  unfoldable pub get_key : Text → Text → Option Text
  get_key ident value =
      environ (codes "HPFEEDS" ++ underscore ∷ (upper ident ++ underscore ∷ upper value))

  abbrev or_else : Option Text → Text → Text
  or_else none t = t
  or_else (some s) t = s

  abbrev pub row_of : Text → Text → Row
  row_of ident secret = record {
    secret = some secret;
    owner = some (or_else (get_key ident (codes "owner")) ident);
    subchans = some (split (or_else (get_key ident (codes "subchans")) []));
    pubchans = some (split (or_else (get_key ident (codes "pubchans")) []));
  }

  abbrev with_secret : Text → Option Text → Option Row
  with_secret ident none = none
  with_secret ident (some []) = none
  with_secret ident (some (c ∷ cs)) = some (row_of ident (c ∷ cs))

  -- Authenticator.get_authkey
  unfoldable pub ask_environ : Text → Option Row
  ask_environ ident = with_secret ident (get_key ident (codes "secret"))

-- No piece has a comma in it.
abbrev pub CommaFree : List Text → Type 0
CommaFree [] = Unit {0}
CommaFree (piece ∷ pieces) = (contains comma piece ≡ false) × CommaFree pieces

onto-CommaFree :
    (a : ℕ) (pieces : List Text)
    → (a == comma) ≡ false
    → CommaFree pieces
    → CommaFree (onto a pieces)
unfolding contains
onto-CommaFree a [] h f = (ground arith, tt)
onto-CommaFree a (piece ∷ pieces) h (f, rest) = (ground arith, rest)

split-CommaFree : (s : Text) → CommaFree (split s)
unfolding split contains
split-CommaFree [] = (refl, tt)
split-CommaFree (a ∷ s) = elim (Bool-cases (a == comma)) [
  | inl e ↦ rw e (refl, split-CommaFree s)
  | inr e ↦ rw e (onto-CommaFree a (split s) e (split-CommaFree s))
]

join-onto : (a : ℕ) (pieces : List Text) → join (onto a pieces) ≡ a ∷ join pieces
join-onto a [] = refl
join-onto a (piece ∷ []) = refl
join-onto a (piece ∷ next ∷ pieces) = refl

onto-∷ : (a : ℕ) (pieces : List Text) → (p : Text) × (ps : List Text) × (onto a pieces ≡ p ∷ ps)
onto-∷ a [] = (a ∷ [], [], refl)
onto-∷ a (piece ∷ pieces) = (a ∷ piece, pieces, refl)

split-∷ : (s : Text) → (p : Text) × (ps : List Text) × (split s ≡ p ∷ ps)
unfolding split
split-∷ [] = ([], [], refl)
split-∷ (a ∷ s) = elim (Bool-cases (a == comma)) [
  | inl e ↦ ([], split s, rw e refl)
  | inr e ↦ rw e (onto-∷ a (split s))
]

join-split : (s : Text) → join (split s) ≡ s
unfolding split
join-split [] = refl
join-split (a ∷ s) = elim (Bool-cases (a == comma)) [
  | inl e ↦
      let (p, ps, f) = split-∷ s in
      rw (e, f)
        (ap (λ t. comma ∷ t) (ap join (sym f) ∙ join-split s) ∙ ap (λ c. c ∷ s) (ground arith))
  | inr e ↦ rw e (join-onto a (split s) ∙ ap (λ t. a ∷ t) (join-split s))
]

-- Splitting at commas gives pieces without a comma that give the text back when they are joined.
pub split_lem : (s : Text) → (join (split s) ≡ s) × CommaFree (split s)
split_lem s = (join-split s, split-CommaFree s)
