-- ===== src/Auth/Document.antt =====
-- hpfeeds/broker/auth/json.py: users from a JSON document, which may be loaded again at any time.
use hpfeeds.Prelude.{
  ap, ◌∙◌, Bool-cases, Option-cases, ◌≡◌, refl, ◌⊎◌, inl, inr, List, [], ◌∷◌, ◌++◌, Bool, true,
  false, ◌&&◌, Option, none, some, if◌then◌else◌, arith,
}
use hpfeeds.Python.Result.{Result, ok, ◌>>=◌}
use hpfeeds.Python.Values.{Text, codes}
use hpfeeds.Auth.Json.{
  Json, Fields, object, no_fields, field, get_field, truthy, is_list, subscript,
}

-- What get_authkey returns.
pub record Entry : Type 0 where
  pub ident : Text
  pub owner : Json
  pub secret : Json
  pub pubchans : Json
  pub subchans : Json

abbrev present : Option Json → Bool
present none = false
present (some v) = true

abbrev lists : Option Json → Bool
lists none = false
lists (some v) = is_list v

-- The tests on the value of one user.
unfoldable pub valid_entry : Json → Bool
valid_entry (object fs) =
    present (get_field (codes "owner") fs)
    && present (get_field (codes "secret") fs)
    && lists (get_field (codes "pubchans") fs)
    && lists (get_field (codes "subchans") fs)
valid_entry _ = false

unfoldable pub valid_users : Fields → Bool
unfolding valid_entry
valid_users no_fields = true
valid_users (field key value rest) = valid_entry value && valid_users rest

-- Authenticator.load: `none` where the file cannot be read or is no JSON. The argument and the
-- result are self.db.
unfoldable pub load : Option Json → Fields → Fields
unfolding valid_users
load (some (object fs)) db = if valid_users fs then fs else db
load _ db = db

-- dict(secret=res["secret"], …)
unfoldable pub entry_of : Text → Json → Result Entry
entry_of ident res = do
  secret ← subscript (codes "secret") res
  pubchans ← subscript (codes "pubchans") res
  subchans ← subscript (codes "subchans") res
  owner ← subscript (codes "owner") res
  ok record {
    ident = ident;
    owner = owner;
    secret = secret;
    pubchans = pubchans;
    subchans = subchans;
  }

abbrev answer : Text → Option Json → Result (Option Entry)
answer ident none = ok none
answer ident (some res) = if truthy res then (do e ← entry_of ident res; ok (some e)) else ok none

-- Authenticator.get_authkey
unfoldable pub get_authkey : Text → Fields → Result (Option Entry)
unfolding entry_of
get_authkey ident db = answer ident (get_field ident db)

-- A run of the program: the document is loaded again and again.
abbrev pub loads : List (Option Json) → Fields → Fields
loads [] db = db
loads (doc ∷ docs) db = loads docs (load doc db)

-- The call raises nothing, and the channels of a user that it gives are lists.
abbrev pub Serves : Text → Fields → Type 0
Serves ident db =
    (get_authkey ident db ≡ ok none)
    ⊎ ((e : Entry) × (get_authkey ident db ≡ ok (some e))
        × (e.ident ≡ ident)
        × (is_list e.pubchans ≡ true)
        × (is_list e.subchans ≡ true))

load-valid :
    (doc : Option Json) (db : Fields) → valid_users db ≡ true → valid_users (load doc db) ≡ true
unfolding load
load-valid none db h = h
load-valid (some (object fs)) db h = ground arith
load-valid (some _) db h = h

loads-valid :
    (docs : List (Option Json)) (db : Fields)
    → valid_users db ≡ true
    → valid_users (loads docs db) ≡ true
loads-valid [] db h = h
loads-valid (doc ∷ docs) db h = loads-valid docs (load doc db) (load-valid doc db h)

valid_users-get_field :
    (ident : Text) (db : Fields) (v : Json)
    → valid_users db ≡ true
    → get_field ident db ≡ some v
    → valid_entry v ≡ true
unfolding valid_users
valid_users-get_field ident no_fields v h e = ground arith
valid_users-get_field ident (field k w rest) v h e =
    ground (arith, valid_users-get_field ident rest v)

-- The result is an entry for the ident, with lists of channels.
abbrev Good : Text → Result Entry → Type 0
Good ident r =
    (e : Entry) × (r ≡ ok e)
    × (e.ident ≡ ident)
    × (is_list e.pubchans ≡ true)
    × (is_list e.subchans ≡ true)

lists-some : (o : Option Json) → lists o ≡ true → (v : Json) × (o ≡ some v) × (is_list v ≡ true)
lists-some none h = absurd (ground (arith, h))
lists-some (some v) h = (v, refl, h)

present-some : (o : Option Json) → present o ≡ true → (v : Json) × (o ≡ some v)
present-some none h = absurd (ground (arith, h))
present-some (some v) h = (v, refl)

entry_of-object :
    (ident : Text) (fs : Fields) (o s p q : Json)
    → get_field (codes "owner") fs ≡ some o
    → get_field (codes "secret") fs ≡ some s
    → get_field (codes "pubchans") fs ≡ some p
    → get_field (codes "subchans") fs ≡ some q
    → entry_of ident (object fs)
      ≡ ok record { ident = ident; owner = o; secret = s; pubchans = p; subchans = q }
unfolding entry_of
entry_of-object ident fs o s p q eo es ep eq = rw (es, ep, eq, eo)

valid_entry-Good : (ident : Text) (v : Json) → valid_entry v ≡ true → Good ident (entry_of ident v)
unfolding valid_entry
valid_entry-Good ident (object fs) h =
    let (o, eo) = present-some (get_field (codes "owner") fs) (ground (arith, h)) in
    let (s, es) = present-some (get_field (codes "secret") fs) (ground (arith, h)) in
    let (p, ep, lp) = lists-some (get_field (codes "pubchans") fs) (ground (arith, h)) in
    let (q, eq, lq) = lists-some (get_field (codes "subchans") fs) (ground (arith, h)) in
    (
      record { ident = ident; owner = o; secret = s; pubchans = p; subchans = q },
      entry_of-object ident fs o s p q eo es ep eq,
      refl,
      lp,
      lq,
    )
valid_entry-Good ident _ h = absurd (ground (arith, h))

answer-Serves : (ident : Text) (db : Fields) → valid_users db ≡ true → Serves ident db
unfolding get_authkey
answer-Serves ident db h = elim (Option-cases (get_field ident db)) [
  | inl e ↦ inl (ap (answer ident) e)
  | inr (v, e) ↦ elim (Bool-cases (truthy v)) [
    | inl t ↦
        let (x, f, i, p, q) = valid_entry-Good ident v (valid_users-get_field ident db v h e) in
        inr (x, rw (e, t, f) refl, i, p, q)
    | inr t ↦ inl (rw (e, t) refl)
  ]
]

-- However often the document was loaded, whatever was in it each time: looking up a user raises
-- nothing, and where it gives an entry, it is for that ident and has lists of channels.
pub loads-Serves : (docs : List (Option Json)) (ident : Text) → Serves ident (loads docs no_fields)
unfolding valid_users
loads-Serves docs ident =
    answer-Serves ident (loads docs no_fields) (loads-valid docs no_fields refl)

-- A document that the authenticator takes.
unfoldable pub accepted : Option Json → Bool
unfolding valid_users
accepted (some (object fs)) = valid_users fs
accepted _ = false

load-bad : (doc : Option Json) (db : Fields) → accepted doc ≡ false → load doc db ≡ db
unfolding load accepted
load-bad none db h = refl
load-bad (some (object fs)) db h = rw h
load-bad (some _) db h = refl

load-good :
    (users db : Fields)
    → accepted (some (object users)) ≡ true
    → load (some (object users)) db ≡ users
unfolding load accepted
load-good users db h = rw h

abbrev pub AllBad : List (Option Json) → Type 0
AllBad [] = Unit {0}
AllBad (doc ∷ docs) = (accepted doc ≡ false) × AllBad docs

loads-bad : (docs : List (Option Json)) (db : Fields) → AllBad docs → loads docs db ≡ db
loads-bad [] db h = refl
loads-bad (doc ∷ docs) db (h, rest) = rw (load-bad doc db h) (loads-bad docs db rest)

-- The users are those of the last document that was valid: later ones that cannot be read or that
-- fail a test change nothing.
loads-last_valid :
    (before after : List (Option Json)) (users db : Fields)
    → accepted (some (object users)) ≡ true
    → AllBad after
    → loads (before ++ some (object users) ∷ after) db ≡ users
loads-last_valid [] after users db h bad =
    ap (loads after) (load-good users db h) ∙ loads-bad after users bad
loads-last_valid (doc ∷ docs) after users db h bad =
    loads-last_valid docs after users (load doc db) h bad
