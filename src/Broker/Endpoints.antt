-- ===== src/Broker/Endpoints.antt =====
-- hpfeeds/broker/server.py: Server.add_endpoint_str.
pub mod Address
use hpfeeds.Prelude.{
  ℕ, ◌==◌, ◌≡◌, refl, List, [], ◌∷◌, ◌++◌, Bool, false, not, ◌&&◌, if◌then◌else◌, arith, contains,
  nat_eq, text_eq, ap, ◌∙◌,
}
use hpfeeds.Python.Result.{Result, ok, err, value_error, ◌>>=◌}
use hpfeeds.Python.Values.{Text, codes, onto}

abbrev pub colon : ℕ
colon = 58

abbrev pub backslash : ℕ
backslash = 92

abbrev pub equals : ℕ
equals = 61

-- re.split(r"(?<!\\):", s), where the flag says that a backslash stands before `s`
unfoldable pub tokenize : Bool → Text → List Text
tokenize escaped [] = [] ∷ []
tokenize escaped (a ∷ s) =
    let tokens = tokenize (a == backslash) s in
    if (a == colon) && not escaped then [] ∷ tokens else onto a tokens

abbrev with_key : ℕ → Result (Text × Text) → Result (Text × Text)
with_key a (err e) = err e
with_key a (ok (key, value)) = ok (a ∷ key, value)

-- key, value = token.split("=", 1): without a "=" the unpacking fails
unfoldable pub key_value : Text → Result (Text × Text)
key_value [] = err value_error
key_value (a ∷ s) = let r = key_value s in if a == equals then ok ([], s) else with_key a r

-- params[key] = value
unfoldable pub set_param : Text → Text → List (Text × Text) → List (Text × Text)
set_param key value [] = (key, value) ∷ []
set_param key value ((k, v) ∷ ps) =
    if text_eq k key then (k, value) ∷ ps else (k, v) ∷ set_param key value ps

-- for token in tokens: …
unfoldable pub set_params : List Text → List (Text × Text) → Result (List (Text × Text))
unfolding set_param key_value
set_params [] ps = ok ps
set_params (token ∷ tokens) ps = do
  (key, value) ← key_value token
  set_params tokens (set_param key value ps)

abbrev endpoint : List Text → Result (List (Text × Text))
endpoint [] = ok []
endpoint (kls ∷ tokens) = set_params tokens ((codes "class", kls) ∷ [])

-- The endpoint that Server.add_endpoint_str appends.
unfoldable pub endpoint_of : Text → Result (List (Text × Text))
unfolding tokenize set_params
endpoint_of s = endpoint (tokenize false s)

-- A text with neither a colon nor a backslash.
abbrev pub Plain : Text → Type 0
Plain s = (contains colon s ≡ false) × (contains backslash s ≡ false)

-- A class and its parameters, as an endpoint is written.
abbrev pub written : Text → List (Text × Text) → Text
written kls [] = kls
written kls ((k, v) ∷ ps) = kls ++ colon ∷ written (k ++ equals ∷ v) ps

abbrev pub AllPlain : List (Text × Text) → Type 0
AllPlain [] = Unit {0}
AllPlain ((k, v) ∷ ps) = Plain (k ++ equals ∷ v) × (contains equals k ≡ false) × AllPlain ps

abbrev pub assigned : List (Text × Text) → List (Text × Text) → List (Text × Text)
assigned [] ps = ps
assigned ((k, v) ∷ new) ps = assigned new (set_param k v ps)

abbrev tokens_of : List (Text × Text) → List Text
tokens_of [] = []
tokens_of ((k, v) ∷ ps) = (k ++ equals ∷ v) ∷ tokens_of ps

key_value-equals :
    (k v : Text) → contains equals k ≡ false → key_value (k ++ equals ∷ v) ≡ ok (k, v)
unfolding key_value contains
key_value-equals [] v h = refl
key_value-equals (a ∷ k) v h = ground (arith, key_value-equals k v)

tokenize-Plain : (t : Text) → Plain t → tokenize false t ≡ t ∷ []
unfolding tokenize contains
tokenize-Plain [] h = refl
tokenize-Plain (a ∷ t) (h, b) = ground (arith, tokenize-Plain t)

tokenize-colon : (t s : Text) → Plain t → tokenize false (t ++ colon ∷ s) ≡ t ∷ tokenize false s
unfolding tokenize contains
tokenize-colon [] s h = refl
tokenize-colon (a ∷ t) s (h, b) = ground (arith, tokenize-colon t s)

tokenize-written :
    (kls : Text) (ps : List (Text × Text))
    → Plain kls
    → AllPlain ps
    → tokenize false (written kls ps) ≡ kls ∷ tokens_of ps
tokenize-written kls [] p h = tokenize-Plain kls p
tokenize-written kls ((k, v) ∷ ps) p (q, e, rest) =
    tokenize-colon kls (written (k ++ equals ∷ v) ps) p
    ∙ ap (λ ts. kls ∷ ts) (tokenize-written (k ++ equals ∷ v) ps q rest)

set_params-tokens_of :
    (ps new : List (Text × Text))
    → AllPlain new
    → set_params (tokens_of new) ps ≡ ok (assigned new ps)
unfolding set_params
set_params-tokens_of ps [] h = refl
set_params-tokens_of ps ((k, v) ∷ new) (q, e, rest) =
    rw (key_value-equals k v e) (set_params-tokens_of (set_param k v ps) new rest)

-- An endpoint that is written as its class and parameters, without a colon or a backslash in them
-- nor a "=" in a key, is read as that class with the parameters assigned in order.
pub endpoint_of-written :
    (kls : Text) (ps : List (Text × Text))
    → Plain kls
    → AllPlain ps
    → endpoint_of (written kls ps) ≡ ok (assigned ps ((codes "class", kls) ∷ []))
unfolding endpoint_of
endpoint_of-written kls ps p h =
    ap endpoint (tokenize-written kls ps p h)
    ∙ set_params-tokens_of ((codes "class", kls) ∷ []) ps h
