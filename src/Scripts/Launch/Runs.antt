-- ===== src/Scripts/Launch/Runs.antt =====
-- hpfeeds/scripts/broker.py: with what the broker is run.
use hpfeeds.Prelude.{
  ◌+◌, suc, ◌<◌, ◌≡◌, ◌⊎◌, refl, List, [], ◌∷◌, ◌++◌, append_assoc, append-nil, false, not, ◌&&◌,
  ◌||◌, arith, length, length-append, ap, sym, ◌∙◌, inl, inr, Bool-cases, true, ◌≢◌, text_eq,
  text_eq_iff, Option, none, some,
}
use mathlib.Core.Path.{subst}
use hpfeeds.Python.Result.{Error, Result, ok, err, Result-cases}
use hpfeeds.Python.Values.{Text, codes}
use hpfeeds.Broker.Endpoints.{endpoint_of}
use hpfeeds.Broker.Endpoints.Address.{legacy_endpoint}
use hpfeeds.Scripts.Options.{given}
use hpfeeds.Scripts.Launch.{
  Backend, json, env, mongo, database, sqlite, starts_with, ends_with, get_authenticator, Args,
  Making, made, server_exception, raised, Endpoint, runs, auths, listed, with_values, add_endpoints,
  add_legacy, run_with, open_endpoints, add_all, launch, one_endpoint,
}

-- The endpoints that these texts are read as.
abbrev pub AllRead : List Text → List Endpoint → Type 0
AllRead [] es = es ≡ []
AllRead (t ∷ ts) [] = ⊥
AllRead (t ∷ ts) (e ∷ es) =
    (ps : List (Text × Text)) × (endpoint_of t ≡ ok ps) × (e ≡ with_values ps) × AllRead ts es

abbrev pub authenticators : List Text → List Backend
authenticators [] = []
authenticators (t ∷ ts) = get_authenticator t ∷ authenticators ts

add_endpoints-ok :
    (ts : List Text) (es fs : List Endpoint)
    → add_endpoints ts es ≡ ok fs
    → (rest : List Endpoint) × (fs ≡ es ++ rest) × AllRead ts rest
unfolding add_endpoints
add_endpoints-ok [] es fs h = ([], cc (h, append-nil es), refl)
add_endpoints-ok (t ∷ ts) es fs h = elim (Result-cases (endpoint_of t)) [
  | inl (ps, e) ↦
      let (rest, p, q) =
        add_endpoints-ok ts (es ++ with_values ps ∷ []) fs (rw (e, add_endpoints) at h) in
      (with_values ps ∷ rest, p ∙ append_assoc es (with_values ps ∷ []) rest, (ps, e, refl, q))
  | inr (x, e) ↦ cc (e, h)
]

run_with-runs :
    (stack stack' : List Backend) (r : Result (List Endpoint)) (es : List Endpoint)
    → run_with stack r ≡ runs stack' es
    → (stack ≡ stack') × (r ≡ ok es)
run_with-runs stack stack' (ok fs) es h = (cc, cc)
run_with-runs stack stack' (err x) es h = cc

-- The one endpoint is what add_endpoint_legacy makes of this address.
abbrev pub Binds : Option Text → Option Text → Text → List Endpoint → Type 0
Binds cert key address es =
    (ps : Endpoint) × (legacy_endpoint address cert key ≡ ok ps) × (es ≡ ps ∷ [])

-- The endpoint of --bind, which an empty text does not give, or the default one where there is no -e.
abbrev pub Bound :
    Option Text → Option Text → Option Text → Option (List Text) → List Endpoint → Type 0
Bound cert key (some (c ∷ s)) texts es = Binds cert key (c ∷ s) es
Bound cert key _ none es = Binds cert key (codes "0.0.0.0:20000") es
Bound cert key _ (some []) es = Binds cert key (codes "0.0.0.0:20000") es
Bound cert key _ (some (t ∷ ts)) es = es ≡ []

-- The endpoints with which the broker is run.
abbrev pub Opened : Args → List Endpoint → Type 0
Opened a es =
    (first : List Endpoint) × (rest : List Endpoint) × Bound a.tlscert a.tlskey a.bind a.endpoint
      first
    × (es ≡ first ++ rest)
    × AllRead (listed a.endpoint) rest

-- Which authenticator a text gives, by the tests of its start and its end, in their order.
abbrev pub Stands : Text → Backend → Type 0
Stands t (json path) = (path ≡ t) × (ends_with t (codes ".json") ≡ true)
Stands t env = t ≡ codes "env"
Stands t (mongo url) =
    (url ≡ t) × (ends_with t (codes ".json") ≡ false) × (starts_with t (codes "mongo") ≡ true)
Stands t (database url) =
    (url ≡ t) × (ends_with t (codes ".json") ≡ false) × (starts_with t (codes "database+") ≡ true)
Stands t (sqlite path) =
    (path ≡ codes "sqlite.db")
    × (ends_with t (codes ".json") ≡ false)
    × (t ≢ codes "env")
    × (starts_with t (codes "mongo") ≡ false)
    × (starts_with t (codes "database+") ≡ false)

abbrev pub AllStand : List Text → List Backend → Type 0
AllStand [] bs = bs ≡ []
AllStand (t ∷ ts) [] = ⊥
AllStand (t ∷ ts) (b ∷ bs) = Stands t b × AllStand ts bs

-- The authenticators of --auth, or the default one where there is none.
abbrev pub Authenticates : Option (List Text) → List Backend → Type 0
Authenticates none bs = bs ≡ sqlite (codes "sqlite.db") ∷ []
Authenticates (some []) bs = bs ≡ sqlite (codes "sqlite.db") ∷ []
Authenticates (some (t ∷ ts)) bs = AllStand (t ∷ ts) bs

get_authenticator-Stands : (t : Text) → Stands t (get_authenticator t)
unfolding get_authenticator
get_authenticator-Stands t = elim (Bool-cases (ends_with t (codes ".json"))) [
  | inl j ↦ rw j (refl, j)
  | inr j ↦ elim (Bool-cases (text_eq t (codes "env"))) [
    | inl e ↦ rw (j, e) ((text_eq_iff t (codes "env")).0 e)
    | inr e ↦ elim (Bool-cases (starts_with t (codes "mongo"))) [
      | inl m ↦ rw (j, e, m) (refl, j, m)
      | inr m ↦ elim (Bool-cases (starts_with t (codes "database+"))) [
        | inl d ↦ rw (j, e, m, d) (refl, j, d)
        | inr d ↦
            rw (j, e, m, d)
              (refl, j, (λ q. ground (arith, e, (text_eq_iff t (codes "env")).1 q)), m, d)
      ]
    ]
  ]
]

authenticators-AllStand : (ts : List Text) → AllStand ts (authenticators ts)
authenticators-AllStand [] = refl
authenticators-AllStand (t ∷ ts) = (get_authenticator-Stands t, authenticators-AllStand ts)

auths-Authenticates : (o : Option (List Text)) → Authenticates o (authenticators (auths o))
unfolding get_authenticator ends_with starts_with text_eq
auths-Authenticates none = refl
auths-Authenticates (some []) = refl
auths-Authenticates (some (t ∷ ts)) = authenticators-AllStand (t ∷ ts)

one_endpoint-Binds :
    (cert key : Option Text) (address : Text) (r : Result Endpoint) (es : List Endpoint)
    → legacy_endpoint address cert key ≡ r
    → one_endpoint r ≡ ok es
    → Binds cert key address es
one_endpoint-Binds cert key address (err x) es e h = cc
one_endpoint-Binds cert key address (ok ps) es e h = (ps, e, cc)

add_legacy-Bound :
    (bind tlscert tlskey : Option Text) (auth texts : Option (List Text)) (es : List Endpoint)
    → let a : Args = record {
      bind = bind;
      auth = auth;
      tlscert = tlscert;
      tlskey = tlskey;
      endpoint = texts;
    } in
      add_legacy a ≡ ok es → Bound tlscert tlskey bind texts es
unfolding add_legacy
add_legacy-Bound (some (c ∷ s)) cert key auth texts es h =
    one_endpoint-Binds cert key (c ∷ s) _ es refl h
add_legacy-Bound none cert key auth none es h = one_endpoint-Binds cert key _ _ es refl h
add_legacy-Bound (some []) cert key auth none es h = one_endpoint-Binds cert key _ _ es refl h
add_legacy-Bound none cert key auth (some []) es h = one_endpoint-Binds cert key _ _ es refl h
add_legacy-Bound (some []) cert key auth (some []) es h = one_endpoint-Binds cert key _ _ es refl h
add_legacy-Bound none cert key auth (some (t ∷ ts)) es h = cc
add_legacy-Bound (some []) cert key auth (some (t ∷ ts)) es h = cc

open_endpoints-runs :
    (stack stack' : List Backend) (a : Args) (es : List Endpoint)
    → open_endpoints stack a ≡ runs stack' es
    → (stack ≡ stack') × Opened a es
unfolding open_endpoints
open_endpoints-runs stack stack' a es h = elim (Result-cases (add_legacy a)) [
  | inl (first, e) ↦
      let (p, q) =
        run_with-runs stack stack' (add_endpoints (listed a.endpoint) first) es
          (rw (e, open_endpoints) at h) in
      let (rest, r, read) = add_endpoints-ok (listed a.endpoint) first es q in
      (
        p,
        (
          first,
          rest,
          add_legacy-Bound a.bind a.tlscert a.tlskey a.auth a.endpoint first e,
          r,
          read,
        ),
      )
  | inr (x, e) ↦ cc (e, h)
]

length-AllRead : (ts : List Text) (es : List Endpoint) → AllRead ts es → length es ≡ length ts
length-AllRead [] es r = ap length r
length-AllRead (t ∷ ts) [] r = elim r [ ]
length-AllRead (t ∷ ts) (e ∷ es) r = ap suc (length-AllRead ts es r.3)

-- There is an endpoint.
Bound-lt :
    (cert key bind : Option Text) (texts : Option (List Text)) (first rest : List Endpoint)
    → Bound cert key bind texts first
    → AllRead (listed texts) rest
    → 0 < length first + length rest
Bound-lt cert key (some (c ∷ s)) texts first rest (ps, e, p) r = omega (arith, ap length p)
Bound-lt cert key none none first rest (ps, e, p) r = omega (arith, ap length p)
Bound-lt cert key (some []) none first rest (ps, e, p) r = omega (arith, ap length p)
Bound-lt cert key none (some []) first rest (ps, e, p) r = omega (arith, ap length p)
Bound-lt cert key (some []) (some []) first rest (ps, e, p) r = omega (arith, ap length p)
Bound-lt cert key none (some (t ∷ ts)) first rest b r =
    omega (arith, length-AllRead (t ∷ ts) rest r)
Bound-lt cert key (some []) (some (t ∷ ts)) first rest b r =
    omega (arith, length-AllRead (t ∷ ts) rest r)

Opened-lt : (a : Args) (es : List Endpoint) → Opened a es → 0 < length es
Opened-lt a es (first, rest, b, p, r) = omega (
  arith,
  Bound-lt a.tlscert a.tlskey a.bind a.endpoint first rest b r,
  ap length p,
  length-append first rest,
)

make-cases :
    (m : Making)
    → (m ≡ made) ⊎ ((x : Text) × (m ≡ server_exception x)) ⊎ ((x : Error) × (m ≡ raised x))
make-cases made = inl refl
make-cases (server_exception x) = inr (inl (x, refl))
make-cases (raised x) = inr (inr (x, refl))

module _ (make : Backend → Making) where
  add_all-runs :
      (ts : List Text) (stack stack' : List Backend) (a : Args) (es : List Endpoint)
      → add_all make ts stack a ≡ runs stack' es
      → (stack' ≡ stack ++ authenticators ts) × Opened a es
  unfolding add_all
  add_all-runs [] stack stack' a es h =
      let (p, q) = open_endpoints-runs stack stack' a es h in (sym p ∙ sym (append-nil stack), q)
  add_all-runs (t ∷ ts) stack stack' a es h = elim (make-cases (make (get_authenticator t))) [
    | inl e ↦
        let (p, q) =
          add_all-runs ts (stack ++ get_authenticator t ∷ []) stack' a es (rw (e, add_all) at h) in
        (p ∙ append_assoc stack (get_authenticator t ∷ []) (authenticators ts), q)
    | inr (inl (x, e)) ↦ absurd (cc (rw (e, add_all) at h))
    | inr (inr (x, e)) ↦ absurd (cc (rw (e, add_all) at h))
  ]

  -- Where the broker is run: the authenticators are those of --auth, in its order, each chosen by how
  -- its text starts or ends, or sqlite where --auth is not given; a certificate comes with a key. The
  -- endpoints are what --bind gives, or 0.0.0.0:20000 where there is neither a --bind nor an -e, and
  -- none for it where there is an -e alone, followed by what each -e is read as: there is at least one.
  pub launch-runs :
      (a : Args) (stack : List Backend) (es : List Endpoint)
      → launch make a ≡ runs stack es
      → Authenticates a.auth stack
        × (given a.tlscert ≡ given a.tlskey)
        × Opened a es
        × (0 < length es)
  unfolding launch
  launch-runs a stack es h =
      elim (Bool-cases
        ((given a.tlscert && not (given a.tlskey)) || (given a.tlskey && not (given a.tlscert)))) [
          | inl b ↦ absurd (cc (rw (b, launch) at h))
          | inr b ↦
              let (p, opened) = add_all-runs (auths a.auth) [] stack a es (rw (b, launch) at h) in
              (
                subst (Authenticates a.auth) (sym p) (auths-Authenticates a.auth),
                ground (arith, b),
                opened,
                Opened-lt a es opened,
              )
        ]
