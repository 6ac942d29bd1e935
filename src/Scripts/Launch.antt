-- ===== src/Scripts/Launch.antt =====
-- hpfeeds/scripts/broker.py: which authenticators and endpoints the broker's command line gives.
pub mod Runs
use hpfeeds.Prelude.{
  ℕ, suc, ◌==◌, ◌+◌, ◌≡◌, refl, List, [], ◌∷◌, ◌++◌, Bool, true, false, not, ◌&&◌, ◌||◌, Option,
  none, some, if◌then◌else◌, arith, length, ap, sym, ◌∙◌, text_eq,
}
use hpfeeds.Python.Result.{Error, Result, ok, err}
use hpfeeds.Python.Values.{Text, codes}
use hpfeeds.Broker.Endpoints.{endpoint_of}
use hpfeeds.Broker.Endpoints.Address.{legacy_endpoint}
use hpfeeds.Scripts.Options.{given}

-- s.startswith(prefix)
unfoldable pub starts_with : Text → Text → Bool
starts_with s [] = true
starts_with [] (p ∷ prefix) = false
starts_with (a ∷ s) (p ∷ prefix) = (a == p) && starts_with s prefix

-- s.endswith(suffix): the text or a shorter end of it is the suffix
unfoldable pub ends_with : Text → Text → Bool
ends_with [] suffix = text_eq [] suffix
ends_with (a ∷ s) suffix = let rest = ends_with s suffix in text_eq (a ∷ s) suffix || rest

-- An authenticator's class, and what it is made of.
pub data Backend : Type 0 where
  json mongo database sqlite : Text → Backend
  env : Backend

unfoldable pub get_authenticator : Text → Backend
get_authenticator auth =
    if ends_with auth (codes ".json")
    then json auth
    else if text_eq auth (codes "env")
    then env
    else if starts_with auth (codes "mongo")
    then mongo auth
    else if starts_with auth (codes "database+")
    then database auth
    else sqlite (codes "sqlite.db")

-- What argparse found.
pub record Args : Type 0 where
  pub bind : Option Text
  pub auth : Option (List Text)
  pub tlscert : Option Text
  pub tlskey : Option Text
  pub endpoint : Option (List Text)

-- How making an authenticator ends: ServerException, another exception, or nothing is raised.
pub data Making : Type 0 where
  made : Making
  server_exception : Text → Making
  raised : Error → Making

-- An endpoint: the keys of the dict with their values, which may be None.
abbrev pub Endpoint : Type 0
Endpoint = List (Text × Option Text)

-- How `main` ends: parser.error, sys.exit, an exception, or the broker is run with this stack of
-- authenticators and these endpoints.
pub data Launched : Type 0 where
  refused : Text → Launched
  exits : ℕ → Launched
  failed : Error → Launched
  runs : List Backend → List Endpoint → Launched

-- args.auth if args.auth else ['sqlite']
abbrev pub auths : Option (List Text) → List Text
auths none = codes "sqlite" ∷ []
auths (some []) = codes "sqlite" ∷ []
auths (some (a ∷ as')) = a ∷ as'

abbrev pub or_default_bind : Option Text → Text
or_default_bind none = codes "0.0.0.0:20000"
or_default_bind (some []) = codes "0.0.0.0:20000"
or_default_bind (some (a ∷ s)) = a ∷ s

abbrev pub listed : Option (List Text) → List Text
listed none = []
listed (some es) = es

abbrev pub with_values : List (Text × Text) → Endpoint
with_values [] = []
with_values ((k, v) ∷ ps) = (k, some v) ∷ with_values ps

-- not xs
abbrev pub is_nil : {A : Type 0} → List A → Bool
is_nil [] = true
is_nil (x ∷ xs) = false

-- for endpoint in args.endpoint: broker.add_endpoint_str(endpoint)
unfoldable pub add_endpoints : List Text → List Endpoint → Result (List Endpoint)
add_endpoints [] es = ok es
add_endpoints (t ∷ ts) es = elim (endpoint_of t) [
  | err e ↦ err e
  | ok ps ↦ add_endpoints ts (es ++ with_values ps ∷ [])
]

abbrev pub one_endpoint : Result Endpoint → Result (List Endpoint)
one_endpoint (err e) = err e
one_endpoint (ok ps) = ok (ps ∷ [])

-- if args.bind or not args.endpoint: …
unfoldable pub add_legacy : Args → Result (List Endpoint)
add_legacy a =
    if given a.bind || is_nil (listed a.endpoint)
    then one_endpoint (legacy_endpoint (or_default_bind a.bind) a.tlscert a.tlskey)
    else ok []

abbrev pub run_with : List Backend → Result (List Endpoint) → Launched
run_with stack (err e) = failed e
run_with stack (ok es) = runs stack es

unfoldable pub open_endpoints : List Backend → Args → Launched
open_endpoints stack a = elim (add_legacy a) [
  | err e ↦ failed e
  | ok es ↦ run_with stack (add_endpoints (listed a.endpoint) es)
]

module _ (make : Backend → Making) where
  -- for a in auths: auth.add(get_authenticator(a))
  unfoldable pub add_all : List Text → List Backend → Args → Launched
  add_all [] stack a = open_endpoints stack a
  add_all (t ∷ ts) stack a = elim (make (get_authenticator t)) [
    | made ↦ add_all ts (stack ++ get_authenticator t ∷ []) a
    | server_exception m ↦ exits 1
    | raised e ↦ failed e
  ]

  -- main, up to aiorun.run
  unfoldable pub launch : Args → Launched
  launch a =
      if (given a.tlscert && not (given a.tlskey)) || (given a.tlskey && not (given a.tlscert))
      then refused (codes "Must specify --tlskey AND --tlscert")
      else add_all (auths a.auth) [] a
