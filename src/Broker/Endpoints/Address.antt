-- ===== src/Broker/Endpoints/Address.antt =====
-- hpfeeds/broker/server.py: Server._parse_endpoint and add_endpoint_legacy.
use hpfeeds.Prelude.{ℕ, ◌==◌, List, [], ◌∷◌, Option, none, some, if◌then◌else◌}
use hpfeeds.Python.Result.{Result, ok, err, value_error, ◌>>=◌}
use hpfeeds.Python.Values.{Text, codes}
use hpfeeds.Broker.Endpoints.{colon}

-- endpoint.split(':', 1), where there is a ':'
abbrev with_first : ℕ → Option (Text × Text) → Option (Text × Text)
with_first a none = none
with_first a (some (interface, port)) = some (a ∷ interface, port)

unfoldable pub split_once : Text → Option (Text × Text)
split_once [] = none
split_once (a ∷ s) = let r = split_once s in if a == colon then some ([], s) else with_first a r

-- An address, or (None, None).
unfoldable pub parse_endpoint : Text → Result (Option (Text × Text))
parse_endpoint [] = ok none
parse_endpoint (a ∷ s) = elim (split_once (a ∷ s)) [ none ↦ err value_error | some r ↦ ok (some r) ]

abbrev host_of : Option (Text × Text) → Option Text
host_of none = none
host_of (some (interface, port)) = some interface

abbrev port_of : Option (Text × Text) → Option Text
port_of none = none
port_of (some (interface, port)) = some port

abbrev class_of : Option Text → Text
class_of none = codes "tcp"
class_of (some []) = codes "tcp"
class_of (some (c ∷ cs)) = codes "tls"

abbrev files : Option Text → Option Text → List (Text × Option Text)
files none key = []
files (some []) key = []
files (some (c ∷ cs)) key = (codes "cert", some (c ∷ cs)) ∷ (codes "key", key) ∷ []

-- The endpoint that add_endpoint_legacy appends; a value may be None.
unfoldable pub legacy_endpoint :
    Text → Option Text → Option Text → Result (List (Text × Option Text))
legacy_endpoint bind tlscert tlskey = do
  address ← parse_endpoint bind
  ok (
      (codes "class", some (class_of tlscert))
      ∷ (codes "interface", host_of address)
      ∷ (codes "port", port_of address)
      ∷ files tlscert tlskey)
