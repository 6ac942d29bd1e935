-- ===== src/Auth/Mongo.antt =====
-- hpfeeds/broker/auth/mongo.py: users from MongoDB. What the driver answers is an argument.
use hpfeeds.Prelude.{
  ℕ, ◌+◌, ◌≡◌, refl, Bool, true, false, not, ◌||◌, ◌&&◌, ap, ◌∙◌, Option, none, some, if◌then◌else◌,
  arith,
}
use hpfeeds.Python.Result.{Result, ok, err}
use hpfeeds.Python.Exec.{Exec, pure, lift, gets, modify, when, ◌>>=◌, ◌>>◌}
use hpfeeds.Python.Values.{Text, codes}
use hpfeeds.Auth.Json.{Fields, no_fields, object, field, subscript}
use hpfeeds.Auth.Document.{Entry}

-- self.connection, and how often a connection was asked for.
pub record Mongo : Type 0 where
  pub connection : Bool
  pub attempts : ℕ

-- Authenticator.db_connect
unfoldable pub db_connect : Result (Unit {0}) → Exec Mongo (Unit {0})
db_connect (ok done) m = (ok tt, record m { attempts = m.attempts + 1 })
db_connect (err e) m = (err e, record { connection = false; attempts = m.attempts + 1 })

-- dict(owner=auth_key['identifier'], …)
unfoldable pub entry_of_document : Text → Fields → Exec Mongo (Option Entry)
entry_of_document ident doc = do
  owner ← lift (subscript (codes "identifier") (object doc))
  secret ← lift (subscript (codes "secret") (object doc))
  pubchans ← lift (subscript (codes "publish") (object doc))
  subchans ← lift (subscript (codes "subscribe") (object doc))
  pure (
      some record {
        ident = ident;
        owner = owner;
        secret = secret;
        pubchans = pubchans;
        subchans = subchans;
      })

-- What becomes of the answer of find_one.
unfoldable pub on_found : Text → Result (Option Fields) → Exec Mongo (Option Entry)
on_found ident (err e) = do modify (λ m. record m { connection = false }); pure none
on_found ident (ok none) = pure none
on_found ident (ok (some no_fields)) = pure none
on_found ident (ok (some (field k v rest))) = entry_of_document ident (field k v rest)

-- Authenticator.get_authkey
unfoldable pub ask_mongo :
    Text → Result (Unit {0}) → Result (Option Fields) → Exec Mongo (Option Entry)
ask_mongo ident connect find = do
  connection ← gets (λ m. m.connection)
  when (not connection) (do db_connect connect; modify (λ m. record m { connection = true }))
  on_found ident find

abbrev raised {ℓ} : {A : Type ℓ} → Result A → Bool
raised (err e) = true
raised (ok a) = false

-- Whether a call leaves the authenticator connected.
abbrev pub usable : Bool → Result (Unit {0}) → Result (Option Fields) → Bool
usable connected connect find = (connected || not (raised connect)) && not (raised find)

lift-same :
    {A B : Type 0} (r : Result A) (f : A → Exec Mongo B) (m : Mongo)
    → ((a : A) → (f a m).1 ≡ m)
    → ((lift r >>= f) m).1 ≡ m
unfolding ◌>>=◌
lift-same (ok a) f m h = h a
lift-same (err e) f m h = refl

entry-same : (ident : Text) (doc : Fields) (m : Mongo) → (entry_of_document ident doc m).1 ≡ m
unfolding entry_of_document pure
entry-same ident doc m =
    lift-same _ _ m (λ o. lift-same _ _ m (λ s. lift-same _ _ m (λ p. lift-same _ _ m (λ q. refl))))

on_found_lem :
    (ident : Text) (find : Result (Option Fields)) (m : Mongo)
    → ((on_found ident find m).1.connection ≡ (m.connection && not (raised find)))
      × ((on_found ident find m).1.attempts ≡ m.attempts)
unfolding on_found ◌>>=◌ modify pure
on_found_lem ident (err e) m = (ground arith, refl)
on_found_lem ident (ok none) m = (ground arith, refl)
on_found_lem ident (ok (some no_fields)) m = (ground arith, refl)
on_found_lem ident (ok (some (field k v rest))) m =
    rw (entry-same ident (field k v rest) m) (ground arith, refl)

ask_mongo_from :
    (ident : Text) (connect : Result (Unit {0})) (find : Result (Option Fields)) (b : Bool) (n : ℕ)
    → ((ask_mongo ident connect find (record { connection = b; attempts = n })).1.connection
        ≡ usable b connect find)
      × ((ask_mongo ident connect find (record { connection = b; attempts = n })).1.attempts
          ≡ n + (if b then 0 else 1))
unfolding ask_mongo db_connect modify gets pure ◌>>=◌
ask_mongo_from ident connect find true n =
    let (c, a) = on_found_lem ident find (record { connection = true; attempts = n }) in
    (c, a ∙ omega arith)
ask_mongo_from ident (ok done) find false n =
    on_found_lem ident find (record { connection = true; attempts = n + 1 })
ask_mongo_from ident (err x) find false n = (refl, refl)

ask_mongo_lem :
    (ident : Text) (connect : Result (Unit {0})) (find : Result (Option Fields)) (m : Mongo)
    → ((ask_mongo ident connect find m).1.connection ≡ usable m.connection connect find)
      × ((ask_mongo ident connect find m).1.attempts ≡ m.attempts + (if m.connection then 0 else 1))
ask_mongo_lem ident connect find m = ask_mongo_from ident connect find m.connection m.attempts

-- After a call in which connecting or looking up failed, the next call asks for a connection once;
-- after any other it asks for none.
ask_mongo-reconnects :
    (ident ident' : Text) (connect connect' : Result (Unit {0}))
    (find find' : Result (Option Fields)) (m : Mongo)
    → (ask_mongo ident' connect' find' (ask_mongo ident connect find m).1).1.attempts
      ≡ (ask_mongo ident connect find m).1.attempts
        + (if usable m.connection connect find then 0 else 1)
ask_mongo-reconnects ident ident' connect connect' find find' m =
    (ask_mongo_lem ident' connect' find' (ask_mongo ident connect find m).1).1
    ∙ ap (λ b. (ask_mongo ident connect find m).1.attempts + (if b then 0 else 1))
        (ask_mongo_lem ident connect find m).0
