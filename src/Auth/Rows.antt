-- ===== src/Auth/Rows.antt =====
-- hpfeeds/broker/auth/sqlite.py and database.py: users from a database. What the drivers
-- and json.loads answer is an argument.
use hpfeeds.Prelude.{
  inl, inr, ◌≡◌, refl, Bool, true, false, Option, none, some, if◌then◌else◌, arith,
}
use hpfeeds.Python.Result.{Result, Result-cases, ok, err, type_error, lookup_error, ◌>>=◌}
use hpfeeds.Python.Values.{Text}
use hpfeeds.Auth.Json.{Json, null, string}
use hpfeeds.Auth.Document.{Entry}

-- A row of a table of users; a column may be NULL.
pub record Columns : Type 0 where
  pub owner : Option Text
  pub ident : Text
  pub secret : Option Text
  pub pubchans : Option Text
  pub subchans : Option Text

abbrev column : Option Text → Json
column none = null
column (some t) = string t

module _ (json : Text → Option Json) where
  abbrev parsed : Option Json → Result Json
  parsed none = err lookup_error
  parsed (some v) = ok v

  -- json.loads(column)
  abbrev load_column : Option Text → Result Json
  load_column none = err type_error
  load_column (some t) = parsed (json t)

  -- sqlite.py, Authenticator.get_authkey
  unfoldable pub ask_sqlite : Result (Option Columns) → Result (Option Entry)
  ask_sqlite (err e) = ok none
  ask_sqlite (ok none) = ok none
  ask_sqlite (ok (some row)) = do
    pubchans ← load_column row.pubchans
    subchans ← load_column row.subchans
    ok (
        some record {
          ident = row.ident;
          owner = column row.owner;
          secret = column row.secret;
          pubchans = pubchans;
          subchans = subchans;
        })

  -- except Exception as err: raise Exception(…)
  abbrev reraised {ℓ} : {A : Type ℓ} → Result A → Result A
  reraised (err e) = err lookup_error
  reraised (ok a) = ok a

  -- The `try` in Authenticator.get_authkey of database.py: column 1 is the ident and the owner.
  unfoldable pub parse_row : Columns → Result Entry
  parse_row row = do
    pubchans ← load_column row.pubchans
    subchans ← load_column row.subchans
    ok record {
      ident = row.ident;
      owner = string row.ident;
      secret = column row.secret;
      pubchans = pubchans;
      subchans = subchans;
    }

  abbrev parse_found : Option Columns → Result (Option Entry)
  parse_found none = ok none
  parse_found (some row) = do e ← reraised (parse_row row); ok (some e)

  -- database.py, Authenticator.get_authkey, with what connecting and fetching give. Connecting is
  -- tried only where the database is not connected.
  unfoldable pub ask_database :
      Bool → Result (Unit {0}) → Result (Option Columns) → Result (Option Entry)
  unfolding parse_row
  ask_database is_connected connect fetched = do
    done ← (if is_connected then ok tt else reraised connect)
    res ← fetched
    parse_found res

  abbrev pub raises : Result (Option Entry) → Bool
  raises (err e) = true
  raises (ok e) = false

  -- The two databases give the same user for the same row, and fail on the same rows, where the
  -- owner of the row in the one is the ident.
  sqlite-database :
      (row : Columns)
      → row.owner ≡ some row.ident
      → (raises (ask_sqlite (ok (some row))) ≡ raises (ask_database true (ok tt) (ok (some row))))
        × ((e : Entry)
            → ask_sqlite (ok (some row)) ≡ ok (some e)
            → ask_database true (ok tt) (ok (some row)) ≡ ok (some e))
  unfolding ask_sqlite ask_database parse_row
  sqlite-database row h = elim (Result-cases (load_column row.pubchans)) [
    | inl (p, ep) ↦ elim (Result-cases (load_column row.subchans)) [
      | inl (q, eq) ↦ rw (ep, eq, h) (refl, λ e k. k)
      | inr (x, eq) ↦ rw (ep, eq) (refl, λ e k. ground arith)
    ]
    | inr (x, ep) ↦ rw ep (refl, λ e k. ground arith)
  ]
