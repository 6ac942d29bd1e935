-- ===== src/Auth/Memory.antt =====
-- hpfeeds/broker/auth/memory.py: users from a mapping. `none` in it is an empty mapping.
use hpfeeds.Prelude.{List, [], ◌∷◌, Option, none, if◌then◌else◌, text_eq}
use hpfeeds.Python.Values.{Text}
use hpfeeds.Broker.State.{Row, Lookup, awaitable, now, found}

abbrev pub Creds : Type 0
Creds = List (Text × Option Row)

unfoldable pub get_cred : Text → Creds → Option Row
get_cred ident [] = none
get_cred ident ((key, row) ∷ creds) = if text_eq key ident then row else get_cred ident creds

-- Authenticator.get_authkey
unfoldable pub ask_memory : Creds → Text → Lookup
unfolding get_cred
ask_memory creds ident = now (found (get_cred ident creds))

-- AsyncAuthenticator.get_authkey gives a coroutine.
unfoldable pub ask_memory_async : Creds → Text → Lookup
ask_memory_async creds ident = awaitable
