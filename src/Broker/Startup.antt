-- ===== src/Broker/Startup.antt =====
-- hpfeeds/broker/server.py: Server.serve_forever and create_ssl_context. What is started and what is
-- closed again is a history; how each call of the event loop, of the sockets and of ssl ends is an
-- argument.
pub mod Tracks
pub mod History
pub mod Released
pub mod Tests
use hpfeeds.Prelude.{
  ℕ, suc, ◌==◌, List, [], ◌∷◌, ◌++◌, Bool, true, false, Option, none, some, if◌then◌else◌,
}
use hpfeeds.Python.Result.{
  Error, Result, ok, err, value_error, os_error, lookup_error, unbound_local, is_clean,
}
use hpfeeds.Python.Exec.{Exec, pure, raise, lift, gets, modify, when, for_each, try, ◌>>=◌, ◌>>◌}
use hpfeeds.Python.Values.{Text, codes}

-- What the server starts, by number.
pub data Resource : Type 0 where
  the_auth the_metrics : Resource
  a_server a_watcher : ℕ → Resource

-- How the calls for one endpoint end: whether the watches could be started, whether the files could
-- be loaded, and whether the socket could be bound and listened on.
pub record Endpoint : Type 0 where
  pub is_tls : Bool
  pub cert_watcher : Bool
  pub key_watcher : Bool
  pub cert_loads : Bool
  pub key_loads : Bool
  pub listens : Bool

-- Whether auth.start gives a finalizer (or None), and whether it and start_metrics_server return.
pub record Starts : Type 0 where
  pub auth_starts : Bool
  pub gives_finalizer : Bool
  pub metrics_start : Bool

-- How what the `finally` awaits ends: a cleanup of `cleanups`, the wait_closed of a server, and the
-- calls of metrics_finalizer and auth_finalizer. A finalizer that is no coroutine function gives None,
-- and awaiting that raises TypeError.
pub record Closes : Type 0 where
  pub cleanup : ℕ → Result (Unit {0})
  pub wait_closed : ℕ → Result (Unit {0})
  pub metrics : Result (Unit {0})
  pub auth : Result (Unit {0})

-- The locals of serve_forever, which are unbound at first, `cleanups`, and the history.
pub record Run : Type 0 where
  pub auth_finalizer : Option Bool
  pub metrics_finalizer : Bool
  pub servers : Option (List ℕ)
  pub cleanups : List ℕ
  pub opened : List Resource
  pub closed : List Resource
  pub next : ℕ

abbrev pub M : Type 0 → Type 0
M A = Exec Run A

abbrev pub not_run : Run
not_run = record {
  auth_finalizer = none;
  metrics_finalizer = false;
  servers = none;
  cleanups = [];
  opened = [];
  closed = [];
  next = 0;
}

-- self.cleanups.append(…)
unfoldable pub add_cleanup : M (Unit {0})
add_cleanup = modify λ s. record s {
  cleanups = s.cleanups ++ s.next ∷ [];
  opened = s.opened ++ a_watcher s.next ∷ [];
  next = suc s.next;
}

-- The watch of one file, or else one load of it.
unfoldable pub watch_or_load : Bool → Bool → M (Unit {0})
watch_or_load true loads = add_cleanup
watch_or_load false true = pure tt
watch_or_load false false = raise os_error

unfoldable pub create_ssl_context : Endpoint → M (Unit {0})
create_ssl_context e = do
  watch_or_load e.cert_watcher e.cert_loads
  watch_or_load e.key_watcher e.key_loads

abbrev and_server : ℕ → Option (List ℕ) → Option (List ℕ)
and_server n none = none
and_server n (some ns) = some (ns ++ n ∷ [])

-- servers.append(await create_server(…))
unfoldable pub add_server : M (Unit {0})
add_server = modify λ s. record s {
  servers = and_server s.next s.servers;
  opened = s.opened ++ a_server s.next ∷ [];
  next = suc s.next;
}

unfoldable pub open_endpoint : Endpoint → M (Unit {0})
open_endpoint e = do
  when e.is_tls (create_ssl_context e)
  if e.listens then add_server else raise os_error

unfoldable pub start_auth : Starts → M (Unit {0})
start_auth st =
    if st.auth_starts
    then modify (λ s. record s {
      auth_finalizer = some st.gives_finalizer;
      opened = if st.gives_finalizer then s.opened ++ the_auth ∷ [] else s.opened;
    })
    else raise lookup_error

unfoldable pub start_metrics : Starts → M (Unit {0})
start_metrics st =
    if st.metrics_start
    then modify (λ s. record s { metrics_finalizer = true; opened = s.opened ++ the_metrics ∷ [] })
    else raise os_error

-- The `try` of serve_forever, whose wait ends when the task is cancelled: self.exporter is a pair or
-- a list of two, which is true also for (None, None).
unfoldable pub starting : Starts → List Endpoint → M (Unit {0})
starting st endpoints = do
  start_auth st
  start_metrics st
  modify (λ s. record s { servers = some [] })
  for_each endpoints open_endpoint

unfoldable pub close_one : Resource → M (Unit {0})
close_one r = modify (λ s. record s { closed = s.closed ++ r ∷ [] })

unfoldable pub close_servers : Option (List ℕ) → M (Unit {0})
close_servers none = raise unbound_local
close_servers (some ns) = for_each ns (λ n. close_one (a_server n))

-- await cleanup(), and await metrics_finalizer(): the call is made, and then awaited
unfoldable pub close_awaited : Resource → Result (Unit {0}) → M (Unit {0})
close_awaited r awaited = do close_one r; lift awaited

unfoldable pub finalize_auth : Result (Unit {0}) → Option Bool → M (Unit {0})
finalize_auth awaited none = raise unbound_local
finalize_auth awaited (some false) = pure tt
finalize_auth awaited (some true) = close_awaited the_auth awaited

abbrev pub listed : Option (List ℕ) → List ℕ
listed none = []
listed (some ns) = ns

-- The `finally` of serve_forever: a local that is not bound raises UnboundLocalError.
unfoldable pub ending : Closes → M (Unit {0})
ending k = do
  servers ← gets (λ s. s.servers)
  close_servers servers
  cleanups ← gets (λ s. s.cleanups)
  for_each cleanups (λ n. close_awaited (a_watcher n) (k.cleanup n))
  for_each (listed servers) (λ n. lift (k.wait_closed n))
  bound ← gets (λ s. s.metrics_finalizer)
  if bound then close_awaited the_metrics k.metrics else raise unbound_local
  auth ← gets (λ s. s.auth_finalizer)
  finalize_auth k.auth auth

-- Every exception of the `try` is caught.
unfoldable pub serve_forever : Closes → Starts → List Endpoint → M (Unit {0})
serve_forever k st endpoints = do try (λ e. true) (starting st endpoints) (pure tt); ending k
