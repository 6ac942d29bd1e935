-- ===== src/Broker/Startup/Tests.antt =====
-- hpfeeds/broker/server.py: a broker with a TLS endpoint, whose second socket cannot be bound.
use hpfeeds.Prelude.{List, [], ◌∷◌, true, false, refl}
use hpfeeds.Python.Result.{ok, err, type_error}
use hpfeeds.Broker.Startup.{Endpoint, Starts, Closes, not_run, serve_forever}
use hpfeeds.Broker.Startup.Released.{Ends, serve_forever-Ends}

abbrev both_start : Starts
both_start = record { auth_starts = true; gives_finalizer = true; metrics_start = true }

abbrev tls : Endpoint
tls = record {
  is_tls = true;
  cert_watcher = true;
  key_watcher = false;
  cert_loads = true;
  key_loads = true;
  listens = true;
}

abbrev endpoints : List Endpoint
endpoints = tls ∷ record tls { is_tls = false; listens = false } ∷ []

-- The authenticator's finalizer is the method _close of the stack of backends, which is awaited.
abbrev closes : Closes
closes = record {
  cleanup = λ n. ok tt;
  wait_closed = λ n. ok tt;
  metrics = ok tt;
  auth = err type_error;
}

serve_forever-Ends_example :
    Ends (err type_error) true true true (serve_forever closes both_start endpoints not_run)
serve_forever-Ends_example =
    serve_forever-Ends closes
      (record { cleanups = λ n. refl; waits_closed = λ n. refl; metrics_close = refl }) both_start
      endpoints
