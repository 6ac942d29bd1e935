-- ===== src/Broker/Exporter.antt =====
-- hpfeeds/broker/prometheus.py: start_metrics_server and the finalizer that it gives, over what
-- aiohttp and the registry answer.
use hpfeeds.Prelude.{◌≡◌, refl, Bool, true, false}
use hpfeeds.Python.Result.{Error, Result, ok, err}
use hpfeeds.Python.Exec.{Exec, lift, modify, pure, ◌>>=◌, ◌>>◌}

-- What REGISTRY.register, runner.setup and site.start answer.
pub record Answers : Type 0 where
  pub register : Result (Unit {0})
  pub setup : Result (Unit {0})
  pub site_start : Result (Unit {0})

-- Whether the collector is registered.
pub record Exporter : Type 0 where
  pub registered : Bool

abbrev pub idle : Exporter
idle = record { registered = false }

-- The function `close` of start_metrics_server, where runner.cleanup gives `cleaned`: the `finally`
-- unregisters the collector, and an exception of cleanup goes on.
unfoldable pub close : Result (Unit {0}) → Exec Exporter (Unit {0})
close cleaned x = (cleaned, record { registered = false })

unfoldable pub start_metrics_server :
    Answers → Exec Exporter (Result (Unit {0}) → Exec Exporter (Unit {0}))
start_metrics_server a = do
  lift a.register
  modify (λ x. record x { registered = true })
  lift a.setup
  lift a.site_start
  pure close

unfoldable pub served : Answers → Result (Unit {0}) → Exec Exporter (Unit {0})
served a cleaned = do stop ← start_metrics_server a; stop cleaned

-- Once the collector is registered. Where the site is set up and started, closing unregisters the
-- collector, also where the cleanup raises, and raises just what that raises; where one of the two
-- fails, there is no function to call, and the collector stays registered.
served_lem :
    (a : Answers) (cleaned : Result (Unit {0}))
    → a.register ≡ ok tt
    → (a.setup ≡ ok tt → a.site_start ≡ ok tt → served a cleaned idle ≡ (cleaned, idle))
      × ((e : Error)
          → a.setup ≡ err e
          → served a cleaned idle ≡ (err e, record idle { registered = true }))
      × ((e : Error)
          → a.setup ≡ ok tt
          → a.site_start ≡ err e
          → served a cleaned idle ≡ (err e, record idle { registered = true }))
unfolding served start_metrics_server close lift modify pure ◌>>=◌
served_lem a cleaned r =
    (λ s t. rw (r, s, t) refl, λ e s. rw (r, s) refl, λ e s t. rw (r, s, t) refl)
