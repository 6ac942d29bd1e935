-- ===== src/Twisted/Tests.antt =====
-- hpfeeds/twisted/service.py: a service that subscribes, connects, and loses its connection.
use hpfeeds.Prelude.{List, [], ◌∷◌}
use hpfeeds.Python.Exec.{for_each}
use hpfeeds.Python.Exec.Simulates.{Alike}
use hpfeeds.Client.Tests.{cfg, challenge}
use hpfeeds.Twisted.Service.{Call, receive, reconnecting, publishing, subscribing, initial, call}
use hpfeeds.Twisted.Same.{as_session}
use hpfeeds.Twisted.Same.Calls.{session_call, calls-Same}

abbrev twice : List Call
twice =
    subscribing (66 ∷ [])
    ∷ receive 3 challenge
    ∷ publishing (66 ∷ []) (9 ∷ [])
    ∷ reconnecting
    ∷ receive 3 challenge
    ∷ []

calls-Same_example :
    Alike as_session
      (for_each twice (call cfg) initial)
      (for_each twice (session_call cfg) (as_session initial))
calls-Same_example = calls-Same cfg twice initial
