-- ===== src/Scripts/Cli/Exits.antt =====
-- hpfeeds/scripts/cli.py: how `_main` ends.
use hpfeeds.Prelude.{ℕ, ◌≡◌, refl, List, Bool, true, false, Option, none, some, arith, ap, sym, ◌∙◌}
use hpfeeds.Python.Result.{
  Error, Result, ok, err, type_error, attribute_error, is_own, is_feed_exception,
}
use hpfeeds.Python.Exec.{pure, lift, modify, ◌>>=◌, ◌>>◌}
use hpfeeds.Python.Exec.Bind.{bind-eq-ok}
use hpfeeds.Python.Exec.Keeps.{
  Outcome, keeps_rules, Keeps-pure, Keeps-raise, Keeps-lift, Keeps-bind, Keeps-if, Keeps-modify,
}
use hpfeeds.Python.Struct.{Bytes}
use hpfeeds.Python.Values.{Text, Library, Value, text, bytes}
use hpfeeds.Legacy.Connection.{Config, Client, M, tryconnect}
use hpfeeds.Legacy.Run.{subscribe, publish, wait, run, stop, close}
use hpfeeds.Legacy.Raises.{
  Any, Unfed, Foreign, Unfed-Foreign, own-feed, tryconnect-Foreign, publish-Foreign,
}
use hpfeeds.Legacy.Raises.Run.{run-Foreign, wait-Foreign}
use hpfeeds.Legacy.Stops.{run-stopped}
use hpfeeds.Scripts.Options.{Options, Action, to_subscribe, to_publish, to_sendfile}
use hpfeeds.Scripts.Cli.{
  on_message, on_error, iterated, caught_if, after_feed, complains, config, act, main,
}

on_message-Foreign : (ident chan : Text) (payload : Bytes) → Foreign (on_message ident chan payload)
unfolding on_message
on_message-Foreign ident chan payload =
    Keeps-if _ _ _ (λ e. Keeps-pure tt) (λ e. Keeps-raise attribute_error (λ s p. refl))

on_error-Foreign : (payload : Text) → Foreign (on_error payload)
unfolding on_error stop
on_error-Foreign payload = Keeps-modify _ (λ s p. tt)

uncaught :
    (e : Error) (s : Client) → is_feed_exception e ≡ false → after_feed (err e) s ≡ (err e, s)
uncaught e s h = ap (λ b. caught_if b e s) h

-- A call without a FeedException leaves nothing to catch.
after_feed-ok :
    (r : Result (Unit {0})) (b : Bool) (s t : Client)
    → Outcome Any (λ e s. is_feed_exception e ≡ false) (r, s)
    → after_feed r s ≡ (ok b, t)
    → (b ≡ false) × (r ≡ ok tt) × (s ≡ t)
after_feed-ok (ok a) b s t h e = (cc, refl, ap (λ o. o.1) e)
after_feed-ok (err x) b s t h e = cc (uncaught x s h, e)

complains-ok :
    (m : M (Unit {0})) (b : Bool) (s t : Client)
    → Unfed m
    → complains m s ≡ (ok b, t)
    → (b ≡ false) × (m s ≡ (ok tt, t))
unfolding complains
complains-ok m b s t k e =
    let (p, q, r) = after_feed-ok (m s).0 b (m s).1 t (k.at s tt) e in
    (p, ap (λ x. (x, (m s).1)) q ∙ ap (λ x. (ok tt, x)) r)

Outcome-after_feed :
    (r : Result (Unit {0})) (s : Client)
    → Outcome Any (λ e s. is_own e ≡ false) (r, s)
    → Outcome Any (λ e s. is_own e ≡ false) (after_feed r s)
Outcome-after_feed (ok a) s h = tt
Outcome-after_feed (err e) s h = rw (own-feed e h) h

complains-Foreign : (m : M (Unit {0})) → Foreign m → Foreign (complains m)
unfolding complains
complains-Foreign m k = record { at = λ s p. Outcome-after_feed (m s).0 (m s).1 (k.at s p) }

-- What the action leaves behind: a subscriber was stopped.
abbrev pub Ended : Action → Client → Type 0
Ended to_subscribe t = t.stopped ≡ true
Ended to_publish t = Unit {0}
Ended to_sendfile t = Unit {0}

module _ (lib : Library) (order : List Text → List Text) (contents : Text → Result Bytes)
    (o : Options) where
  abbrev client : Config
  client = config lib order contents o

  run-cli : (fuel : ℕ) → Foreign (run client on_message on_error fuel)
  run-cli = run-Foreign client refl on_message on_error on_message-Foreign on_error-Foreign

  close-Foreign : Foreign close
  unfolding close
  close-Foreign = search keeps_rules

  ap_ok :
      {A : Type 0} {a b : A} {s t : Client}
      → ◌≡◌ {A = Result A × Client} (ok a, s) (ok b, t)
      → b ≡ a
  ap_ok e = cc

  act-Ended :
      (fuel : ℕ) (action : Action) (pubdata : Text) (b : Bool) (s t : Client)
      → act lib order contents o fuel action pubdata s ≡ (ok b, t)
      → (b ≡ false) × Ended action t
  unfolding act pure
  act-Ended fuel to_subscribe pubdata b s t e =
      let (cs, u, _, e1) = bind-eq-ok (lift (iterated o.channels)) _ s t e in
      let (_, v, _, e2) = bind-eq-ok (subscribe cs) _ u t e1 in
      let (p, q) =
        complains-ok (run client on_message on_error fuel) b v t (Unfed-Foreign _ (run-cli fuel))
          e2 in
      (p, run-stopped client on_message on_error fuel v t q)
  act-Ended fuel to_publish pubdata b s t e =
      let (cs, u, _, e1) = bind-eq-ok (lift (iterated o.channels)) _ s t e in
      let (_, v, _, e2) = bind-eq-ok (publish client fuel cs (text pubdata)) _ u t e1 in
      let (_, w, _, e3) = bind-eq-ok (wait client fuel) _ v t e2 in (ap_ok e3, tt)
  act-Ended fuel to_sendfile pubdata b s t e =
      let (d, u, _, e1) = bind-eq-ok (lift (contents pubdata)) _ s t e in
      let (cs, v, _, e2) = bind-eq-ok (lift (iterated o.channels)) _ u t e1 in
      let (_, w, _, e3) = bind-eq-ok (publish client fuel cs (bytes d)) _ v t e2 in (ap_ok e3, tt)

  close-ok :
      (n : ℕ) (s t : Client)
      → (do close; pure 0) s ≡ (ok n, t)
      → (n ≡ 0) × (t.sock_open ≡ false) × (t.stopped ≡ s.stopped)
  unfolding close modify pure ◌>>=◌
  close-ok n s t e = (ap_ok e, sym (ap (λ o. o.1.sock_open) e), sym (ap (λ o. o.1.stopped) e))

  Ended-stopped :
      (action : Action) (s t : Client) → t.stopped ≡ s.stopped → Ended action s → Ended action t
  Ended-stopped to_subscribe s t e h = e ∙ h
  Ended-stopped to_publish s t e h = tt
  Ended-stopped to_sendfile s t e h = tt

  -- Where `_main` returns, the exit code is 0, the socket is closed, and after `subscribe` the client
  -- was stopped, which on_error does: no connection that fails and no FeedException gets it to 1.
  pub main-Ended :
      (fuel n : ℕ) (action : Action) (pubdata : Text) (s t : Client)
      → main lib order contents o fuel action pubdata s ≡ (ok n, t)
      → (n ≡ 0) × (t.sock_open ≡ false) × Ended action t
  unfolding main
  main-Ended fuel n action pubdata s t e =
      let (failed, u, p, e1) = bind-eq-ok (complains (tryconnect client fuel)) _ s t e in
      let (f, _) =
        complains-ok (tryconnect client fuel) failed s u
          (Unfed-Foreign _ (tryconnect-Foreign client fuel)) p in
      let (failed', v, p', e2) =
        bind-eq-ok (act lib order contents o fuel action pubdata) _ u t (rw f at e1) in
      let (f', h) = act-Ended fuel action pubdata failed' u v p' in
      let (z, c, same) = close-ok n v t (rw f' at e2) in (z, c, Ended-stopped action v t same h)

  subscribe-Foreign : (cs : List Text) → Foreign (subscribe cs)
  unfolding subscribe
  subscribe-Foreign cs = search keeps_rules

  iterated-Foreign : (cs : Option (List Text)) → Foreign (lift (iterated cs))
  iterated-Foreign none = Keeps-lift (err type_error) (λ e h s p. ground (arith, h))
  iterated-Foreign (some cs) = Keeps-lift (ok cs) (λ e h s p. absurd (cc))

  publish-cli :
      (fuel : ℕ) (cs : List Text) (payload : Value) → Foreign (publish client fuel cs payload)
  publish-cli = publish-Foreign client refl

  ruleset calls = (
    keeps_rules, complains-Foreign, iterated-Foreign, subscribe-Foreign, publish-cli, wait-Foreign,
    run-cli,
  )

  act-Foreign :
      (fuel : ℕ) (action : Action) (pubdata : Text)
      → ((path : Text) (e : Error) → contents path ≡ err e → is_own e ≡ false)
      → Foreign (act lib order contents o fuel action pubdata)
  unfolding act
  act-Foreign fuel to_subscribe pubdata h = search calls depth 9
  act-Foreign fuel to_publish pubdata h = search calls depth 9
  act-Foreign fuel to_sendfile pubdata h =
      Keeps-bind _ _ (Keeps-lift (contents pubdata) (λ e q s p. h pubdata e q))
        λ d. search calls depth 9

  -- `_main` raises no exception of hpfeeds/exceptions.py, where reading the file raises none: in
  -- particular no FeedException or Disconnect of the client, nor an error of the protocol, ends it.
  pub main-Foreign :
      (fuel : ℕ) (action : Action) (pubdata : Text)
      → ((path : Text) (e : Error) → contents path ≡ err e → is_own e ≡ false)
      → Foreign (main lib order contents o fuel action pubdata)
  unfolding main
  main-Foreign fuel action pubdata h =
      let acting = act-Foreign fuel action pubdata h in
      search (keeps_rules, complains-Foreign, tryconnect-Foreign, close-Foreign) depth 9
