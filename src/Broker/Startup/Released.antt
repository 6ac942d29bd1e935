-- ===== src/Broker/Startup/Released.antt =====
-- hpfeeds/broker/server.py: what serve_forever started, it closes again.
use hpfeeds.Prelude.{
  ℕ, ◌≡◌, refl, List, [], ◌∷◌, ◌++◌, append_assoc, append-nil, Bool, true, false, some,
  if◌then◌else◌, ap, sym, ◌∙◌,
}
use hpfeeds.Python.Result.{Result, ok, err, unbound_local}
use hpfeeds.Python.Exec.{pure, raise, lift, gets, modify, for_each, try, after_try, continue, ◌>>=◌}
use hpfeeds.Python.Exec.Bind.{bind_of_ok}
use hpfeeds.Python.Exec.Keeps.{Outcome}
use hpfeeds.Broker.Startup.{
  Resource, the_metrics, a_server, a_watcher, Endpoint, Starts, Closes, Run, not_run, close_awaited,
  listed, open_endpoint, start_auth, start_metrics, starting, close_one, close_servers,
  finalize_auth, ending, serve_forever,
}
use hpfeeds.Broker.Startup.Tracks.{
  pick, server_of, watcher_of, other_of, auths, Tracks, Still, endpoints-Tracks,
}
use hpfeeds.Broker.Startup.History.{
  each, all_closed, pick-each, pick-each_self, pick-all_closed, auths-picks,
}

closes :
    (f : ℕ → Resource) (ns : List ℕ) (s : Run)
    → for_each ns (λ n. close_one (f n)) s ≡ (ok tt, record s { closed = s.closed ++ each f ns })
unfolding for_each close_one modify pure ◌>>=◌
closes f [] s = ap (λ c. (ok tt, record s { closed = c })) (sym (append-nil s.closed))
closes f (n ∷ ns) s =
    closes f ns (record s { closed = s.closed ++ f n ∷ [] })
    ∙ ap (λ c. (ok tt, record s { closed = c })) (append_assoc s.closed (f n ∷ []) (each f ns))

closes_awaited :
    (f : ℕ → Resource) (awaited : ℕ → Result (Unit {0})) (ns : List ℕ) (s : Run)
    → ((n : ℕ) → awaited n ≡ ok tt)
    → for_each ns (λ n. close_awaited (f n) (awaited n)) s
      ≡ (ok tt, record s { closed = s.closed ++ each f ns })
unfolding for_each close_awaited close_one lift modify pure ◌>>=◌
closes_awaited f awaited [] s h =
    ap (λ c. (ok tt, record s { closed = c })) (sym (append-nil s.closed))
closes_awaited f awaited (n ∷ ns) s h = rw (h n) (
    closes_awaited f awaited ns (record s { closed = s.closed ++ f n ∷ [] }) h
    ∙ ap (λ c. (ok tt, record s { closed = c })) (append_assoc s.closed (f n ∷ []) (each f ns)))

waits :
    (awaited : ℕ → Result (Unit {0})) (ns : List ℕ) (s : Run)
    → ((n : ℕ) → awaited n ≡ ok tt)
    → for_each ns (λ n. lift (awaited n)) s ≡ (ok tt, s)
unfolding for_each lift pure ◌>>=◌
waits awaited [] s h = refl
waits awaited (n ∷ ns) s h = rw (h n) (waits awaited ns s h)

-- How awaiting the authenticator's finalizer ends, where there is one.
abbrev pub finalizing : Result (Unit {0}) → Bool → Result (Unit {0})
finalizing r true = r
finalizing r false = ok tt

finalized :
    (r : Result (Unit {0})) (g : Bool) (s : Run)
    → finalize_auth r (some g) s ≡ (finalizing r g, record s { closed = s.closed ++ auths g })
unfolding finalize_auth close_awaited close_one lift modify pure ◌>>=◌
finalized r true s = refl
finalized r false s = ap (λ c. (ok tt, record s { closed = c })) (sym (append-nil s.closed))

servers_closed :
    (g : Bool) (s : Run)
    → Tracks g s
    → close_servers s.servers s
      ≡ (ok tt, record s { closed = each a_server (pick server_of s.opened) })
unfolding close_servers
servers_closed g s h =
    ap (λ o. close_servers o s) h.has_servers
    ∙ closes a_server (pick server_of s.opened) s
    ∙ ap (λ c. (ok tt, record s { closed = c ++ each a_server (pick server_of s.opened) }))
        h.none_closed

metrics_closed :
    (r : Result (Unit {0})) (b : Bool) (s : Run)
    → r ≡ ok tt
    → b ≡ true
    → (if b then close_awaited the_metrics r else raise unbound_local) s
      ≡ (ok tt, record s { closed = s.closed ++ the_metrics ∷ [] })
unfolding close_awaited close_one lift modify ◌>>=◌
metrics_closed r true s h e = rw h refl
metrics_closed r false s h e = cc

-- Nothing that the `finally` awaits raises, but for the authenticator's finalizer.
pub record Quiet (k : Closes) : Type 0 where
  pub cleanups : (n : ℕ) → k.cleanup n ≡ ok tt
  pub waits_closed : (n : ℕ) → k.wait_closed n ≡ ok tt
  pub metrics_close : k.metrics ≡ ok tt

ending-ok :
    (k : Closes) (g : Bool) (s : Run)
    → Quiet k
    → Tracks g s
    → ending k s ≡ (finalizing k.auth g, record s { closed = all_closed g s.opened })
unfolding ending gets ◌>>=◌
ending-ok k g s quiet h =
    let ns = pick server_of s.opened in
    let ws = pick watcher_of s.opened in
    let s1 : Run = record s { closed = each a_server ns } in
    let s2 : Run = record s { closed = each a_server ns ++ each a_watcher ws } in
    let s3 : Run = record s {
      closed = (each a_server ns ++ each a_watcher ws) ++ the_metrics ∷ [];
    } in
    bind_of_ok (close_servers s.servers) _ s s1 tt (servers_closed g s h)
    ∙ bind_of_ok (for_each s.cleanups (λ n. close_awaited (a_watcher n) (k.cleanup n))) _ s1 s2 tt (
        ap (λ ns. for_each ns (λ n. close_awaited (a_watcher n) (k.cleanup n)) s1) h.has_cleanups
        ∙ closes_awaited a_watcher k.cleanup ws s1 quiet.cleanups)
    ∙ bind_of_ok (for_each (listed s.servers) (λ n. lift (k.wait_closed n))) _ s2 s2 tt
        (waits k.wait_closed (listed s.servers) s2 quiet.waits_closed)
    ∙ bind_of_ok
        (if s.metrics_finalizer then close_awaited the_metrics k.metrics else raise unbound_local) _
        s2 s3 tt (metrics_closed k.metrics s.metrics_finalizer s2 quiet.metrics_close h.has_metrics)
    ∙ ap (λ a. finalize_auth k.auth a s3) h.has_auth
    ∙ finalized k.auth g s3

-- Every server and every watch that was started is closed, once and in the same order, and so are
-- the metrics and, where there is a finalizer, the authenticator.
pub record Released (g : Bool) (s : Run) : Type 0 where
  servers_closed_all : pick server_of s.closed ≡ pick server_of s.opened
  watchers_closed_all : pick watcher_of s.closed ≡ pick watcher_of s.opened
  others_opened : pick other_of s.opened ≡ auths g ++ the_metrics ∷ []
  others_closed : pick other_of s.closed ≡ the_metrics ∷ auths g

closed-Released :
    (g : Bool) (s : Run) → Tracks g s → Released g (record s { closed = all_closed g s.opened })
unfolding pick
closed-Released g s h =
    let ns = pick server_of s.opened in
    let ws = pick watcher_of s.opened in
    let (a, b, c) = auths-picks g in
    record {
      servers_closed_all =
          pick-all_closed server_of g s.opened
          ∙ rw
              (
                pick-each_self server_of a_server ns (λ n. refl),
                pick-each server_of a_watcher ws (λ n. refl),
                a,
              )
              (append-nil _ ∙ append-nil _ ∙ append-nil _);
      watchers_closed_all =
          pick-all_closed watcher_of g s.opened
          ∙ rw
              (
                pick-each_self watcher_of a_watcher ws (λ n. refl),
                pick-each watcher_of a_server ns (λ n. refl),
                b,
              )
              (append-nil _ ∙ append-nil _);
      others_opened = h.others;
      others_closed =
          pick-all_closed other_of g s.opened
          ∙ rw (
            pick-each other_of a_server ns (λ n. refl),
            pick-each other_of a_watcher ws (λ n. refl),
            c,
          );
    }

tracked : (g : Bool) (o : Result (Unit {0}) × Run) → Outcome (Tracks g) (Still g) o → Tracks g o.1
tracked g (ok a, s) h = h
tracked g (err e, s) h = h

-- The authenticator and the metrics have started.
abbrev all_ready : Bool → Run
all_ready g = record not_run {
  auth_finalizer = some g;
  metrics_finalizer = true;
  servers = some [];
  opened = auths g ++ the_metrics ∷ [];
}

all_ready-Tracks : (g : Bool) → Tracks g (all_ready g)
unfolding pick
all_ready-Tracks true = record {
  has_servers = refl;
  has_cleanups = refl;
  others = refl;
  has_metrics = refl;
  has_auth = refl;
  none_closed = refl;
}
all_ready-Tracks false = record {
  has_servers = refl;
  has_cleanups = refl;
  others = refl;
  has_metrics = refl;
  has_auth = refl;
  none_closed = refl;
}

-- How a run of the server ends, from whether the authenticator and the metrics start and from how
-- awaiting the authenticator's finalizer ends.
abbrev pub Ends : Result (Unit {0}) → Bool → Bool → Bool → Result (Unit {0}) × Run → Type 0
Ends r true true g o = (o.0 ≡ finalizing r g) × Released g o.1
Ends r true false g o = (o.0 ≡ err unbound_local) × (o.1.opened ≡ auths g) × (o.1.closed ≡ [])
Ends r false m g o = (o.0 ≡ err unbound_local) × (o.1.opened ≡ []) × (o.1.closed ≡ [])

started : (g : Bool) (es : List Endpoint) → Tracks g (for_each es open_endpoint (all_ready g)).1
started g es = tracked g _ ((endpoints-Tracks g es).at (all_ready g) (all_ready-Tracks g))

module _ (k : Closes) (quiet : Quiet k) where
  ended : (g : Bool) (s : Run) → Tracks g s → Ends k.auth true true g (ending k s)
  ended g s h = rw (ending-ok k g s quiet h) (refl, closed-Released g s h)

  finish :
      (g : Bool) (r : Result (Unit {0})) (s : Run)
      → Tracks g s
      → Ends k.auth true true g (
          continue
            (after_try (λ e. true) (pure tt) r s).0
            (λ _. ending k)
            (after_try (λ e. true) (pure tt) r s).1)
  unfolding pure
  finish g (ok a) s h = ended g s h
  finish g (err e) s h = ended g s h

  serves :
      (a m g : Bool) (es : List Endpoint)
      → Ends k.auth a m g (
          serve_forever k
            (record { auth_starts = a; gives_finalizer = g; metrics_start = m })
            es
            not_run)
  unfolding serve_forever starting start_auth start_metrics try ending close_servers gets modify
      raise pure ◌>>=◌
  serves false m g es = (refl, refl, refl)
  serves true false true es = (refl, refl, refl)
  serves true false false es = (refl, refl, refl)
  serves true true true es =
      finish true (for_each es open_endpoint (all_ready true)).0 _ (started true es)
  serves true true false es =
      finish false (for_each es open_endpoint (all_ready false)).0 _ (started false es)

  -- Where no cleanup, no wait_closed and not the metrics' finalizer raises. Where the authenticator and
  -- the metrics server start, however the calls for the endpoints end and when the task is cancelled:
  -- every server and every watch of a certificate that was started is closed once, in the order of
  -- starting, and so are the metrics server and the authenticator, and serve_forever ends as awaiting
  -- the authenticator's finalizer does. Where one of the two does not start, it raises an error of
  -- Python's (UnboundLocalError) and closes nothing, not even an authenticator that has started.
  pub serve_forever-Ends :
      (st : Starts) (endpoints : List Endpoint)
      → Ends k.auth st.auth_starts st.metrics_start st.gives_finalizer
          (serve_forever k st endpoints not_run)
  serve_forever-Ends st endpoints =
      serves st.auth_starts st.metrics_start st.gives_finalizer endpoints
