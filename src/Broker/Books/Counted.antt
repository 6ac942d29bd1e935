-- ===== src/Broker/Books/Counted.antt =====
-- hpfeeds/broker/server.py: the connections that the server lists, and the references of the
-- connections to the server.
use hpfeeds.Prelude.{
  ℕ, ◌+◌, ◌≤◌, ◌≡◌, refl, List, [], ◌∷◌, ◌++◌, true, false, some, arith, length, contains, count,
  add, discard, nat_eq, count-discard_self, count-discard_ne, count-add_self, count-add_ne,
  contains-add, list_eq, inl, inr, Bool-cases, ap, sym, ◌∙◌,
}
use hpfeeds.Python.Result.{Error}
use hpfeeds.Python.Exec.{modify, ◌>>=◌}
use hpfeeds.Python.Exec.Keeps.{Keeps, keeps_rules, Keeps-modify, Keeps-raise}
use hpfeeds.Python.Struct.{Bytes}
use hpfeeds.Python.Values.{Text}
use hpfeeds.Broker.State.{
  Broker, Conn, Env, Row, found, now, new_conn, M, Metric, client_connections_inc,
  client_connections_dec, connection_made, connection_lost, self, assign, on_conn, record_metric,
  server, write, close, pause_reading, resume_reading, set_write_buffer_limits, update,
}
use hpfeeds.Broker.Subscriptions.{subscribe, unsubscribe}
use hpfeeds.Broker.Subscriptions.Effects.{subscribe_lem, unsubscribe_lem}
use hpfeeds.Broker.Lifecycle.{made, lost, info}
use hpfeeds.Broker.Lifecycle.Effects.{
  dropped_all, connections-dropped_all, attached-dropped_all, mourned, detached, chans, lost_lem,
  lost-detached,
}
use hpfeeds.Broker.Handlers.{accept}
use hpfeeds.Broker.Rules.{is_gauge, Stable, Keeps-info}
use hpfeeds.Broker.Books.Gauge.{
  ups, downs, ups-append, downs-append, ups-sweep, downs-sweep, length-discard, contains-discard,
}
use hpfeeds.Broker.Steps.{Fresh, Reach, started}
use hpfeeds.Broker.Steps.Invariant.{Reach-keeps, outcome}

-- The gauge stands at the number of listed connections, each is listed once, and it is listed
-- exactly while it has a reference to the server.
pub record Counted (b : Broker) : Type 0 where
  pub gauge : ups b.metrics ≡ downs b.metrics + length b.connections
  pub single : (c : ℕ) → count c b.connections ≤ 1
  pub listed : (c : ℕ) → (b.conns c).attached ≡ contains c b.connections

abbrev pub Kept : Error → Broker → Type 0
Kept e = Counted

other_metric :
    (m : Metric) (ms : List Metric) (n : ℕ)
    → is_gauge m ≡ false
    → ups ms ≡ downs ms + n
    → ups (ms ++ m ∷ []) ≡ downs (ms ++ m ∷ []) + n
unfolding ups downs
other_metric m ms n k h = ground (arith, ups-append ms (m ∷ []), downs-append ms (m ∷ []))

record_metric-Counted : (m : Metric) → is_gauge m ≡ false → Keeps Counted Kept (record_metric m)
unfolding record_metric
record_metric-Counted m k = Keeps-modify _ λ s h. record {
  gauge = other_metric m s.metrics (length s.connections) k h.gauge;
  single = h.single;
  listed = h.listed;
}

update-attached :
    (c : ℕ) (f : Conn → Conn) (conns : ℕ → Conn) (d : ℕ)
    → ((x : Conn) → (f x).attached ≡ x.attached)
    → (update conns c f d).attached ≡ (conns d).attached
update-attached c f conns d k = ground (arith, k (conns c))

assign-Counted :
    (c : ℕ) (f : Conn → Conn)
    → ((x : Conn) → (f x).attached ≡ x.attached)
    → Keeps Counted Kept (assign c f)
unfolding assign modify on_conn
assign-Counted c f k = record {
  at = λ s h. record {
    gauge = h.gauge;
    single = h.single;
    listed = λ d. update-attached c f s.conns d k ∙ h.listed d;
  };
}

subscribe-Counted : (c : ℕ) (chan : Text) → Keeps Counted Kept (subscribe c chan)
subscribe-Counted c chan = record {
  at = λ s h. rw (subscribe_lem c chan s) (record {
    gauge = other_metric _ s.metrics (length s.connections) refl h.gauge;
    single = h.single;
    listed = λ d.
        update-attached c (λ x. record x { active = add chan x.active }) s.conns d (λ x. refl)
        ∙ h.listed d;
  });
}

unsubscribe-Counted : (c : ℕ) (chan : Text) → Keeps Counted Kept (unsubscribe c chan)
unsubscribe-Counted c chan = record {
  at = λ s h. rw (unsubscribe_lem c chan s) (record {
    gauge = other_metric _ s.metrics (length s.connections) refl h.gauge;
    single = h.single;
    listed = λ d.
        update-attached c (λ x. record x { active = discard chan x.active }) s.conns d (λ x. refl)
        ∙ h.listed d;
  });
}

task-Counted :
    (f : Broker → List (ℕ × Text × Bytes))
    → Keeps Counted Kept (modify (λ b. record b { tasks = f b }))
task-Counted f =
    Keeps-modify _ (λ s h. record { gauge = h.gauge; single = h.single; listed = h.listed })

module _ (env : Env) (c : ℕ) (s : Broker) (h : Counted s)
    (l : contains c s.connections ≡ true) where
  after : Broker
  after = detached c (dropped_all c (chans env c s) (mourned c s))

  after-gauge : ups after.metrics ≡ downs after.metrics + length after.connections
  unfolding after ups downs
  after-gauge = omega (
    arith,
    ups-sweep c (chans env c s) (mourned c s),
    downs-sweep c (chans env c s) (mourned c s),
    ups-append (s.metrics ++ client_connections_dec ∷ []) (connection_lost (s.conns c).ak ∷ []),
    downs-append (s.metrics ++ client_connections_dec ∷ []) (connection_lost (s.conns c).ak ∷ []),
    ups-append s.metrics (client_connections_dec ∷ []),
    downs-append s.metrics (client_connections_dec ∷ []),
    length-discard c s.connections l,
    ap length (ap (discard c) (connections-dropped_all c (chans env c s) (mourned c s))),
    h.gauge,
  )

  after-Counted : Counted after
  unfolding after
  after-Counted = record {
    gauge = after-gauge;
    single = λ d. rw (connections-dropped_all c (chans env c s) (mourned c s)) (
        ground (
          arith,
          h.single d,
          count-discard_self c s.connections,
          count-discard_ne c d s.connections,
        ));
    listed = λ d. rw (connections-dropped_all c (chans env c s) (mourned c s)) (
        ground (
          arith,
          h.listed d,
          contains-discard c d s.connections (h.single c),
          attached-dropped_all c d (chans env c s) (mourned c s),
        ));
  }

module _ (env : Env) where
  lost-Counted : (c : ℕ) → Keeps Counted Kept (lost env c)
  unfolding after
  lost-Counted c = record {
    at = λ s h. elim (Bool-cases (s.conns c).attached) [
      | inl a ↦
          let l : contains c s.connections ≡ true = sym (h.listed c) ∙ a in
          rw (lost_lem env c s a l) (after-Counted env c s h l)
      | inr a ↦ rw (lost-detached env c s a) h
    ];
  }

  accept-Counted :
      (pending : M (Unit {0})) (c : ℕ) (ident : Text) (row : Row)
      → Keeps Counted Kept pending
      → Keeps Counted Kept (accept env pending c ident row)
  unfolding accept set_write_buffer_limits resume_reading
  accept-Counted pending c ident row k =
      search (keeps_rules, Keeps-raise, record_metric-Counted, assign-Counted) depth 16

  -- Every call that a handler makes keeps the counts.
  pub Stable-Counted : (G : Text → Row → Type 0) → Stable env Counted Kept G
  unfolding write close pause_reading
  Stable-Counted G = record {
    raised = λ e k b h. h;
    recovered = λ e k b h. h;
    at_metric = record_metric-Counted;
    at_write = λ c m. assign-Counted c _ (λ x. refl);
    at_close = λ c. assign-Counted c _ (λ x. refl);
    at_pause = λ c. assign-Counted c _ (λ x. refl);
    at_task = λ c ident secret. task-Counted _;
    at_subscribe = subscribe-Counted;
    at_unsubscribe = unsubscribe-Counted;
    at_lost = lost-Counted;
    at_accept = λ pending c ident row k g. accept-Counted pending c ident row k;
  }

  -- The broker in the middle of `connection_made`, when the connection is on the list.
  entered : ℕ → Bytes → Broker → Broker
  entered c rand b = record b {
    conns = update b.conns c (λ _. new_conn rand);
    connections = add c b.connections;
    metrics = (b.metrics ++ client_connections_inc ∷ []) ++ connection_made ∷ [];
  }

  entered-Counted :
      (c : ℕ) (rand : Bytes) (b : Broker) → Fresh c b → Counted b → Counted (entered c rand b)
  unfolding entered add new_conn ups downs
  entered-Counted c rand b f h = record {
    gauge = ground (
      arith,
      f.unlisted,
      ups-append (b.metrics ++ client_connections_inc ∷ []) (connection_made ∷ []),
      downs-append (b.metrics ++ client_connections_inc ∷ []) (connection_made ∷ []),
      ups-append b.metrics (client_connections_inc ∷ []),
      downs-append b.metrics (client_connections_inc ∷ []),
      h.gauge,
    );
    single = λ d.
        ground (arith, h.single d, count-add_self c b.connections, count-add_ne c d b.connections);
    listed = λ d. ground (arith, h.listed d, contains-add c d b.connections);
  }

  made_lem :
      (c : ℕ) (rand : Bytes) (b : Broker)
      → made env c (on_conn c (λ _. new_conn rand) b) ≡ info env c env.name rand (entered c rand b)
  unfolding made entered server self record_metric modify on_conn new_conn ◌>>=◌
  made_lem c rand b = ground arith

  made-Counted :
      (c : ℕ) (rand : Bytes) (b : Broker)
      → Fresh c b
      → Counted b
      → Counted (made env c (on_conn c (λ _. new_conn rand) b)).1
  made-Counted c rand b f h = rw (made_lem c rand b) (
      outcome Counted _ (
        (Keeps-info env (Stable-Counted (λ _ _. Unit)) c env.name rand).at _
          (entered-Counted c rand b f h)))

started-Counted : Counted started
unfolding ups downs count contains new_conn
started-Counted = record { gauge = omega arith; single = λ c. omega arith; listed = λ c. refl }

module _ (env : Env) (G : Text → Row → Type 0)
    (granted : (ident : Text) (row : Row)
      → env.get_authkey ident ≡ now (found (some row))
      → G ident row) where
  -- Whatever happens to a broker that was started: the gauge of the connections has gone up as
  -- often as it has gone down and once more for each connection that the server lists; a
  -- connection is listed at most once, and is listed exactly while it refers to the server.
  pub Reach-Counted : {b : Broker} → Reach env G started b → Counted b
  Reach-Counted =
      Reach-keeps env (Stable-Counted env G) granted (λ c f. assign-Counted c _ (λ x. refl))
        (λ c t. assign-Counted c _ (λ x. refl))
        (λ rest b h. record { gauge = h.gauge; single = h.single; listed = h.listed })
        (made-Counted env) started-Counted
