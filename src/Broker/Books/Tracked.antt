-- ===== src/Broker/Books/Tracked.antt =====
-- The channels that a connection lists, and the connections that the server lists for a channel.
use hpfeeds.Prelude.{
  ℕ, ◌+◌, ◌≤◌, ◌≡◌, refl, List, [], ◌∷◌, ◌++◌, some, arith, count, nat_eq, list_eq, text_eq_iff,
  count-discard_self, count-discard_ne, count-add_self, count-add_ne,
}
use hpfeeds.Python.Result.{Error}
use hpfeeds.Python.Exec.{modify, ◌>>=◌}
use hpfeeds.Python.Exec.Keeps.{Keeps, Keeps-raise, keeps_rules, Keeps-modify}
use hpfeeds.Python.Struct.{Bytes}
use hpfeeds.Python.Values.{Text}
use hpfeeds.Broker.State.{
  Broker, Conn, Env, Row, found, now, new_conn, M, Metric, self, assign, on_conn, record_metric,
  server, write, close, pause_reading, resume_reading, set_write_buffer_limits,
}
use hpfeeds.Broker.Subscriptions.{append_source, subscribe, unsubscribe}
use hpfeeds.Broker.Lifecycle.{made, lost}
use hpfeeds.Broker.Subscriptions.Effects.{unsubscribe_lem}
use hpfeeds.Wire.Unpacker.{Unpacker}
use hpfeeds.Broker.Handlers.{accept}
use hpfeeds.Broker.Rules.{Stable, Keeps-self, Keeps-server, Keeps-info}
use hpfeeds.Broker.Steps.{Fresh, Reach, started}
use hpfeeds.Broker.Steps.Invariant.{Reach-keeps, outcome}

-- A channel that a connection has on its own list has the connection on the server's list, at
-- least as often, and a connection has no channel twice on its list.
pub record Tracked (b : Broker) : Type 0 where
  pub listed :
      (c : ℕ) (chan : Text) → count chan (b.conns c).active ≤ count c (b.subscriptions chan)
  pub once : (c : ℕ) (chan : Text) → count chan (b.conns c).active ≤ 1

abbrev pub Kept : Error → Broker → Type 0
Kept e = Tracked

-- Assignments to other fields.
assign-Tracked :
    (c : ℕ) (f : Conn → Conn)
    → ((x : Conn) → (f x).active ≡ x.active)
    → Keeps Tracked Kept (assign c f)
unfolding assign modify on_conn
assign-Tracked c f k = record {
  at = λ s h. record {
    listed = λ d chan. ground (arith, k (s.conns c), h.listed d chan, h.listed c chan);
    once = λ d chan. ground (arith, k (s.conns c), h.once d chan, h.once c chan);
  };
}

count-append : (c : ℕ) (xs ys : List ℕ) → count c (xs ++ ys) ≡ count c xs + count c ys
unfolding count
count-append c [] ys = omega arith
count-append c (x ∷ xs) ys = ground (arith, count-append c xs ys)

subscribe-Tracked : (c : ℕ) (chan : Text) → Keeps Tracked Kept (subscribe c chan)
unfolding subscribe ◌>>=◌ self assign on_conn modify record_metric append_source count
subscribe-Tracked c chan = record {
  at = λ s h. record {
    listed = λ d chan'. ground (
      arith,
      text_eq_iff chan chan',
      count-append d (s.subscriptions chan) (c ∷ []),
      count-add_self chan (s.conns c).active,
      count-add_ne chan chan' (s.conns c).active,
      h.listed d chan',
      h.once c chan',
    );
    once = λ d chan'. ground (
      arith,
      text_eq_iff chan chan',
      count-add_self chan (s.conns c).active,
      count-add_ne chan chan' (s.conns c).active,
      h.once d chan',
      h.once c chan',
    );
  };
}

record_metric-Tracked : (m : Metric) → Keeps Tracked Kept (record_metric m)
unfolding record_metric
record_metric-Tracked m = Keeps-modify _ (λ s h. record { listed = h.listed; once = h.once })

unsubscribe-Tracked : (c : ℕ) (chan : Text) → Keeps Tracked Kept (unsubscribe c chan)
unsubscribe-Tracked c chan = record {
  at = λ s h. rw (unsubscribe_lem c chan s) (record {
    listed = λ d chan'. ground (
      arith,
      text_eq_iff chan chan',
      count-discard_self chan (s.conns c).active,
      count-discard_ne chan chan' (s.conns c).active,
      count-discard_self c (s.subscriptions chan),
      count-discard_ne c d (s.subscriptions chan),
      h.listed d chan',
      h.once c chan',
    );
    once = λ d chan'. ground (
      arith,
      text_eq_iff chan chan',
      count-discard_self chan (s.conns c).active,
      count-discard_ne chan chan' (s.conns c).active,
      h.once d chan',
    );
  });
}

set_connections-Tracked :
    (f : Broker → List ℕ) → Keeps Tracked Kept (modify (λ b. record b { connections = f b }))
set_connections-Tracked f = Keeps-modify _ (λ s h. record { listed = h.listed; once = h.once })

task-Tracked :
    (f : Broker → List (ℕ × Text × Bytes))
    → Keeps Tracked Kept (modify (λ b. record b { tasks = f b }))
task-Tracked f = Keeps-modify _ (λ s h. record { listed = h.listed; once = h.once })

module _ (env : Env) where
  lost-Tracked : (c : ℕ) → Keeps Tracked Kept (lost env c)
  unfolding lost server self
  lost-Tracked c =
      search
        (
          keeps_rules, record_metric-Tracked, unsubscribe-Tracked, set_connections-Tracked,
          assign-Tracked, Keeps-raise,
        )
        depth 12

  accept-Tracked :
      (pending : M (Unit {0})) (c : ℕ) (ident : Text) (row : Row)
      → Keeps Tracked Kept pending
      → Keeps Tracked Kept (accept env pending c ident row)
  unfolding accept set_write_buffer_limits resume_reading
  accept-Tracked pending c ident row k =
      search (keeps_rules, record_metric-Tracked, assign-Tracked) depth 16

  -- Every call that a handler makes keeps the tables in agreement.
  pub Stable-Tracked : (G : Text → Row → Type 0) → Stable env Tracked Kept G
  unfolding write close pause_reading
  Stable-Tracked G = record {
    raised = λ e k b h. h;
    recovered = λ e k b h. h;
    at_metric = λ m k. record_metric-Tracked m;
    at_write = λ c m. assign-Tracked c _ (λ x. refl);
    at_close = λ c. assign-Tracked c _ (λ x. refl);
    at_pause = λ c. assign-Tracked c _ (λ x. refl);
    at_task = λ c ident secret. task-Tracked _;
    at_subscribe = subscribe-Tracked;
    at_unsubscribe = unsubscribe-Tracked;
    at_lost = lost-Tracked;
    at_accept = λ pending c ident row k g. accept-Tracked pending c ident row k;
  }

  at_unpacker :
      (c : ℕ) (f : Conn → Unpacker)
      → Keeps Tracked Kept (assign c (λ x. record x { unpacker = f x }))
  at_unpacker c f = assign-Tracked c _ (λ x. refl)

  new-Tracked :
      (c : ℕ) (rand : Bytes) (b : Broker) → Tracked b → Tracked (on_conn c (λ _. new_conn rand) b)
  unfolding on_conn new_conn count
  new-Tracked c rand b h = record {
    listed = λ d chan. ground (arith, h.listed d chan);
    once = λ d chan. ground (arith, h.once d chan);
  }

  Keeps-made : (c : ℕ) → Keeps Tracked Kept (made env c)
  unfolding made
  Keeps-made c =
      let st = Stable-Tracked (λ _ _. Unit) in
      search
        (
          keeps_rules,
          record_metric-Tracked,
          Keeps-server env st,
          Keeps-self env st,
          Keeps-info env st,
          set_connections-Tracked,
        )
        depth 12

  made-Tracked :
      (c : ℕ) (rand : Bytes) (b : Broker)
      → Fresh c b
      → Tracked b
      → Tracked (made env c (on_conn c (λ _. new_conn rand) b)).1
  made-Tracked c rand b f h = outcome Tracked _ ((Keeps-made c).at _ (new-Tracked c rand b h))

started-Tracked : Tracked started
unfolding new_conn count
started-Tracked = record { listed = λ c chan. omega arith; once = λ c chan. omega arith }

module _ (env : Env) (G : Text → Row → Type 0)
    (granted : (ident : Text) (row : Row)
      → env.get_authkey ident ≡ now (found (some row))
      → G ident row) where
  -- Whatever happens to a broker that was started: a channel on a connection's list has the
  -- connection among its subscribers, and stands on the list once.
  pub Reach-Tracked : {b : Broker} → Reach env G started b → Tracked b
  Reach-Tracked =
      Reach-keeps env (Stable-Tracked env G) granted (at_unpacker env)
        (λ c t. assign-Tracked c _ (λ x. refl))
        (λ rest b h. record { listed = h.listed; once = h.once }) (made-Tracked env) started-Tracked
