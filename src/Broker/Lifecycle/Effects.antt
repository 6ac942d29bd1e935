-- ===== src/Broker/Lifecycle/Effects.antt =====
-- hpfeeds/broker/connection.py: what Connection.connection_lost changes.
use hpfeeds.Prelude.{
  ℕ, ◌-◌, ◌==◌, ◌≡◌, refl, List, [], ◌∷◌, ◌++◌, true, false, if◌then◌else◌, arith, contains, count,
  discard, nat_eq, list_eq, text_eq_iff, count-discard_self, count-discard_ne,
}
use hpfeeds.Python.Result.{ok, err, attribute_error}
use hpfeeds.Python.Exec.{modify, for_each, ◌>>=◌}
use hpfeeds.Python.Values.{Text}
use hpfeeds.Broker.State.{
  Broker, Env, self, assign, on_conn, record_metric, server, update, client_connections_dec,
  connection_lost,
}
use hpfeeds.Broker.Subscriptions.{unsubscribe}
use hpfeeds.Broker.Subscriptions.Effects.{dropped, unsubscribe_lem}
use hpfeeds.Broker.Lifecycle.{lost}

-- The broker after the loop of `connection_lost` over the channels.
unfoldable pub dropped_all : ℕ → List Text → Broker → Broker
dropped_all c [] b = b
dropped_all c (chan ∷ chans) b = dropped_all c chans (dropped c chan b)

pub sweep_lem :
    (c : ℕ) (chans : List Text) (b : Broker)
    → for_each chans (unsubscribe c) b ≡ (ok tt, dropped_all c chans b)
unfolding for_each dropped_all
sweep_lem c [] b = refl
sweep_lem c (chan ∷ chans) b = rw (unsubscribe_lem c chan b) (sweep_lem c chans (dropped c chan b))

-- The broker when `connection_lost` has counted the loss.
abbrev pub mourned : ℕ → Broker → Broker
mourned c b = record b {
  metrics = (b.metrics ++ client_connections_dec ∷ []) ++ connection_lost (b.conns c).ak ∷ [];
}

abbrev pub detached : ℕ → Broker → Broker
detached c b = record b {
  conns = update b.conns c (λ x. record x { attached = false });
  connections = discard c b.connections;
}

module _ (env : Env) (c : ℕ) (b : Broker) where
  -- The channels in the order in which they are dropped.
  abbrev pub chans : List Text
  chans = env.chan_order (b.conns c).active

  pub lost_lem :
      (b.conns c).attached ≡ true
      → contains c b.connections ≡ true
      → lost env c b ≡ (ok tt, detached c (dropped_all c chans (mourned c b)))
  unfolding lost server self record_metric modify assign on_conn ◌>>=◌
  lost_lem a l = rw (a, l) (rw (sweep_lem c chans (mourned c b)))

  -- Without the server, a second loss raises.
  pub lost-detached : (b.conns c).attached ≡ false → lost env c b ≡ (err attribute_error, b)
  unfolding lost server self ◌>>=◌
  lost-detached a = rw a

  pub lost-unlisted :
      (b.conns c).attached ≡ true → contains c b.connections ≡ false → lost env c b ≡ (ok tt, b)
  unfolding lost server self ◌>>=◌
  lost-unlisted a l = rw (a, l)

-- The channels are off the connection's list, and it is once less among the subscribers of each.
pub active-dropped_all :
    (c : ℕ) (chans : List Text) (b : Broker) (t : Text)
    → count t ((dropped_all c chans b).conns c).active ≡ count t (b.conns c).active - count t chans
unfolding dropped_all count
active-dropped_all c [] b t = omega arith
active-dropped_all c (chan ∷ chans) b t = ground (
  arith,
  active-dropped_all c chans (dropped c chan b) t,
  text_eq_iff chan t,
  count-discard_self chan (b.conns c).active,
  count-discard_ne chan t (b.conns c).active,
)

pub subscribers-dropped_all :
    (c d : ℕ) (chans : List Text) (b : Broker) (t : Text)
    → count d ((dropped_all c chans b).subscriptions t) ≡ (
        if c == d then count d (b.subscriptions t) - count t chans else count d (b.subscriptions t))
unfolding dropped_all count
subscribers-dropped_all c d [] b t = ground arith
subscribers-dropped_all c d (chan ∷ chans) b t = ground (
  arith,
  subscribers-dropped_all c d chans (dropped c chan b) t,
  text_eq_iff chan t,
  count-discard_self c (b.subscriptions chan),
  count-discard_ne c d (b.subscriptions chan),
)

-- Of another connection nothing changes, nor does any reference to the server.
pub conns-dropped_all :
    (c d : ℕ) (chans : List Text) (b : Broker)
    → (c == d) ≡ false
    → (dropped_all c chans b).conns d ≡ b.conns d
unfolding dropped_all
conns-dropped_all c d [] b h = refl
conns-dropped_all c d (chan ∷ chans) b h =
    ground (arith, conns-dropped_all c d chans (dropped c chan b))

pub attached-dropped_all :
    (c d : ℕ) (chans : List Text) (b : Broker)
    → ((dropped_all c chans b).conns d).attached ≡ (b.conns d).attached
unfolding dropped_all
attached-dropped_all c d [] b = refl
attached-dropped_all c d (chan ∷ chans) b =
    ground (arith, attached-dropped_all c d chans (dropped c chan b))

pub connections-dropped_all :
    (c : ℕ) (chans : List Text) (b : Broker) → (dropped_all c chans b).connections ≡ b.connections
unfolding dropped_all
connections-dropped_all c [] b = refl
connections-dropped_all c (chan ∷ chans) b = connections-dropped_all c chans (dropped c chan b)
