-- ===== src/Broker/Cleanup.antt =====
-- hpfeeds/broker/connection.py: what is left of a connection after Connection.connection_lost.
use hpfeeds.Prelude.{
  ℕ, ◌-◌, ◌==◌, ◌≡◌, refl, true, false, arith, contains, count, discard, nat_eq, list_eq,
  count-discard_self, contains-count,
}
use hpfeeds.Python.Result.{ok}
use hpfeeds.Python.Values.{Text}
use hpfeeds.Broker.State.{Broker, Env}
use hpfeeds.Broker.Lifecycle.{lost}
use hpfeeds.Broker.Lifecycle.Effects.{
  dropped_all, mourned, detached, chans, lost_lem, active-dropped_all, subscribers-dropped_all,
  conns-dropped_all, connections-dropped_all,
}
use hpfeeds.Broker.Books.Counted.{Counted}

-- The broker `t` is `b` without the connection `c`.
pub record Gone (c : ℕ) (b t : Broker) : Type 0 where
  pub detached : (t.conns c).attached ≡ false
  pub unlisted : contains c t.connections ≡ false
  pub inactive : (chan : Text) → count chan (t.conns c).active ≡ 0
  -- one subscription is cancelled for each channel on the connection's list
  pub cancelled :
      (chan : Text)
      → count c (t.subscriptions chan)
        ≡ count c (b.subscriptions chan) - count chan (b.conns c).active
  pub others : (d : ℕ) → (c == d) ≡ false → t.conns d ≡ b.conns d
  pub other_subscriptions :
      (d : ℕ) (chan : Text)
      → (c == d) ≡ false
      → count d (t.subscriptions chan) ≡ count d (b.subscriptions chan)

module _ (env : Env) (c : ℕ) (b : Broker) (counted : Counted b)
    (there : (b.conns c).attached ≡ true) where
  listed : contains c b.connections ≡ true
  listed = ground (arith, counted.listed c)

  gone : Gone c b (detached c (dropped_all c (chans env c b) (mourned c b)))
  gone = record {
    detached = ground arith;
    unlisted = rw (connections-dropped_all c (chans env c b) (mourned c b)) (
        ground (
          arith,
          counted.single c,
          count-discard_self c b.connections,
          contains-count c (discard c b.connections),
        ));
    inactive = λ chan. ground (
      arith,
      active-dropped_all c (chans env c b) (mourned c b) chan,
      env.count-chan_order chan (b.conns c).active,
    );
    cancelled = λ chan. ground (
      arith,
      subscribers-dropped_all c c (chans env c b) (mourned c b) chan,
      env.count-chan_order chan (b.conns c).active,
    );
    others = λ d n. ground (arith, conns-dropped_all c d (chans env c b) (mourned c b));
    other_subscriptions =
        λ d chan n. ground (arith, subscribers-dropped_all c d (chans env c b) (mourned c b) chan);
  }

  -- In a broker whose counts are right, when a connection that refers to the server is lost: it
  -- refers to none afterwards, is not listed and has no channel on its list; for each channel that
  -- it had there one of its subscriptions is cancelled; no other connection, nor a subscription of
  -- one, changes. No exception is raised.
  pub lost-Gone : ((lost env c b).0 ≡ ok tt) × Gone c b (lost env c b).1
  lost-Gone = rw (lost_lem env c b there listed) (refl, gone)
