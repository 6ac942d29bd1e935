-- ===== src/Broker/Books/Gauge.antt =====
-- hpfeeds/broker/prometheus.py: the gauge `hpfeeds_broker_client_connections`, as the changes to it
-- that were recorded, and what leaves it alone.
use hpfeeds.Prelude.{
  ℕ, suc, ◌+◌, ◌≤◌, ◌==◌, ◌≡◌, refl, List, [], ◌∷◌, ◌++◌, true, false, if◌then◌else◌, arith, length,
  contains, count, discard, nat_eq, count-discard_self, contains-count, contains-discard_ne,
  list_eq,
}
use hpfeeds.Python.Values.{Text}
use hpfeeds.Broker.State.{Broker, Metric, client_connections_inc, client_connections_dec}
use hpfeeds.Broker.Subscriptions.Effects.{dropped}
use hpfeeds.Broker.Lifecycle.Effects.{dropped_all, chans}

-- How often the gauge went up, and how often down.
unfoldable pub ups : List Metric → ℕ
ups [] = 0
ups (client_connections_inc ∷ ms) = suc (ups ms)
ups (m ∷ ms) = ups ms

unfoldable pub downs : List Metric → ℕ
downs [] = 0
downs (client_connections_dec ∷ ms) = suc (downs ms)
downs (m ∷ ms) = downs ms

pub ups-append : (ms ns : List Metric) → ups (ms ++ ns) ≡ ups ms + ups ns
unfolding ups
ups-append [] ns = omega arith
ups-append (client_connections_inc ∷ ms) ns = omega (arith, ups-append ms ns)
ups-append (_ ∷ ms) ns = ups-append ms ns

pub downs-append : (ms ns : List Metric) → downs (ms ++ ns) ≡ downs ms + downs ns
unfolding downs
downs-append [] ns = omega arith
downs-append (client_connections_dec ∷ ms) ns = omega (arith, downs-append ms ns)
downs-append (_ ∷ ms) ns = downs-append ms ns

pub length-discard :
    (c : ℕ) (xs : List ℕ) → contains c xs ≡ true → suc (length (discard c xs)) ≡ length xs
unfolding contains discard
length-discard c [] h = ground arith
length-discard c (x ∷ xs) h = ground (arith, length-discard c xs)

-- Dropping channels leaves the gauge alone.
pub ups-sweep :
    (c : ℕ) (chans : List Text) (b : Broker) → ups (dropped_all c chans b).metrics ≡ ups b.metrics
unfolding dropped_all ups
ups-sweep c [] b = refl
ups-sweep c (chan ∷ chans) b =
    omega (arith, ups-sweep c chans (dropped c chan b), ups-append b.metrics)

pub downs-sweep :
    (c : ℕ) (chans : List Text) (b : Broker)
    → downs (dropped_all c chans b).metrics ≡ downs b.metrics
unfolding dropped_all downs
downs-sweep c [] b = refl
downs-sweep c (chan ∷ chans) b =
    omega (arith, downs-sweep c chans (dropped c chan b), downs-append b.metrics)

pub contains-discard :
    (c d : ℕ) (xs : List ℕ)
    → count c xs ≤ 1
    → contains d (discard c xs) ≡ (if c == d then false else contains d xs)
contains-discard c d xs h =
    ground
      (arith, contains-count c (discard c xs), count-discard_self c xs, contains-discard_ne c d xs)
