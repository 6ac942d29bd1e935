-- ===== src/Broker/Subscriptions.antt =====
-- hpfeeds/broker/server.py: Server.subscribe and Server.unsubscribe.
pub mod Effects
use hpfeeds.Prelude.{
  ℕ, List, [], ◌∷◌, ◌++◌, Bool, if◌then◌else◌, contains, add, discard, nat_eq, list_eq,
}
use hpfeeds.Python.Exec.{when, gets, modify, ◌>>=◌, ◌>>◌}
use hpfeeds.Python.Values.{Text}
use hpfeeds.Broker.State.{
  Broker, M, subscriptions_inc, subscriptions_dec, self, assign, record_metric, set_list,
}

-- self.subscriptions[chan].append(source)
unfoldable pub append_source : ℕ → Text → M (Unit {0})
append_source source chan = modify λ b. record b {
  subscriptions = set_list b.subscriptions chan (b.subscriptions chan ++ source ∷ []);
}

-- self.subscriptions[chan].remove(source), where it is there
unfoldable pub remove_source : ℕ → Text → M (Unit {0})
remove_source source chan = modify λ b. record b {
  subscriptions = set_list b.subscriptions chan (discard source (b.subscriptions chan));
}

unfoldable pub subscribe : ℕ → Text → M (Unit {0})
subscribe source chan = do
  ak ← self source (λ x. x.ak)
  record_metric (subscriptions_inc ak chan)
  append_source source chan
  assign source (λ x. record x { active = add chan x.active })

unfoldable pub unsubscribe : ℕ → Text → M (Unit {0})
unsubscribe source chan = do
  active ← self source (λ x. x.active)
  when (contains chan active) (assign source (λ x. record x { active = discard chan x.active }))
  sources ← gets (λ b. b.subscriptions chan)
  when (contains source sources) (remove_source source chan)
  ak ← self source (λ x. x.ak)
  record_metric (subscriptions_dec ak chan)
