-- ===== src/Broker/Subscriptions/Effects.antt =====
-- hpfeeds/broker/server.py: what Server.unsubscribe and Server.subscribe change.
use hpfeeds.Prelude.{
  ℕ, ◌≡◌, refl, [], ◌∷◌, ◌++◌, arith, contains, add, discard, nat_eq, list_eq, text_eq_iff, inl,
  inr, Bool-cases, discard-absent, ap,
}
use mathlib.Core.Path.{fun_ext}
use hpfeeds.Python.Result.{ok}
use hpfeeds.Python.Exec.{pure, modify, when, ◌>>=◌}
use hpfeeds.Python.Values.{Text}
use hpfeeds.Broker.State.{
  Broker, self, assign, on_conn, record_metric, set_list, update, subscriptions_dec,
  subscriptions_inc,
}
use hpfeeds.Broker.Subscriptions.{append_source, remove_source, subscribe, unsubscribe}

-- The broker after `unsubscribe`: an entry that is not there is not missed.
abbrev pub dropped : ℕ → Text → Broker → Broker
dropped c chan b = record b {
  conns = update b.conns c (λ x. record x { active = discard chan x.active });
  subscriptions = set_list b.subscriptions chan (discard c (b.subscriptions chan));
  metrics = b.metrics ++ subscriptions_dec (b.conns c).ak chan ∷ [];
}

drop_active :
    (c : ℕ) (chan : Text) (b : Broker)
    → when
        (contains chan (b.conns c).active)
        (assign c (λ x. record x { active = discard chan x.active }))
        b
      ≡ (ok tt, on_conn c (λ x. record x { active = discard chan x.active }) b)
unfolding assign modify on_conn pure
drop_active c chan b = elim (Bool-cases (contains chan (b.conns c).active)) [
  | inl e ↦ rw e
  | inr e ↦ rw e (
      ap (λ f. (ok tt, record b { conns = f }))
        (fun_ext λ d. ground (arith, discard-absent chan (b.conns c).active)))
]

drop_source :
    (c : ℕ) (chan : Text) (b : Broker)
    → when (contains c (b.subscriptions chan)) (remove_source c chan) b ≡ remove_source c chan b
unfolding modify remove_source pure
drop_source c chan b = elim (Bool-cases (contains c (b.subscriptions chan))) [
  | inl e ↦ rw e
  | inr e ↦ rw e (
      ap (λ f. (ok tt, record b { subscriptions = f }))
        (fun_ext λ j. ground (arith, text_eq_iff chan j, discard-absent c (b.subscriptions chan))))
]

pub unsubscribe_lem :
    (c : ℕ) (chan : Text) (b : Broker) → unsubscribe c chan b ≡ (ok tt, dropped c chan b)
unfolding unsubscribe ◌>>=◌ self assign on_conn modify record_metric remove_source
unsubscribe_lem c chan b = rw (drop_active c chan b) (
    rw (drop_source c chan (on_conn c (λ x. record x { active = discard chan x.active }) b))
      (ground arith))

-- The broker after `subscribe`.
abbrev pub added : ℕ → Text → Broker → Broker
added c chan b = record b {
  conns = update b.conns c (λ x. record x { active = add chan x.active });
  subscriptions = set_list b.subscriptions chan (b.subscriptions chan ++ c ∷ []);
  metrics = b.metrics ++ subscriptions_inc (b.conns c).ak chan ∷ [];
}

pub subscribe_lem :
    (c : ℕ) (chan : Text) (b : Broker) → subscribe c chan b ≡ (ok tt, added c chan b)
unfolding subscribe ◌>>=◌ self assign on_conn modify record_metric append_source
subscribe_lem c chan b = refl
