-- ===== src/Legacy/Stops.antt =====
-- hpfeeds/client.py: when `run` returns, and when it does not.
use hpfeeds.Prelude.{
  ◌⊎◌, inl, inr, ℕ, zero, suc, ◌≡◌, refl, [], Bool, true, false, not, ◌&&◌, arith, ap, sym, ◌∙◌,
}
use hpfeeds.Python.Result.{ok, err, out_of_fuel}
use hpfeeds.Python.Exec.{pure, raise, gets, when, ◌>>=◌}
use hpfeeds.Python.Exec.Bind.{bind-eq-ok, bind_of_ok, bind_of_err}
use hpfeeds.Python.Struct.{Bytes}
use hpfeeds.Python.Values.{Text}
use hpfeeds.Legacy.Connection.{Config, Client, M, tryconnect}
use hpfeeds.Legacy.Run.{subscribe_all, subscribe_each, receive_loop, run_round, run}

module _ (cfg : Config) (message_callback : Text → Text → Bytes → M (Unit {0}))
    (error_callback : Text → M (Unit {0})) where
  goes_on :
      (b : Bool) (rest : M (Unit {0})) (s t : Client)
      → s.stopped ≡ b
      → when (not b) rest s ≡ (ok tt, t)
      → (t.stopped ≡ true) ⊎ (rest s ≡ (ok tt, t))
  unfolding pure
  goes_on true rest s t c e = inl (ap (λ o. o.1.stopped) (sym e) ∙ c)
  goes_on false rest s t c e = inr e

  -- Whatever the sockets answer and the callbacks do, `run` returns only when the client was
  -- stopped.
  pub run-stopped :
      (fuel : ℕ) (s t : Client)
      → run cfg message_callback error_callback fuel s ≡ (ok tt, t)
      → t.stopped ≡ true
  unfolding run raise gets ◌>>=◌
  run-stopped zero s t e = cc
  run-stopped (suc fuel) s t e = elim (goes_on s.stopped _ s t refl e) [
    | inl p ↦ p
    | inr p ↦
        let (_, u, _, q) =
          bind-eq-ok (run_round cfg message_callback error_callback fuel) _ s t p in
        run-stopped fuel u t q
  ]

  when-not : (b : Bool) (m : M (Unit {0})) (s : Client) → b ≡ false → when b m s ≡ (ok tt, s)
  unfolding pure
  when-not true m s c = cc
  when-not false m s c = refl

  when-so : (b : Bool) (m : M (Unit {0})) (s : Client) → b ≡ true → when b m s ≡ m s
  when-so true m s c = refl
  when-so false m s c = cc

  module _ (s : Client) (r : cfg.reconnect ≡ false) (o : cfg.order s.subscriptions ≡ [])
      (c : s.connected ≡ false) where
    none_subscribed : subscribe_all cfg s ≡ (ok tt, s)
    unfolding subscribe_all subscribe_each gets pure ◌>>=◌
    none_subscribed = ap (λ cs. subscribe_each cfg cs s) o

    no_round : run_round cfg message_callback error_callback 0 s ≡ (err out_of_fuel, s)
    unfolding run_round receive_loop raise ◌>>=◌
    no_round =
        bind_of_ok (subscribe_all cfg)
          (λ _. receive_loop cfg message_callback error_callback 0 >>= λ _.
            gets (λ s. s.stopped) >>= λ stopped.
            when (not stopped && cfg.reconnect) (tryconnect cfg 0))
          s s tt none_subscribed

    not_received :
        (fuel : ℕ) → receive_loop cfg message_callback error_callback (suc fuel) s ≡ (ok tt, s)
    unfolding receive_loop gets ◌>>=◌
    not_received fuel = when-not s.connected _ s c

    not_again :
        (fuel : ℕ)
        → (gets (λ s. s.stopped) >>= λ stopped.
              when (not stopped && cfg.reconnect) (tryconnect cfg fuel))
            s
          ≡ (ok tt, s)
    unfolding gets ◌>>=◌
    not_again fuel = when-not (not s.stopped && cfg.reconnect) _ s (ground (arith, r))

    idle_round :
        (fuel : ℕ) → run_round cfg message_callback error_callback (suc fuel) s ≡ (ok tt, s)
    unfolding run_round
    idle_round fuel =
        bind_of_ok (subscribe_all cfg) _ s s tt none_subscribed
        ∙ bind_of_ok (receive_loop cfg message_callback error_callback (suc fuel)) _ s s tt
            (not_received fuel)
        ∙ not_again (suc fuel)

  -- A client that may not reconnect and has no channels: once its connection is lost, `run` goes
  -- round and round without waiting for anything, for any number of rounds.
  pub run-spins :
      (fuel : ℕ) (s : Client)
      → cfg.reconnect ≡ false
      → cfg.order s.subscriptions ≡ []
      → s.connected ≡ false
      → s.stopped ≡ false
      → run cfg message_callback error_callback fuel s ≡ (err out_of_fuel, s)
  unfolding run gets raise ◌>>=◌
  run-spins zero s r o c d = refl
  run-spins (suc zero) s r o c d =
      when-so (not s.stopped) _ s (ground (arith, d))
      ∙ bind_of_err (run_round cfg message_callback error_callback 0) _ s s out_of_fuel
          (no_round s r o c)
  run-spins (suc (suc fuel)) s r o c d =
      when-so (not s.stopped) _ s (ground (arith, d))
      ∙ bind_of_ok (run_round cfg message_callback error_callback (suc fuel)) _ s s tt
          (idle_round s r o c fuel)
      ∙ run-spins (suc fuel) s r o c d
