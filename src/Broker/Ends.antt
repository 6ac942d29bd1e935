-- ===== src/Broker/Ends.antt =====
-- hpfeeds/asyncio/protocol.py: what a round of the broker's loop does to its connection's parser.
pub mod Run
use hpfeeds.Prelude.{
  ℕ, zero, suc, ◌+◌, ◌≤◌, ◌<◌, ◌==◌, ◌≡◌, ◌⊎◌, refl, sym, ap, ◌∙◌, List, [], ◌∷◌, Bool, true, false,
  not, ◌&&◌, Option, none, some, if◌then◌else◌, arith, length, length-append, inl, inr, contains,
  discard, nat_eq, text_eq, list_eq,
}
use mathlib.Core.Path.{subst}
use hpfeeds.Python.Result.{
  Error, Result, ok, err, is_clean, attribute_error, key_error, is_protocol_exception, out_of_fuel,
  stop_iteration, Result-cases,
}
use hpfeeds.Python.Exec.{Exec, pure, raise, lift, gets, modify, for_each, try, ◌>>=◌, ◌>>◌}
use hpfeeds.Python.Exec.Keeps.{
  Keeps, Outcome, keeps_rules, Keeps-modify, Keeps-gets, Keeps-raise, Keeps-lift, Keeps-bind,
  Keeps-if, Keeps-pure,
}
use hpfeeds.Python.Struct.{Bytes}
use hpfeeds.Python.Values.{Text}
use hpfeeds.Wire.Unpacker.{Unpacker, Message, feed, unpack}
use hpfeeds.Wire.Unpacker.Bounds.{IsStuck, unpack-cases}
use hpfeeds.Wire.Unpacker.Raises.{unpack-Unfed}
use hpfeeds.Broker.State.{
  Broker, Conn, Env, Row, M, Metric, found, now, self, assign, on_conn, record_metric, server,
  write, close, pause_reading, resume_reading, set_write_buffer_limits,
}
use hpfeeds.Broker.Subscriptions.{subscribe, unsubscribe, append_source, remove_source}
use hpfeeds.Broker.Lifecycle.{lost}
use hpfeeds.Broker.Handlers.{accept, item, message_received}
use hpfeeds.Broker.Loop.{
  next, round, guarded, pending_loop, process_pending, meter_fill, data_received,
}
use hpfeeds.Broker.Rules.{Stable}
use hpfeeds.Broker.Rules.Loop.{Keeps-round, Keeps-guarded}
use hpfeeds.Broker.Forwards.{moved, moved-Forwarded, Forwarded-unpacker}

-- The loop takes the next message, and goes round.
loop-round :
    (env : Env) (c fuel : ℕ) (m : Message) (v : Unpacker) (b : Broker)
    → unpack (b.conns c).unpacker ≡ ok (m, v)
    → pending_loop env (suc fuel) c b
      ≡ round env
          (guarded c (pending_loop env fuel c))
          (pending_loop env fuel c)
          c
          (some m)
          (moved c v b)
unfolding pending_loop next self assign modify pure ◌>>=◌
loop-round env c fuel m v b e = rw e refl

module _ (env : Env) (c : ℕ) (R : Unpacker → Type 0) where
  -- What is known of one connection's parser.
  abbrev pub Holds : Broker → Type 0
  Holds b = R (b.conns c).unpacker

  abbrev pub Left : Error → Broker → Type 0
  Left e b = Holds b × (e ≡ out_of_fuel → IsStuck (b.conns c).unpacker)

  abbrev pub Grants : Text → Row → Type 0
  Grants ident row = Unit {0}

  clean-Left : (e : Error) → is_clean e ≡ true → (b : Broker) → Holds b → Left e b
  clean-Left e k b p = (p, λ q. absurd (ground (arith, k, q)))

  modify-Holds :
      (f : Broker → Broker) → ((b : Broker) → (f b).conns ≡ b.conns) → Keeps Holds Left (modify f)
  modify-Holds f same =
      Keeps-modify f (λ b p. subst (λ conns. R (conns c).unpacker) (sym (same b)) p)

  assign-Holds :
      (d : ℕ) (f : Conn → Conn)
      → ((x : Conn) → (f x).unpacker ≡ x.unpacker)
      → Keeps Holds Left (assign d f)
  unfolding assign on_conn
  assign-Holds d f same = Keeps-modify _ (λ b p. subst R (ground (arith, same (b.conns c))) p)

  self-Holds : {A : Type 0} (d : ℕ) (f : Conn → A) → Keeps Holds Left (self d f)
  unfolding self
  self-Holds d f = Keeps-gets _

  record_metric-Holds : (m : Metric) → Keeps Holds Left (record_metric m)
  unfolding record_metric
  record_metric-Holds m = modify-Holds _ (λ b. refl)

  append_source-Holds : (d : ℕ) (chan : Text) → Keeps Holds Left (append_source d chan)
  unfolding append_source
  append_source-Holds d chan = modify-Holds _ (λ b. refl)

  remove_source-Holds : (d : ℕ) (chan : Text) → Keeps Holds Left (remove_source d chan)
  unfolding remove_source
  remove_source-Holds d chan = modify-Holds _ (λ b. refl)

  server-Holds : (d : ℕ) → Keeps Holds Left (server d)
  unfolding server
  server-Holds d = Keeps-bind _ _ (self-Holds d _) λ there.
      Keeps-if there _ _ (λ e. Keeps-pure tt)
        (λ e. Keeps-raise attribute_error (clean-Left attribute_error refl))

  ruleset parts = (
    keeps_rules, self-Holds, record_metric-Holds, append_source-Holds, remove_source-Holds,
    server-Holds, assign-Holds, modify-Holds,
  )

  subscribe-Holds : (d : ℕ) (chan : Text) → Keeps Holds Left (subscribe d chan)
  unfolding subscribe
  subscribe-Holds d chan = search parts depth 9

  unsubscribe-Holds : (d : ℕ) (chan : Text) → Keeps Holds Left (unsubscribe d chan)
  unfolding unsubscribe
  unsubscribe-Holds d chan = search parts depth 9

  lost-Holds : (d : ℕ) → Keeps Holds Left (lost env d)
  unfolding lost
  lost-Holds d = search (parts, unsubscribe-Holds) depth 12

  item-Holds : (o : Option Text) → Keeps Holds Left (lift (item o))
  item-Holds none = Keeps-lift (err key_error) (λ e h. clean-Left e (ground (arith, h)))
  item-Holds (some t) = Keeps-lift (ok t) (λ e h. absurd (cc))

  accept-Holds :
      (pending : M (Unit {0})) (d : ℕ) (ident : Text) (row : Row)
      → Keeps Holds Left pending
      → Keeps Holds Left (accept env pending d ident row)
  unfolding accept set_write_buffer_limits resume_reading
  accept-Holds pending d ident row k = search (parts, item-Holds) depth 14

  pub Stable-Holds : Stable env Holds Left Grants
  unfolding write close pause_reading
  Stable-Holds = record {
    raised = clean-Left;
    recovered = λ e k b h. h.0;
    at_metric = λ m g. record_metric-Holds m;
    at_write = λ d m. assign-Holds d _ (λ x. refl);
    at_close = λ d. assign-Holds d _ (λ x. refl);
    at_pause = λ d. assign-Holds d _ (λ x. refl);
    at_task = λ d i s. modify-Holds _ (λ b. refl);
    at_subscribe = λ d chan. subscribe-Holds d chan;
    at_unsubscribe = λ d chan. unsubscribe-Holds d chan;
    at_lost = λ d. lost-Holds d;
    at_accept = λ pending d ident row k g. accept-Holds pending d ident row k;
  }

  -- One round of the loop, once its message is there, where what is pending and the rest keep it.
  pub round-Holds :
      (fuel : ℕ) (m : Message) (v : Unpacker) (b : Broker)
      → unpack (b.conns c).unpacker ≡ ok (m, v)
      → Keeps Holds Left (pending_loop env fuel c)
      → R v
      → Outcome Holds Left (pending_loop env (suc fuel) c b)
  round-Holds fuel m v b e k r =
      let loop = pending_loop env fuel c in
      let rounds =
        Keeps-round env Stable-Holds (λ i row g. tt) (guarded c loop) loop c (some m)
          (Keeps-guarded env Stable-Holds (λ i row g. tt) c loop k) k in
      rw (loop-round env c fuel m v b e) (
        rounds.at (moved c v b)
          (subst R (sym (Forwarded-unpacker c v [] b _ (moved-Forwarded c v b))) r))

  next-Holds :
      (rest : Option Message → M (Unit {0})) (x : Error) (b : Broker)
      → is_clean x ≡ true
      → Holds b
      → ((b : Broker) → Holds b → Outcome Holds Left (rest none b))
      → Outcome Holds Left ((next c (err x) >>= rest) b)
  unfolding next pure raise ◌>>=◌
  next-Holds rest stop_iteration b k p done = done b p
  next-Holds rest x b k p done = clean-Left _ k b p

  -- A round that finds no message.
  pub last_Holds :
      (fuel : ℕ) (x : Error) (b : Broker)
      → unpack (b.conns c).unpacker ≡ err x
      → Holds b
      → Outcome Holds Left (pending_loop env (suc fuel) c b)
  unfolding pending_loop self round pure ◌>>=◌
  last_Holds fuel x b e p = rw e (
      next-Holds (round env (guarded c (pending_loop env fuel c)) (pending_loop env fuel c) c) x b
        ((unpack-Unfed (b.conns c).unpacker x e).1) p (λ t q. q))
