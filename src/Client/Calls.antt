-- ===== src/Client/Calls.antt =====
-- hpfeeds/asyncio/client.py: a session over any number of connections, one call at a time.
use hpfeeds.Prelude.{
  ℕ, zero, suc, ◌≤◌, ◌≡◌, refl, [], ◌∷◌, Bool, true, false, Option, none, some, arith, contains,
  count, add, discard, list_eq, text_eq_iff, inl, inr, Bool-cases, ap, ◌∙◌, contains-count,
  count-discard_self, count-discard_ne, contains-discard_ne, contains-add, count-add_self,
  count-add_ne,
}
use hpfeeds.Python.Result.{Error, Result, ok, err, stop_iteration}
use hpfeeds.Python.Exec.{pure, raise, lift, gets, modify, when, ◌>>=◌}
use hpfeeds.Python.Exec.Keeps.{
  Keeps, Outcome, Keeps-raise, Keeps-modify, Keeps-try, Keeps-bind, Keeps-gets, Keeps-lift,
  keeps_rules,
}
use hpfeeds.Python.Struct.{Bytes}
use hpfeeds.Python.Values.{Text}
use hpfeeds.Wire.Unpacker.{Unpacker, Message, unpack}
use hpfeeds.Client.Session.{
  Packet, authenticates, publishes, subscribes, unsubscribes, Config, Session, M, opened, send,
  on_info, on_publish, on_unexpected, message_received, next, round, pending_loop, data_received,
  connection_lost, reconnect, hang_up, publish, subscribe, unsubscribe, close,
}
use hpfeeds.Client.Synced.{
  told, told-append, Synced, Aborted, wrote, send-cases, send-Keeps, connection_ready-Keeps,
}

pub data Call : Type 0 where
  receive : ℕ → Bytes → Call
  lose again : Call
  publishing : Text → Bytes → Call
  subscribing unsubscribing : Text → Call
  closing : Call

module _ (cfg : Config) where
  unfoldable pub call : Call → M (Unit {0})
  call (receive fuel chunk) = data_received cfg fuel chunk
  call lose = connection_lost cfg
  call again = reconnect cfg
  call (publishing chan payload) = publish cfg chan payload
  call (subscribing topic) = subscribe cfg topic
  call (unsubscribing topic) = unsubscribe cfg topic
  call closing = close cfg

  -- The calls one after another, none of which raises.
  pub data Runs : Session → Type 0 where
    start : Runs opened
    next_call : {s t : Session} → Runs s → (c : Call) → call c s ≡ (ok tt, t) → Runs t

  set-Keeps :
      (f : Session → Session)
      → ((s : Session) → (f s).written ≡ s.written)
      → ((s : Session) → (f s).subscriptions ≡ s.subscriptions)
      → ((s : Session) → (f s).connected ≡ s.connected)
      → Keeps Synced Aborted (modify f)
  set-Keeps f w u c = Keeps-modify f λ s h. record {
    agrees = λ chan. ap (λ p. told chan p false) (w s) ∙ h.agrees chan ∙ ground (arith, u s, c s);
    once = λ chan. ground (arith, u s, h.once chan);
  }

  authenticates-Keeps : (rand : Bytes) → Keeps Synced Aborted (send cfg (authenticates rand))
  authenticates-Keeps rand = send-Keeps cfg (authenticates rand) λ s h. record {
    agrees = λ chan. told-append chan s.written (authenticates rand ∷ []) false ∙ h.agrees chan;
    once = h.once;
  }

  publishes-Keeps :
      (chan : Text) (payload : Bytes) → Keeps Synced Aborted (send cfg (publishes chan payload))
  publishes-Keeps c payload = send-Keeps cfg (publishes c payload) λ s h. record {
    agrees = λ chan. told-append chan s.written (publishes c payload ∷ []) false ∙ h.agrees chan;
    once = h.once;
  }

  raise-Keeps : {A : Type 0} (e : Error) → Keeps Synced Aborted (raise {A = A} e)
  raise-Keeps e = Keeps-raise e (λ s h c. h)

  lift-Keeps : {A : Type 0} (r : Result A) → Keeps Synced Aborted (lift r)
  lift-Keeps r = Keeps-lift r (λ e p s h c. h)

  ruleset rules =
      (keeps_rules, raise-Keeps, lift-Keeps, set-Keeps, authenticates-Keeps, publishes-Keeps)

  message_received-Keeps :
      (opcode : ℕ) (payload : Bytes) → Keeps Synced Aborted (message_received cfg opcode payload)
  unfolding message_received on_info on_publish on_unexpected hang_up
  message_received-Keeps opcode payload = search (rules, connection_ready-Keeps) depth 12

  next-Keeps : (r : Result (Message × Unpacker)) → Keeps Synced Aborted (next cfg r)
  unfolding next
  next-Keeps (ok (m, u)) = search (rules)
  next-Keeps (err stop_iteration) = search (rules)
  next-Keeps (err e) = raise-Keeps e

  round-Keeps :
      (loop : M (Unit {0})) (m : Option Message)
      → Keeps Synced Aborted loop
      → Keeps Synced Aborted (round cfg loop m)
  unfolding round
  round-Keeps loop none k = search (rules)
  round-Keeps loop (some (opcode, payload)) k = search (rules, message_received-Keeps)

  pending_loop-Keeps : (fuel : ℕ) → Keeps Synced Aborted (pending_loop cfg fuel)
  unfolding pending_loop
  pending_loop-Keeps zero = raise-Keeps _
  pending_loop-Keeps (suc fuel) =
      Keeps-bind _ _ (Keeps-gets _)
        λ u. Keeps-bind _ _ (next-Keeps (unpack u)) λ m. round-Keeps _ m (pending_loop-Keeps fuel)

  data_received-Keeps :
      (fuel : ℕ) (chunk : Bytes) → Keeps Synced Aborted (data_received cfg fuel chunk)
  unfolding data_received hang_up modify
  data_received-Keeps fuel chunk =
      Keeps-bind _ _ (set-Keeps _ (λ s. refl) (λ s. refl) (λ s. refl)) λ _.
        Keeps-try _ _ _ (pending_loop-Keeps fuel)
          (λ e t c a. let h = a c in record { agrees = h.agrees; once = h.once })

  connection_lost-Keeps : Keeps Synced Aborted (connection_lost cfg)
  unfolding connection_lost
  connection_lost-Keeps = search (rules) depth 10

  publish-Keeps : (chan : Text) (payload : Bytes) → Keeps Synced Aborted (publish cfg chan payload)
  unfolding publish
  publish-Keeps chan payload = search (rules) depth 10

  close-Keeps : Keeps Synced Aborted (close cfg)
  unfolding close hang_up
  close-Keeps = search (rules) depth 10

  reconnect-Keeps : Keeps Synced Aborted (reconnect cfg)
  unfolding reconnect modify gets pure ◌>>=◌
  reconnect-Keeps = record {
    at = λ s h. elim (Bool-cases s.closing) [
      | inl e ↦ rw e (record { agrees = h.agrees; once = h.once })
      | inr e ↦ rw e (record { agrees = λ chan. refl; once = h.once })
    ];
  }

  tell :
      (p : Packet) (s : Session) (b : Bool)
      → (b ≡ true → Synced (wrote p s))
      → (b ≡ false → Synced s)
      → Outcome Synced Aborted (when b (send cfg p) s)
  unfolding pure
  tell p s true k l = elim (send-cases cfg p s) [
    | inl e ↦ rw e (k refl)
    | inr (x, e, n) ↦ rw e (λ c. absurd (ground (arith, n, c)))
  ]
  tell p s false k l = l refl

  subscribe-Keeps : (topic : Text) → Keeps Synced Aborted (subscribe cfg topic)
  unfolding subscribe modify gets pure ◌>>=◌
  subscribe-Keeps topic = record {
    at = λ s h. elim (Bool-cases (contains topic s.subscriptions)) [
      | inl e ↦ rw e h
      | inr e ↦
          let once' : (chan : Text) → count chan (add topic s.subscriptions) ≤ 1 = λ chan. ground (
            arith,
            h.once chan,
            text_eq_iff topic chan,
            count-add_self topic s.subscriptions,
            count-add_ne topic chan s.subscriptions,
          ) in
          rw e (
            tell (subscribes topic) (record s { subscriptions = add topic s.subscriptions })
              s.connected
              (λ c. record {
                agrees = λ chan.
                    told-append chan s.written (subscribes topic ∷ []) false
                    ∙ ground (
                      arith,
                      c,
                      h.agrees chan,
                      contains-add topic chan s.subscriptions,
                      text_eq_iff topic chan,
                    );
                once = once';
              })
              (λ c. record { agrees = λ chan. h.agrees chan ∙ ground (arith, c); once = once' }))
    ];
  }

  unsubscribe-Keeps : (topic : Text) → Keeps Synced Aborted (unsubscribe cfg topic)
  unfolding unsubscribe modify gets pure ◌>>=◌
  unsubscribe-Keeps topic = record {
    at = λ s h. elim (Bool-cases (contains topic s.subscriptions)) [
      | inr e ↦ rw e h
      | inl e ↦
          let once' : (chan : Text) → count chan (discard topic s.subscriptions) ≤ 1 = λ chan.
            ground (
              arith,
              h.once chan,
              text_eq_iff topic chan,
              count-discard_self topic s.subscriptions,
              count-discard_ne topic chan s.subscriptions,
            ) in
          rw e (
            tell (unsubscribes topic) (record s { subscriptions = discard topic s.subscriptions })
              s.connected
              (λ c. record {
                agrees = λ chan.
                    told-append chan s.written (unsubscribes topic ∷ []) false
                    ∙ ground (
                      arith,
                      c,
                      h.agrees chan,
                      h.once topic,
                      text_eq_iff topic chan,
                      contains-count topic (discard topic s.subscriptions),
                      count-discard_self topic s.subscriptions,
                      contains-discard_ne topic chan s.subscriptions,
                    );
                once = once';
              })
              (λ c. record { agrees = λ chan. h.agrees chan ∙ ground (arith, c); once = once' }))
    ];
  }

  call-Keeps : (c : Call) → Keeps Synced Aborted (call c)
  unfolding call
  call-Keeps (receive fuel chunk) = data_received-Keeps fuel chunk
  call-Keeps lose = connection_lost-Keeps
  call-Keeps again = reconnect-Keeps
  call-Keeps (publishing chan payload) = publish-Keeps chan payload
  call-Keeps (subscribing topic) = subscribe-Keeps topic
  call-Keeps (unsubscribing topic) = unsubscribe-Keeps topic
  call-Keeps closing = close-Keeps

  outcome-ok : {s t : Session} (c : Call) → Synced s → call c s ≡ (ok tt, t) → Synced t
  outcome-ok {s} {t} c h e = rw e at ((call-Keeps c).at s h)

  -- As long as no call on a session raises, over any number of connections and reconnections: once
  -- it is connected, the broker was told on that connection to subscribe it to exactly the channels
  -- of its set; before that it was told of none.
  pub Runs-Synced : {s : Session} → Runs s → Synced s
  unfolding count
  Runs-Synced start = record { agrees = λ chan. refl; once = λ chan. omega arith }
  Runs-Synced (next_call r c e) = outcome-ok c (Runs-Synced r) e
