-- ===== src/Legacy/Resubscribed.antt =====
-- hpfeeds/client.py: a client that lost its connection and got another one is subscribed again.
use hpfeeds.Prelude.{
  ◌⊎◌, inl, inr, ℕ, ◌≡◌, refl, List, [], ◌∷◌, ◌++◌, Bool, true, false, not, arith, ap, sym, ◌∙◌,
}
use hpfeeds.Python.Result.{Error, Result, ok, err, disconnect}
use hpfeeds.Python.Exec.{pure, raise, lift, gets, when, ◌>>=◌}
use hpfeeds.Python.Exec.Bind.{bind-eq-ok}
use hpfeeds.Python.Struct.{Bytes}
use hpfeeds.Python.Values.{Text, text}
use hpfeeds.Wire.Message.{msgauth, msgsubscribe}
use hpfeeds.Legacy.Connection.{Config, Client, is_disconnect, send, tryconnect}
use hpfeeds.Legacy.Run.{lost_if, after_loss, loses, send_subscribe, subscribe_each, subscribe_all}
use hpfeeds.Legacy.Took.{Took, Took-same, Took-trans, send-ok}
use hpfeeds.Legacy.Told.{tryconnect-Fresh}

module _ (cfg : Config) where
  -- What a guarded statement comes to: it returned, or else the connection is down.
  lost_if-cases :
      (b : Bool) (x : Error) (s t : Client) (lost : Bool)
      → lost_if b x s ≡ (ok lost, t)
      → (lost ≡ true) × (t.connected ≡ false)
  lost_if-cases true x s t lost e = (ground arith, ap (λ o. o.1.connected) (sym e))
  lost_if-cases false x s t lost e = cc

  after_loss-cases :
      (r : Result (Unit {0})) (s t : Client) (lost : Bool)
      → after_loss r s ≡ (ok lost, t)
      → ((lost ≡ false) × (r ≡ ok tt) × (s ≡ t)) ⊎ ((lost ≡ true) × (t.connected ≡ false))
  after_loss-cases (ok tt) s t lost e = inl (ground arith, refl, ap (λ o. o.1) e)
  after_loss-cases (err x) s t lost e = inr (lost_if-cases (is_disconnect x) x s t lost e)

  -- The messages that subscribe to these channels.
  abbrev pub Subscribes : List Text → List Bytes → Type 0
  Subscribes [] ms = ms ≡ []
  Subscribes (c ∷ cs) [] = ⊥
  Subscribes (c ∷ cs) (m ∷ ms) =
      (msgsubscribe cfg.lib (text cfg.ident) (text c) ≡ ok m) × Subscribes cs ms

  send_subscribe-ok :
      (c : Text) (s t : Client)
      → send_subscribe cfg c s ≡ (ok tt, t)
      → (m : Bytes) × (msgsubscribe cfg.lib (text cfg.ident) (text c) ≡ ok m) × Took (m ∷ []) s t
  unfolding send_subscribe lift
  send_subscribe-ok c s t e =
      let (m, s1, p, q) =
        bind-eq-ok (lift (msgsubscribe cfg.lib (text cfg.ident) (text c))) send s t e in
      (m, ap (λ o. o.0) p, send-ok m s t (ap (λ x. send m x) (ap (λ o. o.1) p) ∙ q))

  abbrev Goes : List Text → Client → Client → Type 0
  Goes cs s t = (ms : List Bytes) × Subscribes cs ms × Took ms s t

  down :
      (b : Bool) (s t : Client)
      → s.connected ≡ false
      → when b (raise disconnect) s ≡ (ok tt, t)
      → t.connected ≡ false
  unfolding raise pure
  down true s t c e = cc
  down false s t c e = ap (λ o. o.1.connected) (sym e) ∙ c

  subscribe_each-ok :
      (cs : List Text) (s t : Client)
      → subscribe_each cfg cs s ≡ (ok tt, t)
      → t.connected ≡ true
      → Goes cs s t
  unfolding subscribe_each pure loses
  subscribe_each-ok [] s t e c = ([], refl, Took-same s t (ap (λ o. o.1) e))
  subscribe_each-ok (x ∷ cs) s t e c =
      let (lost, s1, p, q) = bind-eq-ok (loses (send_subscribe cfg x)) _ s t e in
      elim (after_loss-cases (send_subscribe cfg x s).0 (send_subscribe cfg x s).1 s1 lost p) [
        | inl (l, r, same) ↦
            let (m, b, k) = send_subscribe-ok x s s1 (cc) in
            let (ms, bs, ks) = subscribe_each-ok cs s1 t (rw l at q) c in
            (m ∷ ms, (b, bs), Took-trans k ks)
        | inr (l, d) ↦ absurd (cc (down (not cfg.reconnect) s1 t d (rw l at q), c))
      ]

  moved : {cs ds : List Text} (ms : List Bytes) → cs ≡ ds → Subscribes cs ms → Subscribes ds ms
  moved ms e h = rw (← e) h

  -- A client that is not connected calls tryconnect, and then _subscribe, as `run` does after a
  -- disconnection. If both return, whatever the name service and the sockets answered and however
  -- often it had to try, and it is connected then, then the broker got on this connection the answer
  -- to a challenge, first, and after it a subscription for each channel of the set, and nothing else.
  pub subscribe_all-tryconnect :
      (fuel : ℕ) (s u t : Client)
      → s.connected ≡ false
      → tryconnect cfg fuel s ≡ (ok tt, u)
      → subscribe_all cfg u ≡ (ok tt, t)
      → t.connected ≡ true
      → (rand : Bytes) × (m : Bytes) × (ms : List Bytes) × (msgauth cfg.lib rand
            (text cfg.ident)
            cfg.secret
          ≡ ok m)
        × Subscribes (cfg.order t.subscriptions) ms
        × (t.sent ≡ m ∷ ms)
  unfolding subscribe_all gets ◌>>=◌
  subscribe_all-tryconnect fuel s u t d e f c =
      let (rand, m, b, p, _) = tryconnect-Fresh cfg fuel s u d e in
      let (ms, bs, k) = subscribe_each-ok (cfg.order u.subscriptions) u t f c in
      (
        rand,
        m,
        ms,
        b,
        moved ms (sym (ap cfg.order k.subscriptions)) bs,
        k.took ∙ ap (λ x. x ++ ms) p,
      )
