-- ===== src/Twisted/Same/Loop.antt =====
-- hpfeeds/twisted against hpfeeds/asyncio: the loop over the messages, and the calls.
use hpfeeds.Prelude.{
  ℕ, zero, suc, ◌≤◌, ◌==◌, ◌≡◌, refl, Bool, true, false, not, some, if◌then◌else◌, arith, ap, sym,
  ◌∙◌, inl, inr,
}
use hpfeeds.Python.Result.{Result, ok, err, not_implemented, stop_iteration, is_protocol_exception}
use hpfeeds.Python.Exec.{Exec, pure, raise, lift, gets, modify, when, continue, ◌>>=◌}
use mathlib.Core.Path.{subst}
use hpfeeds.Python.Exec.Simulates.{Alike, bind-Simulates, modify-Simulates, try-Simulates}
use hpfeeds.Python.Struct.{Bytes}
use hpfeeds.Python.Values.{Text}
use hpfeeds.Wire.Opcode.{op_error, op_info, op_auth, op_publish, op_subscribe, op_unsubscribe}
use hpfeeds.Wire.Unpacker.{Unpacker, Message, unpack}
use hpfeeds.Wire.Unpacker.Bounds.{unpack-le}
use hpfeeds.Protocol
use hpfeeds.Client.Session.{Packet, Config, Session}
use hpfeeds.Client.Session
use hpfeeds.Twisted.Service.{Service}
use hpfeeds.Twisted.Service
use hpfeeds.Twisted.Same.{as_session, Same, on_info-Same, on_publish-Same, on_unexpected-Same}

-- A handler that returns lets the loop of the session go on.
abbrev goes_on : Result (Unit {0}) → Result Bool
goes_on (ok a) = ok false
goes_on (err e) = err e

record Handles (m : Exec Service (Unit {0})) (n : Exec Session Bool) : Type 0 where
  at : (s : Service) → Alike as_session (goes_on (m s).0, (m s).1) (n (as_session s))

returned :
    (r r' : Result (Unit {0})) (s : Service) (t : Session)
    → Alike as_session (r, s) (r', t)
    → Alike as_session (goes_on r, s) (continue r' (λ _. pure false) t)
unfolding pure
returned (ok a) r' s t (inl e, p) = rw e (inl refl, p)
returned (err x) r' s t (inl e, p) = rw e (inl refl, p)
returned r r' s t (inr (e, e'), p) = rw (e, e') (inr (refl, refl), p)

Same-Handles :
    (m : Exec Service (Unit {0})) (n : Exec Session (Unit {0}))
    → Same m n
    → Handles m (n >>= λ _. pure false)
unfolding ◌>>=◌
Same-Handles m n h = record {
  at = λ s. returned (m s).0 (n (as_session s)).0 (m s).1 (n (as_session s)).1 (h.at s);
}

lift-Handles :
    {A : Type 0} (r : Result A) (k : A → Exec Service (Unit {0})) (k' : A → Exec Session Bool)
    → ((a : A) → Handles (k a) (k' a))
    → Handles (lift r >>= k) (lift r >>= k')
unfolding lift ◌>>=◌
lift-Handles (ok a) k k' h = record { at = (h a).at }
lift-Handles (err e) k k' h = record { at = λ s. (inl refl, refl) }

if-Handles :
    (b : Bool) (m m' : Exec Service (Unit {0})) (n n' : Exec Session Bool)
    → Handles m n
    → (b ≡ false → Handles m' n')
    → Handles (if b then m else m') (if b then n else n')
if-Handles true m m' n n' k k' = k
if-Handles false m m' n n' k k' = k' refl

continue-Same :
    (r : Result (Unit {0})) (loop : Exec Service (Unit {0})) (loop' : Exec Session (Unit {0}))
    (s : Service)
    → Same loop loop'
    → Alike as_session
        (continue r (λ _. loop) s)
        (continue (goes_on r) (λ stop. when (not stop) loop') (as_session s))
continue-Same (ok a) loop loop' s h = h.at s
continue-Same (err e) loop loop' s h = (inl refl, refl)

after_stop :
    (r : Result (Unit {0})) (r' : Result Bool) (loop : Exec Service (Unit {0}))
    (loop' : Exec Session (Unit {0})) (s : Service) (t : Session)
    → Same loop loop'
    → Alike as_session (goes_on r, s) (r', t)
    → Alike as_session (continue r (λ _. loop) s) (continue r' (λ stop. when (not stop) loop') t)
after_stop r r' loop loop' s t h (inl e, p) =
    subst
      (λ (o : Result Bool × Session).
        Alike as_session (continue r (λ _. loop) s)
          (continue o.0 (λ stop. when (not stop) loop') o.1))
      (ap (λ x. (x, as_session s)) (sym e) ∙ ap (λ x. (r', x)) (sym p))
      (continue-Same r loop loop' s h)
after_stop (ok a) r' loop loop' s t h (inr (e, e'), p) = absurd (cc)
after_stop (err x) r' loop loop' s t h (inr (e, e'), p) = rw e' (inr (cc, refl), p)

Handles-Same :
    (m loop : Exec Service (Unit {0})) (n : Exec Session Bool) (loop' : Exec Session (Unit {0}))
    → Handles m n
    → Same loop loop'
    → Same (m >>= λ _. loop) (n >>= λ stop. when (not stop) loop')
unfolding ◌>>=◌
Handles-Same m loop n loop' h k = record {
  at = λ s.
      after_stop (m s).0 (n (as_session s)).0 loop loop' (m s).1 (n (as_session s)).1 k (h.at s);
}

module _ (cfg : Config) where
  on_error-Handles : (reason : Text) → Handles (Service.on_error reason) (raise not_implemented)
  unfolding Service.on_error raise
  on_error-Handles reason = record { at = λ s. (inl refl, refl) }

  message_received-Handles :
      (op : ℕ) (payload : Bytes)
      → op ≤ op_unsubscribe
      → Handles
          (Protocol.message_received cfg.lib (Service.handlers cfg) op payload)
          (Session.message_received cfg op payload)
  unfolding Protocol.message_received Session.message_received
  message_received-Handles op payload l =
      if-Handles (op == op_error) _ _ _ _ (lift-Handles _ _ _ on_error-Handles) λ e0.
        if-Handles (op == op_info) _ _ _ _
          (lift-Handles _ _ _ (λ (name, rand). Same-Handles _ _ (on_info-Same cfg name rand)))
          λ e1.
            if-Handles (op == op_auth) _ _ _ _
              (lift-Handles _ _ _ (λ a. Same-Handles _ _ (on_unexpected-Same cfg)))
              λ e2.
                if-Handles (op == op_publish) _ _ _ _
                  (lift-Handles _ _ _ (λ (i, c, x). Same-Handles _ _ (on_publish-Same cfg i c x)))
                  λ e3.
                    if-Handles (op == op_subscribe) _ _ _ _
                      (lift-Handles _ _ _ (λ a. Same-Handles _ _ (on_unexpected-Same cfg)))
                      λ e4.
                        if-Handles (op == op_unsubscribe) _ _ _ _
                          (lift-Handles _ _ _ (λ a. Same-Handles _ _ (on_unexpected-Same cfg)))
                          λ e5. absurd (ground (arith, l, e0, e1, e2, e3, e4, e5))

  round-Same :
      (op : ℕ) (payload : Bytes) (loop : Exec Service (Unit {0})) (loop' : Exec Session (Unit {0}))
      → op ≤ op_unsubscribe
      → Same loop loop'
      → Same
          (Protocol.round cfg.lib (Service.handlers cfg) loop (some (op, payload)))
          (Session.round cfg loop' (some (op, payload)))
  unfolding Protocol.round Session.round
  round-Same op payload loop loop' l k =
      Handles-Same _ _ _ _ (message_received-Handles op payload l) k

  next-round-Same :
      (r : Result (Message × Unpacker)) (loop : Exec Service (Unit {0}))
      (loop' : Exec Session (Unit {0}))
      → ((op : ℕ) (payload : Bytes) (u : Unpacker)
          → r ≡ ok ((op, payload), u)
          → op ≤ op_unsubscribe)
      → Same loop loop'
      → Same
          (Protocol.next cfg.lib (Service.handlers cfg) r
            >>= Protocol.round cfg.lib (Service.handlers cfg) loop)
          (Session.next cfg r >>= Session.round cfg loop')
  unfolding Protocol.next Session.next Protocol.round Session.round modify pure raise ◌>>=◌
  next-round-Same (ok ((op, payload), u)) loop loop' l k = record {
    at = λ s.
        (round-Same op payload loop loop' (l op payload u refl) k).at (record s { unpacker = u });
  }
  next-round-Same (err stop_iteration) loop loop' l k = record { at = λ s. (inl refl, refl) }
  next-round-Same (err e) loop loop' l k = record { at = λ s. (inl refl, refl) }

  message_loop-Same :
      (fuel : ℕ)
      → Same
          (Protocol.message_loop cfg.lib (Service.handlers cfg) fuel)
          (Session.pending_loop cfg fuel)
  unfolding Protocol.message_loop Session.pending_loop gets raise ◌>>=◌
  message_loop-Same zero = record { at = λ s. (inl refl, refl) }
  message_loop-Same (suc fuel) = record {
    at = λ s.
        (next-round-Same (unpack s.unpacker) _ _
            (λ op payload u e. unpack-le s.unpacker u op payload e) (message_loop-Same fuel)).at
          s;
  }

  pub data_received-Same :
      (fuel : ℕ) (chunk : Bytes)
      → Same (Service.client_received cfg fuel chunk) (Session.data_received cfg fuel chunk)
  unfolding Protocol.data_received Session.data_received Service.lose_connection Session.hang_up
  data_received-Same fuel chunk =
      bind-Simulates as_session _ _ _ _ (modify-Simulates as_session _ _ (λ s. refl)) λ u.
        try-Simulates as_session is_protocol_exception refl refl _ _
          (modify-Simulates as_session _ _ (λ s. refl)) _ _ (message_loop-Same fuel)
