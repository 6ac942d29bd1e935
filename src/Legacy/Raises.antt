-- ===== src/Legacy/Raises.antt =====
-- hpfeeds/client.py: which exceptions come out of the calls of a client.
pub mod Run
use hpfeeds.Prelude.{
  ℕ, zero, suc, ◌==◌, ◌≡◌, refl, List, [], ◌∷◌, Bool, true, false, not, ◌&&◌, Option, none, some,
  arith, ap, if◌then◌else◌, inl, inr,
}
use hpfeeds.Python.Result.{
  Error, Result, ok, err, disconnect, out_of_fuel, stop_iteration, is_own, is_feed_exception,
  Result-cases, is_protocol_exception,
}
use hpfeeds.Python.Result.Clean.{Clean}
use hpfeeds.Python.Exec.{
  Exec, pure, raise, lift, gets, modify, when, for_each, try, after_try, handled, ◌>>=◌, ◌>>◌,
}
use hpfeeds.Python.Exec.Keeps.{
  Outcome, Keeps, keeps_rules, Keeps-pure, Keeps-raise, Keeps-lift, Keeps-bind, Keeps-gets,
  Keeps-modify, Keeps-if,
}
use hpfeeds.Python.Struct.{Bytes}
use hpfeeds.Python.Values.{Text, Value, text}
use hpfeeds.Wire.Message.Clean.{
  readerror-Clean, readpublish-Clean, msgpublish-Clean, msgsubscribe-Clean,
}
use hpfeeds.Wire.Unpacker.{Unpacker, Message, unpack, ready, pop, check}
use hpfeeds.Wire.Unpacker.Raises.{unpack-Unfed}
use hpfeeds.Legacy.Connection.{
  Config, Client, M, Recv, recv_timeout, recv_error, chunk_of, Sendall, send_timeout, send_error,
  send_done, is_disconnect, is_retried, take_recv, take_send, received, recv, sent_by, send, next,
  next_message, feed_unpacker, connect, connect_loop, tryconnect,
}
use hpfeeds.Legacy.Run.{
  lost_if, after_loss, loses, subscribe, stop, close, send_subscribe, subscribe_each, subscribe_all,
  send_publish, publish, find_error, error_in, wait, on_message, each_message, message_loop,
  receive_once, receive_loop, run_round, run,
}

-- Any state.
abbrev pub Any : Client → Type 0
Any s = Unit {0}

-- The call raises no FeedException.
abbrev pub Unfed : {A : Type 0} → M A → Type 0
Unfed m = Keeps Any (λ e s. is_feed_exception e ≡ false) m

-- The call raises no exception of hpfeeds/exceptions.py.
abbrev pub Foreign : {A : Type 0} → M A → Type 0
Foreign m = Keeps Any (λ e s. is_own e ≡ false) m

Foreign-lift : {A : Type 0} (r : Result A) → Clean r → Foreign (lift r)
Foreign-lift r c = Keeps-lift r (λ e h s p. c.foreign e h)

pub own-feed : (e : Error) → is_own e ≡ false → is_feed_exception e ≡ false
own-feed e h = ground arith

Unfed-Outcome :
    {A : Type 0} (o : Result A × Client)
    → Outcome Any (λ e s. is_own e ≡ false) o
    → Outcome Any (λ e s. is_feed_exception e ≡ false) o
Unfed-Outcome (ok a, s) h = tt
Unfed-Outcome (err e, s) h = own-feed e h

pub Unfed-Foreign : {A : Type 0} (m : M A) → Foreign m → Unfed m
Unfed-Foreign m k = record { at = λ s h. Unfed-Outcome (m s) (k.at s h) }

pub Unfed-lift : {A : Type 0} (r : Result A) → Clean r → Unfed (lift r)
Unfed-lift r c = Unfed-Foreign (lift r) (Foreign-lift r c)

-- What tryconnect catches, it does not raise, whatever its body does.
Outcome-retried :
    (h : M (Unit {0})) (r : Result (Unit {0})) (s : Client)
    → Foreign h
    → Outcome Any (λ e s. is_own e ≡ false) (after_try is_retried h r s)
Outcome-retried h (ok a) s k = tt
Outcome-retried h (err e) s k = uncaught (is_retried e) refl
  where
    uncaught :
        (b : Bool) → is_retried e ≡ b → Outcome Any (λ e s. is_own e ≡ false) (handled b e h s)
    uncaught true p = k.at s tt
    uncaught false p = ground (arith, p)

Foreign-try : (m h : M (Unit {0})) → Foreign h → Foreign (try is_retried m h)
unfolding try
Foreign-try m h k = record { at = λ s p. Outcome-retried h (m s).0 (m s).1 k }

-- Of what it raises, Disconnect is caught.
Outcome-loss :
    (r : Result (Unit {0})) (s : Client)
    → Outcome Any (λ e s. is_feed_exception e ≡ false) (r, s)
    → Outcome Any (λ e s. is_own e ≡ false) (after_loss r s)
Outcome-loss (ok a) s h = tt
Outcome-loss (err e) s h = caught (is_disconnect e) refl
  where
    caught :
        (b : Bool) → is_disconnect e ≡ b → Outcome Any (λ e s. is_own e ≡ false) (lost_if b e s)
    caught true p = tt
    caught false p = ground (arith, p, h)

pub Foreign-loses : (m : M (Unit {0})) → Unfed m → Foreign (loses m)
unfolding loses
Foreign-loses m k = record { at = λ s p. Outcome-loss (m s).0 (m s).1 (k.at s p) }

modify-Foreign : (f : Client → Client) → Foreign (modify f)
modify-Foreign f = Keeps-modify f (λ s p. tt)

-- The sockets and the parser.
take_send-Unfed : (rs : List Sendall) → Unfed (take_send rs)
unfolding take_send
take_send-Unfed [] = Keeps-raise out_of_fuel (λ s p. refl)
take_send-Unfed (r ∷ rs) = search keeps_rules

sent_by-Unfed : (m : Bytes) (r : Sendall) → Unfed (sent_by m r)
unfolding sent_by
sent_by-Unfed m send_timeout = Keeps-raise disconnect (λ s p. refl)
sent_by-Unfed m send_error = Keeps-raise disconnect (λ s p. refl)
sent_by-Unfed m send_done = search keeps_rules

pub send-Unfed : (m : Bytes) → Unfed (send m)
unfolding send
send-Unfed m = search (keeps_rules, take_send-Unfed, sent_by-Unfed)

take_recv-Unfed : (rs : List Recv) → Unfed (take_recv rs)
unfolding take_recv
take_recv-Unfed [] = Keeps-raise out_of_fuel (λ s p. refl)
take_recv-Unfed (r ∷ rs) = search keeps_rules

received-Unfed : (r : Recv) → Unfed (received r)
unfolding received
received-Unfed recv_timeout = Keeps-pure []
received-Unfed recv_error = Keeps-raise disconnect (λ s p. refl)
received-Unfed (chunk_of []) = Keeps-raise disconnect (λ s p. refl)
received-Unfed (chunk_of (b ∷ bs)) = Keeps-pure (b ∷ bs)

pub recv-Unfed : Unfed recv
unfolding recv
recv-Unfed = search (keeps_rules, take_recv-Unfed, received-Unfed)

pub feed_unpacker-Unfed : (d : Bytes) → Unfed (feed_unpacker d)
unfolding feed_unpacker
feed_unpacker-Unfed d = search keeps_rules

next-Unfed :
    (r : Result (Message × Unpacker))
    → ((e : Error) → r ≡ err e → is_feed_exception e ≡ false)
    → Unfed (next r)
unfolding next
next-Unfed (ok (m, u)) k = search keeps_rules
next-Unfed (err stop_iteration) k = Keeps-pure none
next-Unfed (err e) k = Keeps-raise _ (λ s p. k _ refl)

pub next_message-Unfed : Unfed next_message
unfolding next_message
next_message-Unfed =
    Keeps-bind _ _ (Keeps-gets _) (λ u. next-Unfed (unpack u) (λ e h. (unpack-Unfed u e h).0))

pub ruleset unfed =
    (keeps_rules, send-Unfed, recv-Unfed, feed_unpacker-Unfed, next_message-Unfed, Unfed-lift)

module _ (cfg : Config) where
  connect_loop-Foreign : (fuel : ℕ) → Foreign (connect_loop cfg fuel)
  unfolding connect_loop
  connect_loop-Foreign zero = Keeps-raise out_of_fuel (λ s p. refl)
  connect_loop-Foreign (suc fuel) =
      Foreign-try (connect cfg) (connect_loop cfg fuel) (connect_loop-Foreign fuel)

  pub tryconnect-Foreign : (fuel : ℕ) → Foreign (tryconnect cfg fuel)
  unfolding tryconnect
  tryconnect-Foreign fuel = search (keeps_rules, connect_loop-Foreign)

  send_subscribe-Unfed : (c : Text) → Unfed (send_subscribe cfg c)
  unfolding send_subscribe
  send_subscribe-Unfed c = search (unfed, msgsubscribe-Clean)

  send_publish-Unfed : (c : Text) (payload : Value) → Unfed (send_publish cfg c payload)
  unfolding send_publish
  send_publish-Unfed c payload = search (unfed, msgpublish-Clean)

  module _ (may : cfg.reconnect ≡ true) where
    pub Foreign-may : (m n : M (Unit {0})) → Foreign m → Foreign (if cfg.reconnect then m else n)
    Foreign-may m n k = Keeps-if cfg.reconnect m n (λ e. k) (λ e. absurd (ground (arith, e, may)))

    Foreign-may_not : (m : M (Unit {0})) → Foreign (when (not cfg.reconnect) m)
    Foreign-may_not m =
        Keeps-if (not cfg.reconnect) m (pure tt) (λ e. absurd (ground (arith, e, may)))
          (λ e. Keeps-pure tt)

    subscribe_each-Foreign : (cs : List Text) → Foreign (subscribe_each cfg cs)
    unfolding subscribe_each
    subscribe_each-Foreign [] = Keeps-pure tt
    subscribe_each-Foreign (c ∷ cs) =
        let ih = subscribe_each-Foreign cs in
        search (keeps_rules, Foreign-may_not, Foreign-loses, send_subscribe-Unfed)

    pub subscribe_all-Foreign : Foreign (subscribe_all cfg)
    unfolding subscribe_all
    subscribe_all-Foreign = search (keeps_rules, subscribe_each-Foreign)

    pub publish-Foreign :
        (fuel : ℕ) (cs : List Text) (payload : Value) → Foreign (publish cfg fuel cs payload)
    unfolding publish
    publish-Foreign fuel cs payload =
        search (keeps_rules, Foreign-may, Foreign-loses, send_publish-Unfed, tryconnect-Foreign)
