-- ===== src/Legacy/Raises/Run.antt =====
-- hpfeeds/client.py: what comes out of `run` and `wait`.
use hpfeeds.Prelude.{
  ℕ, zero, suc, ◌==◌, ◌≡◌, refl, [], ◌∷◌, Bool, true, false, Option, none, some, arith,
  if◌then◌else◌,
}
use hpfeeds.Python.Result.{Result, ok, err, out_of_fuel, is_own, is_feed_exception}
use hpfeeds.Python.Exec.{pure, lift, ◌>>=◌}
use hpfeeds.Python.Exec.Keeps.{Outcome, keeps_rules, Keeps-pure, Keeps-raise, Keeps-bind}
use hpfeeds.Python.Struct.{Bytes}
use hpfeeds.Python.Values.{Text}
use hpfeeds.Wire.Opcode.{op_error}
use hpfeeds.Wire.Message.{readerror}
use hpfeeds.Wire.Message.Clean.{readerror-Clean, readpublish-Clean}
use hpfeeds.Wire.Unpacker.{Message}
use hpfeeds.Legacy.Connection.{Config, Client, M, is_disconnect, recv}
use hpfeeds.Legacy.Run.{
  find_error, error_in, wait, none_if, unless_lost, on_message, each_message, message_loop,
  receive_once, receive_loop, run_round, run,
}
use hpfeeds.Legacy.Raises.{
  Any, Unfed, Foreign, unfed, Unfed-Foreign, Foreign-loses, subscribe_all-Foreign,
  tryconnect-Foreign, next_message-Unfed,
}

module _ (cfg : Config) where
  find_error-Unfed : (fuel : ℕ) → Unfed (find_error cfg fuel)
  unfolding find_error
  find_error-Unfed zero = Keeps-raise out_of_fuel (λ s p. refl)
  find_error-Unfed (suc fuel) =
      let ih = find_error-Unfed fuel in Keeps-bind _ _ next_message-Unfed (λ m. of_message m ih)
    where
      of_message :
          (m : Option Message)
          → Unfed (find_error cfg fuel)
          → Unfed {A = Option Text} (elim m [
            | none ↦ pure none
            | some (opcode, payload) ↦
                (if opcode == op_error
                  then (do reason ← lift (readerror cfg.lib payload); pure (some reason))
                  else find_error cfg fuel)
          ])
      of_message none k = Keeps-pure none
      of_message (some (opcode, payload)) k = search (unfed, readerror-Clean)

  error_in-Unfed : (fuel : ℕ) (d : Bytes) → Unfed (error_in cfg fuel d)
  unfolding error_in
  error_in-Unfed fuel [] = Keeps-pure none
  error_in-Unfed fuel (b ∷ bs) = search (unfed, find_error-Unfed)

  Outcome-unless :
      (r : Result (Option Text)) (s : Client)
      → Outcome Any (λ e s. is_feed_exception e ≡ false) (r, s)
      → Outcome Any (λ e s. is_own e ≡ false) (unless_lost cfg r s)
  Outcome-unless (ok a) s h = tt
  Outcome-unless (err e) s h = caught (is_disconnect e) refl
    where
      caught :
          (b : Bool)
          → is_disconnect e ≡ b
          → Outcome Any (λ e s. is_own e ≡ false) (none_if cfg b e s)
      caught true p = tt
      caught false p = ground (arith, p, h)

  pub wait-Foreign : (fuel : ℕ) → Foreign (wait cfg fuel)
  unfolding wait
  wait-Foreign fuel =
      let k : Unfed (recv >>= error_in cfg fuel) = search (unfed, error_in-Unfed) in
      record {
        at = λ s p.
            Outcome-unless ((recv >>= error_in cfg fuel) s).0 ((recv >>= error_in cfg fuel) s).1
              (k.at s p);
      }

  -- The callbacks raise none of them either.
  module _ (may : cfg.reconnect ≡ true) (message_callback : Text → Text → Bytes → M (Unit {0}))
      (error_callback : Text → M (Unit {0}))
      (on_event : (i c : Text) (p : Bytes) → Foreign (message_callback i c p))
      (on_complaint : (r : Text) → Foreign (error_callback r)) where
    on_message-Unfed : (m : Message) → Unfed (on_message cfg message_callback error_callback m)
    unfolding on_message
    on_message-Unfed (opcode, payload) =
        search (unfed, readpublish-Clean, readerror-Clean, Unfed-Foreign, on_event, on_complaint)

    each_message-Unfed :
        (loop : M (Unit {0})) (m : Option Message)
        → Unfed loop
        → Unfed (each_message cfg message_callback error_callback loop m)
    unfolding each_message
    each_message-Unfed loop none k = Keeps-pure tt
    each_message-Unfed loop (some m) k = search (unfed, on_message-Unfed)

    message_loop-Unfed : (fuel : ℕ) → Unfed (message_loop cfg message_callback error_callback fuel)
    unfolding message_loop
    message_loop-Unfed zero = Keeps-raise out_of_fuel (λ s p. refl)
    message_loop-Unfed (suc fuel) =
        let ih = message_loop-Unfed fuel in
        Keeps-bind _ _ next_message-Unfed (λ m. each_message-Unfed _ m ih)

    receive_once-Unfed : (fuel : ℕ) → Unfed (receive_once cfg message_callback error_callback fuel)
    unfolding receive_once
    receive_once-Unfed fuel = search (unfed, message_loop-Unfed)

    receive_loop-Foreign :
        (fuel : ℕ) → Foreign (receive_loop cfg message_callback error_callback fuel)
    unfolding receive_loop
    receive_loop-Foreign zero = Keeps-raise out_of_fuel (λ s p. refl)
    receive_loop-Foreign (suc fuel) =
        let ih = receive_loop-Foreign fuel in
        search (keeps_rules, Foreign-loses, receive_once-Unfed) depth 9

    run_round-Foreign : (fuel : ℕ) → Foreign (run_round cfg message_callback error_callback fuel)
    unfolding run_round
    run_round-Foreign fuel =
        let subscribing = subscribe_all-Foreign cfg may in
        let receiving = receive_loop-Foreign fuel in
        search (keeps_rules, tryconnect-Foreign) depth 9

    pub run-Foreign : (fuel : ℕ) → Foreign (run cfg message_callback error_callback fuel)
    unfolding run
    run-Foreign zero = Keeps-raise out_of_fuel (λ s p. refl)
    run-Foreign (suc fuel) = let ih = run-Foreign fuel in search (keeps_rules, run_round-Foreign)
