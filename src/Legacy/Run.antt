-- ===== src/Legacy/Run.antt =====
-- hpfeeds/client.py, class Client: the loop that receives, and the calls.
use hpfeeds.Prelude.{
  ℕ, zero, suc, ◌==◌, List, [], ◌∷◌, Bool, true, false, not, ◌&&◌, Option, none, some, add, list_eq,
  if◌then◌else◌,
}
use hpfeeds.Python.Result.{Error, Result, ok, err, disconnect, out_of_fuel}
use hpfeeds.Python.Exec.{pure, raise, lift, gets, modify, when, for_each, ◌>>=◌, ◌>>◌}
use hpfeeds.Python.Struct.{Bytes}
use hpfeeds.Python.Values.{Text, Value, text}
use hpfeeds.Wire.Opcode.{op_error, op_publish}
use hpfeeds.Wire.Message.{readerror, readpublish, msgpublish, msgsubscribe}
use hpfeeds.Wire.Unpacker.{Message}
use hpfeeds.Legacy.Connection.{
  Config, M, is_disconnect, recv, send, next_message, feed_unpacker, tryconnect,
}

-- try: m, except Disconnect: self.connected = False. The result says whether it was caught.
abbrev pub lost_if : Bool → Error → M Bool
lost_if true e s = (ok true, record s { connected = false })
lost_if false e s = (err e, s)

abbrev pub after_loss : Result (Unit {0}) → M Bool
after_loss (ok a) s = (ok false, s)
after_loss (err e) s = lost_if (is_disconnect e) e s

unfoldable pub loses : M (Unit {0}) → M Bool
loses m s = let (r, s') = m s in after_loss r s'

-- Client.subscribe, of a list of channels
unfoldable pub subscribe : List Text → M (Unit {0})
subscribe channels =
    for_each channels (λ c. modify (λ s. record s { subscriptions = add c s.subscriptions }))

-- Client.stop
unfoldable pub stop : M (Unit {0})
stop = modify (λ s. record s { stopped = true })

-- Client.close
unfoldable pub close : M (Unit {0})
close = modify (λ s. record s { sock_open = false })

module _ (cfg : Config) where
  unfoldable pub send_subscribe : Text → M (Unit {0})
  send_subscribe c = do m ← lift (msgsubscribe cfg.lib (text cfg.ident) (text c)); send m

  unfoldable pub subscribe_each : List Text → M (Unit {0})
  subscribe_each [] = pure tt
  subscribe_each (c ∷ cs) = do
    lost ← loses (send_subscribe c)
    if lost then when (not cfg.reconnect) (raise disconnect) else subscribe_each cs

  -- Client._subscribe
  unfoldable pub subscribe_all : M (Unit {0})
  subscribe_all = do cs ← gets (λ s. s.subscriptions); subscribe_each (cfg.order cs)

  unfoldable pub send_publish : Text → Value → M (Unit {0})
  send_publish c payload = do
    m ← lift (msgpublish cfg.lib (text cfg.ident) (text c) payload)
    send m

  -- Client.publish, to a list of channels
  unfoldable pub publish : ℕ → List Text → Value → M (Unit {0})
  publish fuel channels payload = for_each channels λ c. do
    lost ← loses (send_publish c payload)
    when lost (if cfg.reconnect then tryconnect cfg fuel else raise disconnect)

  -- Client._read_message
  unfoldable pub read_message : M (Option Message)
  read_message = do
    d ← recv
    elim d [ [] ↦ raise disconnect | b ∷ bs ↦ feed_unpacker (b ∷ bs) >> next_message ]

  -- for opcode, data in self.unpacker: if opcode == OP_ERROR: return …
  unfoldable pub find_error : ℕ → M (Option Text)
  find_error zero = raise out_of_fuel
  find_error (suc fuel) = do
    m ← next_message
    elim m [
      | none ↦ pure none
      | some (opcode, payload) ↦
          (if opcode == op_error
            then (do reason ← lift (readerror cfg.lib payload); pure (some reason))
            else find_error fuel)
    ]

  unfoldable pub error_in : ℕ → Bytes → M (Option Text)
  error_in fuel [] = pure none
  error_in fuel (b ∷ bs) = do feed_unpacker (b ∷ bs); find_error fuel

  abbrev pub none_if : Bool → Error → M (Option Text)
  none_if true e s = (ok none, s)
  none_if false e s = (err e, s)

  abbrev pub unless_lost : Result (Option Text) → M (Option Text)
  unless_lost (ok reason) s = (ok reason, s)
  unless_lost (err e) s = none_if (is_disconnect e) e s

  -- Client.wait
  unfoldable pub wait : ℕ → M (Option Text)
  wait fuel s = let (r, s') = (recv >>= error_in fuel) s in unless_lost r s'

  -- The callbacks are the caller's, and may use the client.
  module _ (message_callback : Text → Text → Bytes → M (Unit {0}))
      (error_callback : Text → M (Unit {0})) where
    unfoldable pub on_message : Message → M (Unit {0})
    on_message (opcode, payload) =
        if opcode == op_publish
        then (do
          (ident, chan, event) ← lift (readpublish cfg.lib payload)
          message_callback ident chan event)
        else if opcode == op_error
        then (do reason ← lift (readerror cfg.lib payload); error_callback reason)
        else pure tt

    unfoldable pub each_message : M (Unit {0}) → Option Message → M (Unit {0})
    each_message loop none = pure tt
    each_message loop (some m) = do on_message m; loop

    -- for opcode, data in self.unpacker: …
    unfoldable pub message_loop : ℕ → M (Unit {0})
    message_loop zero = raise out_of_fuel
    message_loop (suc fuel) = do m ← next_message; each_message (message_loop fuel) m

    unfoldable pub receive_once : ℕ → M (Unit {0})
    receive_once fuel = do d ← recv; feed_unpacker d; message_loop fuel

    -- while self.connected: …
    unfoldable pub receive_loop : ℕ → M (Unit {0})
    receive_loop zero = raise out_of_fuel
    receive_loop (suc fuel) = do
      connected ← gets (λ s. s.connected)
      when connected (do
        lost ← loses (receive_once fuel)
        stopped ← gets (λ s. s.stopped)
        when (not lost && not stopped) (receive_loop fuel))

    unfoldable pub run_round : ℕ → M (Unit {0})
    run_round fuel = do
      subscribe_all
      receive_loop fuel
      stopped ← gets (λ s. s.stopped)
      when (not stopped && cfg.reconnect) (tryconnect cfg fuel)

    -- Client.run: while not self.stopped: …
    unfoldable pub run : ℕ → M (Unit {0})
    run zero = raise out_of_fuel
    run (suc fuel) = do
      stopped ← gets (λ s. s.stopped)
      when (not stopped) (do run_round fuel; run fuel)
