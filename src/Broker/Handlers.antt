-- ===== src/Broker/Handlers.antt =====
-- hpfeeds/broker/connection.py: what a connection does on each message. `pending` stands for
-- `self.process_pending()`, which the loop in the module Loop passes in.
use hpfeeds.Prelude.{
  ℕ, ◌*◌, ◌==◌, [], ◌∷◌, ◌++◌, Bool, true, false, not, ◌&&◌, Option, none, some, if◌then◌else◌,
  contains, text_eq, list_eq,
}
use hpfeeds.Python.Result.{Result, ok, err, key_error, lookup_error, not_implemented}
use hpfeeds.Python.Exec.{pure, raise, lift, modify, ◌>>=◌, ◌>>◌}
use hpfeeds.Python.Struct.{Bytes}
use hpfeeds.Python.Values.{Text, codes}
use hpfeeds.Wire.Opcode.{
  op_error, op_info, op_auth, op_publish, op_subscribe, op_unsubscribe, sizes,
}
use hpfeeds.Wire.Message.{
  hashsecret, readerror, readinfo, readauth, readpublish, readsubscribe, readunsubscribe,
}
use hpfeeds.Broker.State.{
  Env, Row, Answer, found, failed, Lookup, now, awaitable, M, connection_ready, connection_error,
  error_checking_ident, invalid_first_message, invalid_ident, invalid_secret, ident_mismatch_pub,
  no_pub_permission, no_sub_permission, Category, self, assign, record_metric, server, close,
  pause_reading, resume_reading, set_write_buffer_limits,
}
use hpfeeds.Broker.Subscriptions.{subscribe, unsubscribe}
use hpfeeds.Broker.Lifecycle.{error}
use hpfeeds.Broker.Publish.{publish}

-- d[key], and d.get(key, default)
abbrev pub item {ℓ} : {A : Type ℓ} → Option A → Result A
item none = err key_error
item (some a) = ok a

abbrev pub or_default {ℓ} : {A : Type ℓ} → Option A → A → A
or_default none d = d
or_default (some a) d = a

-- f'{x}' of a text or None
abbrev pub shown : Option Text → Text
shown none = codes "None"
shown (some t) = t

-- ident == self.ak
abbrev pub is_ak : Text → Option Text → Bool
is_ak ident none = false
is_ak ident (some ak) = text_eq ident ak

-- x is None
abbrev pub is_none {ℓ} : {A : Type ℓ} → Option A → Bool
is_none none = true
is_none (some a) = false

module _ (env : Env) where
  -- A refusal: the metric, the error message to the peer, and the transport is closed.
  unfoldable pub refuse : ℕ → Option Text → Category → Text → M (Unit {0})
  refuse c ident category reason = do
    record_metric (connection_error ident category)
    error env c reason
    close c

  abbrev auth_failed : Text → Text
  auth_failed ident = codes "Authentication failed for " ++ ident

  -- Connection.authenticate, once the hash agrees. What meters the socket is left out.
  unfoldable pub accept : M (Unit {0}) → ℕ → Text → Row → M (Unit {0})
  accept pending c ident row = do
    assign c (λ x. record x { ak = some ident })
    owner ← lift (item row.owner)
    assign c (λ x. record x { uid = some owner })
    assign c (λ x. record x { pubchans = or_default row.pubchans [] })
    assign c (λ x. record x { subchans = or_default row.subchans [] })
    set_write_buffer_limits c (sizes op_publish * 50)
    record_metric (connection_ready ident)
    pending
    resume_reading c

  -- Connection.authenticate
  unfoldable pub authenticate : M (Unit {0}) → ℕ → Text → Bytes → Option Row → M (Unit {0})
  authenticate pending c ident secret none = refuse c (some ident) invalid_ident (auth_failed ident)
  authenticate pending c ident secret (some row) = do
    rand ← self c (λ x. x.authrand)
    key ← lift (item row.secret)
    akhash ← lift (hashsecret env.lib rand key)
    if not (text_eq akhash secret)
        then refuse c (some ident) invalid_secret (auth_failed ident)
        else accept pending c ident row

  -- The two ways on from the authenticator's answer in Connection.on_auth.
  unfoldable pub on_lookup : M (Unit {0}) → ℕ → Text → Bytes → Lookup → M Bool
  on_lookup pending c ident secret awaitable = do
    modify (λ b. record b { tasks = (c, ident, secret) ∷ b.tasks })
    pause_reading c
    pure true
  on_lookup pending c ident secret (now failed) = raise lookup_error
  on_lookup pending c ident secret (now (found akrow)) = do
    authenticate pending c ident secret akrow
    pure false

  -- Connection.on_auth
  unfoldable pub on_auth : M (Unit {0}) → ℕ → Text → Bytes → M Bool
  on_auth pending c ident secret = do
    server c
    on_lookup pending c ident secret (env.get_authkey ident)

  -- Connection.on_auth_result, for a task that raised or that gave a row or None.
  unfoldable pub on_auth_result : M (Unit {0}) → ℕ → Text → Bytes → Answer → M (Unit {0})
  on_auth_result pending c ident secret failed =
      refuse c (some ident) error_checking_ident (auth_failed ident)
  on_auth_result pending c ident secret (found akrow) = authenticate pending c ident secret akrow

  -- Connection.on_publish
  unfoldable pub on_publish : ℕ → Text → Text → Bytes → M (Unit {0})
  on_publish c ident chan payload = do
    ak ← self c (λ x. x.ak)
    pubchans ← self c (λ x. x.pubchans)
    if not (is_ak ident ak)
        then refuse c (some ident) ident_mismatch_pub
            (codes "Invalid authkey in message, ident=" ++ ident)
        else if not (contains chan pubchans)
        then refuse c (some ident) no_pub_permission
            (codes "Authkey not allowed to pub here. ident=" ++ ident ++ codes ", chan=" ++ chan)
        else (do server c; publish env c chan payload)

  -- Connection.on_subscribe, which goes on to subscribe where it has refused.
  unfoldable pub on_subscribe : ℕ → Text → Text → M (Unit {0})
  on_subscribe c ident chan = do
    subchans ← self c (λ x. x.subchans)
    ak ← self c (λ x. x.ak)
    if contains chan subchans
        then pure tt
        else refuse c (some ident) no_sub_permission
            (codes "Authkey not allowed to sub here. ident=" ++ shown ak ++ codes ", chan=" ++ chan)
    server c
    subscribe c chan

  -- Connection.on_unsubscribe
  unfoldable pub on_unsubscribe : ℕ → Text → Text → M (Unit {0})
  on_unsubscribe c ident chan = do server c; unsubscribe c chan

  -- BaseProtocol.message_received: the broker's connection has no on_error and no on_info. The
  -- result says whether the loop stops.
  unfoldable pub dispatch : M (Unit {0}) → ℕ → ℕ → Bytes → M Bool
  dispatch pending c opcode payload =
      if opcode == op_error
      then (do reason ← lift (readerror env.lib payload); raise not_implemented)
      else if opcode == op_info
      then (do fields ← lift (readinfo env.lib payload); raise not_implemented)
      else if opcode == op_auth
      then (do (ident, secret) ← lift (readauth env.lib payload); on_auth pending c ident secret)
      else if opcode == op_publish
      then (do
        (ident, chan, event) ← lift (readpublish env.lib payload)
        on_publish c ident chan event
        pure false)
      else if opcode == op_subscribe
      then (do
        (ident, chan) ← lift (readsubscribe env.lib payload)
        on_subscribe c ident chan
        pure false)
      else if opcode == op_unsubscribe
      then (do
        (ident, chan) ← lift (readunsubscribe env.lib payload)
        on_unsubscribe c ident chan
        pure false)
      else (do close c; pure true)

  -- Connection.message_received
  unfoldable pub message_received : M (Unit {0}) → ℕ → ℕ → Bytes → M Bool
  message_received pending c opcode payload = do
    ak ← self c (λ x. x.ak)
    if is_none ak && not (opcode == op_auth)
        then (do
          refuse c (some []) invalid_first_message (codes "First message was not AUTH")
          pure false)
        else dispatch pending c opcode payload
