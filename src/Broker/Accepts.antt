-- ===== src/Broker/Accepts.antt =====
-- hpfeeds/broker/connection.py: a connection that proves that it knows the secret.
pub mod Chunks
use hpfeeds.Prelude.{
  ℕ, suc, ◌*◌, ◌==◌, ◌≡◌, refl, sym, [], ◌∷◌, ◌++◌, Bool, true, false, Option, none, some,
  if◌then◌else◌, arith, ap, ◌∙◌, contains, text_eq, text_eq_refl, nat_eq, list_eq,
}
use hpfeeds.Python.Result.{ok, err, stop_iteration}
use hpfeeds.Python.Exec.{lift, modify, pure, try, ◌>>=◌, ◌>>◌}
use hpfeeds.Python.Exec.Bind.{bind_of_ok}
use hpfeeds.Python.Struct.{Bytes}
use hpfeeds.Python.Values.{Text}
use hpfeeds.Wire.Opcode.{op_auth, op_publish, sizes}
use hpfeeds.Wire.Message.{hashsecret, readauth}
use hpfeeds.Wire.Unpacker.{Unpacker, unpack, empty}
use hpfeeds.Wire.Unpacker.Stream.{empty-waits}
use hpfeeds.Broker.Forwards.{moved, loop-guarded, loop-handles}
use hpfeeds.Broker.Loop.{next, round, guarded, pending_loop}
use hpfeeds.Broker.State.{
  Broker, Conn, Env, Row, M, found, now, connection_ready, self, assign, on_conn, server,
  record_metric, update, resume_reading, set_write_buffer_limits,
}
use hpfeeds.Broker.Handlers.{
  item, or_default, is_none, accept, authenticate, on_lookup, on_auth, dispatch, message_received,
}

-- The connection has the name of the ident, and the owner and the channels of its row.
abbrev pub accepted : Text → Text → Row → Conn → Conn
accepted ident owner row x = record x {
  ak = some ident;
  uid = some owner;
  pubchans = or_default row.pubchans [];
  subchans = or_default row.subchans [];
  transport = record x.transport { paused = false; high = some (sizes op_publish * 50) };
}

-- `t` is `b` after the connection was accepted; no other connection and no subscription changed.
pub record Accepted (c : ℕ) (f : Conn → Conn) (b t : Broker) : Type 0 where
  pub each : (d : ℕ) → t.conns d ≡ (if c == d then f (b.conns d) else b.conns d)
  pub same_subscriptions : (chan : Text) → t.subscriptions chan ≡ b.subscriptions chan
  pub same_connections : t.connections ≡ b.connections

-- The call does nothing while the connection's parser is empty.
abbrev pub Idle : ℕ → M (Unit {0}) → Type 0
Idle c m = (t : Broker) → (t.conns c).unpacker ≡ empty → m t ≡ (ok tt, t)

module _ (env : Env) (c : ℕ) (ident owner : Text) (row : Row) (b : Broker) where
  -- The broker when `accept` gets to what is pending.
  granted : Broker
  unfolding on_conn
  granted =
      record (on_conn c
        (λ x. record x { transport = record x.transport { high = some (sizes op_publish * 50) } })
        (on_conn c (λ x. record x { subchans = or_default row.subchans [] })
          (on_conn c (λ x. record x { pubchans = or_default row.pubchans [] })
            (on_conn c (λ x. record x { uid = some owner })
              (on_conn c (λ x. record x { ak = some ident }) b))))) {
                metrics = b.metrics ++ connection_ready ident ∷ [];
              }

  resumed : Broker
  unfolding granted on_conn
  resumed = on_conn c (λ x. record x { transport = record x.transport { paused = false } }) granted

  granted-unpacker : (granted.conns c).unpacker ≡ (b.conns c).unpacker
  unfolding granted on_conn
  granted-unpacker = ground arith

  resumed-Accepted : Accepted c (accepted ident owner row) b resumed
  unfolding resumed granted on_conn
  resumed-Accepted = record {
    each = λ d. ground arith;
    same_subscriptions = λ chan. refl;
    same_connections = refl;
  }

  accept_lem :
      (pending : M (Unit {0}))
      → Idle c pending
      → row.owner ≡ some owner
      → (b.conns c).unpacker ≡ empty
      → accept env pending c ident row b ≡ (ok tt, resumed)
  unfolding accept resumed granted self assign on_conn modify lift record_metric
      set_write_buffer_limits resume_reading ◌>>=◌
  accept_lem pending idle o e = rw o (rw (idle granted (granted-unpacker ∙ e)) refl)

  -- The row has the secret of which `hash` is the hash with the connection's challenge.
  abbrev pub Proven : Bytes → Type 0
  Proven hash =
      (key : Text) × (row.secret ≡ some key)
      × (hashsecret env.lib (b.conns c).authrand key ≡ ok hash)

  authenticate_lem :
      (pending : M (Unit {0})) (hash : Bytes)
      → Idle c pending
      → row.owner ≡ some owner
      → Proven hash
      → (b.conns c).unpacker ≡ empty
      → authenticate env pending c ident hash (some row) b ≡ (ok tt, resumed)
  unfolding authenticate self lift ◌>>=◌
  authenticate_lem pending hash idle o (key, k, h) e =
      bind_of_ok (lift (item row.secret)) _ b b key (ap (λ s. (item s, b)) k)
      ∙ rw (h, text_eq_refl hash) (accept_lem pending idle o e)

  message_received_lem :
      (pending : M (Unit {0})) (payload hash : Bytes)
      → Idle c pending
      → row.owner ≡ some owner
      → Proven hash
      → env.get_authkey ident ≡ now (found (some row))
      → readauth env.lib payload ≡ ok (ident, hash)
      → (b.conns c).attached ≡ true
      → (b.conns c).ak ≡ none
      → (b.conns c).unpacker ≡ empty
      → message_received env pending c op_auth payload b ≡ (ok false, resumed)
  unfolding message_received dispatch on_auth on_lookup self server lift pure ◌>>=◌
  message_received_lem pending payload hash idle o p g r there new e =
      rw (new, r) (rw there (rw g (rw (authenticate_lem pending hash idle o p e))))

module _ (env : Env) (c : ℕ) where
  -- On a parser that waits the loop does nothing.
  pub loop-stops :
      (fuel : ℕ) (t : Broker)
      → unpack (t.conns c).unpacker ≡ err stop_iteration
      → pending_loop env (suc fuel) c t ≡ (ok tt, t)
  unfolding pending_loop next round self pure ◌>>=◌
  loop-stops fuel t e = rw e refl

  guarded-Idle : (fuel : ℕ) → Idle c (guarded c (pending_loop env (suc fuel) c))
  guarded-Idle fuel t e =
      loop-guarded c (pending_loop env (suc fuel) c) t t
        (loop-stops fuel t (ap unpack e ∙ empty-waits))

  pub loop-accepts :
      (fuel : ℕ) (ident owner : Text) (row : Row) (payload hash : Bytes) (b : Broker)
      → unpack (b.conns c).unpacker ≡ ok ((op_auth, payload), empty)
      → row.owner ≡ some owner
      → Proven env c ident owner row b hash
      → env.get_authkey ident ≡ now (found (some row))
      → readauth env.lib payload ≡ ok (ident, hash)
      → (b.conns c).attached ≡ true
      → (b.conns c).ak ≡ none
      → (t : Broker) × (pending_loop env (suc (suc fuel)) c b ≡ (ok tt, t))
        × Accepted c (λ x. record (accepted ident owner row x) { unpacker = empty }) b t
  unfolding on_conn
  loop-accepts fuel ident owner row payload hash b u o p g r there new =
      let b1 = moved c empty b in
      let t = resumed env c ident owner row b1 in
      let f = resumed-Accepted env c ident owner row b1 in
      let handled =
        message_received_lem env c ident owner row b1 (guarded c (pending_loop env (suc fuel) c))
          payload hash (guarded-Idle fuel) o (p.0, p.1, ground (arith, p.2)) g r
          (ground (arith, there)) (ground (arith, new)) (ground arith) in
      let stop : (t.conns c).unpacker ≡ empty = ground (arith, f.each c) in
      (
        t,
        loop-handles env c (suc fuel) (op_auth, payload) empty b t u handled
            ∙ loop-stops fuel t (ap unpack stop ∙ empty-waits),
        record {
          each = λ d. ground (arith, f.each d);
          same_subscriptions = f.same_subscriptions;
          same_connections = f.same_connections;
        },
      )
