-- ===== src/Broker/Permissions.antt =====
-- hpfeeds/broker/connection.py: what a connection without the right to do so brings about.
use hpfeeds.Prelude.{
  text_eq_refl, ap, contains-append_self, ℕ, ◌==◌, ◌≡◌, refl, inl, inr, [], ◌∷◌, ◌++◌, true, false,
  ◌&&◌, Option, none, some, arith, contains, text_eq, nat_eq, list_eq, Bool-cases, Option-cases,
  ◌≢◌,
}
use mathlib.Core.Path.{fun_ext}
use hpfeeds.Python.Result.{Error, Result, ok, err, key_error, Result-cases}
use hpfeeds.Python.Exec.{lift, modify, pure, ◌>>=◌, ◌>>◌}
use hpfeeds.Python.Struct.{Bytes}
use hpfeeds.Python.Values.{Text, text, codes}
use hpfeeds.Wire.Opcode.{op_auth}
use hpfeeds.Wire.Message.{msgerror, hashsecret}
use hpfeeds.Broker.State.{
  Broker, Env, Row, M, Category, invalid_first_message, no_sub_permission, connection_error, self,
  assign, on_conn, write, close, server, record_metric, update,
}
use hpfeeds.Broker.Subscriptions.Effects.{subscribe_lem}
use hpfeeds.Broker.Subscriptions.{subscribe}
use hpfeeds.Broker.Lifecycle.{error}
use hpfeeds.Broker.Handlers.{
  is_ak, shown, refuse, authenticate, on_publish, on_subscribe, message_received,
}

-- The call `o` on the broker `b` touched only the transport of `c` and the metrics: every other field
-- of the connection is as it was, the ident, the owner, the rights, the timer and the parser too. If
-- it raised nothing, the transport is closing.
pub record Barred {A : Type 0} (c : ℕ) (b : Broker) (o : Result A × Broker) : Type 0 where
  pub others : (d : ℕ) → (c == d) ≡ false → o.1.conns d ≡ b.conns d
  pub same_subscriptions : (chan : Text) → o.1.subscriptions chan ≡ b.subscriptions chan
  pub same_connections : o.1.connections ≡ b.connections
  pub same_tasks : o.1.tasks ≡ b.tasks
  pub same_conn : o.1.conns c ≡ record (b.conns c) { transport = (o.1.conns c).transport }
  pub closes : (a : A) → o.0 ≡ ok a → (o.1.conns c).transport.closing ≡ true

module _ (env : Env) (c : ℕ) (b : Broker) where
  raised-Barred : {A : Type 0} (x : Error) → Barred {A = A} c b (err x, b)
  raised-Barred x = record {
    others = λ d n. refl;
    same_subscriptions = λ chan. refl;
    same_connections = refl;
    same_tasks = refl;
    same_conn = refl;
    closes = λ a h. ground arith;
  }

  refuse-Barred :
      (ident : Option Text) (k : Category) (reason : Text)
      → Barred c b (refuse env c ident k reason b)
  unfolding refuse error record_metric write close assign modify on_conn lift ◌>>=◌
  refuse-Barred ident k reason = elim (Result-cases (msgerror env.lib (text reason))) [
    | inl (m, e) ↦ rw e (record {
      others = λ d n. ground arith;
      same_subscriptions = λ chan. refl;
      same_connections = refl;
      same_tasks = refl;
      same_conn = ground arith;
      closes = λ a h. ground arith;
    })
    | inr (x, e) ↦ rw e (record {
      others = λ d n. refl;
      same_subscriptions = λ chan. refl;
      same_connections = refl;
      same_tasks = refl;
      same_conn = refl;
      closes = λ a h. ground arith;
    })
  ]

  then-Barred : (m : M (Unit {0})) → Barred c b (m b) → Barred c b ((do m; pure false) b)
  unfolding ◌>>=◌
  then-Barred m h = elim (Result-cases (m b).0) [
    | inl (u, e) ↦ rw e (record {
      others = h.others;
      same_subscriptions = h.same_subscriptions;
      same_connections = h.same_connections;
      same_tasks = h.same_tasks;
      same_conn = h.same_conn;
      closes = λ a k. h.closes u e;
    })
    | inr (x, e) ↦ rw e (record {
      others = h.others;
      same_subscriptions = h.same_subscriptions;
      same_connections = h.same_connections;
      same_tasks = h.same_tasks;
      same_conn = h.same_conn;
      closes = λ a k. ground arith;
    })
  ]

  -- Before it has authenticated, a connection gets nothing done by a message that is not AUTH.
  pub message_received-Barred :
      (pending : M (Unit {0})) (opcode : ℕ) (payload : Bytes)
      → (b.conns c).ak ≡ none
      → opcode ≢ op_auth
      → Barred c b (message_received env pending c opcode payload b)
  unfolding message_received self ◌>>=◌
  message_received-Barred pending opcode payload e n =
      let other : (opcode == op_auth) ≡ false = ground (arith, n) in
      rw (e, other)
        (then-Barred
          (refuse env c (some []) invalid_first_message (codes "First message was not AUTH"))
          (refuse-Barred _ _ _))

  -- An event is published only under the connection's own ident and on a channel that it may
  -- publish to. Any other gets nothing done.
  pub on_publish-Barred :
      (ident chan : Text) (payload : Bytes)
      → (is_ak ident (b.conns c).ak && contains chan (b.conns c).pubchans) ≡ false
      → Barred c b (on_publish env c ident chan payload b)
  unfolding on_publish self ◌>>=◌
  on_publish-Barred ident chan payload h = elim (Bool-cases (is_ak ident (b.conns c).ak)) [
    | inl own ↦
        let barred : contains chan (b.conns c).pubchans ≡ false = ground (arith, h, own) in
        rw (own, barred) (refuse-Barred _ _ _)
    | inr other ↦ rw other (refuse-Barred _ _ _)
  ]

  -- The hash of an AUTH message is none that the authenticator's answer allows for.
  abbrev pub Unproven : Bytes → Option Row → Type 0
  Unproven secret akrow =
      (row : Row) (key : Text) (akhash : Bytes)
      → akrow ≡ some row
      → row.secret ≡ some key
      → hashsecret env.lib (b.conns c).authrand key ≡ ok akhash
      → text_eq akhash secret ≡ false

  -- Without the secret of the row that the authenticator gave, or where it gave None, the
  -- authentication gets nothing done.
  pub authenticate-Barred :
      (pending : M (Unit {0})) (ident : Text) (secret : Bytes) (akrow : Option Row)
      → Unproven secret akrow
      → Barred c b (authenticate env pending c ident secret akrow b)
  unfolding authenticate self ◌>>=◌
  authenticate-Barred pending ident secret none h = refuse-Barred _ _ _
  authenticate-Barred pending ident secret (some row) h = elim (Option-cases row.secret) [
    | inl e ↦ rw e (raised-Barred key_error)
    | inr (key, e) ↦ elim (Result-cases (hashsecret env.lib (b.conns c).authrand key)) [
      | inl (akhash, f) ↦ rw (e, f, h row key akhash refl e f) (refuse-Barred _ _ _)
      | inr (x, f) ↦ rw (e, f) (raised-Barred x)
    ]
  ]

-- The connection is subscribed to the channel, and its transport is closing.
pub record Overruled (c : ℕ) (chan : Text) (b : Broker) : Type 0 where
  pub subscribed : contains c (b.subscriptions chan) ≡ true
  pub closing : (b.conns c).transport.closing ≡ true

module _ (env : Env) (c : ℕ) (chan : Text) (b : Broker) (there : (b.conns c).attached ≡ true) where
  abbrev refused : Option Text → Category → Bytes → Broker
  refused ident k m = record b {
    conns = update b.conns c (λ x. record x {
      transport = record x.transport { written = x.transport.written ++ m ∷ []; closing = true };
    });
    metrics = b.metrics ++ connection_error ident k ∷ [];
  }

  refuse_ok :
      (ident : Option Text) (k : Category) (reason : Text) (m : Bytes)
      → msgerror env.lib (text reason) ≡ ok m
      → refuse env c ident k reason b ≡ (ok tt, refused ident k m)
  unfolding refuse error record_metric write close assign modify on_conn lift ◌>>=◌
  refuse_ok ident k reason m e = rw e (
      ap
        (λ f. (ok tt, record b { conns = f; metrics = b.metrics ++ connection_error ident k ∷ [] }))
        (fun_ext λ d. ground arith))

  refuse_err :
      (ident : Option Text) (k : Category) (reason : Text) (x : Error)
      → msgerror env.lib (text reason) ≡ err x
      → (refuse env c ident k reason b).0 ≡ err x
  unfolding refuse error record_metric lift modify ◌>>=◌
  refuse_err ident k reason x e = rw e

  attach : (m : M (Unit {0})) (t : Broker) → (t.conns c).attached ≡ true → (do server c; m) t ≡ m t
  unfolding server self pure ◌>>=◌
  attach m t e = rw e

  refuse-subscribe :
      (ident : Option Text) (k : Category) (reason : Text)
      → ((do refuse env c ident k reason; server c; subscribe c chan) b).0 ≡ ok tt
      → Overruled c chan ((do refuse env c ident k reason; server c; subscribe c chan) b).1
  unfolding ◌>>=◌
  refuse-subscribe ident k reason fine = elim (Result-cases (msgerror env.lib (text reason))) [
    | inl (m, e) ↦
        let on : ((refused ident k m).conns c).attached ≡ true = ground (arith, there) in
        rw
          (
            refuse_ok ident k reason m e,
            attach (subscribe c chan) (refused ident k m) on,
            subscribe_lem c chan (refused ident k m),
          )
          (record {
            subscribed =
                ground (arith, contains-append_self c (b.subscriptions chan), text_eq_refl chan);
            closing = ground arith;
          })
    | inr (x, e) ↦ absurd (ground (arith, refuse_err ident k reason x e, fine))
  ]

  -- Connection.on_subscribe goes on after a refusal: where a connection that refers to the server
  -- has no right to the channel, and the call raises nothing, its transport is closing and it is
  -- subscribed to the channel all the same.
  pub on_subscribe-Overruled :
      (ident : Text)
      → contains chan (b.conns c).subchans ≡ false
      → (on_subscribe env c ident chan b).0 ≡ ok tt
      → Overruled c chan (on_subscribe env c ident chan b).1
  unfolding on_subscribe self ◌>>=◌
  on_subscribe-Overruled ident h fine = rw h (
      refuse-subscribe (some ident) no_sub_permission
        (codes "Authkey not allowed to sub here. ident="
          ++ shown (b.conns c).ak
          ++ codes ", chan="
          ++ chan)
        (rw h at fine))
