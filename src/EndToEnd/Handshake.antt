-- ===== src/EndToEnd/Handshake.antt =====
-- A session of hpfeeds/blocking and the broker, from connection_made to Connection.authenticate.
use hpfeeds.Prelude.{
  ℕ, suc, ◌<◌, ◌≤◌, ◌==◌, ◌≡◌, refl, sym, List, [], ◌∷◌, ◌++◌, ap, ◌∙◌, some, true, if◌then◌else◌,
  arith, length, flatten, append-nil, append_cancel, nat_eq,
}
use hpfeeds.Python.Result.{ok}
use hpfeeds.Python.Exec.{lift, modify, pure, ◌>>=◌}
use hpfeeds.Python.Struct.{Bytes}
use hpfeeds.Python.Values.{Text, Library, text, bytes}
use hpfeeds.Wire.Opcode.{op_auth, op_info, sizes}
use hpfeeds.Wire.Message.{msgauth, msginfo, hashsecret}
use hpfeeds.Wire.Message.Greeting.{msgauth-Fits, msginfo-Fits}
use hpfeeds.Wire.Unpacker.{empty, unpack}
use hpfeeds.Wire.Unpacker.Frames.{encode}
use hpfeeds.Wire.Unpacker.Stream.{empty-waits}
use hpfeeds.Broker.State.{
  Broker, Env, Row, found, now, new_conn, self, assign, on_conn, server, record_metric, write,
}
use hpfeeds.Broker.Lifecycle.{made, info}
use hpfeeds.Broker.Delivery.{sent, sending}
use hpfeeds.Broker.Accepts.Chunks.{admitted, Applies, receive-Accepted}
use hpfeeds.Broker.Forwards.Chunks
use hpfeeds.Protocol.{message_received}
use hpfeeds.Protocol.Stream
use hpfeeds.Protocol.Stream.{receive-encode}
use hpfeeds.Blocking.Reactor.{Reactor, push, send_token, put_item, put_token, write as put}
use hpfeeds.Blocking.Protocol.{handlers, on_info, connection_ready}
use hpfeeds.Blocking.Protocol.Delivery.{handlers-Apart}

-- A session that has answered a challenge with these bytes.
abbrev answered : Bytes → Reactor → Reactor
answered m s = record s { outbox = send_token (push m s.outbox); given = s.given ++ m }

module _ (lib : Library) (ident secret : Text) (rand m0 m1 : Bytes) where
  -- The session answers the challenge, however it is cut into chunks.
  pub client-answers :
      (n : ℕ) (name : Text) (cs : List Bytes) (s : Reactor)
      → msginfo lib (text name) (bytes rand) ≡ ok m0
      → length m0 ≤ sizes op_info
      → msgauth lib rand (text ident) secret ≡ ok m1
      → flatten cs ≡ m0
      → s.unpacker ≡ empty
      → 1 < n
      → Stream.receive lib (handlers lib ident secret) n cs s
        ≡ (ok tt, record (answered m1 s) { unpacker = empty })
  unfolding message_received on_info connection_ready lift modify pure put put_item put_token ◌>>=◌
  client-answers n name cs s h l k w e ln =
      let (payload, fits, q, r) = msginfo-Fits lib rand m0 name h l in
      receive-encode lib (handlers lib ident secret) (handlers-Apart lib ident secret) n
        ((op_info, payload) ∷ []) cs s (answered m1 s) (fits, tt) ln (rw e empty-waits)
        (ap (λ u. u.buf ++ flatten cs) e ∙ w ∙ q ∙ sym (append-nil (encode (op_info, payload))))
        (rw (r, k) refl)

module _ (env : Env) (c : ℕ) (b : Broker) (m0 : Bytes) where
  -- The broker has sent its challenge.
  made_lem :
      (b.conns c).attached ≡ true
      → msginfo env.lib (text env.name) (bytes (b.conns c).authrand) ≡ ok m0
      → ((made env c b).0 ≡ ok tt)
        × ((d : ℕ)
            → (made env c b).1.conns d
              ≡ (if c == d then sending (m0 ∷ []) (b.conns d) else b.conns d))
  unfolding made info self server assign on_conn write record_metric modify lift pure ◌>>=◌
  made_lem there h = rw there (rw (there, h) (refl, λ d. ground arith))

module _ (env : Env) (c : ℕ) (ident owner secret : Text) (row : Row) where
  -- The broker makes a connection, and a session of the reactor that knows the secret of its ident
  -- answers what the broker writes. Where both messages can be built within their limits and the
  -- authenticator gives the ident's row at once, with this secret and an owner, none of the three
  -- calls raises, and in the end the connection has the name of the ident and the owner and the
  -- channels of the row, it has been sent the challenge alone, its parser is empty, and no other
  -- connection has changed, however the bytes are cut into chunks on either way.
  pub receive-made :
      (n m : ℕ) (rand m0 m1 : Bytes) (cs ds ms : List Bytes) (b : Broker) (s : Reactor)
      → b.conns c ≡ new_conn rand
      → msginfo env.lib (text env.name) (bytes rand) ≡ ok m0
      → length m0 ≤ sizes op_info
      → msgauth env.lib rand (text ident) secret ≡ ok m1
      → length m1 ≤ sizes op_auth
      → env.get_authkey ident ≡ now (found (some row))
      → row.secret ≡ some secret
      → row.owner ≡ some owner
      → s.unpacker ≡ empty
      → 1 < n
      → sent (made env c b).1 c ≡ sent b c ++ ms
      → flatten cs ≡ flatten ms
      → (Stream.receive env.lib (handlers env.lib ident secret) n cs s).1.given
        ≡ s.given ++ flatten ds
      → ((made env c b).0 ≡ ok tt)
        × ((Stream.receive env.lib (handlers env.lib ident secret) n cs s).0 ≡ ok tt)
        × ((Chunks.receive env c (suc (suc m)) ds (made env c b).1).0 ≡ ok tt)
        × ((d : ℕ)
            → (Chunks.receive env c (suc (suc m)) ds (made env c b).1).1.conns d ≡ (
                if c == d
                then admitted env c ident owner row (sending (m0 ∷ []) (new_conn rand))
                else b.conns d))
  unfolding new_conn flatten
  receive-made n m rand m0 m1 cs ds ms b s new h l k l' known key own e ln kept w given =
      let b1 = (made env c b).1 in
      let (fine, each) = made_lem env c b m0 (ap (λ x. x.attached) new) (rw new h) in
      let at : b1.conns c ≡ sending (m0 ∷ []) (new_conn rand) = ground (arith, each c, new) in
      let wrote : ms ≡ m0 ∷ [] = append_cancel (sent b c) (
        sym kept
        ∙ ap (λ x. x.transport.written) at
        ∙ ap (λ x. x.transport.written ++ m0 ∷ []) (sym new)) in
      let client =
        client-answers env.lib ident secret rand m0 m1 n env.name cs s h l k
          (w ∙ ap (flatten {A = ℕ}) wrote ∙ append-nil m0) e ln in
      let out : flatten ds ≡ m1 = append_cancel s.given (sym given ∙ ap (λ o. o.1.given) client) in
      let (hash, payload, hk, fits, q, r) = msgauth-Fits env.lib rand m1 ident secret k l' in
      let applies : Applies env c ident owner row hash b1 = record {
        there = ap (λ x. x.attached) at;
        new = ap (λ x. x.ak) at;
        owned = own;
        known = known;
        proven = (secret, key, ap (λ x. hashsecret env.lib x.authrand secret) at ∙ hk);
      } in
      let parser : (b1.conns c).unpacker ≡ empty = ap (λ x. x.unpacker) at in
      let (t, done, f) =
        receive-Accepted env c ident owner row m payload hash ds b1 applies r fits
          (ap unpack parser ∙ empty-waits) (ap (λ u. u.buf ++ flatten ds) parser ∙ out ∙ q) in
      (
        fine,
        ap (λ o. o.0) client,
        ap (λ o. o.0) done,
        (λ d. ap (λ o. o.1.conns d) done ∙ ground (arith, f.each d, each d, new)),
      )
