-- ===== src/Broker/Accepts/Chunks.antt =====
-- hpfeeds/broker/connection.py: the AUTH message of a connection, in the chunks in which it arrives.
use hpfeeds.Prelude.{
  ℕ, suc, List, ◌++◌, flatten, inl, inr, append_assoc, append-nil, ◌≡◌, refl, sym, [], ◌∷◌, ◌++◌,
  true, none, some, arith, ap, ◌∙◌, nat_eq, list_eq,
}
use hpfeeds.Python.Result.{ok, err, stop_iteration}
use hpfeeds.Python.Exec.{modify, pure, ◌>>=◌}
use hpfeeds.Python.Exec.Bind.{bind_of_ok}
use hpfeeds.Python.Struct.{Bytes}
use hpfeeds.Python.Values.{Text}
use hpfeeds.Wire.Opcode.{op_auth}
use hpfeeds.Wire.Message.{readauth}
use hpfeeds.Wire.Unpacker.{Unpacker, feed, unpack, empty}
use hpfeeds.Wire.Unpacker.Stream.{empty-waits, split, unpack-part}
use hpfeeds.Wire.Unpacker.Frames.{Fits, encode, unpack-encode}
use hpfeeds.Broker.Forwards.{Forwarded, moved, moved-Forwarded, Forwarded-unpacker, loop-guarded}
use hpfeeds.Broker.Delivery.{sending_nothing}
use hpfeeds.Broker.Loop.{guarded, pending_loop, process_pending, data_received}
use hpfeeds.Broker.State.{Broker, Conn, Env, Row, found, now, self, assign, on_conn}
use hpfeeds.Broker.Forwards.Chunks.{receive, receive-Forwarded}
use hpfeeds.Broker.Accepts.{accepted, Accepted, Proven, loop-stops, loop-accepts}

module _ (env : Env) (c : ℕ) (ident owner : Text) (row : Row) where
  -- The connection after its AUTH message was read.
  abbrev pub admitted : Conn → Conn
  admitted x = record (accepted ident owner row x) { unpacker = empty }

  -- An unauthenticated connection, that the authenticator's row entitles to this hash.
  pub record Applies (hash : Bytes) (b : Broker) : Type 0 where
    pub there : (b.conns c).attached ≡ true
    pub new : (b.conns c).ak ≡ none
    pub owned : row.owner ≡ some owner
    pub known : env.get_authkey ident ≡ now (found (some row))
    pub proven : Proven env c ident owner row b hash

  -- Without an ident, nothing is metered.
  data_received_new :
      (fuel : ℕ) (chunk : Bytes) (b : Broker)
      → (b.conns c).ak ≡ none
      → data_received env fuel c chunk b
        ≡ guarded c (pending_loop env fuel c) (moved c (feed chunk (b.conns c).unpacker) b)
  unfolding data_received process_pending self assign modify on_conn pure ◌>>=◌
  data_received_new fuel chunk b e = rw e refl

  Applies-moved :
      (u : Unpacker) (hash : Bytes) (b : Broker) → Applies hash b → Applies hash (moved c u b)
  unfolding on_conn
  Applies-moved u hash b a = record {
    there = ground (arith, a.there);
    new = ground (arith, a.new);
    owned = a.owned;
    known = a.known;
    proven = (a.proven.0, a.proven.1, ground (arith, a.proven.2));
  }

  Accepted-moved :
      (u : Unpacker) (b t : Broker) → Accepted c admitted (moved c u b) t → Accepted c admitted b t
  unfolding on_conn
  Accepted-moved u b t f = record {
    each = λ d. ground (arith, f.each d);
    same_subscriptions = f.same_subscriptions;
    same_connections = f.same_connections;
  }

  Accepted-Forwarded :
      (b t t' : Broker)
      → Accepted c admitted b t
      → Forwarded c empty [] t t'
      → Accepted c admitted b t'
  Accepted-Forwarded b t t' f g = record {
    each = λ d. ground (arith, g.each d, f.each d, sending_nothing (t.conns d));
    same_subscriptions = λ chan. g.same_subscriptions chan ∙ f.same_subscriptions chan;
    same_connections = g.same_connections ∙ f.same_connections;
  }

  no_bytes : (xs ys : Bytes) → xs ++ ys ≡ [] → (xs ≡ []) × (ys ≡ [])
  no_bytes [] ys e = (refl, e)
  no_bytes (x ∷ xs) ys e = cc

  -- The chunk with which the message is whole.
  chunk-Accepted :
      (fuel : ℕ) (chunk payload hash : Bytes) (b : Broker)
      → Applies hash b
      → readauth env.lib payload ≡ ok (ident, hash)
      → unpack (feed chunk (b.conns c).unpacker) ≡ ok ((op_auth, payload), empty)
      → (t : Broker) × (data_received env (suc (suc fuel)) c chunk b ≡ (ok tt, t))
        × Accepted c admitted b t
  chunk-Accepted fuel chunk payload hash b a r u =
      let v = feed chunk (b.conns c).unpacker in
      let b1 = moved c v b in
      let a1 = Applies-moved v hash b a in
      let at = Forwarded-unpacker c v [] b b1 (moved-Forwarded c v b) in
      let (t, l, f) =
        loop-accepts env c fuel ident owner row payload hash b1 (ap unpack at ∙ u) a1.owned
          a1.proven a1.known r a1.there a1.new in
      (
        t,
        data_received_new (suc (suc fuel)) chunk b a.new
            ∙ loop-guarded c (pending_loop env (suc (suc fuel)) c) b1 t l,
        Accepted-moved v b t f,
      )

  -- A chunk with which the message is not whole yet.
  chunk_part :
      (fuel : ℕ) (chunk : Bytes) (b : Broker)
      → (b.conns c).ak ≡ none
      → unpack (feed chunk (b.conns c).unpacker) ≡ err stop_iteration
      → data_received env (suc fuel) c chunk b
        ≡ (ok tt, moved c (feed chunk (b.conns c).unpacker) b)
  chunk_part fuel chunk b e w =
      let v = feed chunk (b.conns c).unpacker in
      let b1 = moved c v b in
      let at = Forwarded-unpacker c v [] b b1 (moved-Forwarded c v b) in
      data_received_new (suc fuel) chunk b e
      ∙ loop-guarded c (pending_loop env (suc fuel) c) b1 b1
          (loop-stops env c fuel b1 (ap unpack at ∙ w))

  whole :
      (payload rest : Bytes) (u : Unpacker)
      → Fits (op_auth, payload)
      → u.buf ≡ encode (op_auth, payload) ++ rest
      → rest ≡ []
      → unpack u ≡ ok ((op_auth, payload), empty)
  whole payload rest u f e n =
      ap (λ x. unpack (record { buf = x })) e
      ∙ unpack-encode (op_auth, payload) rest f
      ∙ ap (λ x. ok ((op_auth, payload), record { buf = x })) n

  Accepted-empty : (b t : Broker) → Accepted c admitted b t → (t.conns c).unpacker ≡ empty
  Accepted-empty b t f = ground (arith, f.each c)

  -- Chunks without bytes.
  receive_nothing :
      (fuel : ℕ) (cs : List Bytes) (t : Broker)
      → (t.conns c).unpacker ≡ empty
      → flatten cs ≡ []
      → (receive env c (suc fuel) cs t ≡ (ok tt, (receive env c (suc fuel) cs t).1))
        × Forwarded c empty [] t (receive env c (suc fuel) cs t).1
  receive_nothing fuel cs t e n =
      let (fine, f) =
        receive-Forwarded env c (suc fuel) [] cs t (omega arith) (ap unpack e ∙ empty-waits)
          (ap (λ v. v.buf ++ flatten cs) e ∙ n) tt tt in
      (ap (λ o. (o, (receive env c (suc fuel) cs t).1)) fine, f)

  -- However the bytes of its AUTH message are cut into chunks, a connection that the authenticator's
  -- row entitles to the hash is accepted, and nothing is raised.
  pub receive-Accepted :
      (fuel : ℕ) (payload hash : Bytes) (cs : List Bytes) (b : Broker)
      → Applies hash b
      → readauth env.lib payload ≡ ok (ident, hash)
      → Fits (op_auth, payload)
      → unpack (b.conns c).unpacker ≡ err stop_iteration
      → (b.conns c).unpacker.buf ++ flatten cs ≡ encode (op_auth, payload)
      → (t : Broker) × (receive env c (suc (suc fuel)) cs b ≡ (ok tt, t)) × Accepted c admitted b t
  unfolding flatten feed
  receive-Accepted fuel payload hash [] b a r f w e =
      let nil = append-nil (b.conns c).unpacker.buf in
      absurd (
        cc (
          w,
          whole payload [] (b.conns c).unpacker f
              (sym nil ∙ e ∙ sym (append-nil (encode (op_auth, payload)))) refl,
        ))
  receive-Accepted fuel payload hash (chunk ∷ cs) b a r f w e =
      let u = (b.conns c).unpacker in
      let more = append_assoc u.buf chunk (flatten cs) ∙ e in
      let first = data_received env (suc (suc fuel)) c chunk in
      let others = receive env c (suc (suc fuel)) cs in
      elim (split (u.buf ++ chunk) (flatten cs) (encode (op_auth, payload)) []
        (more ∙ sym (append-nil (encode (op_auth, payload))))) [
          | inl (rest, p, q) ↦
              let (none_left, none_after) = no_bytes rest (flatten cs) q in
              let (t, d, g) =
                chunk-Accepted fuel chunk payload hash b a r
                  (whole payload rest (feed chunk u) f p none_left) in
              let (d', h) = receive_nothing (suc fuel) cs t (Accepted-empty b t g) none_after in
              (_, bind_of_ok first (λ _. others) b t tt d ∙ d', Accepted-Forwarded b t _ g h)
          | inr (suf, p, q) ↦
              let b1 = moved c (feed chunk u) b in
              let at =
                Forwarded-unpacker c (feed chunk u) [] b b1 (moved-Forwarded c (feed chunk u) b) in
              let waits = unpack-part (op_auth, payload) (u.buf ++ chunk) suf f p q in
              let (t, d, g) =
                receive-Accepted fuel payload hash cs b1 (Applies-moved (feed chunk u) hash b a) r f
                  (ap unpack at ∙ waits) (ap (λ v. v.buf ++ flatten cs) at ∙ more) in
              (
                t,
                bind_of_ok first (λ _. others) b b1 tt (chunk_part (suc fuel) chunk b a.new waits)
                    ∙ d,
                Accepted-moved (feed chunk u) b t g,
              )
        ]
