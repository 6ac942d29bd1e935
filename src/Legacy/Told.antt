-- ===== src/Legacy/Told.antt =====
-- hpfeeds/client.py: what the broker was told on a connection when the client starts to receive.
use hpfeeds.Prelude.{
  inl, inr, ℕ, zero, suc, ◌==◌, ◌≡◌, refl, List, [], ◌∷◌, ◌++◌, append-nil, Bool, true, false, not,
  Option, none, some, arith, ap, sym, ◌∙◌, if◌then◌else◌,
}
use hpfeeds.Python.Result.{ok, feed_exception}
use hpfeeds.Python.Exec.{pure, raise, lift, gets, modify, when, ◌>>=◌}
use hpfeeds.Python.Exec.Bind.{bind-eq-ok, try-eq-ok}
use hpfeeds.Python.Struct.{Bytes}
use hpfeeds.Python.Values.{Text, text}
use hpfeeds.Wire.Opcode.{op_info}
use hpfeeds.Wire.Message.{readinfo, msgauth}
use hpfeeds.Wire.Unpacker.{Message, empty}
use hpfeeds.Legacy.Connection.{
  Recv, recv_timeout, recv_error, chunk_of, Config, Client, take_recv, take_lookup, send,
  next_message, feed_unpacker, close_old, try_addresses, looked_up, greet, on_first, on_greeting,
  do_auth, connect, connect_loop, tryconnect, is_retried,
}
use hpfeeds.Legacy.Took.{Took, Took-same, Took-trans, send-ok, next_message-ok}

-- A state with the same history.
abbrev Alike : Client → Client → Type 0
Alike s t = t.sent ≡ s.sent

try_addresses-ok : (as' : List Bool) (s t : Client) → try_addresses as' s ≡ (ok tt, t) → Alike s t
unfolding try_addresses pure modify
try_addresses-ok [] s t e = ap (λ o. o.1.sent) (sym e)
try_addresses-ok (true ∷ as') s t e = ap (λ o. o.1.sent) (sym e)
try_addresses-ok (false ∷ as') s t e = try_addresses-ok as' s t e

looked_up-ok : (l : Option (List Bool)) (s t : Client) → looked_up l s ≡ (ok tt, t) → Alike s t
unfolding looked_up raise
looked_up-ok none s t e = cc
looked_up-ok (some as') s t e = try_addresses-ok as' s t e

take_lookup-ok :
    (ls : List (Option (List Bool))) (l : Option (List Bool)) (s t : Client)
    → take_lookup ls s ≡ (ok l, t)
    → Alike s t
unfolding take_lookup raise modify pure ◌>>=◌
take_lookup-ok [] l s t e = cc
take_lookup-ok (x ∷ ls) l s t e = ap (λ o. o.1.sent) (sym e)

take_recv-ok : (rs : List Recv) (r : Recv) (s t : Client) → take_recv rs s ≡ (ok r, t) → Took [] s t
unfolding take_recv raise modify pure ◌>>=◌
take_recv-ok [] r s t e = cc
take_recv-ok (x ∷ rs) r s t e =
    Took-trans {t = record s { recvs = rs }}
      (record { took = sym (append-nil s.sent); connected = refl; subscriptions = refl })
      (Took-same _ t (ap (λ o. o.1) e))

module _ (cfg : Config) where
  -- The socket took an answer to a challenge of the broker.
  abbrev pub Answers : Client → Client → Type 0
  Answers s t =
      (rand : Bytes) × (m : Bytes) × (msgauth cfg.lib rand (text cfg.ident) cfg.secret ≡ ok m)
      × Took (m ∷ []) s t

  greet-ok : (info : Text × Bytes) (s t : Client) → greet cfg info s ≡ (ok tt, t) → Answers s t
  unfolding greet modify lift ◌>>=◌
  greet-ok (name, rand) s t e =
      let s1 : Client = record s { brokername = name } in
      let (m, s2, p, q) =
        bind-eq-ok (lift (msgauth cfg.lib rand (text cfg.ident) cfg.secret)) send s1 t e in
      let h = send-ok m s1 t (ap (λ x. send m x) (ap (λ o. o.1) p) ∙ q) in
      (
        rand,
        m,
        ap (λ o. o.0) p,
        record { took = h.took; connected = h.connected; subscriptions = h.subscriptions },
      )

  info-ok :
      (b : Bool) (payload : Bytes) (s t : Client)
      → (if b
            then (do info ← lift (readinfo cfg.lib payload); greet cfg info)
            else raise feed_exception)
          s
        ≡ (ok tt, t)
      → Answers s t
  unfolding raise lift
  info-ok false payload s t e = cc
  info-ok true payload s t e =
      let (info, s1, p, q) = bind-eq-ok (lift (readinfo cfg.lib payload)) (greet cfg) s t e in
      greet-ok info s t (ap (λ x. greet cfg info x) (ap (λ o. o.1) p) ∙ q)

  on_first-ok : (o : Option Message) (s t : Client) → on_first cfg o s ≡ (ok tt, t) → Answers s t
  unfolding on_first raise
  on_first-ok none s t e = cc
  on_first-ok (some (opcode, payload)) s t e = info-ok (opcode == op_info) payload s t e

  on_greeting-ok : (r : Recv) (s t : Client) → on_greeting cfg r s ≡ (ok tt, t) → Answers s t
  unfolding on_greeting raise feed_unpacker modify ◌>>=◌
  on_greeting-ok recv_timeout s t e = cc
  on_greeting-ok recv_error s t e = cc
  on_greeting-ok (chunk_of d) s t e =
      let s1 : Client = (feed_unpacker d s).1 in
      let (o, s2, p, q) = bind-eq-ok next_message (on_first cfg) s1 t e in
      let (rand, m, b, k) = on_first-ok o s2 t q in
      let h = Took-trans (next_message-ok o s1 s2 p) k in
      (
        rand,
        m,
        b,
        record { took = h.took; connected = h.connected; subscriptions = h.subscriptions },
      )

  do_auth-ok : (s t : Client) → do_auth cfg s ≡ (ok tt, t) → Answers s t
  unfolding do_auth gets ◌>>=◌
  do_auth-ok s t e =
      let (r, s1, p, q) = bind-eq-ok (take_recv s.recvs) (on_greeting cfg) s t e in
      let (rand, m, b, k) = on_greeting-ok r s1 t q in
      (rand, m, b, Took-trans (take_recv-ok s.recvs r s s1 p) k)

  when-ok :
      (b : Bool) (s t : Client)
      → when b (raise feed_exception) s ≡ (ok tt, t)
      → (b ≡ false) × (s ≡ t)
  unfolding raise pure
  when-ok true s t e = cc
  when-ok false s t e = (refl, ap (λ o. o.1) e)

  -- A connection is new: the socket took an answer to the broker's challenge, and nothing else.
  abbrev pub Fresh : Client → Type 0
  Fresh t =
      (rand : Bytes) × (m : Bytes) × (msgauth cfg.lib rand (text cfg.ident) cfg.secret ≡ ok m)
      × (t.sent ≡ m ∷ [])
      × (t.connected ≡ true)

  connect-ok : (s t : Client) → connect cfg s ≡ (ok tt, t) → Fresh t
  unfolding connect close_old gets modify ◌>>=◌
  connect-ok s t e =
      let s0 : Client = record s { sock_open = false; sent = [] } in
      let (l, s1, p1, e1) = bind-eq-ok (take_lookup s0.lookups) _ s0 t e in
      let (_, s2, p2, e2) = bind-eq-ok (looked_up l) _ s1 t e1 in
      let (_, s3, p3, e3) = bind-eq-ok (when (not s2.connected) (raise feed_exception)) _ s2 t e2 in
      let (f, q) = when-ok (not s2.connected) s2 s3 p3 in
      let (rand, m, b, k) = do_auth-ok (record s3 { unpacker = empty }) t e3 in
      let t1 = take_lookup-ok s0.lookups l s0 s1 p1 in
      let t2 = looked_up-ok l s1 s2 p2 in
      let none_sent : s3.sent ≡ [] = ap (λ x. x.sent) (sym q) ∙ t2 ∙ t1 in
      (
        rand,
        m,
        b,
        k.took ∙ ap (λ x. x ++ m ∷ []) none_sent,
        k.connected ∙ ap (λ x. x.connected) (sym q) ∙ ground (arith, f),
      )

  connect_loop-ok : (fuel : ℕ) (s t : Client) → connect_loop cfg fuel s ≡ (ok tt, t) → Fresh t
  unfolding connect_loop raise
  connect_loop-ok zero s t e = cc
  connect_loop-ok (suc fuel) s t e =
      elim (try-eq-ok is_retried (connect_loop cfg fuel) (connect cfg) s t e) [
        | inl p ↦ connect-ok s t p
        | inr p ↦ connect_loop-ok fuel _ t p
      ]

  reconnected-Fresh :
      (b : Bool) (fuel : ℕ) (s t : Client)
      → b ≡ false
      → (if b then pure tt else connect_loop cfg fuel) s ≡ (ok tt, t)
      → Fresh t
  reconnected-Fresh true fuel s t c e = cc
  reconnected-Fresh false fuel s t c e = connect_loop-ok fuel s t e

  -- A client that was not connected and returns from tryconnect is connected, and authenticates
  -- itself on the new connection with its first message and no other yet
  pub tryconnect-Fresh :
      (fuel : ℕ) (s t : Client) → s.connected ≡ false → tryconnect cfg fuel s ≡ (ok tt, t) → Fresh t
  unfolding tryconnect gets ◌>>=◌
  tryconnect-Fresh fuel s t c e = reconnected-Fresh s.connected fuel s t c e
