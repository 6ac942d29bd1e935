-- ===== src/Broker/Forwards/Chunks.antt =====
-- hpfeeds/broker: a permitted connection publishes events, in the chunks of bytes that the broker
-- receives from it.
use hpfeeds.Prelude.{
  ℕ, zero, suc, ◌<◌, ◌≡◌, refl, sym, List, [], ◌∷◌, ◌++◌, ap, ◌∙◌, none, some, Option, arith,
  length, inl, inr, flatten, nat_eq, list_eq,
}
use hpfeeds.Python.Result.{ok, err, stop_iteration, Result-cases}
use hpfeeds.Python.Exec.{pure, modify, ◌>>=◌, ◌>>◌}
use hpfeeds.Python.Exec.Bind.{bind_of_ok}
use hpfeeds.Python.Struct.{Bytes}
use hpfeeds.Python.Values.{Text}
use hpfeeds.Wire.Message.Packets.{
  Packet, messages, messages-append, AllFit-messages, AllCarry-append, AllCarry,
}
use hpfeeds.Wire.Unpacker.{Unpacker, Message, unpack, feed, empty}
use hpfeeds.Wire.Unpacker.Stream.{
  Drained, drain, receive_all, receive_all-cons, receive_all-encode, encode_all,
}
use hpfeeds.Broker.State.{Broker, Metric, Env, M, record_metric, self, assign, on_conn}
use hpfeeds.Broker.Publish.{publish}
use hpfeeds.Broker.Loop.{
  meter_fill, next, round, guarded, pending_loop, process_pending, data_received,
}
use hpfeeds.Broker.Delivery.{sending_nothing}
use hpfeeds.Broker.Forwards.{
  AllAllowed, Forwarded, sends, moved, loop-sends, moved-Forwarded, Forwarded-append,
  Forwarded-unpacker, Allowed-Forwarded, AllAllowed-Forwarded, loop-guarded,
}

module _ (env : Env) (c : ℕ) where
  -- A loop that returned, after these packets were forwarded.
  abbrev pub Ran : M (Unit {0}) → Unpacker → List Packet → Broker → Type 0
  Ran m u ps b = (t : Broker) × (m b ≡ (ok tt, t)) × Forwarded c u ps b t

  -- One call after another.
  Ran-bind :
      (m n : M (Unit {0})) (u v : Unpacker) (ps qs : List Packet) (b : Broker)
      → (first : Ran m u ps b) → Ran n v qs first.0
      → Ran (m >> n) v (ps ++ qs) b
  Ran-bind m n u v ps qs b (t, r, f) (t', r', f') =
      (t', bind_of_ok m (λ _. n) b t tt r ∙ r', Forwarded-append c u v ps qs b t t' f f')

  -- The call sees these messages in the parser `u`, and leaves `rest`.
  abbrev pub Serves : M (Unit {0}) → Unpacker → List Message → Unpacker → Type 0
  Serves m u ms rest =
      (ps : List Packet) (b : Broker)
      → (b.conns c).unpacker ≡ u
      → messages ps ≡ ms
      → AllCarry env.lib ps
      → AllAllowed c b ps
      → Ran m rest ps b

  loop-next :
      (fuel : ℕ) (f : Message) (ms : List Message) (u v rest : Unpacker)
      → unpack u ≡ ok (f, v)
      → Serves (pending_loop env fuel c) v ms rest
      → Serves (pending_loop env (suc fuel) c) u (f ∷ ms) rest
  loop-next fuel f ms u v rest e ih [] b eu m carry allowed = cc
  loop-next fuel f ms u v rest e ih (p ∷ ps) b eu m carry allowed =
      let b1 = moved c v b in
      let b2 = (publish env c p.0.1 p.0.2 b1).1 in
      let moves = moved-Forwarded c v b in
      let first = Allowed-Forwarded c v [] b b1 p moves allowed.0 in
      let sent = sends env c p b1 carry.0 first in
      let both = Forwarded-append c v _ [] (p ∷ []) b b1 b2 moves sent.1 in
      let there : (b2.conns c).unpacker ≡ v =
        Forwarded-unpacker c _ (p ∷ []) b b2 both ∙ Forwarded-unpacker c v [] b b1 moves in
      let same : p.1 ≡ f = cc in
      let (t, r, g) =
        ih ps b2 there (cc) carry.1 (AllAllowed-Forwarded c _ (p ∷ []) b b2 ps both allowed.1) in
      (
        t,
        loop-sends env c fuel p v b (ap unpack eu ∙ e ∙ ap (λ x. ok (x, v)) (sym same)) carry.0
              first
            ∙ r,
        Forwarded-append c _ _ (p ∷ []) ps b b2 t both g,
      )

  unchanged : {u : Unpacker} (b : Broker) → (b.conns c).unpacker ≡ u → Forwarded c u [] b b
  unchanged b e = record {
    each = λ d. ground (arith, sending_nothing (b.conns d), e);
    same_subscriptions = λ chan. refl;
    same_connections = refl;
  }

  AllAllowed-append :
      (b : Broker) (as' bs : List Packet)
      → AllAllowed c b (as' ++ bs)
      → AllAllowed c b as' × AllAllowed c b bs
  AllAllowed-append b [] bs a = (tt, a)
  AllAllowed-append b (p ∷ as') bs (x, a) = let (l, r) = AllAllowed-append b as' bs a in ((x, l), r)

  loop-last :
      (fuel : ℕ) (u : Unpacker)
      → unpack u ≡ err stop_iteration
      → Serves (pending_loop env (suc fuel) c) u [] u
  unfolding pending_loop next round self pure ◌>>=◌
  loop-last fuel u e [] b eu m carry allowed = (b, rw (eu, e) refl, unchanged b eu)
  loop-last fuel u e (p ∷ ps) b eu m carry allowed = cc

  loop-Serves :
      (fuel : ℕ) (u : Unpacker)
      → (drain fuel u).why ≡ stop_iteration
      → Serves (pending_loop env fuel c) u (drain fuel u).msgs (drain fuel u).rest
  unfolding drain
  loop-Serves zero u w = cc
  loop-Serves (suc fuel) u w = elim (Result-cases (unpack u)) [
    | inl ((f, v), p) ↦
        rw (p, drain) (loop-next fuel f _ u v _ p (loop-Serves fuel v (rw (p, drain) at w)))
    | inr (x, p) ↦ rw (p, drain) (loop-last fuel u (p ∙ ap err (rw (p, drain) at w)))
  ]

  meter_lem :
      (ak : Option Text) (n : ℕ) (b : Broker)
      → (ms : List Metric) × (meter_fill c ak n b ≡ (ok tt, record b { metrics = ms }))
  unfolding pure record_metric modify
  meter_lem none n b = (b.metrics, refl)
  meter_lem (some []) n b = (b.metrics, refl)
  meter_lem (some (t ∷ ts)) n b = (_, refl)

  -- A chunk is metered and fed to the parser, and the loop takes what there is.
  pub data_received_lem :
      (fuel : ℕ) (chunk : Bytes) (b : Broker)
      → (ms : List Metric) × (data_received env fuel c chunk b
          ≡ guarded c
              (pending_loop env fuel c)
              (moved c (feed chunk (b.conns c).unpacker) (record b { metrics = ms })))
  unfolding data_received process_pending self assign modify on_conn ◌>>=◌
  data_received_lem fuel chunk b =
      let (ms, e) = meter_lem (b.conns c).ak (length chunk) b in (ms, rw e refl)

  chunk-Ran :
      (fuel : ℕ) (chunk : Bytes) (ps : List Packet) (b : Broker)
      → AllCarry env.lib ps
      → AllAllowed c b ps
      → (drain fuel (feed chunk (b.conns c).unpacker)).why ≡ stop_iteration
      → messages ps ≡ (drain fuel (feed chunk (b.conns c).unpacker)).msgs
      → Ran
          (data_received env fuel c chunk)
          (drain fuel (feed chunk (b.conns c).unpacker)).rest
          ps
          b
  unfolding on_conn
  chunk-Ran fuel chunk ps b carry allowed w m =
      let (ms, e) = data_received_lem fuel chunk b in
      let v = feed chunk (b.conns c).unpacker in
      let metered : Broker = record b { metrics = ms } in
      let start = moved c v metered in
      let moves : Forwarded c v [] b start = record {
        each = (moved-Forwarded c v metered).each;
        same_subscriptions = λ chan. refl;
        same_connections = refl;
      } in
      let (t, r, g) =
        loop-Serves fuel v w ps start (Forwarded-unpacker c v [] b start moves) m carry
          (AllAllowed-Forwarded c v [] b start ps moves allowed) in
      (
        t,
        e ∙ loop-guarded c (pending_loop env fuel c) start t r,
        Forwarded-append c v _ [] ps b start t moves g,
      )

  -- chunks, as the transport delivers them
  abbrev pub receive : ℕ → List Bytes → M (Unit {0})
  receive fuel [] = pure tt
  receive fuel (chunk ∷ cs) = data_received env fuel c chunk >> receive fuel cs

  no_messages : (ps : List Packet) → messages ps ≡ [] → ps ≡ []
  no_messages [] e = refl
  no_messages (p ∷ ps) e = cc

  receive-Serves :
      (fuel : ℕ) (cs : List Bytes) (u : Unpacker)
      → (receive_all fuel cs u).why ≡ stop_iteration
      → Serves (receive fuel cs) u (receive_all fuel cs u).msgs (receive_all fuel cs u).rest
  unfolding receive_all pure
  receive-Serves fuel [] u w ps b eu m carry allowed =
      (b, refl, rw (no_messages ps m) (unchanged b eu))
  receive-Serves fuel (chunk ∷ cs) u w ps b eu m carry allowed =
      let d : Drained = drain fuel (feed chunk u) in
      let (p, q) = receive_all-cons fuel chunk cs u w in
      let (as', bs, e, ma, mb) = messages-append ps d.msgs _ (m ∙ ap (λ x. x.msgs) q) in
      let (ca, cb) = AllCarry-append env.lib as' bs (rw e at carry) in
      let (aa, ab) = AllAllowed-append b as' bs (rw e at allowed) in
      let served = (rw eu at (chunk-Ran fuel chunk as' b ca aa)) p ma in
      let (t, _, f) = served in
      rw (q, e)
        (Ran-bind (data_received env fuel c chunk) (receive fuel cs) d.rest _ as' bs b served (
          receive-Serves fuel cs d.rest (rw q at w) bs t (Forwarded-unpacker c d.rest as' b t f) mb
            cb (AllAllowed-Forwarded c d.rest as' b t bs f ab)))

  -- Where a connection's parser waits at the start of these messages and it may publish each of
  -- them, and none of their subscribers is closing, the call raises nothing, and every connection is
  -- sent each event of a channel that it is subscribed to, once and in order, however the bytes are
  -- cut into chunks; the parser is left empty, and nothing else changes in any connection.
  pub receive-Forwarded :
      (fuel : ℕ) (ps : List Packet) (cs : List Bytes) (b : Broker)
      → length (messages ps) < fuel
      → unpack (b.conns c).unpacker ≡ err stop_iteration
      → (b.conns c).unpacker.buf ++ flatten cs ≡ encode_all (messages ps)
      → AllCarry env.lib ps
      → AllAllowed c b ps
      → ((receive fuel cs b).0 ≡ ok tt) × Forwarded c empty ps b (receive fuel cs b).1
  receive-Forwarded fuel ps cs b l i e carry allowed =
      let d =
        receive_all-encode fuel (messages ps) cs (b.conns c).unpacker
          (AllFit-messages env.lib ps carry) l i e in
      let (t, r, f) =
        receive-Serves fuel cs (b.conns c).unpacker (rw d refl) ps b refl (rw d refl) carry
          allowed in
      rw r (refl, rw d at f)
