-- ===== src/Protocol/Stream.antt =====
-- What a protocol makes of a stream of bytes: the loop over the parser, chunk by chunk, comes to
-- handling the messages of the stream one after another.
use hpfeeds.Prelude.{
  ℕ, zero, suc, ◌<◌, ◌≡◌, refl, List, [], ◌∷◌, ◌++◌, ap, sym, ◌∙◌, length, flatten, inl, inr,
}
use hpfeeds.Python.Result.{ok, err, stop_iteration, Result-cases}
use hpfeeds.Python.Exec.{Exec, pure, gets, modify, try, ◌>>=◌, ◌>>◌}
use hpfeeds.Python.Exec.Bind.{bind_of_ok, bind-eq-ok}
use hpfeeds.Python.Struct.{Bytes}
use hpfeeds.Python.Values.{Library}
use hpfeeds.Wire.Unpacker.{Unpacker, Message, feed, unpack, empty}
use hpfeeds.Wire.Unpacker.Stream.{
  Drained, drain, receive_all-cons, receive_all, encode_all, AllFit, receive_all-encode,
}
use hpfeeds.Protocol.{Handlers, message_received, next, round, message_loop, data_received}

module _ {S : Type 0} (lib : Library) (h : Handlers S) where
  -- The specification: a handler for each message, in order.
  abbrev pub handle : Message → Exec S (Unit {0})
  handle (opcode, payload) = message_received lib h opcode payload

  abbrev pub handle_all : List Message → Exec S (Unit {0})
  handle_all [] = pure tt
  handle_all (m ∷ ms) = handle m >> handle_all ms

  -- chunks, as the transport delivers them
  abbrev pub receive : ℕ → List Bytes → Exec S (Unit {0})
  receive fuel [] = pure tt
  receive fuel (c ∷ cs) = data_received lib h fuel c >> receive fuel cs

  -- The parser is a part of the state that the handlers do not look at or change.
  pub record Apart : Type 0 where
    pub get-put : (u : Unpacker) (s : S) → h.unpacker (h.set_unpacker u s) ≡ u
    pub put-put :
        (u v : Unpacker) (s : S) → h.set_unpacker v (h.set_unpacker u s) ≡ h.set_unpacker v s
    pub put-get : (s : S) → h.set_unpacker (h.unpacker s) s ≡ s
    pub handle-put :
        (m : Message) (u : Unpacker) (s : S)
        → handle m (h.set_unpacker u s) ≡ ((handle m s).0, h.set_unpacker u (handle m s).1)

  pub loop-ok :
      (fuel : ℕ) (s : S) (m : Message) (u : Unpacker)
      → unpack (h.unpacker s) ≡ ok (m, u)
      → message_loop lib h (suc fuel) s ≡ (handle m >> message_loop lib h fuel) (h.set_unpacker u s)
  unfolding message_loop next round gets modify pure ◌>>=◌
  loop-ok fuel s (opcode, payload) u e = rw e refl

  pub loop-stop :
      (fuel : ℕ) (s : S)
      → unpack (h.unpacker s) ≡ err stop_iteration
      → message_loop lib h (suc fuel) s ≡ (ok tt, s)
  unfolding message_loop next round gets pure ◌>>=◌
  loop-stop fuel s e = rw e refl

  module _ (a : Apart) where
    -- What is handled stays the same where the parser is another.
    moved :
        (m : Message) (u : Unpacker) (s t : S)
        → handle m s ≡ (ok tt, t)
        → handle m (h.set_unpacker u s) ≡ (ok tt, h.set_unpacker u t)
    moved m u s t e = a.handle-put m u s ∙ ap (λ o. (o.0, h.set_unpacker u o.1)) e

    all_moved :
        (ms : List Message) (u : Unpacker) (s t : S)
        → handle_all ms s ≡ (ok tt, t)
        → handle_all ms (h.set_unpacker u s) ≡ (ok tt, h.set_unpacker u t)
    unfolding pure
    all_moved [] u s t e = ap (λ o. (o.0, h.set_unpacker u o.1)) e
    all_moved (m ∷ ms) u s t e =
        let (_, s', p, q) = bind-eq-ok (handle m) (λ _. handle_all ms) s t e in
        bind_of_ok (handle m) (λ _. handle_all ms) _ (h.set_unpacker u s') tt (moved m u s s' p)
        ∙ all_moved ms u s' t q

    loop-drain :
        (fuel : ℕ) (s t : S)
        → (drain fuel (h.unpacker s)).why ≡ stop_iteration
        → handle_all (drain fuel (h.unpacker s)).msgs s ≡ (ok tt, t)
        → message_loop lib h fuel s ≡ (ok tt, h.set_unpacker (drain fuel (h.unpacker s)).rest t)
    unfolding drain pure
    loop-drain zero s t w e = cc
    loop-drain (suc fuel) s t w e = elim (Result-cases (unpack (h.unpacker s))) [
      | inl ((m, u), p) ↦
          let (_, s', q, r) =
            bind-eq-ok (handle m) (λ _. handle_all (drain fuel u).msgs) s t (rw (p, drain) at e) in
          let up = a.get-put u s' in
          let ih =
            loop-drain fuel (h.set_unpacker u s') (h.set_unpacker u t) (rw up (rw (p, drain) at w))
              (rw up (all_moved (drain fuel u).msgs u s' t r)) in
          rw (p, drain)
            (loop-ok fuel s m u p
              ∙ bind_of_ok (handle m) (λ _. message_loop lib h fuel) _ _ tt (moved m u s s' q)
              ∙ (rw (up, a.put-put) at ih))
      | inr (x, p) ↦
          let stop : x ≡ stop_iteration = rw (p, drain) at w in
          let same : s ≡ t = ap (λ o. o.1) (rw (p, drain) at e) in
          rw (p, drain)
            (loop-stop fuel s (p ∙ ap err stop)
              ∙ ap (λ v. (ok tt, v)) (sym (a.put-get s) ∙ ap (h.set_unpacker (h.unpacker s)) same))
    ]

    data_received-drain :
        (fuel : ℕ) (c : Bytes) (s t : S)
        → (drain fuel (feed c (h.unpacker s))).why ≡ stop_iteration
        → handle_all (drain fuel (feed c (h.unpacker s))).msgs s ≡ (ok tt, t)
        → data_received lib h fuel c s
          ≡ (ok tt, h.set_unpacker (drain fuel (feed c (h.unpacker s))).rest t)
    unfolding data_received modify try ◌>>=◌
    data_received-drain fuel c s t w e =
        let u = feed c (h.unpacker s) in
        let up = a.get-put u s in
        let loop =
          loop-drain fuel (h.set_unpacker u s) (h.set_unpacker u t) (rw up w)
            (rw up (all_moved (drain fuel u).msgs u s t e)) in
        rw (rw (up, a.put-put) at loop) refl

    handle_all-append :
        (ms ns : List Message) (s t : S)
        → handle_all (ms ++ ns) s ≡ (ok tt, t)
        → (s' : S) × (handle_all ms s ≡ (ok tt, s')) × (handle_all ns s' ≡ (ok tt, t))
    unfolding pure
    handle_all-append [] ns s t e = (s, refl, e)
    handle_all-append (m ∷ ms) ns s t e =
        let (_, s1, p, q) = bind-eq-ok (handle m) (λ _. handle_all (ms ++ ns)) s t e in
        let (s2, r, z) = handle_all-append ms ns s1 t q in
        (s2, bind_of_ok (handle m) (λ _. handle_all ms) s s1 tt p ∙ r, z)

    receive-drain :
        (fuel : ℕ) (cs : List Bytes) (s t : S)
        → (receive_all fuel cs (h.unpacker s)).why ≡ stop_iteration
        → handle_all (receive_all fuel cs (h.unpacker s)).msgs s ≡ (ok tt, t)
        → receive fuel cs s ≡ (ok tt, h.set_unpacker (receive_all fuel cs (h.unpacker s)).rest t)
    unfolding receive_all pure
    receive-drain fuel [] s t w e =
        ap (λ v. (ok tt, v))
          (sym (a.put-get s) ∙ ap (h.set_unpacker (h.unpacker s)) (ap (λ o. o.1) e))
    receive-drain fuel (c ∷ cs) s t w e =
        let u = feed c (h.unpacker s) in
        let d : Drained = drain fuel u in
        let (p, q) = receive_all-cons fuel c cs (h.unpacker s) w in
        let (s', r, z) =
          handle_all-append d.msgs (receive_all fuel cs d.rest).msgs s t (rw q at e) in
        let up = a.get-put d.rest s' in
        let ih =
          receive-drain fuel cs (h.set_unpacker d.rest s') (h.set_unpacker d.rest t)
            (rw up (rw q at w)) (rw up (all_moved _ d.rest s' t z)) in
        rw q (
          bind_of_ok (data_received lib h fuel c) (λ _. receive fuel cs) s _ tt
            (data_received-drain fuel c s s' p r)
          ∙ (rw (up, a.put-put) at ih))

    -- A stream of frames within the limits comes to handling its messages one after another, all of
    -- them and in order, however it is cut into chunks, if no handler raises, whatever the handlers
    -- do to the rest of the state; and it leaves the parser empty. The loop is given more fuel than
    -- there are messages.
    pub receive-encode :
        (fuel : ℕ) (ms : List Message) (cs : List Bytes) (s t : S)
        → AllFit ms
        → length ms < fuel
        → unpack (h.unpacker s) ≡ err stop_iteration
        → (h.unpacker s).buf ++ flatten cs ≡ encode_all ms
        → handle_all ms s ≡ (ok tt, t)
        → receive fuel cs s ≡ (ok tt, h.set_unpacker empty t)
    receive-encode fuel ms cs s t f l i b e =
        let d = receive_all-encode fuel ms cs (h.unpacker s) f l i b in
        rw d at (receive-drain fuel cs s t (rw d refl) (rw d e))
