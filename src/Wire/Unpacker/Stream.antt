-- ===== src/Wire/Unpacker/Stream.antt =====
-- hpfeeds/protocol.py: iterating over an Unpacker, and a stream of frames that arrives in chunks.
use hpfeeds.Prelude.{
  ℕ, zero, suc, ◌+◌, ◌<◌, ◌≡◌, refl, List, [], ◌∷◌, ◌++◌, arith, length, length-append,
  append_assoc, append-nil, ap, sym, ◌∙◌, inl, inr, ◌⊎◌, flatten, pos,
}
use hpfeeds.Python.Result.{Error, ok, err, stop_iteration, out_of_fuel}
use hpfeeds.Python.Struct.{Bytes, header, unpack_header, unpack_header-header}
use hpfeeds.Wire.Unpacker.{Unpacker, Message, feed, ready, unpack, empty}
use hpfeeds.Wire.Unpacker.Frames.{Fits, encode, small, unpack-encode}

-- What a `for` loop over the parser sees: the messages, the parser after it, and why it ended.
pub record Drained : Type 0 where
  pub msgs : List Message
  pub rest : Unpacker
  pub why : Error

abbrev pub cons : Message → Drained → Drained
cons m d = record d { msgs = m ∷ d.msgs }

-- for message in unpacker: …
unfoldable pub drain : ℕ → Unpacker → Drained
drain zero u = record { msgs = []; rest = u; why = out_of_fuel }
drain (suc fuel) u = elim (unpack u) [
  | err e ↦ record { msgs = []; rest = u; why = e }
  | ok (m, u') ↦ cons m (drain fuel u')
]

abbrev pub after : List Message → Drained → Drained
after ms d = record d { msgs = ms ++ d.msgs }

-- Chunk by chunk: feed, and drain what is whole. An exception ends it.
unfoldable pub receive_all : ℕ → List Bytes → Unpacker → Drained
unfolding drain feed
receive_all fuel [] u = record { msgs = []; rest = u; why = stop_iteration }
receive_all fuel (c ∷ cs) u =
    let d : Drained = drain fuel (feed c u) in
    let more = receive_all fuel cs d.rest in
    elim d.why [ stop_iteration ↦ after d.msgs more | _ ↦ d ]

abbrev pub encode_all : List Message → Bytes
encode_all [] = []
encode_all (m ∷ ms) = encode m ++ encode_all ms

abbrev pub AllFit : List Message → Type 0
AllFit [] = Unit {0}
AllFit (m ∷ ms) = Fits m × AllFit ms

-- A list that starts with another one at least as long, or stops within it.
abbrev pub Split : List ℕ → List ℕ → List ℕ → List ℕ → Type 0
Split xs ys as' bs =
    ((xs' : List ℕ) × (xs ≡ as' ++ xs') × (xs' ++ ys ≡ bs))
    ⊎ ((suf : List ℕ) × (as' ≡ xs ++ suf) × (length xs < length as'))

pub split : (xs ys as' bs : List ℕ) → xs ++ ys ≡ as' ++ bs → Split xs ys as' bs
split xs ys [] bs h = inl (xs, refl, h)
split [] ys (a ∷ as') bs h = inr (a ∷ as', refl, omega arith)
split (x ∷ xs) ys (a ∷ as') bs h = elim (split xs ys as' bs (cc)) [
  | inl (xs', p, q) ↦ inl (xs', cc, q)
  | inr (suf, p, q) ↦ inr (suf, cc, omega arith)
]

read_part :
    (op : ℕ) (payload buf suf : Bytes) (a b c d o : ℕ)
    → Fits (op, payload)
    → encode (op, payload) ≡ a ∷ b ∷ c ∷ d ∷ o ∷ (buf ++ suf)
    → unpack_header (a ∷ b ∷ c ∷ d ∷ o ∷ []) ≡ ok (pos (5 + length payload), op)
read_part op payload buf suf a b c d o f e =
    let five : a ∷ b ∷ c ∷ d ∷ o ∷ [] ≡ header (5 + length payload) op = cc in
    ap unpack_header five ∙ unpack_header-header _ op (small op payload f)

-- A buffer that stops within a frame gives no message.
pub unpack-part :
    (m : Message) (buf suf : Bytes)
    → Fits m
    → encode m ≡ buf ++ suf
    → length buf < length (encode m)
    → unpack (record { buf = buf }) ≡ err stop_iteration
unfolding unpack ready
unpack-part m [] suf f e h = refl
unpack-part m (a ∷ []) suf f e h = refl
unpack-part m (a ∷ b ∷ []) suf f e h = refl
unpack-part m (a ∷ b ∷ c ∷ []) suf f e h = refl
unpack-part m (a ∷ b ∷ c ∷ d ∷ []) suf f e h = refl
unpack-part (op, payload) (a ∷ b ∷ c ∷ d ∷ o ∷ buf) suf f e h =
    rw (read_part op payload buf suf a b c d o f e) (ground arith)

pub empty-waits : unpack empty ≡ err stop_iteration
unfolding unpack ready
empty-waits = refl

-- A buffer that is a front part of the stream of `ms`: what was drained, and what is left.
abbrev Front : List Message → Bytes → Drained → Type 0
Front ms more d =
    (left : List Message) × (ms ≡ d.msgs ++ left)
    × (d.rest.buf ++ more ≡ encode_all left)
    × (d.why ≡ stop_iteration)
    × (unpack d.rest ≡ err stop_iteration)

drain-Front :
    (fuel : ℕ) (ms : List Message) (buf more : Bytes)
    → AllFit ms
    → length ms < fuel
    → buf ++ more ≡ encode_all ms
    → Front ms more (drain fuel (record { buf = buf }))
unfolding drain
drain-Front zero ms buf more f l e = absurd (omega arith)
drain-Front (suc fuel) [] [] more f l e = rw (empty-waits, drain) ([], refl, e, refl, empty-waits)
drain-Front (suc fuel) [] (b ∷ buf) more f l e = cc
drain-Front (suc fuel) (m ∷ ms) buf more f l e =
    elim (split buf more (encode m) (encode_all ms) e) [
      | inl (buf', p, q) ↦
          let (left, r, s, t, w) = drain-Front fuel ms buf' more f.1 (omega arith) q in
          rw (p, unpack-encode m buf' f.0, drain) (left, cc, s, t, w)
      | inr (suf, p, q) ↦
          rw (unpack-part m buf suf f.0 p q, drain)
            (m ∷ ms, refl, e, refl, unpack-part m buf suf f.0 p q)
    ]

AllFit-append : (ms left : List Message) → AllFit (ms ++ left) → AllFit left
AllFit-append [] left f = f
AllFit-append (m ∷ ms) left f = AllFit-append ms left f.1

done :
    (ms : List Message) (buf : Bytes)
    → AllFit ms
    → unpack (record { buf = buf }) ≡ err stop_iteration
    → buf ≡ encode_all ms
    → (ms ≡ []) × (buf ≡ [])
done [] buf f i e = (refl, e)
done (m ∷ ms) buf f i e = absurd (cc (i, unpack-encode m (encode_all ms) f.0, e))

-- A stream of frames within the limits gives the same messages, all of them and in order, however
-- it is cut into chunks, and leaves nothing in the buffer.
pub receive_all-encode :
    (fuel : ℕ) (ms : List Message) (cs : List Bytes) (u : Unpacker)
    → AllFit ms
    → length ms < fuel
    → unpack u ≡ err stop_iteration
    → u.buf ++ flatten cs ≡ encode_all ms
    → receive_all fuel cs u ≡ record { msgs = ms; rest = empty; why = stop_iteration }
unfolding receive_all flatten
receive_all-encode fuel ms [] u f l i e =
    let (p, q) = done ms u.buf f i (sym (append-nil u.buf) ∙ e) in rw p (ap finished q)
  where
    finished : Bytes → Drained
    finished b = record { msgs = []; rest = record { buf = b }; why = stop_iteration }
receive_all-encode fuel ms (c ∷ cs) u f l i e =
    let d : Drained = drain fuel (feed c u) in
    let (left, p, q, t, w) =
      drain-Front fuel ms (u.buf ++ c) (flatten cs) f l (append_assoc u.buf c (flatten cs) ∙ e) in
    let ih =
      receive_all-encode fuel left cs d.rest (AllFit-append d.msgs left (rw p at f))
        (omega (arith, ap length p, length-append d.msgs left)) w q in
    rw (t, receive_all) (rw ih (rw (← p)))

-- When the chunks end for want of data, so did the first of them, and the rest goes on from there.
pub receive_all-cons :
    (fuel : ℕ) (c : Bytes) (cs : List Bytes) (u : Unpacker)
    → (receive_all fuel (c ∷ cs) u).why ≡ stop_iteration
    → ((drain fuel (feed c u)).why ≡ stop_iteration)
      × (receive_all fuel (c ∷ cs) u
          ≡ after (drain fuel (feed c u)).msgs (receive_all fuel cs (drain fuel (feed c u)).rest))
unfolding receive_all
receive_all-cons fuel c cs u w =
    let p : (drain fuel (feed c u)).why ≡ stop_iteration = ground arith in
    (p, rw (p, receive_all) refl)
