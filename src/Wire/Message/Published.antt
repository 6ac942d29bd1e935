-- ===== src/Wire/Message/Published.antt =====
-- hpfeeds/protocol.py: a stream of messages that msgpublish built.
use hpfeeds.Prelude.{suc, ◌≤◌, ◌≡◌, refl, List, [], ◌∷◌, ◌++◌, append_assoc, arith, length, ap, ◌∙◌}
use hpfeeds.Python.Result.{ok}
use hpfeeds.Python.Struct.{Bytes}
use hpfeeds.Python.Values.{Text, Library, text, bytes}
use hpfeeds.Wire.Opcode.{op_publish, sizes}
use hpfeeds.Wire.Message.{msgpublish, readpublish, force_str}
use hpfeeds.Wire.Message.RoundTrip.{msghdr-inv, length-encode, msgpublish-inv, strunpack8-strpack8}
use hpfeeds.Wire.Unpacker.{Message}
use hpfeeds.Wire.Unpacker.Frames.{Fits, encode}
use hpfeeds.Wire.Unpacker.Stream.{AllFit, encode_all}

-- A publish message: its ident, its channel and its payload.
abbrev pub Event : Type 0
Event = Text × Text × Bytes

module _ (lib : Library) where
  -- The payload of a frame is read as this event.
  abbrev pub IsFrame : Event → Message → Type 0
  IsFrame e (op, payload) = (op ≡ op_publish) × (readpublish lib payload ≡ ok e)

  pub msgpublish-IsFrame :
      (i c : Text) (p m : Bytes)
      → msgpublish lib (text i) (text c) (bytes p) ≡ ok m
      → length m ≤ sizes op_publish
      → (f : Message) × Fits f × (m ≡ encode f) × IsFrame (i, c, p) f
  unfolding readpublish force_str
  msgpublish-IsFrame i c p m h l =
      let (ib, cb, hi, hc, e) = msgpublish-inv lib m i c p h in
      let payload = ib ++ cb ++ p in
      let q = msghdr-inv op_publish payload m e in
      (
        (op_publish, payload),
        (omega arith, omega (arith, ap length q, length-encode op_publish payload)),
        q,
        (
          refl,
          rw (append_assoc ib cb p, strunpack8-strpack8 lib i ib (cb ++ p) hi)
              (rw (strunpack8-strpack8 lib c cb p hc)),
        ),
      )

  -- The bytes of these events, each of which msgpublish built within the limit, one after another.
  abbrev pub Written : List Event → Bytes → Type 0
  Written [] b = b ≡ []
  Written ((i, c, p) ∷ es) b =
      (m : Bytes) × (rest : Bytes) × (msgpublish lib (text i) (text c) (bytes p) ≡ ok m)
      × (length m ≤ sizes op_publish)
      × (b ≡ m ++ rest)
      × Written es rest

  abbrev pub AllFrames : List Event → List Message → Type 0
  AllFrames [] fs = fs ≡ []
  AllFrames (e ∷ es) [] = ⊥
  AllFrames (e ∷ es) (f ∷ fs) = IsFrame e f × AllFrames es fs

  pub frames-Written :
      (es : List Event) (b : Bytes)
      → Written es b
      → (fs : List Message) × AllFit fs
        × (b ≡ encode_all fs)
        × (length fs ≡ length es)
        × AllFrames es fs
  frames-Written [] b w = ([], tt, w, refl, refl)
  frames-Written ((i, c, p) ∷ es) b (m, rest, h, l, e, w) =
      let (f, ff, q, r) = msgpublish-IsFrame i c p m h l in
      let (fs, ffs, qs, n, rs) = frames-Written es rest w in
      (f ∷ fs, (ff, ffs), e ∙ ap (λ x. x ++ rest) q ∙ ap (λ x. encode f ++ x) qs, ap suc n, (r, rs))
