-- ===== src/Wire/Message/Packets.antt =====
-- hpfeeds/protocol.py: events beside the messages that carry them on the wire.
use hpfeeds.Prelude.{◌≤◌, ◌≡◌, refl, List, [], ◌∷◌, ◌++◌, ap, ◌∙◌, length, arith, flatten}
use hpfeeds.Python.Result.{ok}
use hpfeeds.Python.Struct.{Bytes}
use hpfeeds.Python.Values.{Text, Library, text, bytes}
use hpfeeds.Wire.Opcode.{op_publish, sizes}
use hpfeeds.Wire.Message.{msgpublish}
use hpfeeds.Wire.Message.Published.{Event, IsFrame, AllFrames, Written, msgpublish-IsFrame}
use hpfeeds.Wire.Message.RoundTrip.{length-encode}
use hpfeeds.Wire.Unpacker.{Message}
use hpfeeds.Wire.Unpacker.Frames.{Fits, encode}
use hpfeeds.Wire.Unpacker.Stream.{AllFit}

-- An event with the message that carries it.
abbrev pub Packet : Type 0
Packet = Event × Message

abbrev pub events : List Packet → List Event
events [] = []
events ((e, f) ∷ ps) = e ∷ events ps

abbrev pub messages : List Packet → List Message
messages [] = []
messages ((e, f) ∷ ps) = f ∷ messages ps

-- The bytes of each message.
abbrev pub frames : List Packet → List Bytes
frames [] = []
frames ((e, f) ∷ ps) = encode f ∷ frames ps

pub messages-append :
    (ps : List Packet) (xs ys : List Message)
    → messages ps ≡ xs ++ ys
    → (as' : List Packet) × (bs : List Packet) × (ps ≡ as' ++ bs)
      × (messages as' ≡ xs)
      × (messages bs ≡ ys)
messages-append ps [] ys e = ([], ps, refl, refl, e)
messages-append [] (x ∷ xs) ys e = cc
messages-append ((e, f) ∷ ps) (x ∷ xs) ys h =
    let (as', bs, p, q, r) = messages-append ps xs ys (cc) in ((e, f) ∷ as', bs, cc, cc, r)

module _ (lib : Library) where
  -- What msgpublish makes of the event is the bytes of the message, within the limit.
  abbrev pub Carries : Packet → Type 0
  Carries ((i, c, p), f) =
      Fits f
      × (msgpublish lib (text i) (text c) (bytes p) ≡ ok (encode f))
      × IsFrame lib (i, c, p) f

  abbrev pub AllCarry : List Packet → Type 0
  AllCarry [] = Unit {0}
  AllCarry (p ∷ ps) = Carries p × AllCarry ps

  pub msgpublish-Carries :
      (i c : Text) (p m : Bytes)
      → msgpublish lib (text i) (text c) (bytes p) ≡ ok m
      → length m ≤ sizes op_publish
      → (f : Message) × Carries ((i, c, p), f) × (m ≡ encode f)
  msgpublish-Carries i c p m h l =
      let (f, ff, q, r) = msgpublish-IsFrame lib i c p m h l in (f, (ff, h ∙ ap ok q, r), q)

  pub AllFit-messages : (ps : List Packet) → AllCarry ps → AllFit (messages ps)
  AllFit-messages [] a = tt
  AllFit-messages ((e, f) ∷ ps) (c, a) = (c.0, AllFit-messages ps a)

  pub AllFrames-messages :
      (ps : List Packet) → AllCarry ps → AllFrames lib (events ps) (messages ps)
  AllFrames-messages [] a = refl
  AllFrames-messages ((e, f) ∷ ps) (c, a) = (c.2, AllFrames-messages ps a)

  pub AllCarry-append : (as' bs : List Packet) → AllCarry (as' ++ bs) → AllCarry as' × AllCarry bs
  AllCarry-append [] bs a = (tt, a)
  AllCarry-append (p ∷ as') bs (c, a) = let (l, r) = AllCarry-append as' bs a in ((c, l), r)

  pub Written-frames :
      (ps : List Packet) → AllCarry ps → Written lib (events ps) (flatten (frames ps))
  unfolding flatten
  Written-frames [] a = refl
  Written-frames ((e, f) ∷ ps) (c, a) = (
    encode f,
    flatten (frames ps),
    c.1,
    rw (← c.2.0) (omega (arith, c.0.1, length-encode f.0 f.1)),
    refl,
    Written-frames ps a,
  )
