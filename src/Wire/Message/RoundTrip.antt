-- ===== src/Wire/Message/RoundTrip.antt =====
-- hpfeeds/protocol.py: what `strpack8` and `msg…` write, `strunpack8` and `read…` read.
use hpfeeds.Prelude.{
  ℕ, ◌+◌, ◌≤◌, ◌≡◌, ◌∷◌, ◌++◌, some, arith, length, take-append, drop-append, append_assoc, ap,
}
use hpfeeds.Python.Result.{Result, ok, ◌>>=◌}
use hpfeeds.Python.Struct.{Bytes, pack_byte, pack_header}
use hpfeeds.Python.Values.{Text, Library, text, bytes}
use hpfeeds.Wire.Opcode.{
  op_error, op_info, op_auth, op_publish, op_subscribe, op_unsubscribe, sizes,
}
use hpfeeds.Wire.Message.{
  msghdr, hashsecret, force_bytes, strpack8, strunpack8, force_str, msginfo, msgauth, msgpublish,
  msgsubscribe, msgunsubscribe, msgerror, readinfo, readauth, readpublish, readsubscribe,
  readunsubscribe, readerror,
}
use hpfeeds.Wire.Unpacker.{unpack}
use hpfeeds.Wire.Unpacker.Frames.{encode, unpack-encode}

pub msghdr-inv : (op : ℕ) (payload m : Bytes) → msghdr op payload ≡ ok m → m ≡ encode (op, payload)
unfolding msghdr pack_header
msghdr-inv op payload m h = ground arith

pub length-encode : (op : ℕ) (payload : Bytes) → length (encode (op, payload)) ≡ 5 + length payload
length-encode op payload = omega arith

-- A built message, within the limit of its opcode, is taken off the front of any buffer.
unpack-msghdr :
    (op : ℕ) (payload m rest : Bytes)
    → op ≤ op_unsubscribe
    → length m ≤ sizes op
    → msghdr op payload ≡ ok m
    → unpack (record { buf = m ++ rest }) ≡ ok ((op, payload), record { buf = rest })
unpack-msghdr op payload m rest k l h =
    let e = msghdr-inv op payload m h in
    rw e
      (unpack-encode (op, payload) rest (k, omega (arith, ap length e, length-encode op payload)))

-- The parser gives a message with this opcode, whose payload is read as `a`, and leaves the rest.
abbrev pub Reads : {A : Type 0} → ℕ → (Bytes → Result A) → A → Bytes → Bytes → Type 0
Reads op read a m rest =
    (payload : Bytes) × (unpack (record { buf = m ++ rest })
      ≡ ok ((op, payload), record { buf = rest }))
    × (read payload ≡ ok a)

module _ (lib : Library) where
  strpack8-inv :
      (s : Text) (p : Bytes)
      → strpack8 lib (text s) ≡ ok p
      → (b : Bytes) × (lib.encode s ≡ some b) × (p ≡ length b ∷ b)
  unfolding strpack8 pack_byte
  strpack8-inv s p h = ground arith

  strunpack8-cons :
      (s : Text) (b rest : Bytes)
      → lib.encode s ≡ some b
      → strunpack8 lib (length b ∷ (b ++ rest)) ≡ ok (s, rest)
  unfolding strunpack8
  strunpack8-cons s b rest e = rw (take-append b rest, drop-append b rest, lib.decode-encode s b e)

  -- A packed text followed by anything is read back, and the rest is left.
  pub strunpack8-strpack8 :
      (s : Text) (p rest : Bytes)
      → strpack8 lib (text s) ≡ ok p
      → strunpack8 lib (p ++ rest) ≡ ok (s, rest)
  strunpack8-strpack8 s p rest h =
      let (b, e, q) = strpack8-inv s p h in rw q (strunpack8-cons s b rest e)

-- The parts of a message that was built.
module _ (lib : Library) (m : Bytes) where
  pub msgpublish-inv :
      (ident chan : Text) (payload : Bytes)
      → msgpublish lib (text ident) (text chan) (bytes payload) ≡ ok m
      → (i : Bytes) × (c : Bytes) × (strpack8 lib (text ident) ≡ ok i)
        × (strpack8 lib (text chan) ≡ ok c)
        × (msghdr op_publish (i ++ c ++ payload) ≡ ok m)
  unfolding msgpublish force_bytes
  msgpublish-inv ident chan payload h = ground arith

  pub msginfo-inv :
      (name : Text) (rand : Bytes)
      → msginfo lib (text name) (bytes rand) ≡ ok m
      → (n : Bytes) × (strpack8 lib (text name) ≡ ok n) × (msghdr op_info (n ++ rand) ≡ ok m)
  unfolding msginfo force_bytes
  msginfo-inv name rand h = ground arith

  msgauth-inv :
      (rand hash : Bytes) (ident secret : Text)
      → hashsecret lib rand secret ≡ ok hash
      → msgauth lib rand (text ident) secret ≡ ok m
      → (i : Bytes) × (strpack8 lib (text ident) ≡ ok i) × (msghdr op_auth (i ++ hash) ≡ ok m)
  unfolding msgauth
  msgauth-inv rand hash ident secret k h = ground arith

  -- Subscribing and unsubscribing differ in the opcode alone.
  channel-inv :
      (op : ℕ) (ident chan : Text)
      → (do i ← strpack8 lib (text ident); c ← force_bytes lib (text chan); msghdr op (i ++ c))
        ≡ ok m
      → (i : Bytes) × (c : Bytes) × (strpack8 lib (text ident) ≡ ok i)
        × (lib.encode chan ≡ some c)
        × (msghdr op (i ++ c) ≡ ok m)
  unfolding force_bytes
  channel-inv op ident chan h = ground arith

  msgerror-inv :
      (error : Text)
      → msgerror lib (text error) ≡ ok m
      → (e : Bytes) × (lib.encode error ≡ some e) × (msghdr op_error e ≡ ok m)
  unfolding msgerror force_bytes
  msgerror-inv error h = ground arith

module _ (lib : Library) (m rest : Bytes) where
  -- A published event that could be built, and is within the limit of its opcode, is taken off the
  -- front of any buffer and read back with its ident, channel and payload.
  pub readpublish-msgpublish :
      (ident chan : Text) (payload : Bytes)
      → msgpublish lib (text ident) (text chan) (bytes payload) ≡ ok m
      → length m ≤ sizes op_publish
      → Reads op_publish (readpublish lib) (ident, chan, payload) m rest
  unfolding readpublish force_str
  readpublish-msgpublish ident chan payload h l =
      let (i, c, hi, hc, e) = msgpublish-inv lib m ident chan payload h in
      (
        i ++ c ++ payload,
        unpack-msghdr op_publish _ m rest (omega arith) l e,
        rw (append_assoc i c payload, strunpack8-strpack8 lib ident i (c ++ payload) hi)
            (rw (strunpack8-strpack8 lib chan c payload hc)),
      )

  -- A challenge is read back with the broker's name and its random bytes.
  readinfo-msginfo :
      (name : Text) (rand : Bytes)
      → msginfo lib (text name) (bytes rand) ≡ ok m
      → length m ≤ sizes op_info
      → Reads op_info (readinfo lib) (name, rand) m rest
  unfolding readinfo force_str
  readinfo-msginfo name rand h l =
      let (n, hn, e) = msginfo-inv lib m name rand h in
      (
        n ++ rand,
        unpack-msghdr op_info _ m rest (omega arith) l e,
        rw (strunpack8-strpack8 lib name n rand hn),
      )

  -- An authentication is read back with the ident and the hash of the secret.
  readauth-msgauth :
      (rand hash : Bytes) (ident secret : Text)
      → hashsecret lib rand secret ≡ ok hash
      → msgauth lib rand (text ident) secret ≡ ok m
      → length m ≤ sizes op_auth
      → Reads op_auth (readauth lib) (ident, hash) m rest
  unfolding readauth force_str
  readauth-msgauth rand hash ident secret k h l =
      let (i, hi, e) = msgauth-inv lib m rand hash ident secret k h in
      (
        i ++ hash,
        unpack-msghdr op_auth _ m rest (omega arith) l e,
        rw (strunpack8-strpack8 lib ident i hash hi),
      )

  -- Subscribing is read back with the ident and the channel.
  readsubscribe-msgsubscribe :
      (ident chan : Text)
      → msgsubscribe lib (text ident) (text chan) ≡ ok m
      → length m ≤ sizes op_subscribe
      → Reads op_subscribe (readsubscribe lib) (ident, chan) m rest
  unfolding msgsubscribe readsubscribe force_str
  readsubscribe-msgsubscribe ident chan h l =
      let (i, c, hi, hc, e) = channel-inv lib m op_subscribe ident chan h in
      (
        i ++ c,
        unpack-msghdr op_subscribe _ m rest (omega arith) l e,
        rw (strunpack8-strpack8 lib ident i c hi, lib.decode-encode chan c hc),
      )

  -- Unsubscribing is read back with the ident and the channel.
  readunsubscribe-msgunsubscribe :
      (ident chan : Text)
      → msgunsubscribe lib (text ident) (text chan) ≡ ok m
      → length m ≤ sizes op_unsubscribe
      → Reads op_unsubscribe (readunsubscribe lib) (ident, chan) m rest
  unfolding msgunsubscribe readunsubscribe force_str
  readunsubscribe-msgunsubscribe ident chan h l =
      let (i, c, hi, hc, e) = channel-inv lib m op_unsubscribe ident chan h in
      (
        i ++ c,
        unpack-msghdr op_unsubscribe _ m rest (omega arith) l e,
        rw (strunpack8-strpack8 lib ident i c hi, lib.decode-encode chan c hc),
      )

  -- An error message is read back as its text.
  readerror-msgerror :
      (error : Text)
      → msgerror lib (text error) ≡ ok m
      → length m ≤ sizes op_error
      → Reads op_error (readerror lib) error m rest
  unfolding readerror force_str
  readerror-msgerror error h l =
      let (b, hb, e) = msgerror-inv lib m error h in
      (b, unpack-msghdr op_error _ m rest (omega arith) l e, rw (lib.decode-encode error b hb))
