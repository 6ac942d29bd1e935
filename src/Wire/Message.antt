-- ===== src/Wire/Message.antt =====
-- hpfeeds/protocol.py: the functions that build messages (`msg…`) and that take them apart (`read…`).
-- `force_str` of a `bytearray` is that of the `bytes` with its content.
pub mod RoundTrip
pub mod Clean
pub mod Published
pub mod Packets
pub mod Greeting
use hpfeeds.Prelude.{ℕ, ◌+◌, List, [], ◌∷◌, ◌++◌, length, take, drop}
use hpfeeds.Python.Result.{Result, ok, err, type_error, ◌>>=◌}
use hpfeeds.Python.Struct.{Bytes, pack_byte, pack_header}
use hpfeeds.Python.Values.{Text, Library, Value, text, bytes, or_unicode_error}
use hpfeeds.Wire.Opcode.{op_error, op_info, op_auth, op_publish, op_subscribe, op_unsubscribe}

-- def msghdr(op, data)
unfoldable pub msghdr : ℕ → Bytes → Result Bytes
msghdr op payload = do h ← pack_header (5 + length payload) op; ok (h ++ payload)

module _ (lib : Library) where
  -- def hashsecret(rand, secret)
  unfoldable pub hashsecret : Bytes → Text → Result Bytes
  hashsecret rand secret = do s ← or_unicode_error (lib.encode secret); ok (lib.sha1 (rand ++ s))

  -- def force_bytes(value)
  unfoldable pub force_bytes : Value → Result Bytes
  force_bytes (text s) = or_unicode_error (lib.encode s)
  force_bytes (bytes b) = ok b

  -- def force_str(value)
  unfoldable pub force_str : Value → Result Text
  force_str (text s) = ok s
  force_str (bytes b) = or_unicode_error (lib.decode b)

  -- def strpack8(x)
  unfoldable pub strpack8 : Value → Result Bytes
  unfolding force_bytes
  strpack8 v = do x ← force_bytes v; n ← pack_byte (length x); ok (n ++ x)

  -- def strunpack8(x)
  unfoldable pub strunpack8 : Bytes → Result (Text × Bytes)
  unfolding force_str
  strunpack8 [] = err type_error
  strunpack8 (n ∷ x) = do s ← force_str (bytes (take n x)); ok (s, drop n x)

  unfoldable pub msginfo : Value → Value → Result Bytes
  msginfo name rand = do n ← strpack8 name; r ← force_bytes rand; msghdr op_info (n ++ r)

  unfoldable pub msgsubscribe : Value → Value → Result Bytes
  msgsubscribe ident chan = do
    i ← strpack8 ident
    c ← force_bytes chan
    msghdr op_subscribe (i ++ c)

  unfoldable pub msgunsubscribe : Value → Value → Result Bytes
  msgunsubscribe ident chan = do
    i ← strpack8 ident
    c ← force_bytes chan
    msghdr op_unsubscribe (i ++ c)

  unfoldable pub msgpublish : Value → Value → Value → Result Bytes
  msgpublish ident chan payload = do
    i ← strpack8 ident
    c ← strpack8 chan
    p ← force_bytes payload
    msghdr op_publish (i ++ c ++ p)

  unfoldable pub msgauth : Bytes → Value → Text → Result Bytes
  msgauth rand ident secret = do
    i ← strpack8 ident
    h ← hashsecret rand secret
    msghdr op_auth (i ++ h)

  unfoldable pub msgerror : Value → Result Bytes
  msgerror error = do e ← force_bytes error; msghdr op_error e

  unfoldable pub readinfo : Bytes → Result (Text × Bytes)
  readinfo payload = do (ident, rand) ← strunpack8 payload; i ← force_str (text ident); ok (i, rand)

  unfoldable pub readauth : Bytes → Result (Text × Bytes)
  readauth payload = do
    (ident, secret) ← strunpack8 payload
    i ← force_str (text ident)
    ok (i, secret)

  unfoldable pub readsubscribe : Bytes → Result (Text × Text)
  readsubscribe payload = do
    (ident, rest) ← strunpack8 payload
    i ← force_str (text ident)
    c ← force_str (bytes rest)
    ok (i, c)

  unfoldable pub readunsubscribe : Bytes → Result (Text × Text)
  readunsubscribe payload = do
    (ident, rest) ← strunpack8 payload
    i ← force_str (text ident)
    c ← force_str (bytes rest)
    ok (i, c)

  unfoldable pub readpublish : Bytes → Result (Text × Text × Bytes)
  readpublish payload = do
    (ident, rest) ← strunpack8 payload
    (chan, rest') ← strunpack8 rest
    i ← force_str (text ident)
    c ← force_str (text chan)
    ok (i, c, rest')

  unfoldable pub readerror : Bytes → Result Text
  readerror error = force_str (bytes error)
