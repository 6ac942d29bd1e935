-- ===== src/Wire/Unpacker.antt =====
-- hpfeeds/protocol.py, class Unpacker: a buffer that is fed chunks and gives whole messages.
pub mod Frames
pub mod Stream
pub mod Bounds
pub mod Raises
use hpfeeds.Prelude.{
  ℕ, ◌+◌, Bool, true, false, ◌||◌, List, [], ◌∷◌, ◌++◌, length, take, drop, ltb, if◌then◌else◌, ℤ,
  pos, sub_nat, lt_int, slice_to, slice_from,
}
use hpfeeds.Python.Result.{Result, ok, err, ◌>>=◌, unknown_opcode, message_too_big, stop_iteration}
use hpfeeds.Python.Struct.{Bytes, unpack_header}
use hpfeeds.Wire.Opcode.{op_error, op_unsubscribe, sizes}

pub record Unpacker : Type 0 where
  pub buf : Bytes

-- An opcode and its payload.
abbrev pub Message : Type 0
Message = ℕ × Bytes

-- reset
abbrev pub empty : Unpacker
empty = record { buf = [] }

-- feed
unfoldable pub feed : Bytes → Unpacker → Unpacker
feed chunk u = record { buf = u.buf ++ chunk }

-- The tests of `ready` on a header.
unfoldable pub check : Bytes → ℤ × ℕ → Result Bool
check buf (ml, opcode) =
    if ltb opcode op_error || ltb op_unsubscribe opcode
    then err (unknown_opcode opcode)
    else if lt_int (pos (sizes opcode)) ml
    then err (message_too_big opcode ml (sizes opcode))
    else if lt_int (pos (length buf)) ml
    then ok false
    else ok true

unfoldable pub ready : Unpacker → Result Bool
unfolding check
ready u =
    if ltb (length u.buf) 5 then ok false else do h ← unpack_header (take 5 u.buf); check u.buf h

unfoldable pub pop : Unpacker → Result (Message × Unpacker)
pop u = do
  (ml, opcode) ← unpack_header (take 5 u.buf)
  ok ((opcode, slice_to (drop 5 u.buf) (sub_nat ml 5)), record { buf = slice_from u.buf ml })

-- unpack, which is also __next__
unfoldable pub unpack : Unpacker → Result (Message × Unpacker)
unfolding ready pop
unpack u = do r ← ready u; if r then pop u else err stop_iteration
