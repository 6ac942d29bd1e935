-- ===== src/Wire/Tests.antt =====
-- hpfeeds/protocol.py: the parser and the messages on concrete bytes.
use hpfeeds.Prelude.{
  ◌+◌, ◌<◌, ◌≡◌, refl, List, [], ◌∷◌, ◌++◌, Bool, true, Option, none, some, if◌then◌else◌, ltb,
  ◌&&◌, arith, length, flatten,
}
use hpfeeds.Python.Result.{ok, stop_iteration}
use hpfeeds.Python.Struct.{Bytes, pack_byte, pack_header, unpack_header}
use hpfeeds.Python.Values.{Text, Library}
use hpfeeds.Wire.Opcode.{op_publish, op_subscribe, maxbuf, sizes}
use hpfeeds.Wire.Message.{msghdr, strpack8, force_bytes, msgpublish, readpublish}
use hpfeeds.Wire.Message.RoundTrip.{Reads, readpublish-msgpublish}
use hpfeeds.Wire.Unpacker.{Unpacker, Message, empty, unpack, check, ready, pop}
use hpfeeds.Wire.Unpacker.Frames.{unpack-encode, encode}
use hpfeeds.Wire.Unpacker.Stream.{drain, receive_all, receive_all-encode, empty-waits}
use hpfeeds.Wire.Unpacker.Bounds.{
  IsStuck, zero_frame, zero_frame-IsStuck, drain-lt, drain_ends, drain-stuck_forever,
}

abbrev is_ascii : Text → Bool
is_ascii [] = true
is_ascii (a ∷ as') = ltb a 128 && is_ascii as'

abbrev ascii_only : Text → Option Bytes
ascii_only s = if is_ascii s then some s else none

pub decode-encode_ascii : (s : Text) (b : Bytes) → ascii_only s ≡ some b → ascii_only b ≡ some s
decode-encode_ascii s b h = ground arith

-- Texts of ASCII characters, and a hash that is the bytes themselves.
abbrev pub ascii : Library
ascii = record {
  encode = ascii_only;
  decode = ascii_only;
  sha1 = λ b. b;
  decode-encode = decode-encode_ascii;
}

abbrev pub two_messages : List Message
two_messages = (op_publish, 1 ∷ 65 ∷ 1 ∷ 66 ∷ 9 ∷ []) ∷ (op_subscribe, 1 ∷ 65 ∷ 66 ∷ []) ∷ []

-- Their bytes, cut within the first header, at a boundary, and within the second payload.
abbrev pub three_chunks : List Bytes
three_chunks =
    (0 ∷ 0 ∷ [])
    ∷ (0 ∷ 10 ∷ 3 ∷ 1 ∷ 65 ∷ 1 ∷ 66 ∷ 9 ∷ [])
    ∷ (0 ∷ 0 ∷ 0 ∷ 8 ∷ 4 ∷ 1 ∷ [])
    ∷ (65 ∷ 66 ∷ [])
    ∷ []

receive_all-encode_example :
    receive_all 3 three_chunks empty
    ≡ record { msgs = two_messages; rest = empty; why = stop_iteration }
unfolding sizes flatten
receive_all-encode_example =
    receive_all-encode 3 two_messages three_chunks empty
      ((omega arith, omega arith), ((omega arith, omega arith), tt)) (omega arith) empty-waits refl

unpack-encode_example :
    unpack (record { buf = encode (op_publish, 1 ∷ 65 ∷ []) ++ 7 ∷ [] })
    ≡ ok ((op_publish, 1 ∷ 65 ∷ []), record { buf = 7 ∷ [] })
unfolding sizes
unpack-encode_example = unpack-encode (op_publish, 1 ∷ 65 ∷ []) (7 ∷ []) (omega arith, omega arith)

-- A frame whose header says 0, from a peer that has not authenticated.
abbrev stuck : Unpacker
stuck = record { buf = zero_frame op_publish (1 ∷ []) }

zero_frame-IsStuck_example : IsStuck stuck
zero_frame-IsStuck_example = zero_frame-IsStuck op_publish (1 ∷ []) (omega arith)

drain_ends_example : IsStuck (drain 7 stuck).rest
drain_ends_example =
    drain_ends 7 stuck (omega arith) (drain-stuck_forever 7 stuck zero_frame-IsStuck_example)

abbrev pub published : Bytes
published = encode (op_publish, 1 ∷ 65 ∷ 1 ∷ 66 ∷ 9 ∷ [])

readpublish-msgpublish_example :
    Reads op_publish (readpublish ascii) (65 ∷ [], 66 ∷ [], 9 ∷ []) published (7 ∷ [])
unfolding msgpublish strpack8 force_bytes msghdr pack_byte pack_header sizes
readpublish-msgpublish_example =
    readpublish-msgpublish ascii published (7 ∷ []) (65 ∷ []) (66 ∷ []) (9 ∷ []) refl (omega arith)

drain-lt_example : length (drain 3 (record { buf = published ++ 0 ∷ [] })).rest.buf < 5 + maxbuf
unfolding drain unpack ready pop unpack_header check sizes
drain-lt_example = drain-lt 3 (record { buf = published ++ 0 ∷ [] }) refl
