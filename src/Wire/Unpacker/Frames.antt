-- ===== src/Wire/Unpacker/Frames.antt =====
-- hpfeeds/protocol.py: the parser on a buffer that starts with a whole frame, or with a part of one.
use hpfeeds.Prelude.{
  ℕ, ◌+◌, ◌≤◌, ◌<◌, ◌^◌, ◌≡◌, true, ◌∷◌, ◌++◌, arith, length, length-append, drop, take-append,
  drop-append, pos, sub_ℕ, suc,
}
use hpfeeds.Python.Result.{ok}
use hpfeeds.Python.Struct.{Bytes, header, unpack_header-header}
use hpfeeds.Wire.Opcode.{op_unsubscribe, sizes, sizes-le}
use hpfeeds.Wire.Unpacker.{Message, ready, pop, unpack}

-- A message that the parser takes: a known opcode, and a length within the limit of it.
abbrev pub Fits : Message → Type 0
Fits (op, payload) = (op ≤ op_unsubscribe) × (5 + length payload ≤ sizes op)

-- The bytes of a message on the wire.
abbrev pub encode : Message → Bytes
encode (op, payload) = header (5 + length payload) op ++ payload

pub small : (op : ℕ) (payload : Bytes) → Fits (op, payload) → 5 + length payload < 2 ^ 31
small op payload h = omega (arith, sizes-le op)

ready-encode :
    (op : ℕ) (payload rest : Bytes)
    → Fits (op, payload)
    → ready (record { buf = encode (op, payload) ++ rest }) ≡ ok true
unfolding ready
ready-encode op payload rest h =
    rw (unpack_header-header (5 + length payload) op (small op payload h))
      (ground (arith, length-append payload rest))

five-add : (n : ℕ) → 5 + n ≡ suc (suc (suc (suc (suc n))))
five-add n = omega arith

drop-five : (n a b c d e : ℕ) (xs : Bytes) → drop (5 + n) (a ∷ b ∷ c ∷ d ∷ e ∷ xs) ≡ drop n xs
drop-five n a b c d e xs = rw (five-add n)

sub_ℕ-five : (n : ℕ) → sub_ℕ (5 + n) 5 ≡ pos n
sub_ℕ-five n = ground arith

pop-encode :
    (op : ℕ) (payload rest : Bytes)
    → Fits (op, payload)
    → pop (record { buf = encode (op, payload) ++ rest })
      ≡ ok ((op, payload), record { buf = rest })
unfolding pop
pop-encode op payload rest h =
    rw (unpack_header-header (5 + length payload) op (small op payload h)) (
      rw (drop-five (length payload) _ _ _ _ _ (payload ++ rest), sub_ℕ-five (length payload))
        (rw (take-append payload rest, drop-append payload rest)))

-- One whole frame is taken off the front, and what follows it stays.
pub unpack-encode :
    (m : Message) (rest : Bytes)
    → Fits m
    → unpack (record { buf = encode m ++ rest }) ≡ ok (m, record { buf = rest })
unfolding unpack
unpack-encode (op, payload) rest h =
    rw (ready-encode op payload rest h) (pop-encode op payload rest h)
