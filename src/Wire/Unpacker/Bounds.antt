-- ===== src/Wire/Unpacker/Bounds.antt =====
-- hpfeeds/protocol.py: how much the parser keeps, and when iterating over it ends.
use hpfeeds.Prelude.{
  ℕ, zero, suc, ◌+◌, ◌-◌, ◌≤◌, ◌<◌, ◌≡◌, refl, ◌⊎◌, inl, inr, ◌∷◌, arith, length, length-drop, take,
  ℤ, pos, negsuc, slice_from, slice_to, true, false, ap, ◌∙◌,
}
use native.Mathlib.Decide.{dec_lt}
use hpfeeds.Python.Result.{ok, err, stop_iteration, out_of_fuel, Result-cases}
use hpfeeds.Python.Struct.{Bytes, unpack_header, unpack_header-cases}
use hpfeeds.Wire.Opcode.{op_unsubscribe, maxbuf, sizes-le}
use hpfeeds.Wire.Unpacker.{Unpacker, Message, check, ready, pop, unpack}
use hpfeeds.Wire.Unpacker.Stream.{drain}

check-waits :
    (buf : Bytes) (ml : ℤ) (op : ℕ) → check buf (ml, op) ≡ ok false → length buf < 5 + maxbuf
unfolding check
check-waits buf (pos n) op h = ground (arith, sizes-le op)
check-waits buf (negsuc n) op h = ground (arith, sizes-le op)

-- `ready` says no only of a buffer that is shorter than the limit of its message.
waits-lt : (u : Unpacker) → ready u ≡ ok false → length u.buf < 5 + maxbuf
waits-lt u h = elim (unpack_header-cases (take 5 u.buf)) [
  | inl e ↦ unfold ready in ground (arith, e)
  | inr ((ml, op), e) ↦ unfold ready in ground (arith, e, check-waits u.buf ml op)
]

-- ready gives true: at least a header is there
ready-le : (u : Unpacker) → ready u ≡ ok true → 5 ≤ length u.buf
unfolding ready
ready-le u h = ground arith

unpack-waits : (u : Unpacker) → unpack u ≡ err stop_iteration → ready u ≡ ok false
unfolding unpack
unpack-waits u h = ground (arith, unpack_header-cases (take 5 u.buf))

pub slice_from-cases :
    (xs : Bytes) (z : ℤ)
    → 5 ≤ length xs
    → (length (slice_from xs z) < length xs) ⊎ (slice_from xs z ≡ xs)
slice_from-cases xs (pos zero) h = inr refl
slice_from-cases xs (pos (suc n)) h = inl (omega (arith, length-drop (suc n) xs))
slice_from-cases xs (negsuc n) h = elim (dec_lt 0 (length xs - suc n)) [
  | yes p ↦ inl (omega (arith, length-drop (length xs - suc n) xs))
  | no p ↦ inr (let e : length xs - suc n ≡ 0 = omega arith in rw e)
]

-- A message that is given makes the buffer shorter, or else leaves it as it was.
pub unpack-cases :
    (u u' : Unpacker) (m : Message)
    → unpack u ≡ ok (m, u')
    → (length u'.buf < length u.buf) ⊎ (u' ≡ u)
unfolding unpack pop
unpack-cases u u' m h = elim (unpack_header-cases (take 5 u.buf)) [
  | inl e ↦ ground (arith, e)
  | inr ((ml, op), e) ↦ ground (arith, e, ready-le u, slice_from-cases u.buf ml)
]

-- The opcode of a message that is given is a known one.
pub unpack-le :
    (u u' : Unpacker) (op : ℕ) (payload : Bytes)
    → unpack u ≡ ok ((op, payload), u')
    → op ≤ op_unsubscribe
unfolding unpack ready pop check
unpack-le u u' op payload h = elim (unpack_header-cases (take 5 u.buf)) [
  | inl e ↦ ground (arith, e)
  | inr ((ml, o), e) ↦ ground (arith, e)
]

-- A parser whose next message leaves the buffer as it is.
abbrev pub IsStuck : Unpacker → Type 0
IsStuck u = (m : Message) × (unpack u ≡ ok (m, u))

drain-IsStuck :
    (fuel : ℕ) (u : Unpacker)
    → IsStuck u
    → ((drain fuel u).why ≡ out_of_fuel) × ((drain fuel u).rest ≡ u)
unfolding drain
drain-IsStuck zero u s = (refl, refl)
drain-IsStuck (suc fuel) u (m, e) = rw (e, drain) (drain-IsStuck fuel u (m, e))

-- What a loop over the parser leaves in the buffer, when it ends for want of data, is less than
-- 5 + MAXBUF bytes.
pub drain-lt :
    (fuel : ℕ) (u : Unpacker)
    → (drain fuel u).why ≡ stop_iteration
    → length (drain fuel u).rest.buf < 5 + maxbuf
unfolding drain
drain-lt zero u h = cc
drain-lt (suc fuel) u h = elim (Result-cases (unpack u)) [
  | inl ((m, u'), e) ↦ rw (e, drain) (drain-lt fuel u' (rw (e, drain) at h))
  | inr (e, p) ↦ rw (p, drain) (waits-lt u (unpack-waits u (p ∙ ap err (rw (p, drain) at h))))
]

stays-IsStuck : (fuel : ℕ) (u : Unpacker) → IsStuck u → IsStuck (drain fuel u).rest
stays-IsStuck fuel u s = rw ((drain-IsStuck fuel u s).1) s

not-out_of_fuel : (u : Unpacker) → unpack u ≡ err out_of_fuel → ⊥
unfolding unpack
not-out_of_fuel u h = ground (arith, unpack_header-cases (take 5 u.buf))

-- A loop over the parser ends within as many rounds as the buffer has bytes, and one more, unless
-- it comes to a message that leaves the buffer as it is.
pub drain_ends :
    (fuel : ℕ) (u : Unpacker)
    → length u.buf < fuel
    → (drain fuel u).why ≡ out_of_fuel
    → IsStuck (drain fuel u).rest
unfolding drain
drain_ends zero u l h = absurd (omega arith)
drain_ends (suc fuel) u l h = elim (Result-cases (unpack u)) [
  | inl ((m, u'), e) ↦ elim (unpack-cases u u' m e) [
    | inl less ↦ rw (e, drain) (drain_ends fuel u' (omega arith) (rw (e, drain) at h))
    | inr same ↦ rw (e, drain) (stays-IsStuck fuel u' (rw same (m, e ∙ ap (λ v. ok (m, v)) same)))
  ]
  | inr (e, p) ↦ absurd (not-out_of_fuel u (p ∙ ap err (rw (p, drain) at h)))
]

-- The fuel decides nothing: with a stuck parser every number of rounds is used up.
pub drain-stuck_forever : (fuel : ℕ) (u : Unpacker) → IsStuck u → (drain fuel u).why ≡ out_of_fuel
drain-stuck_forever fuel u s = (drain-IsStuck fuel u s).0

abbrev pub zero_frame : ℕ → Bytes → Bytes
zero_frame op rest = 0 ∷ 0 ∷ 0 ∷ 0 ∷ op ∷ rest

-- A header with a known opcode and the length 0 is such a message, whatever follows it.
pub zero_frame-IsStuck :
    (op : ℕ) (rest : Bytes) → op ≤ op_unsubscribe → IsStuck (record { buf = zero_frame op rest })
unfolding unpack unpack_header
zero_frame-IsStuck op rest h = ((op, slice_to rest (negsuc 4)), ground (arith, sizes-le op))
