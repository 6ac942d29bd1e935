-- ===== src/Python/Struct.antt =====
-- `struct.pack` and `struct.unpack` for the formats '!B' and '!iB', which the wire format is made of:
-- a byte, and a big-endian signed 32-bit integer followed by a byte.
use hpfeeds.Prelude.{
  ℕ, ◌+◌, ◌-◌, ◌*◌, ◌/◌, ◌%◌, ◌^◌, ◌<◌, ◌≡◌, refl, ◌⊎◌, inl, inr, List, [], ◌∷◌, arith, ltb, lt→ltb,
  ◌&&◌, ℤ, pos, negsuc, if◌then◌else◌,
}
use hpfeeds.Python.Result.{Result, ok, err, struct_error}

abbrev pub Bytes : Type 0
Bytes = List ℕ

-- struct.pack('!B', n)
unfoldable pub pack_byte : ℕ → Result Bytes
pack_byte n = if ltb n 256 then ok (n ∷ []) else err struct_error

abbrev pub header : ℕ → ℕ → Bytes
header n op = n / 2 ^ 24 % 256 ∷ n / 2 ^ 16 % 256 ∷ n / 2 ^ 8 % 256 ∷ n % 256 ∷ op ∷ []

-- struct.pack('!iB', n, op) for n that is not negative
unfoldable pub pack_header : ℕ → ℕ → Result Bytes
pack_header n op = if ltb n (2 ^ 31) && ltb op 256 then ok (header n op) else err struct_error

-- The integer that four bytes stand for in two's complement.
abbrev pub signed : ℕ → ℤ
signed n = if ltb n (2 ^ 31) then pos n else negsuc (2 ^ 32 - n - 1)

abbrev pub word : ℕ → ℕ → ℕ → ℕ → ℕ
word a b c d = a * 2 ^ 24 + b * 2 ^ 16 + c * 2 ^ 8 + d

-- struct.unpack('!iB', x)
unfoldable pub unpack_header : Bytes → Result (ℤ × ℕ)
unpack_header (a ∷ b ∷ c ∷ d ∷ op ∷ []) = ok (signed (word a b c d), op)
unpack_header _ = err struct_error

word-header :
    (n : ℕ)
    → n < 2 ^ 31
    → word (n / 2 ^ 24 % 256) (n / 2 ^ 16 % 256) (n / 2 ^ 8 % 256) (n % 256) ≡ n
word-header n h = omega arith

-- What `pack_header` writes `unpack_header` reads.
pub unpack_header-header : (n op : ℕ) → n < 2 ^ 31 → unpack_header (header n op) ≡ ok (pos n, op)
unfolding unpack_header
unpack_header-header n op h = ground (arith, word-header n h, lt→ltb n (2 ^ 31) h)

pub pack_header-header : (n op : ℕ) → n < 2 ^ 31 → op < 256 → pack_header n op ≡ ok (header n op)
unfolding pack_header
pack_header-header n op h k = ground arith

-- Reading fails only with `struct.error`.
pub unpack_header-cases :
    (x : Bytes) → (unpack_header x ≡ err struct_error) ⊎ ((p : ℤ × ℕ) × (unpack_header x ≡ ok p))
unfolding unpack_header
unpack_header-cases [] = inl refl
unpack_header-cases (a ∷ []) = inl refl
unpack_header-cases (a ∷ b ∷ []) = inl refl
unpack_header-cases (a ∷ b ∷ c ∷ []) = inl refl
unpack_header-cases (a ∷ b ∷ c ∷ d ∷ []) = inl refl
unpack_header-cases (a ∷ b ∷ c ∷ d ∷ e ∷ []) = inr ((signed (word a b c d), e), refl)
unpack_header-cases (a ∷ b ∷ c ∷ d ∷ e ∷ f ∷ x) = inl refl
