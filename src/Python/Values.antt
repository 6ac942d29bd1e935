-- ===== src/Python/Values.antt =====
-- `str`, `bytes` and the calls on them that hpfeeds/protocol.py makes.
use Prim.Native.Char.{code}
use Prim.Native.String.{String}
use hpfeeds.Prelude.{ℕ, ◌≡◌, List, [], ◌∷◌, Option, none, some}
use hpfeeds.Python.Result.{Result, ok, err, unicode_error}
use hpfeeds.Python.Struct.{Bytes}

-- A `str`, as its code points.
abbrev pub Text : Type 0
Text = List ℕ

-- UTF-8 and SHA-1 of Python's library. Encoding fails at a lone surrogate, decoding at what is no
-- UTF-8; what was encoded decodes to the same text.
pub record Library : Type 0 where
  pub encode : Text → Option Bytes
  pub decode : Bytes → Option Text
  pub sha1 : Bytes → Bytes
  pub decode-encode : (s : Text) (b : Bytes) → encode s ≡ some b → decode b ≡ some s

pub data Value : Type 0 where
  text : Text → Value
  bytes : Bytes → Value

abbrev pub or_unicode_error {ℓ} : {A : Type ℓ} → Option A → Result A
or_unicode_error none = err unicode_error
or_unicode_error (some a) = ok a

-- A literal text.
abbrev pub codes : String → Text
codes String.[] = []
codes (String.◌∷◌ c s) = code c ∷ codes s

-- Of the pieces of a text, the first is longer by one character.
abbrev pub onto : ℕ → List Text → List Text
onto a [] = (a ∷ []) ∷ []
onto a (piece ∷ pieces) = (a ∷ piece) ∷ pieces
