-- ===== src/Python/Result.antt =====
-- A function that may raise returns a `Result`; the exceptions are those that the program raises
-- or lets through (exceptions.py, and the built-in ones of the calls that it makes).
pub mod Clean
use hpfeeds.Prelude.{ℕ, ◌≡◌, refl, ◌⊎◌, inl, inr, Bool, true, false, ℤ}

pub data Error : Type 0 where
  -- FeedException and Disconnect, of which ProtocolException is a subclass
  feed_exception disconnect : Error
  -- subclasses of ProtocolException
  unknown_opcode : ℕ → Error
  message_too_big : ℕ → ℤ → ℕ → Error
  -- struct.error, UnicodeError, the TypeError of `ord(b'')`, NotImplementedError
  struct_error unicode_error type_error not_implemented : Error
  -- an AttributeError, a RuntimeError or a KeyError
  attribute_error runtime_error : Error
  -- a local variable that was not assigned
  unbound_local : Error
  -- the InvalidStateError of a future that is done
  invalid_state : Error
  -- the AlreadyCalledError of a Deferred that has fired
  already_called : Error
  key_error : Error
  -- a ValueError, a socket.error
  value_error os_error : Error
  -- what an authenticator raised
  lookup_error : Error
  -- the end of an iteration
  stop_iteration : Error
  -- the fuel of a loop ran out: the program would still be running
  out_of_fuel : Error

pub data Result {ℓ} (A : Type ℓ) : Type ℓ where
  err : Error → Result A
  ok : A → Result A

-- `except ProtocolException`
abbrev pub is_protocol_exception : Error → Bool
is_protocol_exception (unknown_opcode op) = true
is_protocol_exception (message_too_big op ml max_ml) = true
is_protocol_exception _ = false

-- What goes on after a call that may have raised.
infixl 10 ◌>>=◌
abbrev pub ◌>>=◌ {ℓ κ} : {B : Type κ} {A : Type ℓ} → Result A → (A → Result B) → Result B
err x >>= k = err x
ok a >>= k = k a

pub Result-cases {ℓ} :
    {A : Type ℓ} (r : Result A) → ((a : A) × (r ≡ ok a)) ⊎ ((e : Error) × (r ≡ err e))
Result-cases (ok a) = inl (a, refl)
Result-cases (err e) = inr (e, refl)

-- Not the model's mark of a loop that would go on.
abbrev pub is_clean : Error → Bool
is_clean out_of_fuel = false
is_clean _ = true

-- `except FeedException`
abbrev pub is_feed_exception : Error → Bool
is_feed_exception feed_exception = true
is_feed_exception _ = false

-- An exception that hpfeeds/exceptions.py declares.
abbrev pub is_own : Error → Bool
is_own feed_exception = true
is_own disconnect = true
is_own e = is_protocol_exception e
