-- ===== src/Auth/Multi.antt =====
-- hpfeeds/broker/auth/multi.py: an authenticator that asks others in turn.
pub mod Finalizers
use hpfeeds.Prelude.{◌≡◌, refl, List, [], ◌∷◌, ◌++◌, Option, true, none, some, ap, ◌∙◌, ◌≢◌}
use hpfeeds.Python.Result.{is_clean, ok}
use hpfeeds.Python.Exec.{Exec, pure, gets, modify, for_each, try, ◌>>=◌, ◌>>◌}
use hpfeeds.Python.Values.{Text}
use hpfeeds.Broker.State.{Lookup, found, failed, now, awaitable}

-- What a start gives: a function, which runs when it is called, or a coroutine function, whose call
-- makes a coroutine that does nothing until it is awaited.
pub data Finalizer (S : Type 0) : Type 0 where
  function coroutine_function : Exec S (Unit {0}) → Finalizer S

-- An authenticator of the stack, where `S` is what it acts on: how it answers, and its start, which
-- gives a finalizer or None.
pub record Backend (S : Type 0) : Type 0 where
  pub answer : Text → S → Lookup × S
  pub start : Exec S (Option (Finalizer S))

-- The authenticator itself: the backends, and the finalizers that were collected.
pub record Multi (S : Type 0) : Type 0 where
  pub stack : List (Backend S)
  pub close_fn : List (Finalizer S)

abbrev pub unknown : Lookup
unknown = now (found none)

module _ {S : Type 0} where
  -- What the loop makes of an answer: an awaitable is true, a row is true, and None is not; an
  -- exception ends the loop.
  unfoldable pub or_next : Lookup × S → (S → Lookup × S) → Lookup × S
  or_next (now (found none), s) rest = rest s
  or_next (l, s) rest = (l, s)

  -- Authenticator.get_authkey
  unfoldable pub ask : List (Backend S) → Text → S → Lookup × S
  unfolding or_next
  ask [] ident s = (now (found none), s)
  ask (backend ∷ stack) ident s = or_next (backend.answer ident s) (ask stack ident)

  -- What the backends leave that are asked in turn.
  abbrev pub asked : Text → List (Backend S) → S → S
  asked ident [] s = s
  asked ident (backend ∷ stack) s = asked ident stack (backend.answer ident s).1

  -- Each of them says at once that it does not know the ident, from where the one before left off.
  abbrev pub Silent : Text → List (Backend S) → S → Type 0
  Silent ident [] s = Unit {0}
  Silent ident (backend ∷ stack) s =
      ((backend.answer ident s).0 ≡ unknown) × Silent ident stack (backend.answer ident s).1

  or_next-unknown :
      (o : Lookup × S) (rest : S → Lookup × S) → o.0 ≡ unknown → or_next o rest ≡ rest o.1
  unfolding or_next
  or_next-unknown (now (found none), s) rest h = refl
  or_next-unknown (now (found (some row)), s) rest h = cc
  or_next-unknown (now failed, s) rest h = cc
  or_next-unknown (awaitable, s) rest h = cc

  or_next-answer : (o : Lookup × S) (rest : S → Lookup × S) → o.0 ≢ unknown → or_next o rest ≡ o
  unfolding or_next
  or_next-answer (now (found none), s) rest h = absurd (h refl)
  or_next-answer (now (found (some row)), s) rest h = refl
  or_next-answer (now failed, s) rest h = refl
  or_next-answer (awaitable, s) rest h = refl

  -- The answer is that of the first backend that does not say at once that it does not know the
  -- ident, be it a row, an exception or something to wait for. Only the backends up to it act: what
  -- the call leaves is what they leave, one after another.
  pub ask-first :
      (ident : Text) (front back : List (Backend S)) (backend : Backend S) (s : S)
      → Silent ident front s
      → (backend.answer ident (asked ident front s)).0 ≢ unknown
      → ask (front ++ backend ∷ back) ident s ≡ backend.answer ident (asked ident front s)
  unfolding ask
  ask-first ident [] back backend s h n = or_next-answer (backend.answer ident s) (ask back ident) n
  ask-first ident (b ∷ front) back backend s (h, rest) n =
      or_next-unknown (b.answer ident s) (ask (front ++ backend ∷ back) ident) h
      ∙ ask-first ident front back backend (b.answer ident s).1 rest n

  -- Authenticator.__init__
  abbrev pub fresh : Multi S
  fresh = record { stack = []; close_fn = [] }

  -- A call on what is outside the authenticator.
  unfoldable pub outside : {A : Type 0} → Exec S A → Exec (Multi S × S) A
  outside f (m, s) = let (r, s') = f s in (r, (m, s'))

  unfoldable pub self : (Multi S → Multi S) → Exec (Multi S × S) (Unit {0})
  self f (m, s) = (ok tt, (f m, s))

  -- Authenticator.add
  unfoldable pub add : Backend S → Exec (Multi S × S) (Unit {0})
  unfolding self
  add authenticator = self (λ m. record m { stack = m.stack ++ authenticator ∷ [] })

  -- finalizer(), which is not awaited
  unfoldable pub called : Finalizer S → Exec S (Unit {0})
  called (function f) = f
  called (coroutine_function f) = pure tt

  -- The finalizers in turn, an exception of one caught.
  abbrev pub finalize : Finalizer S → Exec S (Unit {0})
  finalize finalizer = try is_clean (called finalizer) (pure tt)

  -- Authenticator._close
  unfoldable pub close : Exec (Multi S × S) (Unit {0})
  unfolding self
  close = do
    finalizers ← gets (λ t. t.0.close_fn)
    for_each finalizers (λ f. outside (finalize f))
    self (λ m. record m { close_fn = [] })
    self (λ m. record m { stack = [] })

  unfoldable pub collect : Option (Finalizer S) → Exec (Multi S × S) (Unit {0})
  unfolding self
  collect none = pure tt
  collect (some close_fn) = self (λ m. record m { close_fn = m.close_fn ++ close_fn ∷ [] })

  unfoldable pub start_one : Backend S → Exec (Multi S × S) (Unit {0})
  start_one backend = do close_fn ← outside backend.start; collect close_fn

  -- Authenticator.start, which gives the method _close
  unfoldable pub start : Exec (Multi S × S) (Exec (Multi S × S) (Unit {0}))
  start = do stack ← gets (λ t. t.0.stack); for_each stack start_one; pure close
