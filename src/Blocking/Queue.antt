-- ===== src/Blocking/Queue.antt =====
-- hpfeeds/blocking/queue.py: threads that put into one queue and get from it, where every thread can
-- be interrupted between the item and the byte.
pub mod Tests
use hpfeeds.Prelude.{
  ℕ, suc, ◌+◌, ◌≡◌, refl, List, [], ◌∷◌, ◌++◌, arith, length, length-append, append_assoc,
  append-nil, ap, sym, ◌∙◌,
}
use hpfeeds.Blocking.Reactor.{Queue, new_queue, push, send_token}

-- Queue.get: first the byte, where `n` are left, then the item, where `ms` are left.
abbrev pub recv_byte : {A : Type 0} → ℕ → Queue A → Queue A
recv_byte n q = record q { tokens = n }

abbrev pub take_item : {A : Type 0} → List A → Queue A → Queue A
take_item ms q = record q { items = ms }

-- A queue that is shared: `gets` counts the threads in `get` between the byte and the item, and the
-- histories are what was put and what was got.
pub record Shared (A : Type 0) : Type 0 where
  pub queue : Queue A
  pub gets : ℕ
  pub given : List A
  pub taken : List A

module _ {A : Type 0} where
  abbrev pub unused : Shared A
  unused = record { queue = new_queue; gets = 0; given = []; taken = [] }

  -- One statement of put or get, in any thread. recv waits for a byte, and the queue's own get for an
  -- item.
  pub data Step (s : Shared A) : Shared A → Type 0 where
    puts_item : (m : A) → Step s (record s { queue = push m s.queue; given = s.given ++ m ∷ [] })
    puts_byte : (n : ℕ) → s.queue.puts ≡ suc n → Step s (record s { queue = send_token s.queue })
    gets_byte :
        (n : ℕ)
        → s.queue.tokens ≡ suc n
        → Step s (record s { queue = recv_byte n s.queue; gets = suc s.gets })
    gets_item :
        (n : ℕ) (m : A) (ms : List A)
        → s.gets ≡ suc n
        → s.queue.items ≡ m ∷ ms
        → Step s (record s { queue = take_item ms s.queue; gets = n; taken = s.taken ++ m ∷ [] })

  pub data Reach : Shared A → Type 0 where
    start : Reach unused
    next : {s t : Shared A} → Reach s → Step s t → Reach t

  record Kept (s : Shared A) : Type 0 where
    ordered : s.given ≡ s.taken ++ s.queue.items
    counted : s.queue.tokens + s.queue.puts + s.gets ≡ length s.queue.items

  sent-puts :
      (q : Queue A) (k : ℕ)
      → q.puts ≡ suc k
      → ((send_token q).items ≡ q.items)
        × ((send_token q).tokens + (send_token q).puts ≡ q.tokens + q.puts)
  sent-puts q k e = ground (arith, e)

  step-Kept : {s t : Shared A} → Step s t → Kept s → Kept t
  step-Kept {s} (puts_item m) h = record {
    ordered = ap (λ g. g ++ m ∷ []) h.ordered ∙ append_assoc s.taken s.queue.items (m ∷ []);
    counted = omega (arith, h.counted, length-append s.queue.items (m ∷ []));
  }
  step-Kept {s} (puts_byte n e) h =
      let (i, c) = sent-puts s.queue n e in
      record {
        ordered = h.ordered ∙ ap (λ ms. s.taken ++ ms) (sym i);
        counted = omega (arith, h.counted, c, ap length i);
      }
  step-Kept {s} (gets_byte n e) h = record {
    ordered = h.ordered;
    counted = omega (arith, h.counted, e);
  }
  step-Kept {s} (gets_item n m ms g e) h = record {
    ordered = h.ordered ∙ ap (λ is. s.taken ++ is) e ∙ sym (append_assoc s.taken (m ∷ []) ms);
    counted = omega (arith, h.counted, g, ap length e);
  }

  Reach-Kept : {s : Shared A} → Reach s → Kept s
  Reach-Kept start = record { ordered = refl; counted = refl }
  Reach-Kept (next r st) = step-Kept st (Reach-Kept r)

  first_of : (n : ℕ) (ms : List A) → length ms ≡ suc n → (m : A) × (rest : List A) × (ms ≡ m ∷ rest)
  first_of n [] h = absurd (omega (arith, h))
  first_of n (m ∷ ms) h = (m, ms, refl)

  -- Whoever puts and gets, in whatever turns. The items come out in the order in which they were put,
  -- none lost and none twice. A thread that has its byte finds an item, so that only the wait for a
  -- byte can block. And where no byte is there, each item in the queue is one whose byte another
  -- thread is about to send or has taken.
  pub Reach-ordered :
      {s : Shared A}
      → Reach s
      → (s.given ≡ s.taken ++ s.queue.items)
        × ((n : ℕ) → s.gets ≡ suc n → (m : A) × (ms : List A) × (s.queue.items ≡ m ∷ ms))
        × (s.queue.tokens ≡ 0 → length s.queue.items ≡ s.queue.puts + s.gets)
  Reach-ordered {s} r =
      let h = Reach-Kept r in
      (
        h.ordered,
        λ n e.
            first_of (s.queue.tokens + s.queue.puts + n) s.queue.items
              (omega (arith, h.counted, e)),
        λ e. omega (arith, h.counted, e),
      )
