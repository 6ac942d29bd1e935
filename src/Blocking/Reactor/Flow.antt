-- ===== src/Blocking/Reactor/Flow.antt =====
-- hpfeeds/blocking/reactor.py: what is written goes out in order, nothing is lost or sent twice.
use hpfeeds.Prelude.{
  ℕ, zero, suc, ◌+◌, ◌≡◌, refl, ◌≤◌, List, [], ◌∷◌, ◌++◌, append_assoc, append-nil, Bool, true,
  false, arith, length, length-append, take, drop, flatten, ap, sym, ◌∙◌,
}
use hpfeeds.Python.Result.{Error, Result, ok, err}
use hpfeeds.Python.Exec.{pure, raise, gets, modify, ◌>>=◌}
use hpfeeds.Python.Exec.Keeps.{
  Keeps, Outcome, Outcome-continue, Keeps-raise, Keeps-modify, Keeps-bind, Keeps-pure, keeps_rules,
}
use hpfeeds.Python.Struct.{Bytes}
use hpfeeds.Wire.Unpacker.{empty}
use hpfeeds.Blocking.Reactor.{
  new_queue, Reactor, M, Answer, try_again, broken, result, put_item, put_token, write, connect,
  connection_lost, stop, socket_write_ready, take_item, get_item, outbox_read_ready, Events,
  socket_read_ready, select_,
}

-- The bytes that the socket took, the buffer and the queued items are all that was given, in order;
-- each queued item has its byte in the sockets of the queue, or will get it from a thread in `put`.
-- So has each message that the session received.
pub record Flows (s : Reactor) : Type 0 where
  pub ordered : s.taken ++ (s.buffer ++ flatten s.outbox.items) ≡ s.given
  pub announced : s.outbox.tokens + s.outbox.puts ≡ length s.outbox.items
  pub readable : s.read_queue.tokens ≡ length s.read_queue.items
  pub settled : s.read_queue.puts ≡ 0

abbrev pub Still : Error → Reactor → Type 0
Still e s = Flows s

flatten-append : (xs : List Bytes) (d : Bytes) → flatten (xs ++ d ∷ []) ≡ flatten xs ++ d
unfolding flatten
flatten-append [] d = append-nil d
flatten-append (x ∷ xs) d =
    ap (λ t. x ++ t) (flatten-append xs d) ∙ sym (append_assoc x (flatten xs) d)

take-drop : (n : ℕ) (xs : Bytes) → take n xs ++ drop n xs ≡ xs
take-drop zero xs = refl
take-drop (suc n) [] = refl
take-drop (suc n) (x ∷ xs) = ap (λ t. x ∷ t) (take-drop n xs)

inward : (t b f d : Bytes) → t ++ (b ++ (f ++ d)) ≡ (t ++ (b ++ f)) ++ d
inward t b f d = ap (λ x. t ++ x) (sym (append_assoc b f d)) ∙ sym (append_assoc t (b ++ f) d)

put_item-Keeps : (d : Bytes) → Keeps Flows Still (put_item d)
unfolding put_item
put_item-Keeps d = Keeps-modify _ λ s h. record {
  ordered =
      ap (λ f. s.taken ++ (s.buffer ++ f)) (flatten-append s.outbox.items d)
      ∙ inward s.taken s.buffer (flatten s.outbox.items) d
      ∙ ap (λ g. g ++ d) h.ordered;
  announced = omega (arith, h.announced, length-append s.outbox.items (d ∷ []));
  readable = h.readable;
  settled = h.settled;
}

moved : (t a b f : Bytes) → (t ++ a) ++ (b ++ f) ≡ t ++ ((a ++ b) ++ f)
moved t a b f = append_assoc t a (b ++ f) ∙ ap (λ x. t ++ x) (sym (append_assoc a b f))

put_token-Keeps : Keeps Flows Still put_token
unfolding put_token
put_token-Keeps = Keeps-modify _ (λ s h. record {
  ordered = ground (arith, h.ordered);
  announced = ground (arith, h.announced);
  readable = h.readable;
  settled = h.settled;
})

pub write-Keeps : (d : Bytes) → Keeps Flows Still (write d)
unfolding write
write-Keeps d = search (keeps_rules, put_item-Keeps, put_token-Keeps)

raise-Keeps : {A : Type 0} (e : Error) → Keeps Flows Still (raise {A = A} e)
raise-Keeps e = Keeps-raise e (λ s h. h)

connect-Keeps : (made : Bool) → Keeps Flows Still (connect made)
unfolding connect flatten
connect-Keeps false =
    Keeps-bind _ _
      (Keeps-modify _ (λ s h. record {
        ordered = h.ordered;
        announced = h.announced;
        readable = h.readable;
        settled = h.settled;
      }))
      (λ u. raise-Keeps _)
connect-Keeps true =
    Keeps-modify _ (λ s h. record {
      ordered = refl;
      announced = refl;
      readable = h.readable;
      settled = h.settled;
    })

connection_lost-Keeps : Keeps Flows Still connection_lost
unfolding connection_lost
connection_lost-Keeps = Keeps-modify _ (λ s h. record {
  ordered = h.ordered;
  announced = h.announced;
  readable = h.readable;
  settled = h.settled;
})

stop-Keeps : Keeps Flows Still stop
unfolding stop
stop-Keeps = Keeps-modify _ (λ s h. record {
  ordered = h.ordered;
  announced = h.announced;
  readable = h.readable;
  settled = h.settled;
})

socket_write_ready-Keeps : (a : Answer ℕ) → Keeps Flows Still (socket_write_ready a)
unfolding socket_write_ready
socket_write_ready-Keeps try_again = Keeps-pure true
socket_write_ready-Keeps broken = raise-Keeps _
socket_write_ready-Keeps (result zero) = search (keeps_rules, connection_lost-Keeps)
socket_write_ready-Keeps (result (suc n)) =
    Keeps-bind _ _
      (Keeps-modify _ (λ s h. record {
        ordered =
            moved s.taken (take (suc n) s.buffer) (drop (suc n) s.buffer) (flatten s.outbox.items)
            ∙ ap (λ b. s.taken ++ (b ++ flatten s.outbox.items)) (take-drop (suc n) s.buffer)
            ∙ h.ordered;
        announced = h.announced;
        readable = h.readable;
        settled = h.settled;
      }))
      (λ _. Keeps-pure true)

get_item-Flows :
    (s : Reactor) (n : ℕ) (xs : List Bytes)
    → Flows s
    → s.outbox.tokens ≡ n
    → s.outbox.items ≡ xs
    → Outcome Flows Still (get_item n xs s)
unfolding get_item take_item raise modify flatten
get_item-Flows s zero xs h t e = h
get_item-Flows s (suc n) [] h t e = h
get_item-Flows s (suc n) (d ∷ ds) h t e = record {
  ordered =
      ap (λ x. s.taken ++ x) (append_assoc s.buffer d (flatten ds))
      ∙ ap (λ xs. s.taken ++ (s.buffer ++ flatten xs)) (sym e)
      ∙ h.ordered;
  announced = omega (arith, h.announced, ap length e, t);
  readable = h.readable;
  settled = h.settled;
}

outbox_read_ready-Keeps : (a : Answer ℕ) → Keeps Flows Still (outbox_read_ready a)
unfolding outbox_read_ready gets ◌>>=◌
outbox_read_ready-Keeps a = record {
  at = λ s h.
      Outcome-continue (λ _. socket_write_ready a >>= λ _. pure false)
        (get_item s.outbox.tokens s.outbox.items s).0 (get_item s.outbox.tokens s.outbox.items s).1
        (λ _. Keeps-bind _ _ (socket_write_ready-Keeps a) (λ _. Keeps-pure false))
        (get_item-Flows s s.outbox.tokens s.outbox.items h refl refl);
}

get_item-finds :
    (s : Reactor) (n : ℕ) (xs : List Bytes) → suc n ≤ length xs → (get_item (suc n) xs s).0 ≡ ok tt
unfolding get_item take_item modify
get_item-finds s n [] h = absurd (omega arith)
get_item-finds s n (d ∷ ds) h = refl

-- Before the reactor runs.
abbrev pub idle : Reactor
idle = record {
  sock = false;
  buffer = [];
  outbox = new_queue;
  closing = false;
  when_connected = false;
  sock_closed = false;
  unpacker = empty;
  subscriptions = [];
  read_queue = new_queue;
  taken = [];
  given = [];
}

pub outcome : {A : Type 0} (o : Result A × Reactor) → Outcome Flows Still o → Flows o.1
outcome (ok a, s) h = h
outcome (err e, s) h = h

module _ (data_received : Bytes → M (Unit {0})) where
  -- The thread of the reactor and those that write, in any order; an exception leaves the state.
  pub data Step (s : Reactor) : Reactor → Type 0 where
    connects : (made : Bool) → Step s (connect made s).1
    selects : (ev : Events) → Step s (select_ data_received ev s).1
    stops : Step s (stop s).1
    puts_item : (d : Bytes) → Step s (put_item d s).1
    puts_token : Step s (put_token s).1

  pub data Reach : Reactor → Type 0 where
    start : Reach idle
    and_then : {s t : Reactor} → Reach s → Step s t → Reach t

  module _ (keeps : (d : Bytes) → Keeps Flows Still (data_received d)) where
    socket_read_ready-Keeps :
        (a : Answer Bytes) → Keeps Flows Still (socket_read_ready data_received a)
    unfolding socket_read_ready
    socket_read_ready-Keeps try_again = Keeps-pure true
    socket_read_ready-Keeps broken = raise-Keeps _
    socket_read_ready-Keeps (result []) = search (keeps_rules, connection_lost-Keeps)
    socket_read_ready-Keeps (result (b ∷ bs)) =
        Keeps-bind _ _ (keeps (b ∷ bs)) (λ _. Keeps-pure true)

    select-Keeps : (ev : Events) → Keeps Flows Still (select_ data_received ev)
    unfolding select_
    select-Keeps ev =
        search
          (keeps_rules, socket_read_ready-Keeps, outbox_read_ready-Keeps, socket_write_ready-Keeps)
          depth 12

    pub step-Flows : {s t : Reactor} → Flows s → Step s t → Flows t
    step-Flows {s} h (connects made) = outcome _ ((connect-Keeps made).at s h)
    step-Flows {s} h (selects ev) = outcome _ ((select-Keeps ev).at s h)
    step-Flows {s} h stops = outcome _ (stop-Keeps.at s h)
    step-Flows {s} h (puts_item d) = outcome _ ((put_item-Keeps d).at s h)
    step-Flows {s} h puts_token = outcome _ (put_token-Keeps.at s h)

    -- Where what the protocol does on data keeps this too: whatever the socket answers and whoever
    -- writes when, the bytes that the socket took on this connection, the buffer and the queue are
    -- together what was put into the outbox since it was made, in order; and each byte in the
    -- sockets of the queue, or still to be sent by a thread, stands for one item. Each byte in
    -- those of the session's queue stands for one message.
    pub Reach-Flows : {s : Reactor} → Reach s → Flows s
    unfolding flatten
    Reach-Flows start = record { ordered = refl; announced = refl; readable = refl; settled = refl }
    Reach-Flows (and_then r st) = step-Flows (Reach-Flows r) st

    -- With such a protocol, in any state that is reached: when select finds the outbox readable,
    -- taking an item from it raises nothing, so that an empty queue need not be handled.
    Reach-get_item :
        {s : Reactor} (n : ℕ)
        → Reach s
        → s.outbox.tokens ≡ suc n
        → (get_item s.outbox.tokens s.outbox.items s).0 ≡ ok tt
    Reach-get_item {s} n r e =
        let h = Reach-Flows r in
        ap (λ k. (get_item k s.outbox.items s).0) e
        ∙ get_item-finds s n s.outbox.items (omega (arith, h.announced, e))
