-- ===== src/Blocking/Reactor.antt =====
-- hpfeeds/blocking/reactor.py, class Reactor, and hpfeeds/blocking/queue.py, class Queue. What the
-- socket answers is an argument.
pub mod Flow
use hpfeeds.Prelude.{
  ℕ, zero, suc, ◌+◌, ◌==◌, List, [], ◌∷◌, ◌++◌, Bool, true, false, not, ◌&&◌, if◌then◌else◌, take,
  drop, flatten,
}
use hpfeeds.Python.Result.{
  Error, Result, ok, err, attribute_error, os_error, type_error, out_of_fuel,
}
use hpfeeds.Python.Exec.{Exec, pure, raise, gets, modify, when, ◌>>=◌, ◌>>◌}
use hpfeeds.Python.Struct.{Bytes}
use hpfeeds.Python.Values.{Text}
use hpfeeds.Wire.Unpacker.{Unpacker, empty}

-- Queue: the items, and the bytes in the pair of sockets that make it selectable. `puts` counts the
-- threads in `put` between the two.
pub record Queue (A : Type 0) : Type 0 where
  pub items : List A
  pub tokens : ℕ
  pub puts : ℕ

abbrev pub new_queue : {A : Type 0} → Queue A
new_queue = record { items = []; tokens = 0; puts = 0 }

-- A message that was received: who published it, where and what.
abbrev pub Received : Type 0
Received = Text × Text × Bytes

-- The reactor, with the parser of its protocol and what the session that owns it keeps, and with two
-- histories of its connection: the bytes that the socket took, and those that were put into the
-- outbox.
pub record Reactor : Type 0 where
  -- `self.sock is not None`
  pub sock : Bool
  pub buffer : Bytes
  pub outbox : Queue Bytes
  pub closing : Bool
  pub when_connected : Bool
  -- the socket is there, and closed
  pub sock_closed : Bool
  -- self.protocol.unpacker
  pub unpacker : Unpacker
  -- ClientSession
  pub subscriptions : List Text
  pub read_queue : Queue Received
  pub taken : Bytes
  pub given : Bytes

abbrev pub M : Type 0 → Type 0
M A = Exec Reactor A

-- EAGAIN or EWOULDBLOCK, another socket.error, or the call's result.
pub data Answer (A : Type 0) : Type 0 where
  try_again broken : Answer A
  result : A → Answer A

-- Queue.put: first the item, then the byte.
abbrev pub push : {A : Type 0} → A → Queue A → Queue A
push d q = record q { items = q.items ++ d ∷ []; puts = suc q.puts }

abbrev pub announce : {A : Type 0} → ℕ → Queue A → Queue A
announce zero q = q
announce (suc n) q = record q { tokens = suc q.tokens; puts = n }

abbrev pub send_token : {A : Type 0} → Queue A → Queue A
send_token q = announce q.puts q

unfoldable pub put_item : Bytes → M (Unit {0})
put_item d = modify λ s. record s { outbox = push d s.outbox; given = s.given ++ d }

unfoldable pub put_token : M (Unit {0})
put_token = modify (λ s. record s { outbox = send_token s.outbox })

-- Reactor.write, in one thread
unfoldable pub write : Bytes → M (Unit {0})
write d = do put_item d; put_token

-- Reactor._connect: whether the connector gives a socket or None, which has no setblocking.
unfoldable pub connect : Bool → M (Unit {0})
connect false = do modify (λ s. record s { sock = false }); raise attribute_error
connect true = modify λ s. record s {
  sock = true;
  sock_closed = false;
  unpacker = empty;
  buffer = [];
  outbox = new_queue;
  when_connected = true;
  taken = [];
  given = [];
}

-- Reactor.close
unfoldable pub close : M (Unit {0})
close = modify (λ s. record s { sock_closed = true })

-- Reactor._connection_lost
unfoldable pub connection_lost : M (Unit {0})
connection_lost =
    modify (λ s. record s { sock = false; sock_closed = false; when_connected = false })

unfoldable pub stop : M (Unit {0})
stop = modify (λ s. record s { closing = true })

-- Reactor._socket_write_ready
unfoldable pub socket_write_ready : Answer ℕ → M Bool
socket_write_ready try_again = pure true
socket_write_ready broken = raise os_error
socket_write_ready (result zero) = do connection_lost; pure false
socket_write_ready (result (suc n)) = do
  modify
      (λ s. record s { buffer = drop (suc n) s.buffer; taken = s.taken ++ take (suc n) s.buffer })
  pure true

-- The item that Queue.get takes, after it has taken a byte: an empty queue is an exception, which
-- nothing catches.
unfoldable pub take_item : ℕ → List Bytes → M (Unit {0})
take_item n [] = raise type_error
take_item n (d ∷ ds) =
    modify
      λ s. record s { outbox = record s.outbox { items = ds; tokens = n }; buffer = s.buffer ++ d }

-- Queue.get: without a byte it blocks.
unfoldable pub get_item : ℕ → List Bytes → M (Unit {0})
get_item zero items = raise out_of_fuel
get_item (suc n) items = take_item n items

-- Reactor._outbox_read_ready, which returns None after it has tried to send.
unfoldable pub outbox_read_ready : Answer ℕ → M Bool
outbox_read_ready sent = do
  q ← gets (λ s. s.outbox)
  get_item q.tokens q.items
  socket_write_ready sent
  pure false

abbrev is_empty : Bytes → Bool
is_empty [] = true
is_empty (b ∷ bs) = false

-- What select reports, and what the socket answers then.
pub record Events : Type 0 where
  pub sock_read : Bool
  pub outbox_read : Bool
  pub sock_write : Bool
  pub recv : Answer Bytes
  pub sent_first : Answer ℕ
  pub sent : Answer ℕ

-- The protocol's data_received is a parameter, as the class of the protocol is one of the reactor.
module _ (data_received : Bytes → M (Unit {0})) where
  -- Reactor._socket_read_ready
  unfoldable pub socket_read_ready : Answer Bytes → M Bool
  socket_read_ready try_again = pure true
  socket_read_ready broken = raise os_error
  socket_read_ready (result []) = do connection_lost; pure false
  socket_read_ready (result (b ∷ bs)) = do data_received (b ∷ bs); pure true

  -- Reactor._select: the outbox is waited for where the buffer is empty, and else the socket.
  unfoldable pub select_ : Events → M (Unit {0})
  select_ ev = do
    buffer ← gets (λ s. s.buffer)
    read ← (if ev.sock_read then socket_read_ready ev.recv else pure true)
    when read (do
      filled ←
          (if ev.outbox_read && is_empty buffer then outbox_read_ready ev.sent_first else pure true)
      when filled (
          if ev.sock_write && not (is_empty buffer)
          then (do socket_write_ready ev.sent; pure tt)
          else pure tt))
