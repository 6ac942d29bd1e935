-- ===== src/Legacy/Connection.antt =====
-- hpfeeds/client.py, class Client: its state, and how it connects. What the name service and the
-- sockets answer are lists, from which each call takes one; where a list is empty the program waits.
use hpfeeds.Prelude.{
  ℕ, zero, suc, ◌==◌, List, [], ◌∷◌, ◌++◌, Bool, true, false, not, Option, none, some,
  if◌then◌else◌,
}
use hpfeeds.Python.Result.{
  Error, Result, ok, err, feed_exception, disconnect, os_error, out_of_fuel, stop_iteration,
  is_protocol_exception,
}
use hpfeeds.Python.Exec.{Exec, pure, raise, lift, gets, modify, when, try, ◌>>=◌, ◌>>◌}
use hpfeeds.Python.Struct.{Bytes}
use hpfeeds.Python.Values.{Text, Library, text}
use hpfeeds.Wire.Opcode.{op_info}
use hpfeeds.Wire.Message.{readinfo, msgauth}
use hpfeeds.Wire.Unpacker.{Unpacker, Message, empty, feed, unpack}

-- socket.timeout, another socket.error, or what was received
pub data Recv : Type 0 where
  recv_timeout recv_error : Recv
  chunk_of : Bytes → Recv

-- the same for sendall
pub data Sendall : Type 0 where
  send_timeout send_error send_done : Sendall

-- The arguments of the client, and the order in which its set is iterated.
pub record Config : Type 0 where
  pub lib : Library
  pub ident : Text
  pub secret : Text
  pub reconnect : Bool
  pub order : List Text → List Text

pub record Client : Type 0 where
  pub connected : Bool
  pub stopped : Bool
  pub subscriptions : List Text
  pub brokername : Text
  pub unpacker : Unpacker
  -- the current socket: whether it is open, and the messages that it took
  pub sock_open : Bool
  pub sent : List Bytes
  -- what is answered from now on: a lookup is refused, or gives addresses, of which each takes the
  -- connection or not
  pub lookups : List (Option (List Bool))
  pub recvs : List Recv
  pub sends : List Sendall

abbrev pub M : Type 0 → Type 0
M A = Exec Client A

unfoldable pub take_recv : List Recv → M Recv
take_recv [] = raise out_of_fuel
take_recv (r ∷ rs) = do modify (λ s. record s { recvs = rs }); pure r

unfoldable pub take_send : List Sendall → M Sendall
take_send [] = raise out_of_fuel
take_send (r ∷ rs) = do modify (λ s. record s { sends = rs }); pure r

unfoldable pub take_lookup : List (Option (List Bool)) → M (Option (List Bool))
take_lookup [] = raise out_of_fuel
take_lookup (r ∷ rs) = do modify (λ s. record s { lookups = rs }); pure r

-- `except Disconnect`, of which ProtocolException is a subclass
abbrev pub is_disconnect : Error → Bool
is_disconnect disconnect = true
is_disconnect e = is_protocol_exception e

-- The exceptions that tryconnect catches.
abbrev pub is_retried : Error → Bool
is_retried feed_exception = true
is_retried os_error = true
is_retried e = is_disconnect e

unfoldable pub received : Recv → M Bytes
received recv_timeout = pure []
received recv_error = raise disconnect
received (chunk_of []) = raise disconnect
received (chunk_of (b ∷ bs)) = pure (b ∷ bs)

-- Client.recv
unfoldable pub recv : M Bytes
recv = do rs ← gets (λ s. s.recvs); r ← take_recv rs; received r

unfoldable pub sent_by : Bytes → Sendall → M (Unit {0})
sent_by m send_timeout = raise disconnect
sent_by m send_error = raise disconnect
sent_by m send_done = modify (λ s. record s { sent = s.sent ++ m ∷ [] })

-- Client.send
unfoldable pub send : Bytes → M (Unit {0})
send m = do rs ← gets (λ s. s.sends); r ← take_send rs; sent_by m r

-- The next message of `for opcode, data in self.unpacker`.
unfoldable pub next : Result (Message × Unpacker) → M (Option Message)
next (ok (m, u)) = do modify (λ s. record s { unpacker = u }); pure (some m)
next (err stop_iteration) = pure none
next (err e) = raise e

unfoldable pub next_message : M (Option Message)
next_message = do u ← gets (λ s. s.unpacker); next (unpack u)

unfoldable pub feed_unpacker : Bytes → M (Unit {0})
feed_unpacker d = modify (λ s. record s { unpacker = feed d s.unpacker })

-- Client.close_old: the old socket is gone, with what it took.
unfoldable pub close_old : M (Unit {0})
close_old = modify (λ s. record s { sock_open = false; sent = [] })

-- for ainfo in ainfos: …, up to the first address that takes the connection
unfoldable pub try_addresses : List Bool → M (Unit {0})
try_addresses [] = pure tt
try_addresses (true ∷ as') = modify (λ s. record s { sock_open = true; connected = true })
try_addresses (false ∷ as') = try_addresses as'

unfoldable pub looked_up : Option (List Bool) → M (Unit {0})
looked_up none = raise os_error
looked_up (some ainfos) = try_addresses ainfos

module _ (cfg : Config) where
  -- The answer to the challenge.
  unfoldable pub greet : Text × Bytes → M (Unit {0})
  greet (name, rand) = do
    modify (λ s. record s { brokername = name })
    m ← lift (msgauth cfg.lib rand (text cfg.ident) cfg.secret)
    send m

  -- What do_auth makes of the first message.
  unfoldable pub on_first : Option Message → M (Unit {0})
  on_first none = raise feed_exception
  on_first (some (opcode, payload)) =
      if opcode == op_info
      then (do info ← lift (readinfo cfg.lib payload); greet info)
      else raise feed_exception

  unfoldable pub on_greeting : Recv → M (Unit {0})
  on_greeting recv_timeout = raise feed_exception
  on_greeting recv_error = raise os_error
  on_greeting (chunk_of d) = do feed_unpacker d; m ← next_message; on_first m

  -- Client.do_auth
  unfoldable pub do_auth : M (Unit {0})
  do_auth = do rs ← gets (λ s. s.recvs); r ← take_recv rs; on_greeting r

  -- Client.connect
  unfoldable pub connect : M (Unit {0})
  connect = do
    close_old
    ls ← gets (λ s. s.lookups)
    l ← take_lookup ls
    looked_up l
    connected ← gets (λ s. s.connected)
    when (not connected) (raise feed_exception)
    modify (λ s. record s { unpacker = empty })
    do_auth

  -- while True: …
  unfoldable pub connect_loop : ℕ → M (Unit {0})
  connect_loop zero = raise out_of_fuel
  connect_loop (suc fuel) = try is_retried connect (connect_loop fuel)

  -- Client.tryconnect
  unfoldable pub tryconnect : ℕ → M (Unit {0})
  tryconnect fuel = do
    connected ← gets (λ s. s.connected)
    if connected then pure tt else connect_loop fuel
