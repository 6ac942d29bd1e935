-- ===== src/Blocking/Protocol.antt =====
-- hpfeeds/blocking/protocol.py, class ClientProtocol, and the class Protocol of
-- hpfeeds/blocking/session.py, on the state of the reactor that they write to.
pub mod Delivery
use hpfeeds.Prelude.{ℕ, ◌≡◌, refl}
use hpfeeds.Python.Result.{not_implemented}
use hpfeeds.Python.Exec.{pure, raise, lift, modify, ◌>>=◌, ◌>>◌}
use hpfeeds.Python.Struct.{Bytes}
use hpfeeds.Python.Values.{Text, Library, text}
use hpfeeds.Wire.Message.{msgauth}
use hpfeeds.Protocol.{Handlers, data_received}
use hpfeeds.Blocking.Reactor.{Received, Reactor, M, push, send_token, write, close}

-- self.session.read_queue.put_nowait(…), which calls put: the item and then the byte, without the other threads; Blocking/Queue
-- has them.
abbrev pub keep : Received → Reactor → Reactor
keep m s = record s { read_queue = send_token (push m s.read_queue) }

-- Protocol.on_publish
unfoldable pub on_publish : Text → Text → Bytes → M (Unit {0})
on_publish ident channel payload = modify (keep (ident, channel, payload))

-- BaseProtocol.on_error, which no class overrides
unfoldable pub on_error : Text → M (Unit {0})
on_error reason = raise not_implemented

-- ClientProtocol.connection_ready
unfoldable pub connection_ready : M (Unit {0})
connection_ready = pure tt

-- ClientProtocol.on_auth, on_subscribe, on_unsubscribe
unfoldable pub on_unexpected : M (Unit {0})
on_unexpected = close

module _ (lib : Library) (ident secret : Text) where
  -- ClientProtocol.on_info
  unfoldable pub on_info : Text → Bytes → M (Unit {0})
  on_info name rand = do m ← lift (msgauth lib rand (text ident) secret); write m; connection_ready

  abbrev pub handlers : Handlers Reactor
  handlers = record {
    on_error = on_error;
    on_info = on_info;
    on_auth = λ i s. on_unexpected;
    on_publish = on_publish;
    on_subscribe = λ i c. on_unexpected;
    on_unsubscribe = λ i c. on_unexpected;
    drop_connection = close;
    unpacker = λ s. s.unpacker;
    set_unpacker = λ u s. record s { unpacker = u };
  }

  -- what the reactor calls with the bytes that it received
  abbrev pub client_received : ℕ → Bytes → M (Unit {0})
  client_received = data_received lib handlers
