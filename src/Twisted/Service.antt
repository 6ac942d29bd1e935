-- ===== src/Twisted/Service.antt =====
-- hpfeeds/twisted/protocol.py, class ClientProtocol, and hpfeeds/twisted/service.py: the service, the
-- protocol object of its current connection, and the calls on them. What a protocol writes is a list
-- of packets, as for the session of hpfeeds/asyncio.
use hpfeeds.Prelude.{
  ℕ, List, [], ◌∷◌, ◌++◌, Bool, true, false, not, if◌then◌else◌, contains, add, discard, list_eq,
}
use hpfeeds.Python.Result.{already_called, not_implemented, runtime_error}
use hpfeeds.Python.Exec.{Exec, raise, lift, gets, modify, when, for_each, ◌>>=◌, ◌>>◌}
use hpfeeds.Python.Struct.{Bytes}
use hpfeeds.Python.Values.{Text}
use hpfeeds.Wire.Unpacker.{Unpacker, empty}
use hpfeeds.Protocol.{Handlers, data_received}
use hpfeeds.Client.Session.{
  Packet, authenticates, publishes, subscribes, unsubscribes, Config, packet,
}

pub record Service : Type 0 where
  pub subscriptions : List Text
  pub read_queue : List (Text × Text × Bytes)
  -- `self.protocol is not None`
  pub protocol : Bool
  -- whether the deferred of whenConnected has fired
  pub when_connected : Bool
  -- the protocol object of the current connection
  pub unpacker : Unpacker
  pub written : List Packet
  pub losing : Bool

pub data Call : Type 0 where
  receive : ℕ → Bytes → Call
  reconnecting : Call
  publishing : Text → Bytes → Call
  subscribing unsubscribing : Text → Call

abbrev pub M : Type 0 → Type 0
M A = Exec Service A

-- ClientSessionService.__init__
abbrev pub initial : Service
initial = record {
  subscriptions = [];
  read_queue = [];
  protocol = false;
  when_connected = false;
  unpacker = empty;
  written = [];
  losing = false;
}

-- self.transport.loseConnection()
unfoldable pub lose_connection : M (Unit {0})
lose_connection = modify (λ s. record s { losing = true })

-- The factory builds a protocol for a new connection.
unfoldable pub build_protocol : M (Unit {0})
build_protocol = modify (λ s. record s { unpacker = empty; written = []; losing = false })

-- _Protocol.connectionLost
unfoldable pub connection_lost : M (Unit {0})
connection_lost = modify (λ s. record s { protocol = false; when_connected = false })

-- _Protocol.onPublish
unfoldable pub on_publish : Text → Text → Bytes → M (Unit {0})
on_publish ident chan payload =
    modify (λ s. record s { read_queue = s.read_queue ++ (ident, chan, payload) ∷ [] })

-- BaseProtocol.onError, which no class overrides
unfoldable pub on_error : Text → M (Unit {0})
on_error reason = raise not_implemented

-- ClientProtocol.onAuth, onSubscribe, onUnsubscribe
unfoldable pub on_unexpected : M (Unit {0})
on_unexpected = lose_connection

-- ClientProtocol.error, info
unfoldable pub send_forbidden : M (Unit {0})
send_forbidden = raise runtime_error

module _ (cfg : Config) where
  -- BaseProtocol.auth, publish, subscribe, unsubscribe: self.transport.write(msg…(…))
  unfoldable pub send : Packet → M (Unit {0})
  send p = do m ← lift (packet cfg p); modify (λ s. record s { written = s.written ++ p ∷ [] })

  -- self.factory.service.whenConnected.callback(None)
  unfoldable pub fire_connected : M (Unit {0})
  fire_connected = do
    called ← gets (λ s. s.when_connected)
    if called then raise already_called else modify (λ s. record s { when_connected = true })

  -- _Protocol.connectionReady
  unfoldable pub connection_ready : M (Unit {0})
  connection_ready = do
    modify (λ s. record s { protocol = true })
    topics ← gets (λ s. s.subscriptions)
    for_each (cfg.order topics) (λ topic. send (subscribes topic))
    fire_connected

  -- ClientProtocol.onInfo
  unfoldable pub on_info : Text → Bytes → M (Unit {0})
  on_info name rand = do send (authenticates rand); connection_ready

  abbrev pub handlers : Handlers Service
  handlers = record {
    on_error = on_error;
    on_info = on_info;
    on_auth = λ i s. on_unexpected;
    on_publish = on_publish;
    on_subscribe = λ i c. on_unexpected;
    on_unsubscribe = λ i c. on_unexpected;
    drop_connection = lose_connection;
    unpacker = λ s. s.unpacker;
    set_unpacker = λ u s. record s { unpacker = u };
  }

  -- BaseProtocol.dataReceived
  abbrev pub client_received : ℕ → Bytes → M (Unit {0})
  client_received = data_received cfg.lib handlers

  -- ClientSessionService.publish
  unfoldable pub publish : Text → Bytes → M (Unit {0})
  publish chan payload = do
    protocol ← gets (λ s. s.protocol)
    when protocol (send (publishes chan payload))

  -- ClientSessionService.subscribe
  unfoldable pub subscribe : Text → M (Unit {0})
  subscribe topic = do
    topics ← gets (λ s. s.subscriptions)
    when (not (contains topic topics)) (do
      modify (λ s. record s { subscriptions = add topic s.subscriptions })
      protocol ← gets (λ s. s.protocol)
      when protocol (send (subscribes topic)))

  -- ClientSessionService.unsubscribe
  unfoldable pub unsubscribe : Text → M (Unit {0})
  unsubscribe topic = do
    topics ← gets (λ s. s.subscriptions)
    when (contains topic topics) (do
      modify (λ s. record s { subscriptions = discard topic s.subscriptions })
      protocol ← gets (λ s. s.protocol)
      when protocol (send (unsubscribes topic)))

  -- What happens to a service; ClientService makes a new connection for one that was lost.
  unfoldable pub call : Call → M (Unit {0})
  call (receive fuel chunk) = client_received fuel chunk
  call reconnecting = do connection_lost; build_protocol
  call (publishing chan payload) = publish chan payload
  call (subscribing topic) = subscribe topic
  call (unsubscribing topic) = unsubscribe topic
