-- ===== src/Lib.antt =====
-- hpfeeds: a publish/subscribe broker for events, and its wire protocol.
--
-- The parts of the program and their modules:
--   Wire    hpfeeds/protocol.py. Wire/Opcode has the constants, Wire/Message the functions msg… and
--           read… under their own names, Wire/Unpacker the class Unpacker (feed, ready, pop, unpack).
--           `drain` in Wire/Unpacker/Stream is a `for` loop over the parser.
--   Broker  hpfeeds/broker/connection.py (class Connection), hpfeeds/broker/server.py (class Server)
--           and the base class in hpfeeds/asyncio/protocol.py. Broker/State has the objects: a
--           connection is a number, a table gives its fields, and the server's `connections` and
--           `subscriptions` are lists of numbers, so that a connection is shared by both as in the
--           program. Broker/Subscriptions is Server.subscribe and Server.unsubscribe, Broker/Publish
--           is Server.publish, Broker/Lifecycle has connection_made (`made`), connection_lost (`lost`)
--           and backpressure, Broker/Handlers has message_received, the on_… methods and
--           authenticate, Broker/Loop has data_received and process_pending. Broker/Metrics has the
--           collectors of hpfeeds/broker/prometheus.py and Broker/Exporter its start_metrics_server,
--           Broker/Endpoints Server.add_endpoint_str, and Broker/Startup serve_forever: what it starts
--           and closes, over how the calls that it makes end (the records Starts and Endpoint).
--   Auth    hpfeeds/broker/auth. Auth/Document is json.py over the values of Auth/Json, Auth/Multi is
--           multi.py, Auth/Memory memory.py, Auth/Variables env.py, Auth/Rows sqlite.py and
--           database.py, Auth/Mongo mongo.py; get_authkey is `get_authkey`, `ask` or `ask_…` there.
--   Client  hpfeeds/asyncio/client.py (ClientSession, _Protocol) and ClientProtocol of
--           hpfeeds/asyncio/protocol.py. Client/Session has the state and the calls, Client/Calls
--           any sequence of them; `reconnect` is one round of ClientSession.reconnect,
--           and Client/Connecting is the task that runs it, with _tryconnect.
--   Protocol  the class BaseProtocol that hpfeeds/blocking/protocol.py and hpfeeds/twisted/protocol.py
--           both have: message_received, and data_received with its loop over the parser, for any
--           handlers (the record Handlers). Protocol/Stream and Protocol/Ends are about that loop.
--   Blocking  hpfeeds/blocking. Blocking/Reactor has the class Reactor and the queue of its outbox,
--           Blocking/Reactor/Flow any order of its steps and of other threads', Blocking/Protocol the
--           class ClientProtocol and session.py's Protocol as handlers on the reactor's state,
--           Blocking/Session the calls of ClientSession, Blocking/Queue the threads on one queue.
--   Twisted hpfeeds/twisted. Twisted/Service has ClientProtocol, _Protocol and ClientSessionService;
--           Twisted/Same takes them, call by call, to the session of Client.
--   Legacy  hpfeeds/client.py, class Client. Legacy/Connection is the state, recv, send, connect,
--           do_auth and tryconnect; Legacy/Run is run, _subscribe (`subscribe_all`), publish, wait and
--           _read_message (`read_message`). What the name service and the sockets answer are lists in
--           the state, from which each call takes one.
--   Watching  hpfeeds/broker/utils/inotify.py: Watching/Paths is _resolve_paths, Watching/Watches the
--           class Watcher and _watch_task.
--   Scripts  hpfeeds/scripts: Scripts/Options is opts of cli.py, Scripts/Cli its _main (`main`) over the
--           client of Legacy, Scripts/Launch is main of broker.py (`launch`), up to where the broker is
--           run. Broker/Supervisor is hpfeeds/broker/utils/supervisor.py.
--   EndToEnd  the parts together: EndToEnd/Handshake takes the bytes of connection_made to a session
--           of hpfeeds/blocking and its answer back to the broker, EndToEnd/Published what an asyncio
--           session publishes through the broker to the queue of a session of hpfeeds/blocking.
--   Python  what the language gives them: exceptions as values (Result), methods that change objects
--           and may raise (Exec, where the changes before an exception stay), struct, texts.
--   Prelude the helpers that all of them share.
--
-- How they interact: every client and the broker read through the parser of Wire. The reactor's
-- data_received is a parameter that the handlers of Blocking/Protocol fill; what the Twisted client
-- does is stated against the asyncio one. In the broker the event loop calls a method of one
-- connection; Broker/Steps is that, one step at a time, with any bytes and in any order, and
-- Broker/Steps/Invariant takes a property that every call keeps (the record Stable of Broker/Rules)
-- to all brokers that can be reached. Broker/Accepts and Broker/Forwards follow the bytes that a
-- connection receives through that loop, and Broker/Ends counts its rounds. Broker/Books, Broker/Cleanup, Broker/Delivery and
-- Broker/Permissions state what the calls do.
--
-- A loop over the parser takes fuel; running out of it is the error `out_of_fuel`, which no handler
-- catches. A buffer of n bytes needs n + 1 rounds, unless a message leaves the buffer as it is.
-- On the broker too: the loops that authenticate starts inside share the buffer. Steps take any fuel. Links are resolved with fuel for the depth of _resolve's calls, of which one
-- more than there are links is enough. Legacy's loops end with `out_of_fuel` also where no more answer
-- is given, which stands for a call that blocks.
--
-- Parameters, for code that is not part of the repository: UTF-8 and SHA-1 (Library), the
-- authenticator of a broker, the order in which Python iterates over a set (Env, Config, Base), what
-- os.readlink answers, and the base class of Watcher from aionotify (Base). The metrics of
-- hpfeeds/broker/prometheus.py are a list of what was recorded.
--
-- Not modelled: sockets and their options, TLS (SslClient too), the event loop itself, Twisted's
-- ClientService and DeferredQueue, the wrappers that meter a socket, logging, the creation of tables
-- in sqlite.py, the name of a connection's peer, what optparse and argparse do with a command line,
-- and what the scripts print.
pub mod Prelude
pub mod Python
pub mod Wire
pub mod Broker
pub mod Auth
pub mod Client
pub mod Blocking
pub mod Protocol
pub mod Legacy
pub mod Twisted
pub mod Watching
pub mod EndToEnd
pub mod Scripts
