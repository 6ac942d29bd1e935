-- ===== src/Scripts/Tests.antt =====
-- hpfeeds/scripts: the theorems on concrete command lines.
use hpfeeds.Prelude.{
  ℕ, ◌<◌, ◌≡◌, refl, List, [], ◌∷◌, Bool, true, false, none, some, contains, add, list_eq, length,
  text_eq, arith,
}
use hpfeeds.Python.Result.{Result, Error, ok, err, os_error, is_own}
use hpfeeds.Python.Exec.{for_each, pure, raise, lift, gets, modify, try, ◌>>=◌}
use hpfeeds.Python.Struct.{Bytes, pack_byte, pack_header, unpack_header}
use hpfeeds.Python.Values.{Text, codes}
use hpfeeds.Wire.Opcode.{op_error, sizes}
use hpfeeds.Wire.Message.{
  msgauth, msgsubscribe, hashsecret, strpack8, strunpack8, force_bytes, force_str, msghdr, readinfo,
  readerror,
}
use hpfeeds.Wire.Unpacker.{empty, feed, check, ready, pop, unpack}
use hpfeeds.Wire.Unpacker.Frames.{encode}
use hpfeeds.Wire.Tests.{ascii}
use hpfeeds.Client.Tests.{challenge}
use hpfeeds.Broker.Endpoints.{endpoint_of, tokenize, set_params, set_param, key_value}
use hpfeeds.Legacy.Connection.{
  Client, chunk_of, send_done, recv, received, take_recv, take_send, take_lookup, sent_by, send,
  next, next_message, feed_unpacker, close_old, try_addresses, looked_up, greet, on_first,
  on_greeting, do_auth, connect, connect_loop, tryconnect,
}
use hpfeeds.Legacy.Run.{
  subscribe, loses, send_subscribe, subscribe_each, subscribe_all, receive_loop, receive_once,
  message_loop, each_message, on_message, run_round, run, stop, close,
}
use hpfeeds.Legacy.Raises.{Foreign}
use hpfeeds.Scripts.Options.{Options, to_subscribe, to_sendfile}
use hpfeeds.Scripts.Cli.{on_error, complains, act, main}
use hpfeeds.Scripts.Cli.Exits.{Ended, main-Ended, main-Foreign}
use hpfeeds.Scripts.Launch.{
  Backend, sqlite, json, Args, made, Endpoint, launch, runs, starts_with, ends_with,
  get_authenticator, add_all, add_endpoints, add_legacy, open_endpoints,
}
use hpfeeds.Scripts.Launch.Runs.{Authenticates, Opened, launch-runs}

abbrev line : Options
line = record {
  host = some (codes "localhost");
  port = some 10000;
  ident = some (65 ∷ []);
  secret = some (115 ∷ []);
  channels = some ((66 ∷ []) ∷ []);
  certfile = none;
  tls = false;
}

abbrev exists : Text → Bool
exists path = false

-- The broker takes the connection, and then complains.
abbrev awaiting : Client
awaiting = record {
  connected = false;
  stopped = false;
  subscriptions = [];
  brokername = [];
  unpacker = empty;
  sock_open = false;
  sent = [];
  lookups = some (true ∷ []) ∷ [];
  recvs = chunk_of challenge ∷ chunk_of (encode (op_error, 110 ∷ 111 ∷ [])) ∷ [];
  sends = send_done ∷ send_done ∷ [];
}

abbrev no_files : Text → Result Bytes
no_files path = err os_error

abbrev through : Client
through = (main ascii (λ ts. ts) no_files line 6 to_subscribe [] awaiting).1

through-ok : main ascii (λ ts. ts) no_files line 6 to_subscribe [] awaiting ≡ (ok 0, through)
unfolding main act complains on_error subscribe contains add run run_round receive_loop receive_once
    message_loop each_message on_message stop close recv received tryconnect connect_loop connect
    do_auth on_greeting on_first greet looked_up try_addresses close_old feed_unpacker next_message
    next send sent_by take_lookup take_recv take_send feed unpack ready check pop unpack_header
    sizes msgauth hashsecret strpack8 strunpack8 force_bytes force_str msghdr readinfo readerror
    pack_byte pack_header lift raise try gets modify pure ◌>>=◌ for_each subscribe_all
    subscribe_each loses send_subscribe msgsubscribe
through-ok = refl

main-Ended_example : (◌≡◌ {A = ℕ} 0 0) × (through.sock_open ≡ false) × Ended to_subscribe through
main-Ended_example =
    main-Ended ascii (λ ts. ts) no_files line 6 0 to_subscribe [] awaiting through through-ok

no_files-foreign : (path : Text) (e : Error) → no_files path ≡ err e → is_own e ≡ false
no_files-foreign path e h = ground (arith, h)

main-Foreign_example : Foreign (main ascii (λ ts. ts) no_files line 6 to_sendfile (codes "x"))
main-Foreign_example =
    main-Foreign ascii (λ ts. ts) no_files line 6 to_sendfile (codes "x") no_files-foreign

abbrev args : Args
args = record {
  bind = none;
  auth = some (codes "a.json" ∷ codes "x" ∷ []);
  tlscert = none;
  tlskey = none;
  endpoint = some (codes "tcp:port=80" ∷ []);
}

abbrev stack : List Backend
stack = json (codes "a.json") ∷ sqlite (codes "sqlite.db") ∷ []

abbrev endpoints : List Endpoint
endpoints = ((codes "class", some (codes "tcp")) ∷ (codes "port", some (codes "80")) ∷ []) ∷ []

args-run : launch (λ b. made) args ≡ runs stack endpoints
unfolding launch add_all open_endpoints add_legacy add_endpoints endpoint_of tokenize set_params
    set_param key_value get_authenticator starts_with ends_with text_eq
args-run = refl

launch-runs_example :
    Authenticates args.auth stack × (false ≡ false) × Opened args endpoints × (0 < length endpoints)
launch-runs_example = launch-runs (λ b. made) args stack endpoints args-run
