-- ===== src/Broker/Tests.antt =====
-- hpfeeds/broker: the theorems on a broker with two connections.
use hpfeeds.Prelude.{
  ℕ, ◌≡◌, refl, [], ◌∷◌, ◌++◌, true, false, none, some, if◌then◌else◌, arith, contains, count,
  nat_eq, list_eq, text_eq,
}
use hpfeeds.Python.Result.{ok}
use hpfeeds.Python.Exec.{lift, modify, pure, ◌>>=◌}
use hpfeeds.Python.Struct.{Bytes, pack_byte, pack_header}
use hpfeeds.Python.Values.{Text, codes}
use hpfeeds.Wire.Opcode.{op_publish, op_auth}
use hpfeeds.Wire.Tests.{ascii}
use hpfeeds.Wire.Unpacker.Frames.{encode}
use hpfeeds.Wire.Message.{hashsecret, msgpublish, msginfo, msgerror, msghdr, strpack8, force_bytes}
use hpfeeds.Broker.State.{
  Broker, Conn, Env, Row, found, now, new_conn, on_conn, self, assign, server, write, close,
  record_metric,
}
use hpfeeds.Broker.Lifecycle.{made, lost, info, error}
use hpfeeds.Broker.Loop
use hpfeeds.Broker.Loop.{data_received, process_pending, pending_loop, guarded, round}
use hpfeeds.Broker.Publish.{event, publish}
use hpfeeds.Broker.Handlers.{message_received, on_publish, authenticate, refuse, on_subscribe}
use hpfeeds.Broker.Subscriptions.{subscribe, append_source}
use hpfeeds.Broker.Steps.{Fresh, connect, receive, disconnect, Reach, here, next, started}
use hpfeeds.Broker.Books.Tracked.{Tracked, Reach-Tracked}
use hpfeeds.Broker.Books.Counted.{Counted, Reach-Counted}
use hpfeeds.Broker.Metrics.{holder_eq}
use hpfeeds.Wire.Unpacker.{unpack, ready, check, pop, feed}
use hpfeeds.Wire.Unpacker.Bounds.{IsStuck, zero_frame}
use hpfeeds.Wire.Opcode.{sizes}
use hpfeeds.Python.Struct.{unpack_header}
use hpfeeds.Python.Exec.{gets, raise, try}
use hpfeeds.Broker.Ends.Run.{data_received-IsStuck}
use hpfeeds.Broker.Endpoints.{endpoint_of, assigned, written, endpoint_of-written}
use hpfeeds.Broker.Cleanup.{Gone, lost-Gone}
use hpfeeds.Broker.Delivery.{sending, publish-delivers}
use hpfeeds.Broker.Permissions.{
  Barred, Overruled, message_received-Barred, on_publish-Barred, authenticate-Barred,
  on_subscribe-Overruled,
}

-- An ident with the secret "s" that may publish and subscribe to the channel "B".
abbrev pub row : Row
row = record {
  secret = some (115 ∷ []);
  owner = some (111 ∷ []);
  pubchans = some ((66 ∷ []) ∷ []);
  subchans = some ((66 ∷ []) ∷ []);
}

abbrev pub env : Env
env = record {
  lib = ascii;
  get_authkey = λ ident. now (found (if text_eq ident (65 ∷ []) then some row else none));
  name = codes "hp";
  conn_order = λ cs. cs;
  chan_order = λ cs. cs;
  count-conn_order = λ c cs. refl;
  count-chan_order = λ t ts. refl;
}

abbrev Any : Text → Row → Type 0
Any ident r = Unit {0}

-- Connection 1 is made, authenticates and subscribes in one chunk, and is lost.
abbrev first_chunk : Bytes
first_chunk = encode (op_auth, 1 ∷ 65 ∷ 5 ∷ 115 ∷ []) ++ encode (4, 1 ∷ 65 ∷ 66 ∷ [])

abbrev one : Broker
one = (made env 1 (on_conn 1 (λ _. new_conn (5 ∷ [])) started)).1

abbrev subscribed : Broker
subscribed = (data_received env 9 1 first_chunk one).1

abbrev after_all : Broker
after_all = (lost env 1 subscribed).1

first-Fresh : Fresh 1 started
unfolding contains count
first-Fresh = record { unlisted = refl; unsubscribed = λ chan. refl }

Reach-after_all : Reach env Any started after_all
Reach-after_all =
    next (next (next here (connect 1 (5 ∷ []) first-Fresh)) (receive 9 1 first_chunk))
      (disconnect 1)

Reach-Tracked_example : Tracked after_all
Reach-Tracked_example = Reach-Tracked env Any (λ ident r e. tt) Reach-after_all

Reach-Counted_example : Counted after_all
Reach-Counted_example = Reach-Counted env Any (λ ident r e. tt) Reach-after_all

one-Counted : Counted one
one-Counted = Reach-Counted env Any (λ ident r e. tt) (next here (connect 1 (5 ∷ []) first-Fresh))

one-attached : (one.conns 1).attached ≡ true
unfolding made server self record_metric info lift write assign modify on_conn new_conn msginfo
    strpack8 force_bytes msghdr pack_byte pack_header ◌>>=◌
one-attached = refl

lost-Gone_example : ((lost env 1 one).0 ≡ ok tt) × Gone 1 one (lost env 1 one).1
lost-Gone_example = lost-Gone env 1 one one-Counted one-attached

-- Connections 1 and 2 have authenticated and subscribed to "B", 1 of them twice.
abbrev member : Conn
member = record (new_conn []) {
  ak = some (65 ∷ []);
  uid = some (111 ∷ []);
  pubchans = (66 ∷ []) ∷ [];
  subchans = (66 ∷ []) ∷ [];
  active = (66 ∷ []) ∷ [];
}

abbrev pub two : Broker
two = record {
  conns = λ c. if contains c (1 ∷ 2 ∷ []) then member else started.conns c;
  connections = 1 ∷ 2 ∷ [];
  subscriptions = λ chan. if text_eq chan (66 ∷ []) then 1 ∷ 2 ∷ 1 ∷ [] else [];
  tasks = [];
  metrics = [];
}

abbrev an_event : Bytes
an_event = encode (op_publish, 1 ∷ 65 ∷ 1 ∷ 66 ∷ 9 ∷ [])

publish-delivers_example :
    ((publish env 1 (66 ∷ []) (9 ∷ []) two).0 ≡ ok tt)
    × ((d : ℕ)
        → (publish env 1 (66 ∷ []) (9 ∷ []) two).1.conns d
          ≡ sending
              (if contains d (two.subscriptions (66 ∷ [])) then an_event ∷ [] else [])
              (two.conns d))
    × ((t : Text) → (publish env 1 (66 ∷ []) (9 ∷ []) two).1.subscriptions t ≡ two.subscriptions t)
    × ((publish env 1 (66 ∷ []) (9 ∷ []) two).1.connections ≡ two.connections)
unfolding event msgpublish strpack8 force_bytes msghdr pack_byte pack_header contains new_conn
    text_eq
publish-delivers_example =
    publish-delivers env 1 (66 ∷ []) (9 ∷ []) an_event two refl (λ d h. ground arith)

message_received-Barred_example :
    Barred 1 one (message_received env (process_pending env 5 1) 1 op_publish (1 ∷ 65 ∷ []) one)
unfolding made server self record_metric info lift write assign modify on_conn new_conn msginfo
    strpack8 force_bytes msghdr pack_byte pack_header ◌>>=◌
message_received-Barred_example =
    message_received-Barred env 1 one (process_pending env 5 1) op_publish (1 ∷ 65 ∷ []) refl
      (λ e. cc)

on_publish-Barred_example : Barred 1 two (on_publish env 1 (65 ∷ []) (67 ∷ []) (9 ∷ []) two)
unfolding contains text_eq
on_publish-Barred_example = on_publish-Barred env 1 two (65 ∷ []) (67 ∷ []) (9 ∷ []) refl

-- The hash of a wrong secret.
wrong_hash :
    (r : Row) (key : Text) (akhash : Bytes)
    → some row ≡ some r
    → r.secret ≡ some key
    → hashsecret ascii (one.conns 1).authrand key ≡ ok akhash
    → text_eq akhash (5 ∷ 116 ∷ []) ≡ false
unfolding made server self record_metric info lift write assign modify on_conn new_conn msginfo
    strpack8 force_bytes msghdr pack_byte pack_header hashsecret text_eq ◌>>=◌
wrong_hash r key akhash e k h = ground arith

authenticate-Barred_example :
    Barred 1 one
      (authenticate env (process_pending env 5 1) 1 (65 ∷ []) (5 ∷ 116 ∷ []) (some row) one)
authenticate-Barred_example =
    authenticate-Barred env 1 one (process_pending env 5 1) (65 ∷ []) (5 ∷ 116 ∷ []) (some row)
      wrong_hash

on_subscribe-Overruled_example :
    Overruled 1 (67 ∷ []) (on_subscribe env 1 (65 ∷ []) (67 ∷ []) two).1
unfolding contains new_conn text_eq on_subscribe self refuse error record_metric lift write assign
    modify on_conn close server subscribe append_source msgerror force_bytes msghdr pack_header pure
    ◌>>=◌
on_subscribe-Overruled_example = on_subscribe-Overruled env 1 (67 ∷ []) two refl (65 ∷ []) refl refl

endpoint_of-written_example :
    endpoint_of (written (codes "tcp") ((codes "port", codes "80") ∷ []))
    ≡ ok (assigned ((codes "port", codes "80") ∷ []) ((codes "class", codes "tcp") ∷ []))
unfolding contains
endpoint_of-written_example =
    endpoint_of-written (codes "tcp") ((codes "port", codes "80") ∷ []) (refl, refl)
      ((refl, refl), refl, tt)

-- A frame whose header says 0, from a peer that has not authenticated.
data_received-IsStuck_example :
    IsStuck ((data_received env 6 1 (zero_frame op_publish []) one).1.conns 1).unpacker
unfolding made server self record_metric info lift write assign modify on_conn new_conn msginfo
    strpack8 force_bytes msghdr pack_byte pack_header data_received process_pending guarded
    pending_loop Loop.next round unpack ready check pop unpack_header sizes feed message_received
    refuse error msgerror close gets raise try pure ◌>>=◌
data_received-IsStuck_example =
    data_received-IsStuck env 6 1 (zero_frame op_publish []) one (omega arith) refl
