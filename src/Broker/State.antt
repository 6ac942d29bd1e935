-- ===== src/Broker/State.antt =====
-- The objects of the broker and the calls that it makes on them: connections by number, their
-- transports, the server's tables, and the metrics in the order in which they are recorded.
use hpfeeds.Prelude.{
  ℕ, ◌==◌, Bool, true, false, Option, none, some, List, [], ◌∷◌, ◌++◌, if◌then◌else◌, ◌≡◌, count,
  text_eq, nat_eq, list_eq,
}
use hpfeeds.Python.Result.{attribute_error}
use hpfeeds.Python.Exec.{Exec, pure, raise, gets, modify, ◌>>=◌}
use hpfeeds.Python.Struct.{Bytes}
use hpfeeds.Python.Values.{Text, Library}
use hpfeeds.Wire.Unpacker.{Unpacker, empty}

-- A row of the authentication database: a mapping with some key, of which these may be missing.
pub record Row : Type 0 where
  pub secret : Option Text
  pub owner : Option Text
  pub pubchans : Option (List Text)
  pub subchans : Option (List Text)

-- A row or None, which stands for an empty mapping too, or that the authenticator raised.
pub data Answer : Type 0 where
  found : Option Row → Answer
  failed : Answer

-- What `get_authkey` gives: an answer at once, or an awaitable.
pub data Lookup : Type 0 where
  now : Answer → Lookup
  awaitable : Lookup

-- What the broker runs on: Python's library, the authenticator, its name, and the order in which
-- `set` is iterated, some permutation.
pub record Env : Type 0 where
  pub lib : Library
  pub get_authkey : Text → Lookup
  pub name : Text
  pub conn_order : List ℕ → List ℕ
  pub chan_order : List Text → List Text
  pub count-conn_order : (c : ℕ) (cs : List ℕ) → count c (conn_order cs) ≡ count c cs
  pub count-chan_order : (t : Text) (ts : List Text) → count t (chan_order ts) ≡ count t ts

pub data Category : Type 0 where
  deadline_timer_expired invalid_first_message error_checking_ident : Category
  invalid_ident invalid_secret : Category
  ident_mismatch_pub no_pub_permission no_sub_permission : Category

-- hpfeeds/broker/prometheus.py: the metrics, with their labels and amounts.
pub data Metric : Type 0 where
  client_connections_inc client_connections_dec connection_made : Metric
  connection_ready : Text → Metric
  connection_error : Option Text → Category → Metric
  connection_lost : Option Text → Metric
  client_receive_buffer_fill : Text → ℕ → Metric
  client_send_buffer_fill : Option Text → ℕ → Metric
  client_send_buffer_deadline_start client_send_buffer_deadline_recover : Option Text → Metric
  subscriptions_inc subscriptions_dec : Option Text → Text → Metric
  receive_publish_count : Option Text → Text → Metric
  receive_publish_size : Option Text → Text → ℕ → Metric

-- A transport: what was written to it, oldest first, whether it is closing, whether reading is
-- paused, and the high-water mark that was set.
pub record Transport : Type 0 where
  pub written : List Bytes
  pub closing : Bool
  pub paused : Bool
  pub high : Option ℕ

pub record Conn : Type 0 where
  -- `self.server is not None`
  pub attached : Bool
  pub ak : Option Text
  pub uid : Option Text
  pub pubchans : List Text
  pub subchans : List Text
  pub active : List Text
  pub authrand : Bytes
  -- `self._deadline_timer is not None`
  pub timer : Bool
  pub unpacker : Unpacker
  pub transport : Transport

pub record Broker : Type 0 where
  pub conns : ℕ → Conn
  pub connections : List ℕ
  pub subscriptions : Text → List ℕ
  -- the authentication tasks that have not ended
  pub tasks : List (ℕ × Text × Bytes)
  pub metrics : List Metric

abbrev pub M : Type 0 → Type 0
M A = Exec Broker A

-- __init__: a connection with 4 random bytes for its challenge, over a transport.
unfoldable pub new_conn : Bytes → Conn
new_conn rand = record {
  attached = true;
  ak = none;
  uid = none;
  pubchans = [];
  subchans = [];
  active = [];
  authrand = rand;
  timer = false;
  unpacker = empty;
  transport = record { written = []; closing = false; paused = false; high = none };
}

abbrev pub update : (ℕ → Conn) → ℕ → (Conn → Conn) → ℕ → Conn
update conns c f d = if c == d then f (conns c) else conns d

abbrev pub set_list : (Text → List ℕ) → Text → List ℕ → Text → List ℕ
set_list table k v j = if text_eq k j then v else table j

unfoldable pub on_conn : ℕ → (Conn → Conn) → Broker → Broker
on_conn c f b = record b { conns = update b.conns c f }

-- self.x of the connection c
unfoldable pub self : {A : Type 0} → ℕ → (Conn → A) → M A
self c f = gets (λ b. f (b.conns c))

unfoldable pub assign : ℕ → (Conn → Conn) → M (Unit {0})
assign c f = modify (on_conn c f)

unfoldable pub record_metric : Metric → M (Unit {0})
record_metric m = modify (λ b. record b { metrics = b.metrics ++ m ∷ [] })

-- A use of `self.server`.
unfoldable pub server : ℕ → M (Unit {0})
server c = do there ← self c (λ x. x.attached); if there then pure tt else raise attribute_error

-- self.transport.write, .close, .pause_reading, .resume_reading, .set_write_buffer_limits
unfoldable pub write : ℕ → Bytes → M (Unit {0})
write c m =
    assign c
      λ x. record x { transport = record x.transport { written = x.transport.written ++ m ∷ [] } }

unfoldable pub close : ℕ → M (Unit {0})
close c = assign c λ x. record x { transport = record x.transport { closing = true } }

unfoldable pub pause_reading : ℕ → M (Unit {0})
pause_reading c = assign c λ x. record x { transport = record x.transport { paused = true } }

unfoldable pub resume_reading : ℕ → M (Unit {0})
resume_reading c = assign c λ x. record x { transport = record x.transport { paused = false } }

unfoldable pub set_write_buffer_limits : ℕ → ℕ → M (Unit {0})
set_write_buffer_limits c high =
    assign c λ x. record x { transport = record x.transport { high = some high } }
