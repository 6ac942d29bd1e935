-- ===== src/Broker/Delivery.antt =====
-- hpfeeds/broker/server.py: who receives what Server.publish sends.
use hpfeeds.Prelude.{
  ℕ, suc, zero, ◌≡◌, refl, List, [], ◌∷◌, ◌++◌, append_assoc, append-nil, true, false,
  if◌then◌else◌, arith, length, contains, count, to_set, nat_eq, count-to_set, contains-to_set,
  contains-count, count-contains, ◌∙◌, ap, sym,
}
use hpfeeds.Python.Result.{ok}
use hpfeeds.Python.Exec.{for_each, modify, try, ◌>>=◌}
use hpfeeds.Python.Struct.{Bytes}
use hpfeeds.Python.Values.{Text}
use hpfeeds.Broker.State.{
  Broker, Conn, Env, self, assign, on_conn, write, record_metric, update, client_send_buffer_fill,
  receive_publish_count, receive_publish_size,
}
use hpfeeds.Broker.Lifecycle.{is_closing}
use hpfeeds.Broker.Publish.{event, send_event, publish_to, publish}

-- What a connection has been sent.
abbrev pub sent : Broker → ℕ → List Bytes
sent b d = (b.conns d).transport.written

-- A connection after these bytes were written to it.
abbrev pub sending : List Bytes → Conn → Conn
sending ms x = record x { transport = record x.transport { written = x.transport.written ++ ms } }

-- The broker after one subscriber was served.
abbrev served : ℕ → ℕ → Bytes → Broker → Broker
served n dest m b = record b {
  conns = update b.conns dest (sending (m ∷ []));
  metrics = b.metrics ++ client_send_buffer_fill (b.conns dest).ak n ∷ [];
}

abbrev times : ℕ → Bytes → List Bytes
times zero m = []
times (suc n) m = m ∷ times n m

-- Each connection of the list is open.
abbrev pub Open : Broker → List ℕ → Type 0
Open b ds = (d : ℕ) → contains d ds ≡ true → (b.conns d).transport.closing ≡ false

-- `t` is `b` after `m` was sent to each connection as often as the list has it, and nothing else was
-- done to a connection.
pub record Delivered (m : Bytes) (ds : List ℕ) (b t : Broker) : Type 0 where
  pub each : (d : ℕ) → t.conns d ≡ sending (times (count d ds) m) (b.conns d)
  pub same_subscriptions : (chan : Text) → t.subscriptions chan ≡ b.subscriptions chan
  pub same_connections : t.connections ≡ b.connections

pub sending_nothing : (x : Conn) → sending [] x ≡ x
sending_nothing x =
    ap (λ w. record x { transport = record x.transport { written = w } })
      (append-nil x.transport.written)

pub sending_twice :
    (ms ns : List Bytes) (x : Conn) → sending ns (sending ms x) ≡ sending (ms ++ ns) x
sending_twice ms ns x =
    ap (λ w. record x { transport = record x.transport { written = w } })
      (append_assoc x.transport.written ms ns)

module _ (env : Env) (source : ℕ) (chan : Text) (payload m : Bytes) where
  publish_to_lem :
      (dest : ℕ) (b : Broker)
      → event env.lib (b.conns source).ak chan payload ≡ ok m
      → (b.conns dest).transport.closing ≡ false
      → publish_to env source chan payload dest b ≡ (ok tt, served (length payload) dest m b)
  unfolding publish_to send_event is_closing self record_metric write assign modify on_conn try
      ◌>>=◌
  publish_to_lem dest b e o = rw o (rw e)

  head-contains : (d : ℕ) (ds : List ℕ) → contains d (d ∷ ds) ≡ true
  unfolding contains
  head-contains d ds = ground arith

  ak-served :
      (d : ℕ) (b : Broker)
      → event env.lib ((served (length payload) d m b).conns source).ak chan payload
        ≡ event env.lib (b.conns source).ak chan payload
  ak-served d b = ground arith

  Open-served :
      (d : ℕ) (ds : List ℕ) (b : Broker) → Open b (d ∷ ds) → Open (served (length payload) d m b) ds
  unfolding contains
  Open-served d ds b o c h = ground (arith, o c, o d)

  serve_all :
      (ds : List ℕ) (b : Broker)
      → event env.lib (b.conns source).ak chan payload ≡ ok m
      → Open b ds
      → ((for_each ds (publish_to env source chan payload) b).0 ≡ ok tt)
        × Delivered m ds b (for_each ds (publish_to env source chan payload) b).1
  unfolding for_each count contains
  serve_all [] b e o = (
    refl,
    record {
      each = λ d. sym (sending_nothing (b.conns d));
      same_subscriptions = λ c. refl;
      same_connections = refl;
    },
  )
  serve_all (d ∷ ds) b e o =
      let b' = served (length payload) d m b in
      let (fine, rest) = serve_all ds b' (ak-served d b ∙ e) (Open-served d ds b o) in
      rw (publish_to_lem d b e (o d (head-contains d ds))) (
        fine,
        record {
          each = λ c.
              rest.each c
              ∙ ground (arith, sending_twice (m ∷ []) (times (count c ds) m) (b.conns c));
          same_subscriptions = rest.same_subscriptions;
          same_connections = rest.same_connections;
        },
      )

once :
    (order : List ℕ → List ℕ)
    → ((c : ℕ) (cs : List ℕ) → count c (order cs) ≡ count c cs)
    → (d : ℕ) (ds : List ℕ) → count d (order (to_set ds)) ≡ (if contains d ds then 1 else 0)
once order same d ds = ground (
  arith,
  same d (to_set ds),
  count-to_set d ds,
  contains-to_set d ds,
  count-contains d (to_set ds),
  contains-count d (to_set ds),
)

module _ (env : Env) (source : ℕ) (chan : Text) (payload m : Bytes) (b : Broker)
    (built : event env.lib (b.conns source).ak chan payload ≡ ok m)
    (open' : Open b (b.subscriptions chan)) where
  order : List ℕ
  order = env.conn_order (to_set (b.subscriptions chan))

  order-Open : (c : Broker) → ((d : ℕ) → c.conns d ≡ b.conns d) → Open c order
  unfolding order
  order-Open c same d h = ground (
    arith,
    same d,
    open' d,
    once env.conn_order env.count-conn_order d (b.subscriptions chan),
    count-contains d (env.conn_order (to_set (b.subscriptions chan))),
    contains-count d (env.conn_order (to_set (b.subscriptions chan))),
  )

  counted : Broker
  counted = record b {
    metrics =
        (b.metrics ++ receive_publish_count (b.conns source).ak chan ∷ [])
        ++ receive_publish_size (b.conns source).ak chan (length payload) ∷ [];
  }

  publish_lem :
      publish env source chan payload b
      ≡ for_each order (publish_to env source chan payload) counted
  unfolding publish order counted self record_metric modify ◌>>=◌
  publish_lem = refl

  shown :
      (d : ℕ)
      → sending (times (count d order) m) (b.conns d)
        ≡ sending (if contains d (b.subscriptions chan) then m ∷ [] else []) (b.conns d)
  unfolding order
  shown d = ground (arith, once env.conn_order env.count-conn_order d (b.subscriptions chan))

  -- Where the message can be built and no subscriber is closing, publishing raises nothing and
  -- sends it exactly once to each connection that is subscribed to the channel, however often it
  -- subscribed, and nothing to any other; nothing else changes in a connection, and subscriptions
  -- and the set of connections stay.
  pub publish-delivers :
      ((publish env source chan payload b).0 ≡ ok tt)
      × ((d : ℕ)
          → (publish env source chan payload b).1.conns d
            ≡ sending (if contains d (b.subscriptions chan) then m ∷ [] else []) (b.conns d))
      × ((t : Text) → (publish env source chan payload b).1.subscriptions t ≡ b.subscriptions t)
      × ((publish env source chan payload b).1.connections ≡ b.connections)
  unfolding counted
  publish-delivers =
      let (fine, rest) =
        serve_all env source chan payload m order counted built (order-Open counted (λ d. refl)) in
      rw publish_lem
        (fine, (λ d. rest.each d ∙ shown d), rest.same_subscriptions, rest.same_connections)
