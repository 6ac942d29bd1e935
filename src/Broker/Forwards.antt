-- ===== src/Broker/Forwards.antt =====
-- hpfeeds/broker: one event after another that a permitted connection publishes, and what each
-- writes to every connection.
pub mod Chunks
use hpfeeds.Prelude.{
  ℕ, zero, suc, ◌==◌, ◌<◌, ◌≡◌, refl, sym, List, [], ◌∷◌, ◌++◌, ap, ◌∙◌, Bool, true, false, none,
  some, if◌then◌else◌, arith, length, contains, inl, inr, flatten, text_eq_refl, Bool-cases,
  append_assoc, nat_eq, list_eq,
}
use hpfeeds.Python.Result.{ok, err, stop_iteration, Result-cases}
use hpfeeds.Python.Exec.{Exec, pure, lift, modify, gets, try, ◌>>=◌, ◌>>◌}
use hpfeeds.Python.Exec.Bind.{bind_of_ok}
use hpfeeds.Python.Struct.{Bytes}
use hpfeeds.Python.Values.{Text, text, bytes}
use hpfeeds.Wire.Opcode.{op_publish}
use hpfeeds.Wire.Message.{msgpublish}
use hpfeeds.Wire.Message.Packets.{Packet, messages, frames, Carries, AllCarry}
use hpfeeds.Wire.Unpacker.{Unpacker, Message, unpack, feed}
use hpfeeds.Wire.Unpacker.Frames.{encode}
use hpfeeds.Wire.Unpacker.Stream.{Drained, drain}
use hpfeeds.Broker.State.{Broker, Conn, Env, M, self, assign, on_conn, server, update}
use hpfeeds.Broker.Publish.{event, publish}
use hpfeeds.Broker.Handlers.{is_ak, is_none, on_publish, dispatch, message_received}
use hpfeeds.Broker.Loop.{next, round, guarded, pending_loop, process_pending, data_received}
use hpfeeds.Broker.Delivery.{Open, sending, sending_nothing, sending_twice, publish-delivers}

-- The packets on the channels to which `d` is subscribed.
abbrev pub routed : (Text → List ℕ) → ℕ → List Packet → List Packet
routed table d [] = []
routed table d ((e, f) ∷ ps) =
    let rest = routed table d ps in if contains d (table e.1) then (e, f) ∷ rest else rest

-- The connection may publish the event, and no subscriber of its channel is closing.
pub record Allowed (c : ℕ) (b : Broker) (p : Packet) : Type 0 where
  pub there : (b.conns c).attached ≡ true
  pub own : (b.conns c).ak ≡ some p.0.0
  pub may : contains p.0.1 (b.conns c).pubchans ≡ true
  pub open' : Open b (b.subscriptions p.0.1)

abbrev pub AllAllowed : ℕ → Broker → List Packet → Type 0
AllAllowed c b [] = Unit {0}
AllAllowed c b (p ∷ ps) = Allowed c b p × AllAllowed c b ps

-- The parser of one connection is set.
abbrev pub parsing : Bool → Unpacker → Conn → Conn
parsing here u x = if here then record x { unpacker = u } else x

-- `t` is `b` after each packet was sent once to each connection that is subscribed to its channel,
-- in order, and the parser of `c` is `u`.
pub record Forwarded (c : ℕ) (u : Unpacker) (ps : List Packet) (b t : Broker) : Type 0 where
  pub each :
      (d : ℕ)
      → t.conns d ≡ parsing (c == d) u (sending (frames (routed b.subscriptions d ps)) (b.conns d))
  pub same_subscriptions : (chan : Text) → t.subscriptions chan ≡ b.subscriptions chan
  pub same_connections : t.connections ≡ b.connections

sending-parsing :
    (here : Bool) (u v : Unpacker) (ms ns : List Bytes) (x : Conn)
    → parsing here v (sending ns (parsing here u (sending ms x)))
      ≡ parsing here v (sending (ms ++ ns) x)
sending-parsing true u v ms ns x =
    ap {A = Conn} (λ y. record y { unpacker = v }) (sending_twice ms ns x)
sending-parsing false u v ms ns x = sending_twice ms ns x

routed-append :
    (table : Text → List ℕ) (d : ℕ) (ps qs : List Packet)
    → frames (routed table d (ps ++ qs)) ≡ frames (routed table d ps) ++ frames (routed table d qs)
routed-append table d [] qs = refl
routed-append table d ((e, f) ∷ ps) qs = ground (arith, routed-append table d ps qs)

routed-same :
    (s t : Text → List ℕ) (d : ℕ) (ps : List Packet)
    → ((chan : Text) → s chan ≡ t chan)
    → routed s d ps ≡ routed t d ps
routed-same s t d [] h = refl
routed-same s t d ((e, f) ∷ ps) h = rw (h e.1, routed-same s t d ps h)

module _ (c : ℕ) where
  -- The connection's parser is moved on.
  abbrev pub moved : Unpacker → Broker → Broker
  moved u b = on_conn c (λ x. record x { unpacker = u }) b

  pub Forwarded-unpacker :
      (u : Unpacker) (ps : List Packet) (b t : Broker)
      → Forwarded c u ps b t
      → (t.conns c).unpacker ≡ u
  Forwarded-unpacker u ps b t f = ground (arith, f.each c)

  pub loop-guarded :
      (loop : M (Unit {0})) (b t : Broker) → loop b ≡ (ok tt, t) → guarded c loop b ≡ (ok tt, t)
  unfolding guarded try
  loop-guarded loop b t e = rw e refl

  -- What is allowed stays so when other packets have been forwarded.
  pub Allowed-Forwarded :
      (u : Unpacker) (qs : List Packet) (b t : Broker) (p : Packet)
      → Forwarded c u qs b t
      → Allowed c b p
      → Allowed c t p
  Allowed-Forwarded u qs b t p f a = record {
    there = ground (arith, f.each c, a.there);
    own = ground (arith, f.each c, a.own);
    may = ground (arith, f.each c, a.may);
    open' = λ d h. ground (arith, f.each d, a.open' d, f.same_subscriptions p.0.1, h);
  }

  pub AllAllowed-Forwarded :
      (u : Unpacker) (qs : List Packet) (b t : Broker) (ps : List Packet)
      → Forwarded c u qs b t
      → AllAllowed c b ps
      → AllAllowed c t ps
  AllAllowed-Forwarded u qs b t [] f a = tt
  AllAllowed-Forwarded u qs b t (p ∷ ps) f a =
      (Allowed-Forwarded u qs b t p f a.0, AllAllowed-Forwarded u qs b t ps f a.1)

  pub moved-Forwarded : (u : Unpacker) (b : Broker) → Forwarded c u [] b (moved u b)
  unfolding on_conn
  moved-Forwarded u b = record {
    each = λ d. ground (arith, sending_nothing (b.conns d));
    same_subscriptions = λ chan. refl;
    same_connections = refl;
  }

  -- One part of the packets after another.
  pub Forwarded-append :
      (u v : Unpacker) (ps qs : List Packet) (a b t : Broker)
      → Forwarded c u ps a b
      → Forwarded c v qs b t
      → Forwarded c v (ps ++ qs) a t
  Forwarded-append u v ps qs a b t f g = record {
    each = λ d.
        g.each d
        ∙ ap (λ x. parsing (c == d) v (sending (frames (routed b.subscriptions d qs)) x)) (f.each d)
        ∙ sending-parsing (c == d) u v _ _ (a.conns d)
        ∙ ap (λ ms. parsing (c == d) v (sending ms (a.conns d)))
            (ap (λ rs. frames (routed a.subscriptions d ps) ++ frames rs)
                (routed-same b.subscriptions a.subscriptions d qs f.same_subscriptions)
              ∙ sym (routed-append a.subscriptions d ps qs));
    same_subscriptions = λ chan. g.same_subscriptions chan ∙ f.same_subscriptions chan;
    same_connections = g.same_connections ∙ f.same_connections;
  }

module _ (env : Env) (c : ℕ) where
  module _ (p : Packet) (b : Broker) (carries : Carries env.lib p) (allowed : Allowed c b p) where
    pub sends :
        ((publish env c p.0.1 p.0.2 b).0 ≡ ok tt)
        × Forwarded c (b.conns c).unpacker (p ∷ []) b (publish env c p.0.1 p.0.2 b).1
    unfolding event
    sends =
        let (fine, each, same, same') =
          publish-delivers env c p.0.1 p.0.2 (encode p.1) b (rw allowed.own carries.1)
            allowed.open' in
        (
          fine,
          record {
            each = λ d. ground (arith, each d);
            same_subscriptions = same;
            same_connections = same';
          },
        )

    on_publish_lem : on_publish env c p.0.0 p.0.1 p.0.2 b ≡ (ok tt, (publish env c p.0.1 p.0.2 b).1)
    unfolding on_publish self server pure ◌>>=◌
    on_publish_lem =
        rw (allowed.own, allowed.may, text_eq_refl p.0.0)
          (rw allowed.there (ap (λ r. (r, (publish env c p.0.1 p.0.2 b).1)) sends.0))

    message_received_lem :
        (pending : M (Unit {0}))
        → message_received env pending c p.1.0 p.1.1 b ≡ (ok false, (publish env c p.0.1 p.0.2 b).1)
    unfolding message_received self dispatch lift pure ◌>>=◌
    message_received_lem pending =
        rw (allowed.own, carries.2.0, carries.2.1)
          (bind_of_ok (on_publish env c p.0.0 p.0.1 p.0.2) (λ _. pure false) b _ tt on_publish_lem)

  -- One round of the loop, on a message that is handled.
  pub loop-handles :
      (fuel : ℕ) (m : Message) (u : Unpacker) (b t : Broker)
      → unpack (b.conns c).unpacker ≡ ok (m, u)
      → message_received env (guarded c (pending_loop env fuel c)) c m.0 m.1 (moved c u b)
        ≡ (ok false, t)
      → pending_loop env (suc fuel) c b ≡ pending_loop env fuel c t
  unfolding pending_loop next round self assign modify pure ◌>>=◌
  loop-handles fuel m u b t e h = rw e (
      bind_of_ok (message_received env (guarded c (pending_loop env fuel c)) c m.0 m.1) _ _ _ false
        h)

  pub loop-sends :
      (fuel : ℕ) (p : Packet) (u : Unpacker) (b : Broker)
      → unpack (b.conns c).unpacker ≡ ok (p.1, u)
      → Carries env.lib p
      → Allowed c (moved c u b) p
      → pending_loop env (suc fuel) c b
        ≡ pending_loop env fuel c (publish env c p.0.1 p.0.2 (moved c u b)).1
  loop-sends fuel p u b e carries allowed =
      loop-handles fuel p.1 u b _ e (message_received_lem p (moved c u b) carries allowed _)
