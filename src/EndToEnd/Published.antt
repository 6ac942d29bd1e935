-- ===== src/EndToEnd/Published.antt =====
-- An event from one client to another: hpfeeds/asyncio/client.py publishes it, hpfeeds/broker sends
-- it on, and a session of hpfeeds/blocking keeps it in its queue.
use hpfeeds.Prelude.{
  ℕ, suc, ◌<◌, ◌≤◌, ◌≡◌, refl, sym, List, [], ◌∷◌, ◌++◌, ap, ◌∙◌, some, true, if◌then◌else◌, arith,
  length, contains, flatten, nat_eq, list_eq, append_cancel, inl, inr, Bool-cases,
}
use mathlib.Core.Path.{subst}
use hpfeeds.Python.Result.{ok}
use hpfeeds.Python.Struct.{Bytes}
use hpfeeds.Python.Values.{Text, Library}
use hpfeeds.Wire.Opcode.{op_publish, sizes}
use hpfeeds.Wire.Message.Published.{Event}
use hpfeeds.Wire.Message.Packets.{
  Packet, events, messages, frames, AllCarry, msgpublish-Carries, Written-frames,
}
use hpfeeds.Wire.Unpacker.{Unpacker, empty}
use hpfeeds.Wire.Unpacker.Frames.{encode}
use hpfeeds.Wire.Unpacker.Stream.{encode_all, empty-waits}
use hpfeeds.Client.Session.{Config, packet, publishes}
use hpfeeds.Broker.State.{Broker, Env}
use hpfeeds.Broker.Delivery.{Open, sent}
use hpfeeds.Broker.Forwards.{AllAllowed, Forwarded, routed}
use hpfeeds.Broker.Forwards.Chunks.{receive-Forwarded}
use hpfeeds.Broker.Forwards.Chunks
use hpfeeds.Protocol.Stream
use hpfeeds.Blocking.Reactor.{Reactor}
use hpfeeds.Blocking.Protocol.{handlers}
use hpfeeds.Blocking.Protocol.Delivery.{keep_all, client_received-publishes}

-- The events on the channels to which `d` is subscribed.
abbrev pub subscribed_events : (Text → List ℕ) → ℕ → List Event → List Event
subscribed_events table d [] = []
subscribed_events table d (e ∷ es) =
    let rest = subscribed_events table d es in if contains d (table e.1) then e ∷ rest else rest

module _ (cfg : Config) where
  -- The events that the session publishes with these arguments.
  abbrev pub own_events : List (Text × Bytes) → List Event
  own_events [] = []
  own_events ((chan, payload) ∷ es) = (cfg.ident, chan, payload) ∷ own_events es

  -- The bytes of what the session writes when it publishes these, each within the limit.
  abbrev pub OnWire : List (Text × Bytes) → Bytes → Type 0
  OnWire [] b = b ≡ []
  OnWire ((chan, payload) ∷ es) b =
      (m : Bytes) × (rest : Bytes) × (packet cfg (publishes chan payload) ≡ ok m)
      × (length m ≤ sizes op_publish)
      × (b ≡ m ++ rest)
      × OnWire es rest

  OnWire-packets :
      (es : List (Text × Bytes)) (b : Bytes)
      → OnWire es b
      → (ps : List Packet) × AllCarry cfg.lib ps
        × (events ps ≡ own_events es)
        × (length (messages ps) ≡ length es)
        × (b ≡ encode_all (messages ps))
  unfolding packet
  OnWire-packets [] b w = ([], tt, refl, refl, w)
  OnWire-packets ((chan, payload) ∷ es) b (m, rest, h, l, e, w) =
      let (f, c, q) = msgpublish-Carries cfg.lib cfg.ident chan payload m h l in
      let (ps, cs, r, n, qs) = OnWire-packets es rest w in
      (
        ((cfg.ident, chan, payload), f) ∷ ps,
        (c, cs),
        ap (λ x. (cfg.ident, chan, payload) ∷ x) r,
        ap suc n,
        e ∙ ap (λ x. x ++ rest) q ∙ ap (λ x. encode f ++ x) qs,
      )

length-own_events :
    (cfg : Config) (es : List (Text × Bytes)) → length (own_events cfg es) ≡ length es
length-own_events cfg [] = refl
length-own_events cfg (e ∷ es) = ap suc (length-own_events cfg es)

module _ (table : Text → List ℕ) (d : ℕ) where
  routed-events :
      (ps : List Packet) → events (routed table d ps) ≡ subscribed_events table d (events ps)
  routed-events [] = refl
  routed-events ((e, f) ∷ ps) = ground (arith, routed-events ps)

  length-subscribed_events : (es : List Event) → length (subscribed_events table d es) ≤ length es
  length-subscribed_events [] = omega arith
  length-subscribed_events (e ∷ es) = ground (arith, length-subscribed_events es)

  AllCarry-routed :
      (lib : Library) (ps : List Packet) → AllCarry lib ps → AllCarry lib (routed table d ps)
  AllCarry-routed lib [] a = tt
  AllCarry-routed lib ((e, f) ∷ ps) (c, a) = elim (Bool-cases (contains d (table e.1))) [
    | inl h ↦ rw h (c, AllCarry-routed lib ps a)
    | inr h ↦ rw h (AllCarry-routed lib ps a)
  ]

-- The connection may publish on the channel of each of these, and no subscriber is closing.
abbrev pub MayPublish : ℕ → Broker → List (Text × Bytes) → Type 0
MayPublish c b [] = Unit {0}
MayPublish c b ((chan, payload) ∷ es) =
    (contains chan (b.conns c).pubchans ≡ true) × Open b (b.subscriptions chan) × MayPublish c b es

AllAllowed-events :
    (cfg : Config) (c : ℕ) (b : Broker) (ps : List Packet) (es : List (Text × Bytes))
    → (b.conns c).attached ≡ true
    → (b.conns c).ak ≡ some cfg.ident
    → events ps ≡ own_events cfg es
    → MayPublish c b es
    → AllAllowed c b ps
AllAllowed-events cfg c b [] es there own e may = tt
AllAllowed-events cfg c b (p ∷ ps) [] there own e may = cc
AllAllowed-events cfg c b (((i, chan, payload), f) ∷ ps) ((chan', payload') ∷ es) there own e may =
    let same : chan' ≡ chan = cc in
    (
      record {
        there = there;
        own = cc;
        may = ap (λ t. contains t (b.conns c).pubchans) (sym same) ∙ may.0;
        open' = subst (λ t. Open b (b.subscriptions t)) same may.1;
      },
      AllAllowed-events cfg c b ps es there own (cc) may.2,
    )

sent-Forwarded :
    (c : ℕ) (u : Unpacker) (ps : List Packet) (b t : Broker) (d : ℕ)
    → Forwarded c u ps b t
    → sent t d ≡ sent b d ++ frames (routed b.subscriptions d ps)
sent-Forwarded c u ps b t d f = ground (arith, f.each d)

module _ (env : Env) (c : ℕ) (cfg : Config) (ident secret : Text) where
  -- Events that a session publishes, within the limit of the opcode, on channels on which its
  -- connection with the broker may publish and that have no closing subscriber: the broker raises
  -- nothing, and a session of the reactor that waits for a header and that receives what the
  -- broker wrote meanwhile to its connection `d` puts into its queue those on the channels to which
  -- `d` is subscribed, under the ident of the first session, each of them once, in order and
  -- unchanged, and nothing else, however the bytes are cut into chunks on either way.
  pub receive-packet :
      (n m : ℕ) (es : List (Text × Bytes)) (cs ds ms : List Bytes) (b : Broker) (d : ℕ)
      (s : Reactor)
      → cfg.lib ≡ env.lib
      → OnWire cfg es (flatten cs)
      → length es < n
      → length es < m
      → (b.conns c).attached ≡ true
      → (b.conns c).ak ≡ some cfg.ident
      → (b.conns c).unpacker ≡ empty
      → MayPublish c b es
      → sent (Chunks.receive env c n cs b).1 d ≡ sent b d ++ ms
      → flatten ds ≡ flatten ms
      → s.unpacker ≡ empty
      → ((Chunks.receive env c n cs b).0 ≡ ok tt)
        × (Stream.receive env.lib (handlers env.lib ident secret) m ds s ≡ (
          ok tt,
          record (keep_all env.lib ident secret
              (subscribed_events b.subscriptions d (own_events cfg es))
              s) { unpacker = empty },
        ))
  receive-packet n m es cs ds ms b d s same w ln lm there own eb may kept wire es' =
      let (ps, carry, q, l, e) = OnWire-packets cfg es (flatten cs) w in
      let carry' : AllCarry env.lib ps = subst (λ lib. AllCarry lib ps) same carry in
      let (fine, f) =
        receive-Forwarded env c n ps cs b (omega (arith, l)) (rw eb empty-waits)
          (ap (λ u. u.buf ++ flatten cs) eb ∙ e) carry'
          (AllAllowed-events cfg c b ps es there own q may) in
      let rs = routed b.subscriptions d ps in
      let out : ms ≡ frames rs =
        append_cancel (sent b d) (sym kept ∙ sent-Forwarded c empty ps b _ d f) in
      let reads : events rs ≡ subscribed_events b.subscriptions d (own_events cfg es) =
        routed-events b.subscriptions d ps ∙ ap (subscribed_events b.subscriptions d) q in
      let whole = Written-frames env.lib rs (AllCarry-routed b.subscriptions d env.lib ps carry') in
      let short = length-subscribed_events b.subscriptions d (own_events cfg es) in
      (
        fine,
        client_received-publishes env.lib ident secret m
            (subscribed_events b.subscriptions d (own_events cfg es)) ds s
            (omega (arith, short, length-own_events cfg es)) es'
            (rw wire (rw (out, ← reads) whole)),
      )
