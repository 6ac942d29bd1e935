-- ===== src/Client/Synced.antt =====
-- hpfeeds/asyncio/client.py: what the session takes itself to be subscribed to, and what the broker
-- was told on the current connection.
use hpfeeds.Prelude.{
  ◌≤◌, ◌≡◌, refl, ◌⊎◌, List, [], ◌∷◌, ◌++◌, append_assoc, append-nil, Bool, true, false, ◌||◌,
  if◌then◌else◌, arith, contains, count, list_eq, text_eq, inl, inr, Bool-cases, ap, sym, ◌∙◌,
}
use hpfeeds.Python.Result.{Error, ok, err, Result-cases, is_protocol_exception}
use hpfeeds.Python.Exec.{pure, raise, lift, gets, modify, for_each, ◌>>=◌}
use hpfeeds.Python.Exec.Keeps.{Keeps}
use hpfeeds.Python.Struct.{pack_byte, pack_header}
use hpfeeds.Wire.Message.{
  msgauth, msgpublish, msgsubscribe, msgunsubscribe, hashsecret, strpack8, force_bytes, msghdr,
}
use hpfeeds.Python.Values.{Text}
use hpfeeds.Client.Session.{
  Packet, authenticates, publishes, subscribes, unsubscribes, Config, Session, packet, send,
  fire_connected, connection_ready,
}

-- What the broker has on its list after the packets, for one channel.
abbrev pub told : Text → List Packet → Bool → Bool
told chan [] b = b
told chan (subscribes c ∷ ps) b = told chan ps (if text_eq c chan then true else b)
told chan (unsubscribes c ∷ ps) b = told chan ps (if text_eq c chan then false else b)
told chan (authenticates rand ∷ ps) b = told chan ps b
told chan (publishes c payload ∷ ps) b = told chan ps b

pub told-append :
    (chan : Text) (ps qs : List Packet) (b : Bool)
    → told chan (ps ++ qs) b ≡ told chan qs (told chan ps b)
told-append chan [] qs b = refl
told-append chan (subscribes c ∷ ps) qs b = told-append chan ps qs _
told-append chan (unsubscribes c ∷ ps) qs b = told-append chan ps qs _
told-append chan (authenticates rand ∷ ps) qs b = told-append chan ps qs b
told-append chan (publishes c payload ∷ ps) qs b = told-append chan ps qs b

-- Once the session is connected the broker was told of exactly its channels, before that of none,
-- and no channel is on its list twice.
pub record Synced (s : Session) : Type 0 where
  pub agrees :
      (chan : Text)
      → told chan s.written false ≡ (if s.connected then contains chan s.subscriptions else false)
  pub once : (chan : Text) → count chan s.subscriptions ≤ 1

-- After an exception that the loop over the parser catches, the two still agree.
abbrev pub Aborted : Error → Session → Type 0
Aborted e s = is_protocol_exception e ≡ true → Synced s

abbrev all_subscribes : List Text → List Packet
all_subscribes [] = []
all_subscribes (t ∷ ts) = subscribes t ∷ all_subscribes ts

told-all_subscribes :
    (chan : Text) (ts : List Text) (b : Bool)
    → told chan (all_subscribes ts) b ≡ (contains chan ts || b)
unfolding contains
told-all_subscribes chan [] b = refl
told-all_subscribes chan (t ∷ ts) b =
    ground (arith, told-all_subscribes chan ts (if text_eq t chan then true else b))

abbrev pub wrote : Packet → Session → Session
wrote p s = record s { written = s.written ++ p ∷ [] }

module _ (cfg : Config) where
  -- What can go wrong in building a packet is not caught.
  packet-err : (p : Packet) (e : Error) → packet cfg p ≡ err e → is_protocol_exception e ≡ false
  unfolding packet msgauth msgpublish msgsubscribe msgunsubscribe hashsecret strpack8 force_bytes
      msghdr pack_byte pack_header
  packet-err (authenticates rand) e h = ground arith
  packet-err (publishes chan payload) e h = ground arith
  packet-err (subscribes chan) e h = ground arith
  packet-err (unsubscribes chan) e h = ground arith

  pub send-cases :
      (p : Packet) (s : Session)
      → (send cfg p s ≡ (ok tt, wrote p s))
        ⊎ ((e : Error) × (send cfg p s ≡ (err e, s)) × (is_protocol_exception e ≡ false))
  unfolding send lift modify ◌>>=◌
  send-cases p s = elim (Result-cases (packet cfg p)) [
    | inl (m, e) ↦ inl (rw e refl)
    | inr (x, e) ↦ inr (x, rw e refl, packet-err p x e)
  ]

  pub send-Keeps :
      (p : Packet)
      → ((s : Session) → Synced s → Synced (wrote p s))
      → Keeps Synced Aborted (send cfg p)
  send-Keeps p k = record {
    at = λ s h. elim (send-cases p s) [ inl e ↦ rw e (k s h) | inr (x, e, n) ↦ rw e (λ c. h) ];
  }

  resubscribe :
      (ts : List Text) (s : Session)
      → (for_each ts (λ t. send cfg (subscribes t)) s
          ≡ (ok tt, record s { written = s.written ++ all_subscribes ts }))
        ⊎ ((e : Error) × (t : Session) × (for_each ts (λ t. send cfg (subscribes t)) s ≡ (err e, t))
            × (is_protocol_exception e ≡ false))
  unfolding for_each pure ◌>>=◌
  resubscribe [] s = inl (ap (λ w. (ok tt, record s { written = w })) (sym (append-nil s.written)))
  resubscribe (t ∷ ts) s = elim (send-cases (subscribes t) s) [
    | inl e ↦ elim (resubscribe ts (wrote (subscribes t) s)) [
      | inl f ↦ inl (
          rw (e, f)
            (ap (λ w. (ok tt, record s { written = w }))
              (append_assoc s.written (subscribes t ∷ []) (all_subscribes ts))))
      | inr (x, u, f, n) ↦ inr (x, u, rw e f, n)
    ]
    | inr (x, e, n) ↦ inr (x, s, rw e refl, n)
  ]

  abbrev caught_up : Session → Session
  caught_up s = record s {
    connected = true;
    written = s.written ++ all_subscribes (cfg.order s.subscriptions);
  }

  caught_up-Synced : (s : Session) → Synced s → Synced (caught_up s)
  caught_up-Synced s h = record {
    agrees = λ chan.
        told-append chan s.written (all_subscribes (cfg.order s.subscriptions)) false
        ∙ told-all_subscribes chan (cfg.order s.subscriptions) (told chan s.written false)
        ∙ ground (arith, cfg.contains-order chan s.subscriptions, h.agrees chan);
    once = h.once;
  }

  fire_connected-Keeps : Keeps Synced Aborted (fire_connected cfg)
  unfolding fire_connected gets raise modify ◌>>=◌
  fire_connected-Keeps = record {
    at = λ s h. elim (Bool-cases s.when_connected) [
      | inl e ↦ rw e (λ c. record { agrees = h.agrees; once = h.once })
      | inr e ↦ rw e (record { agrees = h.agrees; once = h.once })
    ];
  }

  pub connection_ready-Keeps : Keeps Synced Aborted (connection_ready cfg)
  unfolding connection_ready modify gets ◌>>=◌
  connection_ready-Keeps = record {
    at = λ s h. elim (resubscribe (cfg.order s.subscriptions) (record s { connected = true })) [
      | inl e ↦ rw e (fire_connected-Keeps.at (caught_up s) (caught_up-Synced s h))
      | inr (x, u, e, n) ↦ rw e (λ c. absurd (ground (arith, n, c)))
    ];
  }
