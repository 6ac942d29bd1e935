-- ===== src/Legacy/Dropped.antt =====
-- hpfeeds/client.py: what becomes of an event whose sending fails.
use hpfeeds.Prelude.{
  ℕ, ◌≡◌, ◌≢◌, refl, List, [], ◌∷◌, Bool, true, false, ap, sym, ◌∙◌, arith, if◌then◌else◌,
}
use hpfeeds.Python.Result.{ok, err, disconnect}
use hpfeeds.Python.Exec.{pure, raise, lift, gets, modify, when, for_each, continue, ◌>>=◌}
use hpfeeds.Python.Exec.Bind.{bind-eq-ok}
use hpfeeds.Python.Struct.{Bytes}
use hpfeeds.Python.Values.{Text, Value, text}
use hpfeeds.Wire.Message.{msgauth, msgpublish}
use hpfeeds.Legacy.Connection.{
  Sendall, send_timeout, send_error, send_done, Config, Client, take_send, sent_by, send,
  tryconnect,
}
use hpfeeds.Legacy.Run.{after_loss, loses, send_publish, publish}
use hpfeeds.Legacy.Told.{tryconnect-Fresh}

-- The answer was taken, and the connection is down.
abbrev cut : List Sendall → Client → Client
cut rs s = record s { sends = rs; connected = false }

sent_by-lost :
    (m : Bytes) (r : Sendall) (rs : List Sendall) (s : Client)
    → r ≢ send_done
    → (take_send (r ∷ rs) >>= sent_by m) s ≡ (err disconnect, record s { sends = rs })
unfolding take_send sent_by modify pure raise ◌>>=◌
sent_by-lost m send_timeout rs s n = refl
sent_by-lost m send_error rs s n = refl
sent_by-lost m send_done rs s n = absurd (n refl)

module _ (cfg : Config) where
  loses-send_publish :
      (c : Text) (payload : Value) (m : Bytes) (r : Sendall) (rs : List Sendall) (s : Client)
      → msgpublish cfg.lib (text cfg.ident) (text c) payload ≡ ok m
      → s.sends ≡ r ∷ rs
      → r ≢ send_done
      → loses (send_publish cfg c payload) s ≡ (ok true, cut rs s)
  unfolding loses send_publish send lift gets ◌>>=◌
  loses-send_publish c payload m r rs s h e n =
      ap (λ o. after_loss o.0 o.1)
        (ap (λ x. continue x send s) h
          ∙ ap (λ xs. (take_send xs >>= sent_by m) s) e
          ∙ sent_by-lost m r rs s n)

  reconnects :
      (lost may : Bool) (fuel : ℕ) (s t : Client)
      → lost ≡ true
      → may ≡ true
      → when lost (if may then tryconnect cfg fuel else raise disconnect) s ≡ (ok tt, t)
      → tryconnect cfg fuel s ≡ (ok tt, t)
  reconnects true true fuel s t l m e = e
  reconnects true false fuel s t l m e = cc
  reconnects false may fuel s t l m e = cc

  -- Where sendall fails in publish, of one channel, and the client may reconnect: if publish returns,
  -- then as if all went well, with a new connection on which the broker got the answer to a challenge
  -- and not the event.
  pub publish-drops :
      (fuel : ℕ) (c : Text) (payload : Value) (m : Bytes) (r : Sendall) (rs : List Sendall)
      (s t : Client)
      → cfg.reconnect ≡ true
      → msgpublish cfg.lib (text cfg.ident) (text c) payload ≡ ok m
      → s.sends ≡ r ∷ rs
      → r ≢ send_done
      → publish cfg fuel (c ∷ []) payload s ≡ (ok tt, t)
      → (rand : Bytes) × (a : Bytes) × (msgauth cfg.lib rand (text cfg.ident) cfg.secret ≡ ok a)
        × (t.sent ≡ a ∷ [])
        × (t.connected ≡ true)
  unfolding publish for_each pure
  publish-drops fuel c payload m r rs s t may h e n p =
      let (_, u, p1, same) =
        bind-eq-ok (loses (send_publish cfg c payload) >>= _) (λ _. pure tt) s t p in
      let (lost, v, p2, p3) = bind-eq-ok (loses (send_publish cfg c payload)) _ s u p1 in
      let q = sym p2 ∙ loses-send_publish c payload m r rs s h e n in
      let f = reconnects lost cfg.reconnect fuel v u (ground (arith, ap (λ o. o.0) q)) may p3 in
      tryconnect-Fresh cfg fuel v t (ap (λ o. o.1.connected) q) (f ∙ ap (λ o. (ok tt, o.1)) same)
