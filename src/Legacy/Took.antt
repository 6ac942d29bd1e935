-- ===== src/Legacy/Took.antt =====
-- hpfeeds/client.py: what one call has the socket take.
use hpfeeds.Prelude.{◌≡◌, refl, List, [], ◌∷◌, ◌++◌, append_assoc, append-nil, Option, ap, sym, ◌∙◌}
use hpfeeds.Python.Result.{Result, ok, err, stop_iteration}
use hpfeeds.Python.Exec.{pure, raise, gets, modify, ◌>>=◌}
use hpfeeds.Python.Struct.{Bytes}
use hpfeeds.Wire.Unpacker.{Unpacker, Message, unpack}
use hpfeeds.Legacy.Connection.{
  Sendall, send_timeout, send_error, send_done, Client, take_send, sent_by, send, next,
  next_message,
}

-- `t` is `s` after the socket took these messages.
pub record Took (ms : List Bytes) (s t : Client) : Type 0 where
  pub took : t.sent ≡ s.sent ++ ms
  pub connected : t.connected ≡ s.connected
  pub subscriptions : t.subscriptions ≡ s.subscriptions

pub Took-same : (s t : Client) → s ≡ t → Took [] s t
Took-same s t e = record {
  took = ap (λ x. x.sent) (sym e) ∙ sym (append-nil s.sent);
  connected = ap (λ x. x.connected) (sym e);
  subscriptions = ap (λ x. x.subscriptions) (sym e);
}

pub Took-trans :
    {ms ns : List Bytes} {s t u : Client} → Took ms s t → Took ns t u → Took (ms ++ ns) s u
Took-trans {ms} {ns} {s} {t} {u} a b = record {
  took = b.took ∙ ap (λ x. x ++ ns) a.took ∙ append_assoc s.sent ms ns;
  connected = b.connected ∙ a.connected;
  subscriptions = b.subscriptions ∙ a.subscriptions;
}

sent_by-ok :
    (m : Bytes) (r : Sendall) (s t : Client) → sent_by m r s ≡ (ok tt, t) → Took (m ∷ []) s t
unfolding sent_by raise modify
sent_by-ok m send_timeout s t e = cc
sent_by-ok m send_error s t e = cc
sent_by-ok m send_done s t e =
    let p = ap (λ o. o.1) (sym e) in
    record {
      took = ap (λ x. x.sent) p;
      connected = ap (λ x. x.connected) p;
      subscriptions = ap (λ x. x.subscriptions) p;
    }

take_send-Took :
    (m : Bytes) (rs : List Sendall) (s t : Client)
    → (take_send rs >>= sent_by m) s ≡ (ok tt, t)
    → Took (m ∷ []) s t
unfolding take_send modify pure raise ◌>>=◌
take_send-Took m [] s t e = cc
take_send-Took m (r ∷ rs) s t e =
    let h = sent_by-ok m r (record s { sends = rs }) t e in
    record { took = h.took; connected = h.connected; subscriptions = h.subscriptions }

-- A message that `send` sent is the last that the socket took.
pub send-ok : (m : Bytes) (s t : Client) → send m s ≡ (ok tt, t) → Took (m ∷ []) s t
unfolding send gets ◌>>=◌
send-ok m s t e = take_send-Took m s.sends s t e

next-ok :
    (r : Result (Message × Unpacker)) (o : Option Message) (s t : Client)
    → next r s ≡ (ok o, t)
    → Took [] s t
unfolding next modify pure raise ◌>>=◌
next-ok (ok (m, u)) o s t e =
    Took-trans {t = record s { unpacker = u }}
      (record { took = sym (append-nil s.sent); connected = refl; subscriptions = refl })
      (Took-same _ t (ap (λ o. o.1) e))
next-ok (err stop_iteration) o s t e = Took-same s t (ap (λ o. o.1) e)
next-ok (err x) o s t e = cc

pub next_message-ok : (o : Option Message) (s t : Client) → next_message s ≡ (ok o, t) → Took [] s t
unfolding next_message gets ◌>>=◌
next_message-ok o s t e = next-ok (unpack s.unpacker) o s t e
