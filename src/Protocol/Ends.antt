-- ===== src/Protocol/Ends.antt =====
-- When a chunk has been dealt with: how often the loop over the parser goes round.
use hpfeeds.Prelude.{ℕ, zero, suc, ◌+◌, ◌<◌, ◌≡◌, refl, [], arith, length, inl, inr, length-append}
use hpfeeds.Python.Result.{Error, err, out_of_fuel, is_protocol_exception, Result-cases}
use hpfeeds.Python.Exec.{gets, modify, pure, raise, ◌>>=◌}
use hpfeeds.Python.Exec.Bind.{bind-eq-err, try-eq-err}
use hpfeeds.Python.Struct.{Bytes}
use hpfeeds.Python.Values.{Library}
use hpfeeds.Wire.Unpacker.{Unpacker, Message, feed, unpack}
use hpfeeds.Wire.Unpacker.Stream.{drain}
use hpfeeds.Wire.Unpacker.Bounds.{IsStuck, drain_ends}
use hpfeeds.Protocol.{Handlers, message_received, next, round, message_loop, data_received}
use hpfeeds.Protocol.Stream.{handle, Apart, loop-ok}

module _ {S : Type 0} (lib : Library) (h : Handlers S) where
  -- What is not the end of an iteration is raised.
  loop-raise :
      (fuel : ℕ) (s : S) (x : Error)
      → unpack (h.unpacker s) ≡ err x
      → (message_loop lib h (suc fuel) s).0 ≡ err out_of_fuel
      → x ≡ out_of_fuel
  unfolding message_loop next round gets pure raise ◌>>=◌
  loop-raise fuel s x p e = go x (rw p at e)
    where
      go :
          (x : Error)
          → ((next lib h (err x) >>= round lib h (message_loop lib h fuel)) s).0 ≡ err out_of_fuel
          → x ≡ out_of_fuel
      go x e = ground arith

module _ {S : Type 0} (lib : Library) (h : Handlers S) (a : Apart lib h)
    (total : (m : Message) (s : S) → ((handle lib h m s).0 ≡ err out_of_fuel) → ⊥) where
  kept :
      (m : Message) (u : Unpacker) (s : S) → h.unpacker (handle lib h m (h.set_unpacker u s)).1 ≡ u
  kept m u s = rw (a.handle-put m u s) (a.get-put u _)

  loop_fuel :
      (fuel : ℕ) (s : S)
      → (message_loop lib h fuel s).0 ≡ err out_of_fuel
      → (drain fuel (h.unpacker s)).why ≡ out_of_fuel
  unfolding drain
  loop_fuel zero s e = refl
  loop_fuel (suc fuel) s e = elim (Result-cases (unpack (h.unpacker s))) [
    | inl ((m, u), p) ↦
        elim (bind-eq-err (handle lib h m) (λ _. message_loop lib h fuel) (h.set_unpacker u s)
          out_of_fuel (rw (loop-ok lib h fuel s m u p) at e)) [
            | inl q ↦ absurd (total m (h.set_unpacker u s) q)
            | inr (_, _, q) ↦ rw (p, drain) (rw (kept m u s) at (loop_fuel fuel _ q))
          ]
    | inr (x, p) ↦ rw (p, drain) (loop-raise lib h fuel s x p e)
  ]

  drops : (s : S) → (h.drop_connection s).0 ≡ err out_of_fuel → ⊥
  unfolding message_received
  drops s e = total (6, []) s e

  -- The loop over the messages of a chunk ends, with handlers that do: it goes round at most once
  -- for each byte that the parser has, and once more, unless the parser comes to a message that
  -- leaves the buffer as it is.
  pub data_received_ends :
      (fuel : ℕ) (chunk : Bytes) (s : S)
      → length (h.unpacker s).buf + length chunk < fuel
      → (data_received lib h fuel chunk s).0 ≡ err out_of_fuel
      → IsStuck (drain fuel (feed chunk (h.unpacker s))).rest
  unfolding data_received modify ◌>>=◌ feed
  data_received_ends fuel chunk s l e =
      let u = feed chunk (h.unpacker s) in
      elim (try-eq-err is_protocol_exception h.drop_connection (message_loop lib h fuel)
        (h.set_unpacker u s) out_of_fuel e) [
          | inl p ↦
              drain_ends fuel u (omega (arith, length-append (h.unpacker s).buf chunk))
                (rw (a.get-put u s) at (loop_fuel fuel _ p))
          | inr p ↦ absurd (drops _ p)
        ]
