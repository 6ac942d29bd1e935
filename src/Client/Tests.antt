-- ===== src/Client/Tests.antt =====
-- hpfeeds/asyncio/client.py: a session that subscribes before and after it is connected.
use hpfeeds.Prelude.{◌≡◌, refl, [], ◌∷◌, ◌++◌, true, false, contains, add, list_eq, text_eq}
use hpfeeds.Python.Result.{ok, key_error}
use hpfeeds.Python.Exec.{pure, raise, lift, gets, modify, for_each, try, ◌>>=◌}
use hpfeeds.Python.Struct.{Bytes, pack_byte, pack_header, unpack_header}
use hpfeeds.Wire.Opcode.{op_info, sizes}
use hpfeeds.Wire.Message.{
  msgauth, msgsubscribe, hashsecret, strpack8, strunpack8, force_bytes, force_str, msghdr, readinfo,
}
use hpfeeds.Wire.Unpacker.{feed, check, ready, pop, unpack}
use hpfeeds.Wire.Unpacker.Frames.{encode}
use hpfeeds.Wire.Tests.{ascii}
use hpfeeds.Client.Session.{
  authenticates, subscribes, Config, Session, opened, packet, send, fire_connected,
  connection_ready, on_info, message_received, next, round, pending_loop, data_received, subscribe,
}
use hpfeeds.Client.Synced.{Synced}
use hpfeeds.Client.Connecting.{
  stands, awaiting, connecting, Stranded, refused, answered, made, other, lost, slept, closed, run,
  run-cases,
}
use hpfeeds.Client.Calls.{receive, subscribing, call, start, next_call, Runs-Synced}

abbrev pub cfg : Config
cfg = record {
  lib = ascii;
  ident = 65 ∷ [];
  secret = 115 ∷ [];
  order = λ ts. ts;
  contains-order = λ t ts. refl;
}

abbrev pub challenge : Bytes
challenge = encode (op_info, 1 ∷ 104 ∷ 5 ∷ [])

abbrev first : Session
first = record opened { subscriptions = (66 ∷ []) ∷ [] }

abbrev second : Session
second = record first {
  connected = true;
  when_connected = true;
  written = authenticates (5 ∷ []) ∷ subscribes (66 ∷ []) ∷ [];
}

first-ok : call cfg (subscribing (66 ∷ [])) opened ≡ (ok tt, first)
unfolding call subscribe gets modify pure ◌>>=◌ contains add
first-ok = refl

second-ok : call cfg (receive 3 challenge) first ≡ (ok tt, second)
unfolding call data_received feed pending_loop next round unpack ready check pop unpack_header sizes
    message_received on_info connection_ready fire_connected send packet msgauth msgsubscribe
    hashsecret strpack8 strunpack8 force_bytes force_str msghdr readinfo pack_byte pack_header
    for_each lift raise try gets modify pure ◌>>=◌ text_eq
second-ok = refl

Runs-Synced_example : Synced second
Runs-Synced_example = Runs-Synced cfg (next_call (next_call start _ first-ok) _ second-ok)

run-cases_example :
    (run (refused 2 ++ answered made ∷ []) (stands connecting false false)
      ≡ stands awaiting true false)
    × (run (refused 2 ++ answered made ∷ lost ∷ []) (stands connecting false false)
        ≡ stands connecting false false)
    × Stranded (
        run
          (refused 2 ++ answered (other key_error) ∷ slept ∷ closed ∷ [])
          (stands connecting false false))
run-cases_example = run-cases 2 key_error (slept ∷ closed ∷ []) false
