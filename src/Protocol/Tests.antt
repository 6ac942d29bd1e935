-- ===== src/Protocol/Tests.antt =====
-- hpfeeds/blocking/protocol.py: the protocol of a session on concrete bytes.
use hpfeeds.Prelude.{◌≡◌, refl, List, [], ◌∷◌, arith, flatten}
use hpfeeds.Python.Result.{ok, err, out_of_fuel}
use hpfeeds.Python.Exec.{pure, raise, lift, gets, modify, try, ◌>>=◌}
use hpfeeds.Python.Struct.{Bytes, unpack_header}
use hpfeeds.Wire.Opcode.{op_error, sizes}
use hpfeeds.Wire.Message.{readpublish, readsubscribe, readerror, strunpack8, force_str}
use hpfeeds.Wire.Message.Clean.{
  readerror-Clean, readinfo-Clean, readauth-Clean, readpublish-Clean, readsubscribe-Clean,
  readunsubscribe-Clean,
}
use hpfeeds.Wire.Unpacker.{Unpacker, Message, empty, feed, unpack, ready, check, pop}
use hpfeeds.Wire.Unpacker.Stream.{drain, empty-waits}
use hpfeeds.Wire.Unpacker.Bounds.{IsStuck, zero_frame}
use hpfeeds.Wire.Tests.{ascii, three_chunks, two_messages}
use hpfeeds.Protocol.{Handlers, message_received, next, round, message_loop, data_received}
use hpfeeds.Protocol.Stream.{Apart, handle, receive, receive-encode}
use hpfeeds.Protocol.Ends.{data_received_ends}

-- The channels of what was published, and a parser.
abbrev Log : Type 0
Log = Unpacker × List Bytes

-- A protocol that notes payloads.
abbrev noting : Handlers Log
noting = record {
  on_error = λ r. pure tt;
  on_info = λ n r. pure tt;
  on_auth = λ i s. pure tt;
  on_publish = λ i c p. modify (λ (u, ps). (u, p ∷ ps));
  on_subscribe = λ i c. modify (λ (u, ps). (u, c ∷ ps));
  on_unsubscribe = λ i c. pure tt;
  drop_connection = pure tt;
  unpacker = λ s. s.0;
  set_unpacker = λ u s. (u, s.1);
}

noting-Apart : Apart ascii noting
unfolding message_received lift modify pure ◌>>=◌
noting-Apart = record {
  get-put = λ u s. refl;
  put-put = λ u v s. refl;
  put-get = λ s. refl;
  handle-put = λ (op, payload) u s. ground arith;
}

receive-encode_example :
    receive ascii noting 3 three_chunks (empty, []) ≡ (ok tt, (empty, (66 ∷ []) ∷ (9 ∷ []) ∷ []))
unfolding sizes flatten message_received lift modify pure ◌>>=◌ readpublish readsubscribe strunpack8
    force_str
receive-encode_example =
    receive-encode ascii noting noting-Apart 3 two_messages three_chunks (empty, [])
      (empty, (66 ∷ []) ∷ (9 ∷ []) ∷ [])
      ((omega arith, omega arith), ((omega arith, omega arith), tt)) (omega arith) empty-waits refl
      refl

noting-total : (m : Message) (s : Log) → (handle ascii noting m s).0 ≡ err out_of_fuel → ⊥
unfolding message_received lift modify pure ◌>>=◌
noting-total (op, x) s h = ground (
  arith,
  (readerror-Clean ascii x).at out_of_fuel,
  (readinfo-Clean ascii x).at out_of_fuel,
  (readauth-Clean ascii x).at out_of_fuel,
  (readpublish-Clean ascii x).at out_of_fuel,
  (readsubscribe-Clean ascii x).at out_of_fuel,
  (readunsubscribe-Clean ascii x).at out_of_fuel,
)

-- A frame whose header says 0.
abbrev zeros : Bytes
zeros = zero_frame op_error []

data_received_ends_example : IsStuck (drain 6 (feed zeros empty)).rest
unfolding data_received message_loop next round unpack ready check pop unpack_header sizes feed
    message_received gets lift modify pure raise try ◌>>=◌ readerror force_str
data_received_ends_example =
    data_received_ends ascii noting noting-Apart noting-total 6 zeros (empty, []) (omega arith) refl
