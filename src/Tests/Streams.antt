-- ===== src/Tests/Streams.antt =====
-- Streams, error numbers and producers at concrete inputs.
use kafka_api.Common.{ℕ, ◌+◌, ◌%◌, ◌<◌, ◌≡◌, refl, some, List, [], ◌∷◌, ◌++◌, arith, if◌then◌else◌}
use kafka_api.Common.Int.{pos, negsuc, half16, half32, to_bits, from_bits, wrap}
use kafka_api.Common.Bytes.{put_uint}
use kafka_api.Flow.{ok, panic}
use kafka_api.Proto.Errors.{eof, kafka_error, err_from_no, err_from_no-kafka_error, eqb}
use kafka_api.Proto.Frame.RoundTrip.{framed}
use kafka_api.Proto.Message.{Message}
use kafka_api.Proto.Stream.{read_req, read_resp}
use kafka_api.Proto.Stream.Frames.{at, read_req_lem}
use kafka_api.Proto.Stream.Responses.{read_resp_lem, read_resp-panic}
use kafka_api.Distribute.{
  Producer, done, refused, different_destinations, partition, new_round_robin, next_partition,
  message_hash_partition, minus, fnv32a, distribute_hash, remainder, negate,
}
use kafka_api.Distribute.Cycle.{after, next_partition-after}
use kafka_api.Distribute.Hash.{
  message_hash_partition-lt, message_hash_partition_least, distribute_hash-AllTo,
  distribute_hash-differs,
}

err_from_no_example :
    err_from_no (pos 36)
    ≡ (if eqb (pos 36) (pos 32) then some (kafka_error (pos 28)) else some (kafka_error (pos 36)))
err_from_no_example = err_from_no-kafka_error (pos 36) (ground arith)

read_req_example :
    read_req (at (framed (put_uint 2 (to_bits half16 (pos 3)) ++ (1 ∷ 2 ∷ [])) ++ (9 ∷ [])) eof)
    ≡ (ok (pos 3, framed (put_uint 2 (to_bits half16 (pos 3)) ++ (1 ∷ 2 ∷ []))), at (9 ∷ []) eof)
read_req_example = read_req_lem (pos 3) (1 ∷ 2 ∷ []) (9 ∷ []) eof (omega arith) (omega arith)

read_resp_example :
    read_resp (at (framed (put_uint 4 (to_bits half32 (pos 7)) ++ (1 ∷ 2 ∷ [])) ++ (9 ∷ [])) eof)
    ≡ (ok (pos 7, framed (put_uint 4 (to_bits half32 (pos 7)) ++ (1 ∷ 2 ∷ []))), at (9 ∷ []) eof)
read_resp_example = read_resp_lem (pos 7) (1 ∷ 2 ∷ []) (9 ∷ []) eof (omega arith) (omega arith)

read_resp-panic_example :
    (read_resp (
      at
        ((put_uint 4 (to_bits half32 (negsuc 3)) ++ put_uint 4 (to_bits half32 (pos 7))) ++ [])
        eof)).0
    ≡ panic
read_resp-panic_example = read_resp-panic (negsuc 3) (pos 7) [] eof (omega arith) (omega arith)

next_partition-after_example : (next_partition (after 7 (new_round_robin (pos 3)))).0 ≡ pos (7 % 3)
next_partition-after_example = next_partition-after 3 7 (omega arith) (omega arith)

message_hash_partition-lt_example :
    (m : ℕ) × (m < 3) × (message_hash_partition (some (b'k' ∷ [])) (pos 3) ≡ partition (pos m))
message_hash_partition-lt_example =
    message_hash_partition-lt (b'k' ∷ []) 3 (unfold fnv32a in ground arith) (omega arith)

-- "nyikjtf", whose hash is 2 ^ 31
abbrev least_key : List ℕ
least_key = 110 ∷ 121 ∷ 105 ∷ 107 ∷ 106 ∷ 116 ∷ 102 ∷ []

least_hash : fnv32a least_key ≡ half32
unfolding fnv32a
least_hash = refl

message_hash_partition_least_example :
    message_hash_partition (some least_key) (pos 3) ≡ partition (minus (half32 % 3))
message_hash_partition_least_example =
    message_hash_partition_least least_key 3 least_hash (omega arith)

abbrev keyed : ℕ → Message
keyed k = record {
  key = some (k ∷ []);
  value = some [];
  offset = pos 0;
  crc = 0;
  topic = [];
  partition = pos 0;
  tip_offset = pos 0;
}

-- a producer that counts its calls
abbrev counting : Producer ℕ
counting = record { produce = λ n topic part messages. (done (pos n), n + 1) }

-- of three partitions, a, b and d have 0, and c has 2
hash_a : message_hash_partition (keyed 97).key (pos 3) ≡ partition (pos 0)
unfolding message_hash_partition fnv32a remainder negate from_bits wrap
hash_a = refl

hash_b : message_hash_partition (keyed 98).key (pos 3) ≡ partition (pos 0)
unfolding message_hash_partition fnv32a remainder negate from_bits wrap
hash_b = refl

hash_c : message_hash_partition (keyed 99).key (pos 3) ≡ partition (pos 2)
unfolding message_hash_partition fnv32a remainder negate from_bits wrap
hash_c = refl

-- the second message goes with the first, although its destination is another one
distribute_hash-AllTo_example :
    distribute_hash counting (pos 3) 5 (b't' ∷ []) (keyed 97 ∷ keyed 99 ∷ (keyed 98 ∷ []))
    ≡ counting.produce 5 (b't' ∷ []) (pos 0) (keyed 97 ∷ keyed 99 ∷ (keyed 98 ∷ []))
distribute_hash-AllTo_example =
    distribute_hash-AllTo counting (pos 3) (pos 0) 5 (b't' ∷ []) (keyed 97) (keyed 99)
      (keyed 98 ∷ []) hash_a (hash_b, tt)

distribute_hash-differs_example :
    distribute_hash counting
      (pos 3)
      5
      (b't' ∷ [])
      (keyed 97 ∷ keyed 98 ∷ ((keyed 98 ∷ []) ++ keyed 99 ∷ []))
    ≡ (refused different_destinations, 5)
distribute_hash-differs_example =
    distribute_hash-differs counting (pos 3) (pos 0) 5 (b't' ∷ []) (keyed 97) (keyed 98) (keyed 99)
      (pos 2) (keyed 98 ∷ []) [] hash_a (hash_b, tt) hash_c refl
