-- ===== src/Distribute.antt =====
-- The producers of v2/distributing_producer.go, which choose a partition and hand the messages to a
-- Producer.
pub mod Cycle
pub mod Hash
use Prim.Native.Nat.{bit_xor}
use mathlib.Core.List.{foldl}
use kafka_api.Common.{
  ℕ, zero, suc, ◌+◌, ◌-◌, ◌*◌, ◌%◌, ◌^◌, Bool, true, false, Option, none, some, List, [], ◌∷◌, leb,
  ltb, if◌then◌else◌,
}
use kafka_api.Common.Int.{less, increment, ℤ, pos, negsuc, half32, from_bits, wrap}
use kafka_api.Proto.Errors.{eqb}
use kafka_api.Proto.Message.{Message}

pub data DistributeError : Type 0 where
  -- errors.New("no messages"), errors.New("no key") behind "cannot hash message", and
  -- errors.New("cannot publish messages to different destinations")
  no_messages no_key different_destinations : DistributeError
  -- what the wrapped producer returns
  produce_error : ℕ → DistributeError

-- (offset, err), or a panic
pub data Distributed : Type 0 where
  done : ℤ → Distributed
  refused : DistributeError → Distributed
  panicked : Distributed

-- The wrapped Producer: Produce(topic, partition, messages...), with its own state P.
pub record Producer (P : Type 0) : Type 0 where
  pub produce : P → List ℕ → ℤ → List Message → Distributed × P

-- roundRobinProducer, less the wrapped producer
pub record RoundRobin : Type 0 where
  pub partitions : ℤ
  pub next : ℤ

-- what runs under the mutex: the partition, and the state behind it
unfoldable pub next_partition : RoundRobin → ℤ × RoundRobin
unfolding increment
next_partition p =
    let n = increment p.next in
    (p.next, record p { next = if less n p.partitions then n else pos 0 })

-- NewRoundRobinProducer
unfoldable pub new_round_robin : ℤ → RoundRobin
new_round_robin num_partitions = record { partitions = num_partitions; next = pos 0 }

-- fnv.New32a().Write(key), Sum32(): for each byte, xor and multiply in uint32 arithmetic
unfoldable pub fnv_step : ℕ → ℕ → ℕ
fnv_step h b = bit_xor h b * 16777619 % 2 ^ 32

unfoldable pub fnv32a : List ℕ → ℕ
unfolding fnv_step
fnv32a = foldl fnv_step 2166136261

-- -n in int32 arithmetic, of a negative n
unfoldable pub negate : ℤ → ℤ
negate (pos n) = pos n
negate (negsuc n) = wrap half32 (pos (suc n))

-- -n
unfoldable pub minus : ℕ → ℤ
minus zero = pos 0
minus (suc n) = negsuc n

-- sum % partitions, with the sign of sum; `none` is the panic of a division by zero
unfoldable pub remainder : ℤ → ℤ → Option ℤ
unfolding minus
remainder a (pos zero) = none
remainder (pos a) (pos (suc p)) = some (pos (a % suc p))
remainder (negsuc a) (pos (suc p)) = some (minus (suc a % suc p))
remainder (pos a) (negsuc p) = some (pos (a % suc p))
remainder (negsuc a) (negsuc p) = some (minus (suc a % suc p))

pub data Hashed : Type 0 where
  partition : ℤ → Hashed
  no_key_error : Hashed
  divided_by_zero : Hashed

unfoldable pub hashed : Option ℤ → Hashed
hashed none = divided_by_zero
hashed (some p) = partition p

-- messageHashPartition
unfoldable pub message_hash_partition : Option (List ℕ) → ℤ → Hashed
unfolding hashed
message_hash_partition none partitions = no_key_error
message_hash_partition (some key) partitions =
    hashed (remainder (negate (from_bits half32 (fnv32a key))) partitions)

-- the loop over the messages from the third on; `none` goes on to Produce
unfoldable pub check_rest : ℤ → ℤ → List Message → Option Distributed
check_rest partitions part [] = none
check_rest partitions part (m ∷ ms) = elim (message_hash_partition m.key partitions) [
  | partition mp ↦
      if eqb part mp then check_rest partitions part ms else some (refused different_destinations)
  | no_key_error ↦ some (refused no_key)
  | divided_by_zero ↦ some panicked
]

-- `for i := 2; i < len(messages); i++`, of the messages behind the first
unfoldable pub from_third : List Message → List Message
from_third [] = []
from_third (m ∷ ms) = ms

module _ {P : Type 0} (io : Producer P) where
  unfoldable pub distribute_round_robin :
      RoundRobin → P → List ℕ → List Message → (Distributed × P) × RoundRobin
  unfolding next_partition
  distribute_round_robin s p topic messages =
      let (part, s') = next_partition s in (io.produce p topic part messages, s')

  publish : P → List ℕ → ℤ → List Message → Option Distributed → Distributed × P
  publish p topic part messages (some r) = (r, p)
  publish p topic part messages none = io.produce p topic part messages

  first_hashed : Hashed → ℤ → P → List ℕ → Message → List Message → Distributed × P
  unfolding publish from_third
  first_hashed (partition part) partitions p topic m ms =
      publish p topic part (m ∷ ms) (check_rest partitions part (from_third ms))
  first_hashed no_key_error partitions p topic m ms = (refused no_key, p)
  first_hashed divided_by_zero partitions p topic m ms = (panicked, p)

  -- hashProducer.Distribute
  unfoldable pub distribute_hash : ℤ → P → List ℕ → List Message → Distributed × P
  unfolding first_hashed
  distribute_hash partitions p topic [] = (refused no_messages, p)
  distribute_hash partitions p topic (m ∷ ms) =
      first_hashed (message_hash_partition m.key partitions) partitions p topic m ms

-- randomProducer.Distribute: rand.Intn is asked only where there are partitions
module _ {R : Type 0} (intn : R → ℕ → ℕ × R) where
  unfoldable pub random_partition : ℤ → R → ℤ × R
  random_partition (pos zero) rand = (pos 0, rand)
  random_partition (pos (suc n)) rand = let (k, rand') = intn rand (suc n) in (pos k, rand')
  random_partition (negsuc n) rand = (pos 0, rand)

module _ {P R : Type 0} (io : Producer P) (intn : R → ℕ → ℕ × R) where
  unfoldable pub distribute_random : ℤ → P → R → List ℕ → List Message → (Distributed × P) × R
  unfolding random_partition
  distribute_random partitions p rand topic messages =
      let (part, rand') = random_partition intn partitions rand in
      (io.produce p topic part messages, rand')
