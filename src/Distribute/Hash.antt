-- ===== src/Distribute/Hash.antt =====
-- The hash producer: the range of its partition numbers, and which messages it looks at.
use kafka_api.Common.{
  ℕ, zero, suc, ◌+◌, ◌-◌, ◌%◌, ◌<◌, ◌^◌, ◌≡◌, ◌≢◌, refl, none, some, List, [], ◌∷◌, arith, ltb,
  if◌then◌else◌, false, All, ◌++◌,
}
use kafka_api.Common.Int.{ℤ, pos, negsuc, half32, wrap, from_bits, to_bits}
use kafka_api.Proto.Errors.{eqb, eqb_refl}
use kafka_api.Proto.Message.{Message}
use kafka_api.Distribute.{
  Producer, refused, different_destinations, partition, hashed, fnv32a, fnv_step, negate, minus,
  remainder, message_hash_partition, check_rest, distribute_hash,
}
use mathlib.Core.List.{foldl}
use native.Mathlib.Nat.{mod-lt}

-- the sum of the code, an int32 made positive, for a hash other than 2 ^ 31
magnitude : ℕ → ℕ
magnitude h = if ltb h half32 then h else half32 + half32 - h

negate-pos :
    (h : ℕ) → h < half32 + half32 → h ≢ half32 → negate (from_bits half32 h) ≡ pos (magnitude h)
unfolding negate from_bits magnitude wrap to_bits
negate-pos h lt ne = ground arith

-- int32's least value stays what it is
negate_least : negate (from_bits half32 half32) ≡ negsuc (half32 - 1)
unfolding negate from_bits wrap to_bits
negate_least = refl

fnv_step-lt : (h b : ℕ) → fnv_step h b < 2 ^ 32
unfolding fnv_step
fnv_step-lt h b = omega arith

fold-lt : (key : List ℕ) (h : ℕ) → h < 2 ^ 32 → foldl fnv_step h key < 2 ^ 32
fold-lt [] h lt = lt
fold-lt (b ∷ bs) h lt = fold-lt bs (fnv_step h b) (fnv_step-lt h b)

fnv32a-lt : (key : List ℕ) → fnv32a key < 2 ^ 32
unfolding fnv32a
fnv32a-lt key = fold-lt key 2166136261 (omega arith)

-- A key whose hash is not 2 ^ 31 goes to a partition of [0, n).
pub message_hash_partition-lt :
    (key : List ℕ) (n : ℕ)
    → fnv32a key ≢ half32
    → 0 < n
    → (m : ℕ) × (m < n) × (message_hash_partition (some key) (pos n) ≡ partition (pos m))
unfolding message_hash_partition remainder hashed
message_hash_partition-lt key zero ne h = absurd (omega arith)
message_hash_partition-lt key (suc n) ne h = (
  magnitude (fnv32a key) % suc n,
  mod-lt (magnitude (fnv32a key)) h,
  rw (negate-pos (fnv32a key) (fnv32a-lt key) ne),
)

-- A key whose hash is 2 ^ 31 goes to -(2 ^ 31 mod n), which is no partition unless n divides 2 ^ 31.
pub message_hash_partition_least :
    (key : List ℕ) (n : ℕ)
    → fnv32a key ≡ half32
    → 0 < n
    → message_hash_partition (some key) (pos n) ≡ partition (minus (half32 % n))
unfolding message_hash_partition remainder hashed
message_hash_partition_least key zero e h = absurd (omega arith)
message_hash_partition_least key (suc n) e h = rw (e, negate_least)

-- the messages go to the partition
abbrev pub AllTo : ℤ → ℤ → List Message → Type 0
AllTo n part ms = All (λ m. message_hash_partition m.key n ≡ partition part) ms

check_rest-AllTo : (n part : ℤ) (ms : List Message) → AllTo n part ms → check_rest n part ms ≡ none
unfolding check_rest
check_rest-AllTo n part [] h = refl
check_rest-AllTo n part (m ∷ ms) (h, hs) =
    ground (arith, eqb_refl part, check_rest-AllTo n part ms hs)

check_rest-differs :
    (n part q : ℤ) (front back : List Message) (m : Message)
    → AllTo n part front
    → message_hash_partition m.key n ≡ partition q
    → eqb part q ≡ false
    → check_rest n part (front ++ m ∷ back) ≡ some (refused different_destinations)
unfolding check_rest
check_rest-differs n part q [] back m h e d = ground arith
check_rest-differs n part q (x ∷ xs) back m (h, hs) e d =
    ground (arith, eqb_refl part, check_rest-differs n part q xs back m hs e d)

module _ {P : Type 0} (io : Producer P) (n part : ℤ) (p : P) (topic : List ℕ) where
  -- Messages are handed on together to the first one's partition if the third and all later ones go
  -- there. The second one is not looked at: it may have another destination, or no key.
  pub distribute_hash-AllTo :
      (first second : Message) (rest : List Message)
      → message_hash_partition first.key n ≡ partition part
      → AllTo n part rest
      → distribute_hash io n p topic (first ∷ second ∷ rest)
        ≡ io.produce p topic part (first ∷ second ∷ rest)
  unfolding distribute_hash
  distribute_hash-AllTo first second rest h hs = rw (h, check_rest-AllTo n part rest hs)

  -- If a message from the third on goes elsewhere than the first, and those between them go where the
  -- first goes, nothing is written, and the call is refused.
  pub distribute_hash-differs :
      (first second m : Message) (q : ℤ) (front back : List Message)
      → message_hash_partition first.key n ≡ partition part
      → AllTo n part front
      → message_hash_partition m.key n ≡ partition q
      → eqb part q ≡ false
      → distribute_hash io n p topic (first ∷ second ∷ (front ++ m ∷ back))
        ≡ (refused different_destinations, p)
  unfolding distribute_hash
  distribute_hash-differs first second m q front back h hs e d =
      rw (h, check_rest-differs n part q front back m hs e d)
