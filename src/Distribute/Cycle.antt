-- ===== src/Distribute/Cycle.antt =====
-- The round robin producer goes through the partitions in a cycle.
use kafka_api.Common.{
  ℕ, zero, suc, ◌+◌, ◌%◌, ◌<◌, ◌≡◌, ap, ◌∙◌, arith, ltb, if◌then◌else◌, ltb→lt, Bool-cases, inl,
  inr, sym,
}
use kafka_api.Common.Int.{increment-pos, pos, half32}
use kafka_api.Distribute.{RoundRobin, next_partition, new_round_robin}
use native.Mathlib.Nat.{mod-lt, mod-eq_of_lt, mod-add-mod, mod_self}
use native.Mathlib.Numerals.{add-one}

-- the state after n calls
unfoldable pub after : ℕ → RoundRobin → RoundRobin
after zero p = p
after (suc n) p = (next_partition (after n p)).1

-- one step in a cycle of k
cycle_step : (k m : ℕ) → m < k → (m + 1) % k ≡ (if ltb (m + 1) k then m + 1 else 0)
cycle_step k m h = elim (Bool-cases (ltb (m + 1) k)) [
  | inl more ↦ rw more (mod-eq_of_lt (ltb→lt (m + 1) k more))
  | inr last ↦ rw last (let e : m + 1 ≡ k = ground arith in rw e (mod_self k))
]

mod-suc : (k n : ℕ) → 0 < k → (if ltb (n % k + 1) k then n % k + 1 else 0) ≡ suc n % k
mod-suc k n h =
    sym (cycle_step k (n % k) (mod-lt n h)) ∙ mod-add-mod n k 1 ∙ ap (λ m. m % k) (add-one n)

-- one call, from partition m
next_partition-pos :
    (k m : ℕ)
    → m < k
    → k < half32
    → next_partition (record { partitions = pos k; next = pos m })
      ≡ (pos m, record { partitions = pos k; next = pos (if ltb (m + 1) k then m + 1 else 0) })
unfolding next_partition
next_partition-pos k m h fits = ground (arith, increment-pos m (omega arith))

pub after-new :
    (k n : ℕ)
    → 0 < k
    → k < half32
    → after n (new_round_robin (pos k)) ≡ record { partitions = pos k; next = pos (n % k) }
unfolding after
after-new k zero h fits = unfold new_round_robin in rw (mod-eq_of_lt {n = 0} {m = k} h)
after-new k (suc n) h fits =
    ap (λ s. (next_partition s).1) (after-new k n h fits)
    ∙ ap (λ r. r.1) (next_partition-pos k (n % k) (mod-lt n h) fits)
    ∙ ap (λ m. record { partitions = pos k; next = pos m }) (mod-suc k n h)

-- A round robin producer of k partitions, for k from 1 to 2 ^ 31 - 1, sends its n-th call, counted
-- from 0, to partition n modulo k.
pub next_partition-after :
    (k n : ℕ)
    → 0 < k
    → k < half32
    → (next_partition (after n (new_round_robin (pos k)))).0 ≡ pos (n % k)
next_partition-after k n h fits =
    ap (λ s. (next_partition s).0) (after-new k n h fits)
    ∙ ap (λ r. r.0) (next_partition-pos k (n % k) (mod-lt n h) fits)
