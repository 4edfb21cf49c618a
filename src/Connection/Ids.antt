-- ===== src/Connection/Ids.antt =====
-- nextIDLoop of v2/connection.go: the correlation ids that a connection hands out.
use kafka_api.Common.{ℕ, zero, suc, ◌+◌, ◌-◌, ◌%◌, ◌<◌, ◌≡◌, refl, ap, ◌∙◌, arith, if◌then◌else◌}
use kafka_api.Common.Int.{ℤ, pos, half32, increment, increment-pos}
use kafka_api.Proto.Errors.{eqb}
use native.Mathlib.Nat.{mod-lt, mod-add-mod}
use native.Mathlib.Numerals.{add-one}

-- math.MaxInt32
abbrev pub max_int32 : ℕ
max_int32 = half32 - 1

-- `var id int32 = 1`
abbrev pub first_id : ℤ
first_id = pos 1

-- `id++; if id == math.MaxInt32 { id = 1 }`
unfoldable pub advance : ℤ → ℤ
advance id = let n = increment id in if eqb n (pos max_int32) then pos 1 else n

-- what the loop sends in its n-th turn, counted from 0
unfoldable pub nth_id : ℕ → ℤ
unfolding advance
nth_id zero = first_id
nth_id (suc n) = advance (nth_id n)

-- the number of ids
abbrev pub cycle : ℕ
cycle = max_int32 - 1

advance-pos : (m : ℕ) → m < cycle → advance (pos (m + 1)) ≡ pos ((m + 1) % cycle + 1)
unfolding advance
advance-pos m h = ground (arith, increment-pos (m + 1) (omega arith))

-- The n-th correlation id, counted from 0, is n modulo 2 ^ 31 - 2, plus 1: ids go round the range
-- from 1 to 2 ^ 31 - 2.
pub nth_id-mod : (n : ℕ) → nth_id n ≡ pos (n % cycle + 1)
unfolding nth_id
nth_id-mod zero = refl
nth_id-mod (suc n) =
    ap advance (nth_id-mod n)
    ∙ advance-pos (n % cycle) (mod-lt n (omega arith))
    ∙ ap (λ m. pos (m + 1)) (mod-add-mod n cycle 1 ∙ ap (λ m. m % cycle) (add-one n))
