-- ===== src/Common/Int.antt =====
-- Signed machine integers: the integer that a Go variable holds, and its two's complement bits.
-- A width of w bits is given by its half range, 2 ^ (w - 1).
use kafka_api.Common.{
  leb, ℕ, zero, suc, Bool, true, false, ◌+◌, ◌-◌, ◌%◌, ◌^◌, ◌<◌, ◌≡◌, arith, ltb, if◌then◌else◌,
}
use native.Mathlib.Nat.{mod-eq_of_lt}

-- `negsuc n` is -(n + 1).
pub data ℤ : Type 0 where
  pos : ℕ → ℤ
  negsuc : ℕ → ℤ

abbrev pub half8 : ℕ
half8 = 2 ^ 7

abbrev pub half16 : ℕ
half16 = 2 ^ 15

abbrev pub half32 : ℕ
half32 = 2 ^ 31

abbrev pub half64 : ℕ
half64 = 2 ^ 63

-- -h ≤ z < h
abbrev pub InRange : ℕ → ℤ → Type 0
InRange h (pos n) = n < h
InRange h (negsuc n) = n < h

-- uintW(z)
unfoldable pub to_bits : ℕ → ℤ → ℕ
to_bits h (pos n) = n % (h + h)
to_bits h (negsuc n) = h + h - 1 - n % (h + h)

-- intW(u) of an unsigned u below h + h
unfoldable pub from_bits : ℕ → ℕ → ℤ
from_bits h u = if ltb u h then pos u else negsuc (h + h - 1 - u)

-- intW(z) of a wider integer
unfoldable pub wrap : ℕ → ℤ → ℤ
unfolding to_bits from_bits
wrap h z = from_bits h (to_bits h z)

pub to_bits-lt : (h : ℕ) (z : ℤ) → 0 < h → to_bits h z < h + h
unfolding to_bits
to_bits-lt h (pos n) p = grind arith
to_bits-lt h (negsuc n) p = omega arith

pub from_bits-to_bits : (h : ℕ) (z : ℤ) → InRange h z → from_bits h (to_bits h z) ≡ z
unfolding from_bits to_bits
from_bits-to_bits h (pos n) p = ground (arith, mod-eq_of_lt {n = n} {m = h + h} (omega arith))
from_bits-to_bits h (negsuc n) p = ground (arith, mod-eq_of_lt {n = n} {m = h + h} (omega arith))

pub from_bits-InRange : (h u : ℕ) → u < h + h → InRange h (from_bits h u)
unfolding from_bits
from_bits-InRange h u p = ground arith

-- a < b
abbrev pub less : ℤ → ℤ → Bool
less (pos a) (pos b) = ltb a b
less (pos a) (negsuc b) = false
less (negsuc a) (pos b) = true
less (negsuc a) (negsuc b) = ltb b a

pub wrap-pos : (h n : ℕ) → n < h → wrap h (pos n) ≡ pos n
unfolding wrap
wrap-pos h n l = from_bits-to_bits h (pos n) l

-- n + 1 in int32 arithmetic
unfoldable pub increment : ℤ → ℤ
unfolding wrap
increment (pos n) = wrap half32 (pos (n + 1))
increment (negsuc zero) = pos 0
increment (negsuc (suc n)) = negsuc n

pub increment-pos : (n : ℕ) → n + 1 < half32 → increment (pos n) ≡ pos (n + 1)
unfolding increment wrap
increment-pos n h = from_bits-to_bits half32 (pos (n + 1)) h

-- i + z in int64 arithmetic, for a number i of elements
unfoldable pub add_int64 : ℕ → ℤ → ℤ
unfolding wrap
add_int64 i (pos n) = wrap half64 (pos (i + n))
add_int64 i (negsuc n) = if leb i n then negsuc (n - i) else pos (i - n - 1)

pub add_int64-pos : (i n : ℕ) → i + n < half64 → add_int64 i (pos n) ≡ pos (i + n)
unfolding add_int64
add_int64-pos i n h = wrap-pos half64 (i + n) h
