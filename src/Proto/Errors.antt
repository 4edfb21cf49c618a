-- ===== src/Proto/Errors.antt =====
-- v2/proto/errors.go, and the error values that v2/proto returns. A KafkaError is told by its
-- errno: its fields are private and every one that the package makes is a variable of errors.go.
-- Message texts are left out.
use kafka_api.Common.{
  ℕ, suc, ◌≡◌, refl, Bool, true, false, Option, none, some, List, [], ◌∷◌, arith, ◌==◌, ◌<◌,
  if◌then◌else◌, ◌≢◌,
}
use kafka_api.Common.Int.{ℤ, pos, negsuc}

pub data GoError : Type 0 where
  -- io.EOF, io.ErrUnexpectedEOF
  eof unexpected_eof : GoError
  -- ErrNotEnoughData, ErrInvalidArrayLen
  not_enough_data invalid_array_len : GoError
  -- messageSizeError(size)
  message_size : ℤ → GoError
  -- &KafkaError{errno, …}
  kafka_error : ℤ → GoError
  -- fmt.Errorf("unknown kafka error %d", errno)
  unknown_kafka_error : ℤ → GoError
  -- fmt.Errorf("cannot encode error of type %T", err)
  cannot_encode : GoError
  -- fmt.Errorf("cannot write %d: %d written", len(b), n)
  short_write : ℕ → ℕ → GoError
  -- errors.New("buffer too small")
  buffer_too_small : GoError
  -- fmt.Errorf("versioning error: %d", errcode)
  versioning_error : ℤ → GoError
  -- fmt.Errorf("cannot handle snappy-java codec version other than 1 (got %d)", version)
  snappy_version : ℕ → GoError
  -- an error of the environment, such as a network error
  other : ℕ → GoError

abbrev pub eqb : ℤ → ℤ → Bool
eqb (pos a) (pos b) = a == b
eqb (negsuc a) (negsuc b) = a == b
eqb _ _ = false

-- The entries of errnoToErr, each with the errno of the variable that it names.
errno_to_err : List (ℤ × ℤ)
errno_to_err =
    (negsuc 0, negsuc 0)
    ∷ (pos 1, pos 1)
    ∷ (pos 2, pos 2)
    ∷ (pos 3, pos 3)
    ∷ (pos 4, pos 4)
    ∷ (pos 5, pos 5)
    ∷ (pos 6, pos 6)
    ∷ (pos 7, pos 7)
    ∷ (pos 8, pos 8)
    ∷ (pos 9, pos 9)
    ∷ (pos 10, pos 10)
    ∷ (pos 11, pos 11)
    ∷ (pos 12, pos 12)
    ∷ (pos 13, pos 13)
    ∷ (pos 14, pos 14)
    ∷ (pos 15, pos 15)
    ∷ (pos 16, pos 16)
    ∷ (pos 17, pos 17)
    ∷ (pos 18, pos 18)
    ∷ (pos 19, pos 19)
    ∷ (pos 20, pos 20)
    ∷ (pos 21, pos 21)
    ∷ (pos 22, pos 22)
    ∷ (pos 23, pos 23)
    ∷ (pos 24, pos 24)
    ∷ (pos 25, pos 25)
    ∷ (pos 26, pos 26)
    ∷ (pos 27, pos 27)
    ∷ (pos 28, pos 28)
    ∷ (pos 29, pos 29)
    ∷ (pos 30, pos 30)
    ∷ (pos 31, pos 31)
    ∷ (pos 32, pos 28)
    ∷ (pos 33, pos 33)
    ∷ (pos 34, pos 34)
    ∷ (pos 35, pos 35)
    ∷ (pos 36, pos 36)
    ∷ (pos 37, pos 37)
    ∷ (pos 38, pos 38)
    ∷ (pos 39, pos 39)
    ∷ (pos 40, pos 40)
    ∷ (pos 41, pos 41)
    ∷ (pos 42, pos 42)
    ∷ (pos 43, pos 43)
    ∷ (pos 44, pos 44)
    ∷ (pos 45, pos 45)
    ∷ (pos 46, pos 46)
    ∷ (pos 47, pos 47)
    ∷ (pos 48, pos 48)
    ∷ (pos 49, pos 49)
    ∷ (pos 50, pos 50)
    ∷ (pos 51, pos 51)
    ∷ (pos 52, pos 52)
    ∷ (pos 53, pos 53)
    ∷ (pos 54, pos 54)
    ∷ (pos 55, pos 55)
    ∷ (pos 56, pos 56)
    ∷ (pos 57, pos 57)
    ∷ (pos 58, pos 58)
    ∷ (pos 59, pos 59)
    ∷ (pos 60, pos 60)
    ∷ (pos 61, pos 61)
    ∷ (pos 62, pos 62)
    ∷ (pos 63, pos 63)
    ∷ (pos 64, pos 64)
    ∷ (pos 65, pos 65)
    ∷ (pos 66, pos 66)
    ∷ (pos 67, pos 67)
    ∷ (pos 68, pos 68)
    ∷ (pos 69, pos 69)
    ∷ (pos 70, pos 70)
    ∷ (pos 71, pos 71)
    ∷ []

find : ℤ → List (ℤ × ℤ) → Option GoError
find errno [] = none
find errno ((k, e) ∷ rest) = if eqb errno k then some (kafka_error e) else find errno rest

-- nil is `none`
unfoldable pub err_from_no : ℤ → Option GoError
unfolding errno_to_err find
err_from_no errno = if eqb errno (pos 0) then none else elim (find errno errno_to_err) [
  | some e ↦ some e
  | none ↦ some (unknown_kafka_error errno)
]

-- The error numbers that errors.go gives a variable.
abbrev pub IsErrno : ℤ → Type 0
IsErrno (pos n) = (n ≢ 0) × (n < 72)
IsErrno (negsuc n) = n ≡ 0

-- p holds of the numbers below n
up_to : (ℕ → Bool) → ℕ → Bool
up_to p ℕ.zero = true
up_to p (suc n) = if p n then up_to p n else false

up_to→ : (p : ℕ → Bool) (n : ℕ) → up_to p n ≡ true → {x : ℕ} → x < n → p x ≡ true
unfolding up_to
up_to→ p ℕ.zero h lt = absurd (omega arith)
up_to→ p (suc n) h {x} lt = grind (arith, up_to→ p n)

is_kafka : Option GoError → ℤ → Bool
is_kafka (some (kafka_error e)) n = eqb e n
is_kafka _ n = false

pub eqb→eq : (a b : ℤ) → eqb a b ≡ true → a ≡ b
eqb→eq a b h = ground arith

pub eqb_refl : (a : ℤ) → eqb a a ≡ true
eqb_refl a = ground arith

is_kafka→eq : (o : Option GoError) (n : ℤ) → is_kafka o n ≡ true → o ≡ some (kafka_error n)
unfolding is_kafka
is_kafka→eq o n h = ground arith

table_check : ℕ → Bool
unfolding is_kafka err_from_no
table_check n =
    if n == 0 then true else is_kafka (err_from_no (pos n)) (if n == 32 then pos 28 else pos n)

table_checked : up_to table_check 72 ≡ true
unfolding up_to table_check
table_checked = refl

listed :
    (n : ℕ)
    → n ≢ 0
    → n < 72
    → is_kafka (err_from_no (pos n)) (if n == 32 then pos 28 else pos n) ≡ true
unfolding table_check
listed n h lt = ground (arith, up_to→ table_check 72 table_checked lt)

-- Each error number of the protocol is mapped to the error that carries it, but 32, which is
-- mapped to error 28.
pub err_from_no-kafka_error :
    (n : ℤ)
    → IsErrno n
    → err_from_no n ≡ (if eqb n (pos 32) then some (kafka_error (pos 28)) else some (kafka_error n))
err_from_no-kafka_error (pos n) (h, lt) = ground (arith, is_kafka→eq _ _ (listed n h lt))
err_from_no-kafka_error (negsuc n) h = rw h (unfold err_from_no in refl)
