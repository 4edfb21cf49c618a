-- ===== src/Proto/Encoder.antt =====
-- The encoder of v2/proto/serialization.go, over any io.Writer.
use kafka_api.Common.{
  ℕ, zero, suc, ◌/◌, ◌%◌, ◌^◌, Bool, true, false, Option, none, some, List, [], ◌∷◌, length,
}
use kafka_api.Common.Int.{ℤ, pos, negsuc, half8, half16, half32, half64, to_bits, wrap}
use kafka_api.Common.Bytes.{put_uint}
use kafka_api.Flow.{Act, next, panics, ◌>>◌, pure}
use kafka_api.Proto.Errors.{GoError, kafka_error}
use kafka_api.Proto.Writer.{Writer, write_all}

pub record Encoder (W : Type 0) : Type 0 where
  pub w : W
  pub err : Option GoError

abbrev pub Encoding : Type 0 → Type 0
Encoding W = Act GoError (Encoder W) Unit

-- n / k, rounded towards zero, for k > 0
unfoldable pub quot : ℤ → ℕ → ℤ
quot (pos n) k = pos (n / k)
quot (negsuc n) k = elim (suc n / k) [ zero ↦ pos 0 | suc m ↦ negsuc m ]

-- time.Millisecond, in nanoseconds
abbrev pub millisecond : ℕ
millisecond = 1_000_000

-- uint16(len(val)), uint32(len(val))
abbrev pub len16 : List ℕ → ℕ
len16 val = length val % 2 ^ 16

abbrev pub len32 : List ℕ → ℕ
len32 val = length val % 2 ^ 32

-- boolToInt8 of v2/proto/messages.go
unfoldable pub bool_to_int8 : Bool → ℤ
bool_to_int8 true = pos 1
bool_to_int8 false = pos 0

module _ {W : Type 0} ⦃io : Writer W⦄ where
  -- `if e.err != nil { return }` before the rest
  unfoldable pub guarded : Option GoError → Encoding W → Encoding W
  guarded (some x) body e = next tt e
  guarded none body e = body e

  -- `e.err = writeAll(e.w, b)`
  unfoldable pub put_all : List ℕ → Encoding W
  put_all b e = let (x, w') = write_all e.w b in next tt (record { w = w'; err = x })

  -- `_, e.err = e.w.Write(b)`
  unfoldable pub put_unchecked : List ℕ → Encoding W
  put_unchecked b e = let (r, w') = io.write e.w b in next tt (record { w = w'; err = r.1 })

  -- `if e.err == nil { … }`
  unfoldable pub then_if_ok : Encoding W → Encoding W
  unfolding guarded
  then_if_ok body e = guarded e.err body e

  unfoldable pub encode_int8 : ℤ → Encoding W
  unfolding guarded put_unchecked
  encode_int8 val e = guarded e.err (put_unchecked (put_uint 1 (to_bits half8 val))) e

  unfoldable pub encode_int16 : ℤ → Encoding W
  unfolding guarded put_all
  encode_int16 val e = guarded e.err (put_all (put_uint 2 (to_bits half16 val))) e

  unfoldable pub encode_int32 : ℤ → Encoding W
  unfolding guarded put_all
  encode_int32 val e = guarded e.err (put_all (put_uint 4 (to_bits half32 val))) e

  unfoldable pub encode_int64 : ℤ → Encoding W
  unfolding guarded put_all
  encode_int64 val e = guarded e.err (put_all (put_uint 8 (to_bits half64 val))) e

  unfoldable pub encode_uint32 : ℕ → Encoding W
  unfolding guarded put_all
  encode_uint32 val e = guarded e.err (put_all (put_uint 4 val)) e

  unfoldable pub encode_duration : ℤ → Encoding W
  unfolding guarded put_unchecked
  encode_duration val e =
      guarded e.err (put_unchecked (put_uint 4 (to_bits half32 (quot val millisecond)))) e

  -- int32(length)
  unfoldable pub encode_array_len : ℤ → Encoding W
  encode_array_len length = encode_int32 (wrap half32 length)

  -- `for _, v := range vs { enc(v) }`
  unfoldable pub each : {A : Type 0} → (A → Encoding W) → List A → Encoding W
  each enc [] = pure tt
  each enc (v ∷ vs) = enc v >> each enc vs

  -- `enc.EncodeArrayLen(len(vs)); for _, v := range vs { … }`
  unfoldable pub encode_slice : {A : Type 0} → (A → Encoding W) → List A → Encoding W
  encode_slice enc vs = encode_array_len (pos (length vs)) >> each enc vs

  unfoldable pub encode_int32s : List ℤ → Encoding W
  unfolding guarded
  encode_int32s val e =
      guarded e.err (encode_array_len (pos (length val)) >> each encode_int32 val) e

  unfoldable pub encode_int64s : List ℤ → Encoding W
  unfolding guarded
  encode_int64s val e =
      guarded e.err (encode_array_len (pos (length val)) >> each encode_int64 val) e

  unfoldable pub some_bytes : Option (List ℕ) → Encoding W
  unfolding put_all then_if_ok
  some_bytes none = put_all (put_uint 4 (to_bits half32 (negsuc 0)))
  some_bytes (some val) = put_all (put_uint 4 (len32 val)) >> then_if_ok (put_all val)

  -- a nil slice is `none`
  unfoldable pub encode_bytes : Option (List ℕ) → Encoding W
  unfolding guarded some_bytes
  encode_bytes val e = guarded e.err (some_bytes val) e

  unfoldable pub encode_string : List ℕ → Encoding W
  unfolding guarded put_all then_if_ok
  encode_string val e =
      guarded e.err (put_all (put_uint 2 (len16 val)) >> then_if_ok (put_all val)) e

  -- An error that is no *KafkaError leaves `kerr` nil, and `kerr.errno` panics. There is no test of
  -- e.err: an earlier error is written over.
  unfoldable pub encode_error : Option GoError → Encoding W
  unfolding put_all
  encode_error none = put_all (put_uint 2 0)
  encode_error (some (kafka_error errno)) = put_all (put_uint 2 (to_bits half16 errno))
  encode_error (some _) = λ e. panics

  -- boolToInt8 of v2/proto/messages.go, encoded
  unfoldable pub encode_bool : Bool → Encoding W
  encode_bool val = encode_int8 (bool_to_int8 val)

  -- `if c { enc }`
  unfoldable pub when : Bool → Encoding W → Encoding W
  when true enc = enc
  when false enc = pure tt
