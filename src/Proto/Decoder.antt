-- ===== src/Proto/Decoder.antt =====
-- The decoder of v2/proto/serialization.go.
use kafka_api.Common.{
  ℕ, zero, suc, ◌-◌, ◌*◌, Bool, true, false, not, Option, none, some, List, [], ◌∷◌, ltb, leb, ◌==◌,
  if◌then◌else◌, length, take, drop,
}
use kafka_api.Common.Int.{ℤ, pos, negsuc, half8, half16, half32, half64, from_bits}
use kafka_api.Common.Bytes.{get_uint}
use kafka_api.Flow.{Act, next, ◌>>=◌, pure, fail, crash}
use kafka_api.Proto.Errors.{
  GoError, eof, unexpected_eof, not_enough_data, invalid_array_len, err_from_no, eqb,
}
use kafka_api.Proto.Writer.{alloc_parse_buf}
use kafka_api.Proto.Encoder.{millisecond}

-- An io.Reader: the bytes that it will still give, and the error that follows them (io.EOF for a
-- bytes.Reader; a network connection may end otherwise).
pub record Reader : Type 0 where
  pub bytes : List ℕ
  pub ended : GoError

-- What io.ReadFull returns when the bytes do not suffice: EOF after some of them is unexpected.
abbrev pub short_read : List ℕ → GoError → GoError
short_read (b ∷ bs) eof = unexpected_eof
short_read _ e = e

-- io.ReadFull(r, b) with n the length of b: the bytes read, the error, the reader afterwards
unfoldable pub read_full : ℕ → Reader → (List ℕ × Option GoError) × Reader
read_full n r =
    if leb n (length r.bytes)
    then ((take n r.bytes, none), record r { bytes = drop n r.bytes })
    else ((r.bytes, some (short_read r.bytes r.ended)), record r { bytes = [] })

pub record Decoder : Type 0 where
  pub r : Reader
  pub err : Option GoError

abbrev pub Decoding : Type 0 → Type 0
Decoding A = Act GoError Decoder A

abbrev pub new_decoder : Reader → Decoder
new_decoder r = record { r = r; err = none }

-- d.err = e
unfoldable pub set_err : {A : Type 0} → GoError → A → Decoding A
set_err e a d = next a (record d { err = some e })

-- `if d.err != nil { return zero }` before the rest
unfoldable pub guarded : {A : Type 0} → A → Decoding A → Decoding A
guarded dflt body d = elim d.err [ some e ↦ next dflt d | none ↦ body d ]

unfoldable pub received : ℕ → (List ℕ × Option GoError) × Reader → Decoding (Option (List ℕ))
received n ((b, some e), r') d = next none (record { r = r'; err = some e })
received n ((b, none), r') d =
    if length b == n
    then next (some b) (record d { r = r' })
    else next none (record { r = r'; err = some not_enough_data })

-- io.ReadFull(d.r, b) and the two tests of its results; `none` is an early return
unfoldable pub read_bytes : ℕ → Decoding (Option (List ℕ))
unfolding received
read_bytes n d = received n (read_full n d.r) d

-- the integer of w bits, or 0
signed : ℕ → Option (List ℕ) → ℤ
signed half none = pos 0
signed half (some b) = from_bits half (get_uint b)

unsigned : Option (List ℕ) → ℕ
unsigned none = 0
unsigned (some b) = get_uint b

unfoldable pub decode_int8 : Decoding ℤ
unfolding signed
decode_int8 = guarded (pos 0) (do b ← read_bytes 1; pure (signed half8 b))

unfoldable pub decode_int16 : Decoding ℤ
unfolding signed
decode_int16 = guarded (pos 0) (do b ← read_bytes 2; pure (signed half16 b))

unfoldable pub decode_int32 : Decoding ℤ
unfolding signed
decode_int32 = guarded (pos 0) (do b ← read_bytes 4; pure (signed half32 b))

unfoldable pub decode_uint32 : Decoding ℕ
unfolding unsigned
decode_uint32 = guarded 0 (do b ← read_bytes 4; pure (unsigned b))

unfoldable pub decode_int64 : Decoding ℤ
unfolding signed
decode_int64 = guarded (pos 0) (do b ← read_bytes 8; pure (signed half64 b))

-- an int32 times time.Millisecond; the product always fits an int64
unfoldable pub scale : ℤ → ℤ
scale (pos n) = pos (n * millisecond)
scale (negsuc n) = negsuc (suc n * millisecond - 1)

unfoldable pub decode_duration32 : Decoding ℤ
decode_duration32 = do t ← decode_int32; pure (scale t)

unfoldable pub string_of : Option (List ℕ) → List ℕ
string_of none = []
string_of (some b) = b

-- int(slen) > len(d.buf), with NewDecoder's buffer of 1024 bytes: a buffer is allocated
unfoldable pub string_buf : ℕ → Option GoError
string_buf n = if ltb 1024 n then alloc_parse_buf (pos n) else none

unfoldable pub string_body : ℕ → Option GoError → Decoding (List ℕ)
unfolding string_of
string_body n (some e) = set_err e []
string_body n none = do b ← read_bytes n; pure (string_of b)

-- `if slen < 1 { return "" }` and what follows
unfoldable pub string_sized : ℤ → Decoding (List ℕ)
unfolding string_body string_buf
string_sized (pos zero) = pure []
string_sized (pos (suc n)) = string_body (suc n) (string_buf (suc n))
string_sized (negsuc n) = pure []

unfoldable pub decode_string : Decoding (List ℕ)
unfolding string_sized
decode_string = guarded [] (do slen ← decode_int16; guarded [] (string_sized slen))

unfoldable pub bytes_body : ℕ → Option GoError → Decoding (Option (List ℕ))
bytes_body n (some e) = set_err e none
bytes_body n none = read_bytes n

unfoldable pub bytes_sized : ℤ → Decoding (Option (List ℕ))
unfolding bytes_body
bytes_sized (pos zero) = pure none
bytes_sized (pos (suc n)) = bytes_body (suc n) (alloc_parse_buf (pos (suc n)))
bytes_sized (negsuc n) = pure none

unfoldable pub decode_bytes : Decoding (Option (List ℕ))
unfolding bytes_sized
decode_bytes = guarded none (do slen ← decode_int32; guarded none (bytes_sized slen))

-- (length, error)
unfoldable pub array_len : ℤ → ℤ × Option GoError
array_len (negsuc zero) = (pos 0, none)
array_len (negsuc n) = (negsuc n, none)
array_len (pos n) = if leb half32 n then (pos 0, some invalid_array_len) else (pos n, none)

unfoldable pub decode_array_len : Decoding (ℤ × Option GoError)
unfolding array_len
decode_array_len = do n ← decode_int32; pure (array_len n)

-- `if err != nil { return nil, err }`
unfoldable pub checked : ℤ × Option GoError → Decoding ℤ
checked (n, none) = pure n
checked (n, some e) = fail e

-- `errFromNo(dec.DecodeInt16())`
unfoldable pub decode_error : Decoding (Option GoError)
decode_error = do errno ← decode_int16; pure (err_from_no errno)

-- `dec.DecodeInt8() != 0`
unfoldable pub decode_nonzero : Decoding Bool
decode_nonzero = do b ← decode_int8; pure (not (eqb b (pos 0)))

-- make([]T, n): a negative length panics
unfoldable pub make_slice : ℤ → Decoding ℕ
make_slice (pos n) = pure n
make_slice (negsuc n) = crash

-- `for i := range xs { xs[i] = dec() }` over n elements
unfoldable pub fill : {A : Type 0} → Decoding A → ℕ → Decoding (List A)
fill dec zero = pure []
fill dec (suc n) = do x ← dec; xs ← fill dec n; pure (x ∷ xs)

-- `len, err := dec.DecodeArrayLen(); if err != nil { return nil, err }; xs = make([]T, len);
-- for i := range xs { … }`
unfoldable pub decode_slice : {A : Type 0} → Decoding A → Decoding (List A)
decode_slice dec = do l ← decode_array_len; n ← checked l; k ← make_slice n; fill dec k

-- `if c { x = dec() }`, with x at its zero value before
unfoldable pub optional : {A : Type 0} → Bool → A → Decoding A → Decoding A
optional true dflt dec = dec
optional false dflt dec = pure dflt
