-- ===== src/Proto/Codec/Arrays.antt =====
-- The rules for arrays: their length, an int32, and then the elements.
use kafka_api.Common.{
  ℕ, ◌<◌, ◌≡◌, refl, sym, Option, none, List, [], ◌∷◌, ◌++◌, arith, length, subst, All,
}
use kafka_api.Common.Int.{ℤ, pos, negsuc, half32, half64, InRange, to_bits, wrap, from_bits-to_bits}
use kafka_api.Common.Bytes.{put_uint}
use kafka_api.Flow.{◌>>=◌, ◌>>◌, pure}
use kafka_api.Proto.Errors.{GoError}
use kafka_api.Proto.Writer.{Writer, IsWriter}
use kafka_api.Proto.Encoder
use kafka_api.Proto.Encoder.{Encoder, Encoding, encode_slice, each}
use kafka_api.Proto.Decoder
use kafka_api.Proto.Decoder.{Decoding, array_len, checked, make_slice, fill, decode_slice}
use kafka_api.Proto.Codec.{
  Reads, Reads-bind, Reads-pure, Reads-map, Writes, Writes-then, Codec, Codec-each,
}
use kafka_api.Proto.Codec.Prims.{Reads-int32, Writes-int32, Codec-int32, Codec-int64}

-- arrays whose length fits the int32 before them
abbrev pub IsArray : {A : Type 0} → List A → Type 0
IsArray xs = length xs < half32

pub array_len-pos : (n : ℕ) → n < half32 → array_len (pos n) ≡ (pos n, none)
unfolding array_len
array_len-pos n h = ground arith

no_error : (n : ℕ) → Reads (checked (pos n, none)) [] (pos n)
unfolding checked
no_error n = Reads-pure (pos n)

pub made : (n : ℕ) → Reads (make_slice (pos n)) [] n
unfolding make_slice
made n = Reads-pure n

pub Reads-array_len :
    (z : ℤ) {l : ℤ × Option GoError}
    → InRange half32 z
    → array_len z ≡ l
    → Reads Decoder.decode_array_len (put_uint 4 (to_bits half32 z)) l
unfolding Decoder.decode_array_len
Reads-array_len z h e =
    let b : List ℕ = put_uint 4 (to_bits half32 z) in
    subst (Reads (Decoder.decode_int32 >>= (λ m. pure (array_len m))) b) e
      (Reads-map Decoder.decode_int32 array_len b (Reads-int32 z h))

-- the three steps between the length and the elements do nothing for a length that is accepted
Reads-slice :
    {A : Type 0} (dec : Decoding A) (z : ℤ) (n : ℕ) (b : List ℕ) {xs : List A}
    → InRange half32 z
    → array_len z ≡ (pos n, none)
    → Reads (fill dec n) b xs
    → Reads (decode_slice dec) (put_uint 4 (to_bits half32 z) ++ b) xs
unfolding decode_slice
Reads-slice dec z n b {xs} h e hf =
    Reads-bind Decoder.decode_array_len _ (put_uint 4 (to_bits half32 z)) b (Reads-array_len z h e)
      (Reads-bind _ _ [] b (no_error n) (Reads-bind _ _ [] b (made n) hf))

pub All-map :
    {A : Type 0} {P : A → Type 0} {Q : A → Type 0} (xs : List A)
    → ((x : A) → P x → Q x)
    → All P xs
    → All Q xs
All-map [] f h = tt
All-map (x ∷ xs) f (h, hs) = (f x h, All-map xs f hs)

module _ {W : Type 0} ⦃io : Writer W⦄ (laws : IsWriter io) where
  pub Writes-array_len :
      (z : ℤ)
      → InRange half32 z
      → Writes laws (Encoder.encode_array_len z) (put_uint 4 (to_bits half32 z))
  unfolding Encoder.encode_array_len wrap
  Writes-array_len z h =
      subst (λ y. Writes laws (Encoder.encode_int32 y) (put_uint 4 (to_bits half32 z)))
        (sym (from_bits-to_bits half32 z h)) (Writes-int32 laws z)

  -- an array, from the rule for its elements; z is the length that is written
  Codec-sized :
      {A : Type 0} (m : A → Encoding W) (d : Decoding A) (xs : List A) (z : ℤ)
      → InRange half32 z
      → array_len z ≡ (pos (length xs), none)
      → All (λ x. Codec laws (m x) d x) xs
      → Codec laws (Encoder.encode_array_len z >> each m xs) (decode_slice d) xs
  Codec-sized m d xs z h e hs =
      let body : Codec laws (each m xs) (fill d (length xs)) xs = Codec-each laws m d xs hs in
      record {
        bytes = put_uint 4 (to_bits half32 z) ++ body.bytes;
        writes = Writes-then laws _ (each m xs) _ body.bytes (Writes-array_len z h) body.writes;
        reads = Reads-slice d z (length xs) body.bytes h e body.reads;
      }

  -- an empty array whose length is written as -1
  pub Codec-absent :
      {A : Type 0} (m : A → Encoding W) (d : Decoding A)
      → Codec laws (Encoder.encode_array_len (negsuc 0) >> each m []) (decode_slice d) []
  unfolding array_len
  Codec-absent m d = Codec-sized m d [] (negsuc 0) (omega arith) refl tt

  pub Codec-slice :
      {A : Type 0} (m : A → Encoding W) (d : Decoding A) (xs : List A)
      → IsArray xs
      → All (λ x. Codec laws (m x) d x) xs
      → Codec laws (encode_slice m xs) (decode_slice d) xs
  unfolding encode_slice
  Codec-slice m d xs h hs = Codec-sized m d xs (pos (length xs)) h (array_len-pos (length xs) h) hs

  -- the same, where a well-formed element has a rule
  pub Codec-slice_of :
      {A : Type 0} {P : A → Type 0} {m : A → Encoding W} {d : Decoding A}
      → ((x : A) → P x → Codec laws (m x) d x)
      → (xs : List A) → IsArray xs
      → All P xs
      → Codec laws (encode_slice m xs) (decode_slice d) xs
  Codec-slice_of {m = m} {d = d} f xs h hs = Codec-slice m d xs h (All-map xs f hs)

  pub Codec-int32s :
      (xs : List ℤ)
      → IsArray xs
      → All (InRange half32) xs
      → Codec laws (Encoder.encode_int32s xs) (decode_slice Decoder.decode_int32) xs
  unfolding Encoder.encode_int32s
  Codec-int32s xs h hs =
      let c : Codec laws (encode_slice Encoder.encode_int32 xs) (decode_slice Decoder.decode_int32)
          xs =
        Codec-slice_of (Codec-int32 laws) xs h hs in
      record { bytes = c.bytes; writes = unfold encode_slice in c.writes; reads = c.reads }

  pub Codec-int64s :
      (xs : List ℤ)
      → IsArray xs
      → All (InRange half64) xs
      → Codec laws (Encoder.encode_int64s xs) (decode_slice Decoder.decode_int64) xs
  unfolding Encoder.encode_int64s
  Codec-int64s xs h hs =
      let c : Codec laws (encode_slice Encoder.encode_int64 xs) (decode_slice Decoder.decode_int64)
          xs =
        Codec-slice_of (Codec-int64 laws) xs h hs in
      record { bytes = c.bytes; writes = unfold encode_slice in c.writes; reads = c.reads }
