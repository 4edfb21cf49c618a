-- ===== src/Proto/Codec/Fields.antt =====
-- The rules for the fields of variable length, and for those that are converted: strings, byte
-- slices, durations, flags, error numbers and arrays.
use kafka_api.Common.{
  ℕ, suc, ◌-◌, ◌*◌, ◌/◌, ◌<◌, ◌≡◌, ◌≢◌, refl, sym, Bool, true, false, Option, none, some, List, [],
  ◌∷◌, ◌++◌, append-nil, arith, length, subst,
}
use kafka_api.Common.Int.{ℤ, pos, negsuc, half16, half32, InRange, to_bits}
use kafka_api.Common.Bytes.{put_uint}
use kafka_api.Flow.{◌>>=◌, pure}
use kafka_api.Proto.Errors.{
  GoError, kafka_error, IsErrno, err_from_no, err_from_no-kafka_error, eqb→eq,
}
use kafka_api.Proto.Writer.{
  Writer, IsWriter, write_all-accepted, alloc_parse_buf, alloc_parse_buf-none,
}
use kafka_api.Proto.Encoder
use kafka_api.Proto.Encoder.{
  Encoder, Encoding, put_all, then_if_ok, quot, millisecond, len16, len32, each, bool_to_int8,
}
use kafka_api.Proto.Decoder
use kafka_api.Proto.Decoder.{
  Reader, Decoder, Decoding, new_decoder, read_bytes, guarded, scale, string_of, string_buf,
  string_sized, string_body, bytes_sized, bytes_body, array_len, checked, make_slice, fill,
}
use kafka_api.Proto.Codec.{
  Reads, Reads-bind, Reads-pure, Reads-map, Writes, Writes-then, Codec, Codec-last,
}
use kafka_api.Proto.Codec.Prims.{
  Reads-int16, Reads-int32, Reads-read_bytes, Reads-guarded, Codec-int8,
}

-- durations of whole milliseconds that an int32 counts
abbrev pub IsDuration32 : ℤ → Type 0
IsDuration32 d = (t : ℤ) × InRange half32 t × (d ≡ scale t)

pub quot-scale : (t : ℤ) → quot (scale t) millisecond ≡ t
unfolding quot scale
quot-scale (pos n) = ground arith
quot-scale (negsuc n) =
    let e : suc (suc n * millisecond - 1) / millisecond ≡ suc n = omega arith in rw (e, quot)

-- strings whose length fits the int16 before them
abbrev pub IsString : List ℕ → Type 0
IsString s = length s < half16

string_buf-none : (n : ℕ) → n < half16 → string_buf n ≡ none
unfolding string_buf alloc_parse_buf
string_buf-none n h = ground arith

sized_string : (s : List ℕ) → IsString s → Reads (string_sized (pos (length s))) s s
unfolding string_sized string_body
sized_string [] h = Reads-pure []
sized_string (x ∷ xs) h =
    let s : List ℕ = x ∷ xs in
    subst (λ o. Reads (string_body (length s) o) s s) (sym (string_buf-none (length s) h))
      (Reads-map (read_bytes (length s)) string_of s (Reads-read_bytes s))

Reads-string : (s : List ℕ) → IsString s → Reads Decoder.decode_string (put_uint 2 (len16 s) ++ s) s
unfolding Decoder.decode_string to_bits
Reads-string s h = Reads-guarded [] _ (put_uint 2 (len16 s) ++ s) (
    Reads-bind _ _ (put_uint 2 (len16 s)) s (Reads-int16 (pos (length s)) h)
      (Reads-guarded [] _ s (sized_string s h)))

-- byte slices that come back as they were: nil, or not empty and with a length that fits an int32
abbrev pub IsBytes : Option (List ℕ) → Type 0
IsBytes none = Unit {0}
IsBytes (some b) = (b ≢ []) × (length b < half32)

sized_bytes :
    (b : List ℕ) → b ≢ [] → length b < half32 → Reads (bytes_sized (pos (length b))) b (some b)
unfolding bytes_sized bytes_body
sized_bytes [] ne h = absurd (ne refl)
sized_bytes (x ∷ xs) ne h =
    let b : List ℕ = x ∷ xs in
    subst (λ o. Reads (bytes_body (length b) o) b (some b))
      (sym (alloc_parse_buf-none (length b) h)) (Reads-read_bytes b)

-- nil, or an error of the protocol other than the one that errnoToErr mixes up
abbrev pub IsError : Option GoError → Type 0
IsError none = Unit {0}
IsError (some (kafka_error n)) = IsErrno n × (n ≢ pos 32)
IsError _ = ⊥

errno_range : (n : ℤ) → IsErrno n → InRange half16 n
errno_range (pos n) h = omega arith
errno_range (negsuc n) h = omega arith

known_error : (n : ℤ) → IsErrno n → n ≢ pos 32 → err_from_no n ≡ some (kafka_error n)
known_error n h ne = ground (arith, err_from_no-kafka_error n h, eqb→eq n (pos 32))

abbrev pub bytes_image : Option (List ℕ) → List ℕ
bytes_image none = put_uint 4 (to_bits half32 (negsuc 0))
bytes_image (some b) = put_uint 4 (len32 b) ++ b

pub Reads-bytes : (o : Option (List ℕ)) → IsBytes o → Reads Decoder.decode_bytes (bytes_image o) o
unfolding Decoder.decode_bytes to_bits bytes_sized
Reads-bytes none h = rw (← append-nil (bytes_image none)) (
    Reads-guarded none _ (bytes_image none ++ []) (
      Reads-bind _ _ (bytes_image none) [] (Reads-int32 (negsuc 0) (omega arith))
        (Reads-guarded none _ [] (Reads-pure none))))
Reads-bytes (some b) (ne, h) = Reads-guarded none _ (put_uint 4 (len32 b) ++ b) (
    Reads-bind _ _ (put_uint 4 (len32 b)) b (Reads-int32 (pos (length b)) h)
      (Reads-guarded none _ b (sized_bytes b ne h)))

module _ {W : Type 0} ⦃io : Writer W⦄ (laws : IsWriter io) where
  Writes-put_all : (b : List ℕ) → Writes laws (put_all b) b
  unfolding put_all
  Writes-put_all b w h = rw (write_all-accepted laws w b h)

  Writes-then_if_ok : (m : Encoding W) (b : List ℕ) → Writes laws m b → Writes laws (then_if_ok m) b
  unfolding then_if_ok
  Writes-then_if_ok m b h = h

  Writes-string : (s : List ℕ) → Writes laws (Encoder.encode_string s) (put_uint 2 (len16 s) ++ s)
  unfolding Encoder.encode_string
  Writes-string s =
      Writes-then laws (put_all (put_uint 2 (len16 s))) (then_if_ok (put_all s)) _ s
        (Writes-put_all (put_uint 2 (len16 s))) (Writes-then_if_ok (put_all s) s (Writes-put_all s))

  pub Codec-string :
      (s : List ℕ) → IsString s → Codec laws (Encoder.encode_string s) Decoder.decode_string s
  Codec-string s h = record { bytes = _; writes = Writes-string s; reads = Reads-string s h }

  pub Writes-bytes : (o : Option (List ℕ)) → Writes laws (Encoder.encode_bytes o) (bytes_image o)
  unfolding Encoder.encode_bytes
  Writes-bytes none = Writes-put_all (bytes_image none)
  Writes-bytes (some b) =
      Writes-then laws (put_all (put_uint 4 (len32 b))) (then_if_ok (put_all b)) _ b
        (Writes-put_all (put_uint 4 (len32 b))) (Writes-then_if_ok (put_all b) b (Writes-put_all b))

  pub Codec-bytes :
      (o : Option (List ℕ)) → IsBytes o → Codec laws (Encoder.encode_bytes o) Decoder.decode_bytes o
  Codec-bytes o h = record {
    bytes = bytes_image o;
    writes = Writes-bytes o;
    reads = Reads-bytes o h;
  }

  Writes-duration :
      (d : ℤ)
      → Writes laws (Encoder.encode_duration d) (put_uint 4 (to_bits half32 (quot d millisecond)))
  unfolding Encoder.encode_duration
  Writes-duration d w h = rw (laws.write_accepted w _ h)

  scaled :
      (t : ℤ)
      → InRange half32 t
      → Codec laws (Encoder.encode_duration (scale t)) Decoder.decode_duration32 (scale t)
  unfolding Decoder.decode_duration32
  scaled t r = record {
    bytes = put_uint 4 (to_bits half32 t);
    writes =
        subst (λ x. Writes laws (Encoder.encode_duration (scale t)) (put_uint 4 (to_bits half32 x)))
          (quot-scale t) (Writes-duration (scale t));
    reads = Reads-map Decoder.decode_int32 scale (put_uint 4 (to_bits half32 t)) (Reads-int32 t r);
  }

  pub Codec-duration :
      (d : ℤ) → IsDuration32 d → Codec laws (Encoder.encode_duration d) Decoder.decode_duration32 d
  Codec-duration d (t, r, e) =
      subst (λ x. Codec laws (Encoder.encode_duration x) Decoder.decode_duration32 x) (sym e)
        (scaled t r)

  pub Codec-bool : (b : Bool) → Codec laws (Encoder.encode_bool b) Decoder.decode_nonzero b
  unfolding Encoder.encode_bool Decoder.decode_nonzero bool_to_int8
  Codec-bool true = Codec-last laws _ (Codec-int8 laws (pos 1) (omega arith))
  Codec-bool false = Codec-last laws _ (Codec-int8 laws (pos 0) (omega arith))

  Writes-errno :
      (n : ℤ)
      → Writes laws (Encoder.encode_error (some (kafka_error n))) (put_uint 2 (to_bits half16 n))
  unfolding Encoder.encode_error
  Writes-errno n = Writes-put_all (put_uint 2 (to_bits half16 n))

  Writes-no_error : Writes laws (Encoder.encode_error none) (put_uint 2 0)
  unfolding Encoder.encode_error
  Writes-no_error = Writes-put_all (put_uint 2 0)

  pub Codec-error :
      (e : Option GoError) → IsError e → Codec laws (Encoder.encode_error e) Decoder.decode_error e
  unfolding Decoder.decode_error
  Codec-error none h = record {
    bytes = put_uint 2 0;
    writes = Writes-no_error;
    reads =
        unfold err_from_no to_bits in
        Reads-map Decoder.decode_int16 err_from_no (put_uint 2 0)
          (Reads-int16 (pos 0) (omega arith));
  }
  Codec-error (some (kafka_error n)) (h, ne) = record {
    bytes = put_uint 2 (to_bits half16 n);
    writes = Writes-errno n;
    reads =
        subst
          (Reads (Decoder.decode_int16 >>= (λ x. pure (err_from_no x)))
            (put_uint 2 (to_bits half16 n)))
          (known_error n h ne)
          (Reads-map Decoder.decode_int16 err_from_no (put_uint 2 (to_bits half16 n))
            (Reads-int16 n (errno_range n h)));
  }
  Codec-error _ h = absurd h
