-- ===== src/Proto/Codec/Prims.antt =====
-- The encoder's methods against the decoder's, one rule for each type of field.
use kafka_api.Common.{
  ℕ, ◌+◌, ◌^◌, ◌<◌, ◌≡◌, refl, ap, ◌∙◌, Option, none, some, List, ◌++◌, arith, ==_refl, length,
  length-append, take-append, drop-append, subst,
}
use kafka_api.Common.Int.{
  ℤ, pos, half8, half16, half32, half64, InRange, to_bits, from_bits, to_bits-lt, from_bits-to_bits,
}
use kafka_api.Common.Bytes.{put_uint, get_uint, length-put_uint, get_uint-put_uint}
use kafka_api.Flow.{◌>>=◌, pure}
use kafka_api.Proto.Errors.{GoError}
use kafka_api.Proto.Writer.{Writer, IsWriter, write_all-accepted}
use kafka_api.Proto.Encoder
use kafka_api.Proto.Encoder.{Encoder, Encoding}
use kafka_api.Proto.Decoder
use kafka_api.Proto.Decoder.{Reader, Decoder, Decoding, new_decoder, read_full, read_bytes, guarded}
use kafka_api.Proto.Codec.{Reads, Writes, Codec, Reads-map}

pub read_full-append :
    (b rest : List ℕ) (e : GoError)
    → read_full (length b) (record { bytes = b ++ rest; ended = e })
      ≡ ((b, none), record { bytes = rest; ended = e })
unfolding read_full
read_full-append b rest e = rw (take-append, drop-append) (ground (arith, length-append b rest))

pub Reads-read_bytes : (b : List ℕ) → Reads (read_bytes (length b)) b (some b)
unfolding read_bytes
Reads-read_bytes b rest e = rw (read_full-append, ==_refl) refl

pub Reads-guarded :
    {A : Type 0} (z : A) (d : Decoding A) (b : List ℕ) {a : A}
    → Reads d b a
    → Reads (guarded z d) b a
unfolding guarded
Reads-guarded z d b h = h

Reads-read_exactly : (n : ℕ) (b : List ℕ) → length b ≡ n → Reads (read_bytes n) b (some b)
Reads-read_exactly n b h = subst (λ k. Reads (read_bytes k) b (some b)) h (Reads-read_bytes b)

-- an integer of k bytes, as `f` makes it of the bytes
Reads-number :
    {A : Type 0} (k u : ℕ) (f : Option (List ℕ) → A) (z v : A)
    → u < 256 ^ k
    → f (some (put_uint k u)) ≡ v
    → Reads (guarded z (read_bytes k >>= (λ b. pure (f b)))) (put_uint k u) v
Reads-number k u f z v p e =
    subst (Reads (guarded z (read_bytes k >>= (λ b. pure (f b)))) (put_uint k u)) e (
      Reads-guarded z _ (put_uint k u) (
        Reads-map (read_bytes k) f (put_uint k u)
          (Reads-read_exactly k (put_uint k u) (length-put_uint k u))))

Reads-signed :
    (h k : ℕ) (f : Option (List ℕ) → ℤ) (v : ℤ)
    → f (some (put_uint k (to_bits h v))) ≡ from_bits h (get_uint (put_uint k (to_bits h v)))
    → h + h ≡ 256 ^ k
    → 0 < h
    → InRange h v
    → Reads (guarded (pos 0) (read_bytes k >>= (λ b. pure (f b)))) (put_uint k (to_bits h v)) v
Reads-signed h k f v fs w p r =
    let fits : to_bits h v < 256 ^ k = omega (arith, to_bits-lt h v p) in
    Reads-number k (to_bits h v) f (pos 0) v fits
      (fs ∙ ap (from_bits h) (get_uint-put_uint k _ fits) ∙ from_bits-to_bits h v r)

pub Reads-int8 :
    (v : ℤ) → InRange half8 v → Reads Decoder.decode_int8 (put_uint 1 (to_bits half8 v)) v
unfolding Decoder.decode_int8
Reads-int8 v r = Reads-signed half8 1 _ v refl refl (omega arith) r

pub Reads-int16 :
    (v : ℤ) → InRange half16 v → Reads Decoder.decode_int16 (put_uint 2 (to_bits half16 v)) v
unfolding Decoder.decode_int16
Reads-int16 v r = Reads-signed half16 2 _ v refl refl (omega arith) r

pub Reads-int32 :
    (v : ℤ) → InRange half32 v → Reads Decoder.decode_int32 (put_uint 4 (to_bits half32 v)) v
unfolding Decoder.decode_int32
Reads-int32 v r = Reads-signed half32 4 _ v refl refl (omega arith) r

-- four bytes of any value
pub Reads-any32 :
    (u : ℕ) → u < 2 ^ 32 → Reads Decoder.decode_int32 (put_uint 4 u) (from_bits half32 u)
unfolding Decoder.decode_int32
Reads-any32 u r =
    Reads-number 4 u _ (pos 0) (from_bits half32 u) r
      (ap (from_bits half32) (get_uint-put_uint 4 u r))

pub Reads-int64 :
    (v : ℤ) → InRange half64 v → Reads Decoder.decode_int64 (put_uint 8 (to_bits half64 v)) v
unfolding Decoder.decode_int64
Reads-int64 v r = Reads-signed half64 8 _ v refl refl (omega arith) r

pub Reads-uint32 : (v : ℕ) → v < 2 ^ 32 → Reads Decoder.decode_uint32 (put_uint 4 v) v
unfolding Decoder.decode_uint32
Reads-uint32 v r = Reads-number 4 v _ 0 v r (get_uint-put_uint 4 v r)

module _ {W : Type 0} ⦃io : Writer W⦄ (laws : IsWriter io) where
  pub Writes-int8 : (v : ℤ) → Writes laws (Encoder.encode_int8 v) (put_uint 1 (to_bits half8 v))
  unfolding Encoder.encode_int8
  Writes-int8 v w h = rw (laws.write_accepted w _ h)

  pub Writes-int16 : (v : ℤ) → Writes laws (Encoder.encode_int16 v) (put_uint 2 (to_bits half16 v))
  unfolding Encoder.encode_int16
  Writes-int16 v w h = rw (write_all-accepted laws w _ h)

  pub Writes-int32 : (v : ℤ) → Writes laws (Encoder.encode_int32 v) (put_uint 4 (to_bits half32 v))
  unfolding Encoder.encode_int32
  Writes-int32 v w h = rw (write_all-accepted laws w _ h)

  pub Writes-int64 : (v : ℤ) → Writes laws (Encoder.encode_int64 v) (put_uint 8 (to_bits half64 v))
  unfolding Encoder.encode_int64
  Writes-int64 v w h = rw (write_all-accepted laws w _ h)

  pub Writes-uint32 : (v : ℕ) → Writes laws (Encoder.encode_uint32 v) (put_uint 4 v)
  unfolding Encoder.encode_uint32
  Writes-uint32 v w h = rw (write_all-accepted laws w _ h)

  pub Codec-int8 :
      (v : ℤ) → InRange half8 v → Codec laws (Encoder.encode_int8 v) Decoder.decode_int8 v
  Codec-int8 v r = record { bytes = _; writes = Writes-int8 v; reads = Reads-int8 v r }

  pub Codec-int16 :
      (v : ℤ) → InRange half16 v → Codec laws (Encoder.encode_int16 v) Decoder.decode_int16 v
  Codec-int16 v r = record { bytes = _; writes = Writes-int16 v; reads = Reads-int16 v r }

  pub Codec-int32 :
      (v : ℤ) → InRange half32 v → Codec laws (Encoder.encode_int32 v) Decoder.decode_int32 v
  Codec-int32 v r = record { bytes = _; writes = Writes-int32 v; reads = Reads-int32 v r }

  pub Codec-int64 :
      (v : ℤ) → InRange half64 v → Codec laws (Encoder.encode_int64 v) Decoder.decode_int64 v
  Codec-int64 v r = record { bytes = _; writes = Writes-int64 v; reads = Reads-int64 v r }

  pub Codec-uint32 :
      (v : ℕ) → v < 2 ^ 32 → Codec laws (Encoder.encode_uint32 v) Decoder.decode_uint32 v
  Codec-uint32 v r = record { bytes = _; writes = Writes-uint32 v; reads = Reads-uint32 v r }
