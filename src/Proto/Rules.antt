-- ===== src/Proto/Rules.antt =====
-- The rules of Codec at bytes.Buffer, the writer of the Bytes methods.
use kafka_api.Common.{ℕ, ◌≡◌, Bool, true, false, Option, List, All}
use kafka_api.Common.Int.{ℤ, half8, half16, half32, half64, InRange}
use kafka_api.Flow.{◌>>=◌, ◌>>◌, pure}
use kafka_api.Proto.Errors.{GoError}
use kafka_api.Proto.Writer.{Buffer, buffer_writer, buffer_laws}
use kafka_api.Proto.Encoder
use kafka_api.Proto.Encoder.{Encoding, encode_slice, when}
use kafka_api.Proto.Decoder
use kafka_api.Proto.Decoder.{Decoding, decode_slice, optional}
use kafka_api.Proto.Codec.{Codec, Codec-bind, Codec-last, Codec-optional}
use kafka_api.Proto.Codec.Prims.{Codec-int8, Codec-int16, Codec-int32, Codec-int64}
use kafka_api.Proto.Codec.Fields.{
  IsString, IsBytes, IsError, IsDuration32, Codec-string, Codec-bytes, Codec-bool, Codec-error,
  Codec-duration,
}
use kafka_api.Proto.Codec.Arrays.{IsArray, Codec-slice_of, Codec-int32s, Codec-int64s}

-- what the encoder action writes to a buffer, the decoder action reads as the value
abbrev pub Matches : {A : Type 0} → Encoding Buffer → Decoding A → A → Type 0
Matches m d a = Codec buffer_laws m d a

module _ {A B : Type 0} where
  pub Matches-bind :
      {m k : Encoding Buffer} {d : Decoding A} (f : A → Decoding B) {x : A} {y : B}
      → Matches m d x
      → Matches k (f x) y
      → Matches (m >> k) (d >>= f) y
  Matches-bind f h l = Codec-bind buffer_laws f h l

  pub Matches-last :
      {m : Encoding Buffer} {d : Decoding A} (g : A → B) {x : A}
      → Matches m d x
      → Matches m (d >>= (λ y. pure (g y))) (g x)
  Matches-last g h = Codec-last buffer_laws g h

pub Matches-optional :
    {A : Type 0} {m : Encoding Buffer} {d : Decoding A} {x z : A} (c : Bool)
    → (c ≡ true → Matches m d x)
    → (c ≡ false → x ≡ z)
    → Matches (when c m) (optional c z d) x
Matches-optional c h l = Codec-optional buffer_laws c h l

pub Matches-slice :
    {A : Type 0} {P : A → Type 0} {m : A → Encoding Buffer} {d : Decoding A}
    → ((x : A) → P x → Matches (m x) d x)
    → (xs : List A) → IsArray xs
    → All P xs
    → Matches (encode_slice m xs) (decode_slice d) xs
Matches-slice f xs h hs = Codec-slice_of buffer_laws f xs h hs

pub Matches-int8 : (v : ℤ) → InRange half8 v → Matches (Encoder.encode_int8 v) Decoder.decode_int8 v
Matches-int8 v h = Codec-int8 buffer_laws v h

pub Matches-int16 :
    (v : ℤ) → InRange half16 v → Matches (Encoder.encode_int16 v) Decoder.decode_int16 v
Matches-int16 v h = Codec-int16 buffer_laws v h

pub Matches-int32 :
    (v : ℤ) → InRange half32 v → Matches (Encoder.encode_int32 v) Decoder.decode_int32 v
Matches-int32 v h = Codec-int32 buffer_laws v h

pub Matches-int64 :
    (v : ℤ) → InRange half64 v → Matches (Encoder.encode_int64 v) Decoder.decode_int64 v
Matches-int64 v h = Codec-int64 buffer_laws v h

pub Matches-string :
    (s : List ℕ) → IsString s → Matches (Encoder.encode_string s) Decoder.decode_string s
Matches-string s h = Codec-string buffer_laws s h

pub Matches-bytes :
    (o : Option (List ℕ)) → IsBytes o → Matches (Encoder.encode_bytes o) Decoder.decode_bytes o
Matches-bytes o h = Codec-bytes buffer_laws o h

pub Matches-bool : (b : Bool) → Matches (Encoder.encode_bool b) Decoder.decode_nonzero b
Matches-bool b = Codec-bool buffer_laws b

pub Matches-error :
    (e : Option GoError) → IsError e → Matches (Encoder.encode_error e) Decoder.decode_error e
Matches-error e h = Codec-error buffer_laws e h

pub Matches-duration :
    (d : ℤ) → IsDuration32 d → Matches (Encoder.encode_duration d) Decoder.decode_duration32 d
Matches-duration d h = Codec-duration buffer_laws d h

pub Matches-int32s :
    (xs : List ℤ)
    → IsArray xs
    → All (InRange half32) xs
    → Matches (Encoder.encode_int32s xs) (decode_slice Decoder.decode_int32) xs
Matches-int32s xs h hs = Codec-int32s buffer_laws xs h hs

pub Matches-int64s :
    (xs : List ℤ)
    → IsArray xs
    → All (InRange half64) xs
    → Matches (Encoder.encode_int64s xs) (decode_slice Decoder.decode_int64) xs
Matches-int64s xs h hs = Codec-int64s buffer_laws xs h hs
