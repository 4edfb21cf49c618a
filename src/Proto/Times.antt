-- ===== src/Proto/Times.antt =====
-- time.Time values as v2/proto/messages.go sends them: whole milliseconds since 1970, in an int64.
use kafka_api.Common.{◌≡◌, sym, subst}
use kafka_api.Common.Int.{ℤ, negsuc, half64, InRange, wrap, to_bits, from_bits, from_bits-to_bits}
use kafka_api.Flow.{◌>>=◌, pure}
use kafka_api.Proto.Writer.{Buffer, buffer_writer}
use kafka_api.Proto.Encoder.{Encoding, encode_int64, quot, millisecond}
use kafka_api.Proto.Decoder.{Decoding, decode_int64, scale}
use kafka_api.Proto.Codec.Fields.{quot-scale}
use kafka_api.Proto.Rules.{Matches, Matches-last, Matches-int64}

-- a time.Time by its nanoseconds since 1970, or the zero Time, which lies outside their range
pub data Time : Type 0 where
  zero_time : Time
  at_nano : ℤ → Time

-- UnixNano(); for the zero Time the int64 arithmetic wraps around to this value
unfoldable pub unix_nano : Time → ℤ
unix_nano zero_time = negsuc 6795364578871345151
unix_nano (at_nano n) = n

-- `enc.EncodeInt64(t.UnixNano() / int64(time.Millisecond))`
unfoldable pub encode_time : Time → Encoding Buffer
unfolding unix_nano
encode_time t = encode_int64 (quot (unix_nano t) millisecond)

-- `time.Unix(0, dec.DecodeInt64()*int64(time.Millisecond))`
unfoldable pub decode_time : Decoding Time
decode_time = do ms ← decode_int64; pure (at_nano (wrap half64 (scale ms)))

-- times of whole milliseconds whose nanoseconds fit an int64
abbrev pub IsTime : Time → Type 0
IsTime t = (ms : ℤ) × InRange half64 ms × InRange half64 (scale ms) × (t ≡ at_nano (scale ms))

sent :
    (ms : ℤ)
    → InRange half64 ms
    → InRange half64 (scale ms)
    → Matches (encode_time (at_nano (scale ms))) decode_time (at_nano (scale ms))
unfolding encode_time decode_time wrap
sent ms r fits =
    subst (λ n. Matches (encode_int64 (quot (scale ms) millisecond)) decode_time (at_nano n))
      (from_bits-to_bits half64 (scale ms) fits)
      (subst
        (λ n.
          Matches (encode_int64 n) decode_time
            (at_nano (from_bits half64 (to_bits half64 (scale ms)))))
        (sym (quot-scale ms)) (Matches-last _ (Matches-int64 ms r)))

pub Matches-time : (t : Time) → IsTime t → Matches (encode_time t) decode_time t
Matches-time t (ms, r, fits, e) =
    subst (λ x. Matches (encode_time x) decode_time x) (sym e) (sent ms r fits)
