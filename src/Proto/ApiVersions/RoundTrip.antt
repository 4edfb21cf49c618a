-- ===== src/Proto/ApiVersions/RoundTrip.antt =====
-- APIVersionsResp comes back as it was written.
use kafka_api.Common.{ℕ, ◌≡◌, false, List, ◌++◌, All, arith}
use kafka_api.Common.Int.{half16, half32, to_bits, pos, InRange}
use kafka_api.Flow.{ok, and_then, ◌>>=◌, ◌>>◌, pure}
use kafka_api.Common.Bytes.{put_uint}
use kafka_api.Proto.Errors.{GoError}
use kafka_api.Proto.Codec.Fields.{IsDuration32}
use kafka_api.Proto.Codec.Arrays.{IsArray}
use kafka_api.Proto.Rules.{
  Matches, Matches-bind, Matches-last, Matches-optional, Matches-slice, Matches-int16,
  Matches-duration,
}
use kafka_api.Proto.Header.{at_least}
use kafka_api.Proto.Frame.RoundTrip.{Sending, sent_back, response_sent}
use kafka_api.Proto.Writer.{Buffer, buffer_writer}
use kafka_api.Proto.Encoder.{Encoding, encode_int16}
use kafka_api.Proto.Decoder.{Decoding, decode_int16}
use kafka_api.Proto.ApiVersions.{
  ApiVersionsResp, check_code, encode_api_versions_resp, decode_api_versions_resp,
  api_versions_resp_bytes, read_api_versions_resp, SupportedVersion, encode_supported_version,
  decode_supported_version,
}

-- The values that the wire format of a version can carry: in range, and with the initial value
-- in a field that the version leaves out.
pub record IsSupportedVersion (a : SupportedVersion) : Type 0 where
  pub api_key : InRange half16 a.api_key
  pub min_version : InRange half16 a.min_version
  pub max_version : InRange half16 a.max_version

Matches-supported_version :
    (a : SupportedVersion)
    → IsSupportedVersion a
    → Matches (encode_supported_version a) (decode_supported_version) a
unfolding encode_supported_version decode_supported_version
Matches-supported_version a h = Matches-bind _ (Matches-int16 a.api_key h.api_key) (
    Matches-bind _ (Matches-int16 a.min_version h.min_version)
      (Matches-last _ (Matches-int16 a.max_version h.max_version)))

pub record IsApiVersionsResp (r : ApiVersionsResp) : Type 0 where
  pub correlation_id : InRange half32 r.correlation_id
  pub api_versions : IsArray r.api_versions
  pub each_api : All IsSupportedVersion r.api_versions
  pub throttle_time : IsDuration32 r.throttle_time
  pub no_throttle : at_least r.version 1 ≡ false → r.throttle_time ≡ pos 0

-- the error code 0 is written, and the check of it reads nothing
Matches-code :
    {A : Type 0} {k : Encoding Buffer} (f : Decoding A) {y : A}
    → Matches k f y
    → Matches
        (encode_int16 (pos 0) >> k)
        (decode_int16 >>= (λ errcode. check_code errcode >>= (λ u. f)))
        y
Matches-code f c =
    Matches-bind (λ errcode. check_code errcode >>= (λ u. f)) (Matches-int16 (pos 0) (omega arith))
      (record {
        bytes = c.bytes;
        writes = c.writes;
        reads = λ rest e. unfold check_code pure ◌>>=◌ in c.reads rest e;
      })

pub sent_api_versions_resp :
    (r : ApiVersionsResp)
    → IsApiVersionsResp r
    → Sending
        (put_uint 4 (to_bits half32 r.correlation_id))
        (api_versions_resp_bytes r)
        (read_api_versions_resp r.version)
        r
unfolding api_versions_resp_bytes read_api_versions_resp encode_api_versions_resp
    decode_api_versions_resp
sent_api_versions_resp r h = response_sent r.correlation_id _ r h.correlation_id (
    Matches-code _ (
      Matches-bind _
        (Matches-slice Matches-supported_version r.api_versions h.api_versions h.each_api)
        (Matches-last _ (
          Matches-optional (at_least r.version 1)
            (λ c. Matches-duration r.throttle_time h.throttle_time) h.no_throttle))))

-- A well-formed response, written by Bytes and read by ReadVersionedAPIVersionsResp at its version,
-- comes back as it was, whatever follows it on the stream.
pub read_api_versions_resp-api_versions_resp_bytes :
    (r : ApiVersionsResp) (rest : List ℕ) (e : GoError)
    → IsApiVersionsResp r
    → and_then
        (api_versions_resp_bytes r)
        (λ b. read_api_versions_resp r.version (record { bytes = b ++ rest; ended = e }))
      ≡ ok r
read_api_versions_resp-api_versions_resp_bytes r rest e h =
    sent_back (sent_api_versions_resp r h) rest e
