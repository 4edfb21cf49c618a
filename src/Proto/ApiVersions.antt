-- ===== src/Proto/ApiVersions.antt =====
-- APIVersionsReq and ApiVersionsResp of v2/proto/messages.go.
pub mod RoundTrip
pub mod Request
use kafka_api.Common.{ℕ, ◌≡◌, Bool, true, false, Option, none, List, [], ◌∷◌, length, if◌then◌else◌}
use kafka_api.Common.Int.{ℤ, pos, negsuc}
use kafka_api.Flow.{◌>>=◌, ◌>>◌, pure, fail}
use kafka_api.Proto.Errors.{GoError, eqb, versioning_error}
use kafka_api.Proto.Writer.{Writer, Buffer, buffer_writer}
use kafka_api.Proto.Encoder.{
  Encoding, encode_int8, encode_int16, encode_int32, encode_int64, encode_string, encode_slice,
  encode_bool, encode_error, encode_duration, encode_int32s, encode_int64s, when,
}
use kafka_api.Proto.Decoder.{
  Reader, Decoding, decode_int8, decode_int16, decode_int32, decode_int64, decode_string,
  decode_nonzero, decode_error, decode_duration32, decode_slice, optional,
}
use kafka_api.Proto.Times.{Time, zero_time, encode_time, decode_time}
use kafka_api.Proto.Header.{Kind, RequestHeader, at_least, is_version, encode_header, decode_header}
use kafka_api.Proto.Frame.{Result, to_bytes, read_all}

pub record SupportedVersion : Type 0 where
  pub api_key : ℤ
  pub min_version : ℤ
  pub max_version : ℤ

unfoldable pub encode_supported_version : SupportedVersion → Encoding Buffer
encode_supported_version a = do
  encode_int16 a.api_key
  encode_int16 a.min_version
  encode_int16 a.max_version

unfoldable pub decode_supported_version : Decoding SupportedVersion
decode_supported_version = do
  api_key ← decode_int16
  min_version ← decode_int16
  max_version ← decode_int16
  pure (record { api_key = api_key; min_version = min_version; max_version = max_version })

-- a request is its header alone
unfoldable pub api_versions_req_bytes : RequestHeader → Result (List ℕ)
api_versions_req_bytes header = to_bytes (encode_header Kind.api_versions header)

-- The kind and the version are read together and dropped, so the version stays 0.
unfoldable pub decode_api_versions_req : Decoding RequestHeader
decode_api_versions_req = do
  key_and_version ← decode_int32
  correlation_id ← decode_int32
  client_id ← decode_string
  pure (record { version = pos 0; correlation_id = correlation_id; client_id = client_id })

unfoldable pub read_api_versions_req : Reader → Result RequestHeader
read_api_versions_req = read_all (decode_int32 >>= (λ size. decode_api_versions_req))

pub record ApiVersionsResp : Type 0 where
  pub version : ℤ
  pub correlation_id : ℤ
  pub api_versions : List SupportedVersion
  pub throttle_time : ℤ

unfoldable pub encode_api_versions_resp : ApiVersionsResp → Encoding Buffer
encode_api_versions_resp r = do
  encode_int32 r.correlation_id
  encode_int16 (pos 0)
  encode_slice encode_supported_version r.api_versions
  when (at_least r.version 1) (encode_duration r.throttle_time)

unfoldable pub api_versions_resp_bytes : ApiVersionsResp → Result (List ℕ)
api_versions_resp_bytes r = to_bytes (encode_int32 (pos 0) >> encode_api_versions_resp r)

-- `if errcode != 0 { return nil, fmt.Errorf(…) }`
unfoldable pub check_code : ℤ → Decoding Unit
check_code errcode = if eqb errcode (pos 0) then pure tt else fail (versioning_error errcode)

unfoldable pub decode_api_versions_resp : ℤ → Decoding ApiVersionsResp
decode_api_versions_resp version = do
  correlation_id ← decode_int32
  errcode ← decode_int16
  u ← check_code errcode
  api_versions ← decode_slice decode_supported_version
  throttle_time ← optional (at_least version 1) (pos 0) decode_duration32
  pure (record {
    version = version;
    correlation_id = correlation_id;
    api_versions = api_versions;
    throttle_time = throttle_time;
  })

-- ReadVersionedAPIVersionsResp
unfoldable pub read_api_versions_resp : ℤ → Reader → Result ApiVersionsResp
read_api_versions_resp version =
    read_all (decode_int32 >>= (λ size. decode_api_versions_resp version))
