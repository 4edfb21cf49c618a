-- ===== src/Proto/ConsumerMetadata.antt =====
-- ConsumerMetadataReq and ConsumerMetadataResp of v2/proto/messages.go.
pub mod RoundTrip
use kafka_api.Common.{ℕ, ◌≡◌, Bool, true, false, Option, none, List, [], ◌∷◌, length, if◌then◌else◌}
use kafka_api.Common.Int.{ℤ, pos, negsuc}
use kafka_api.Flow.{◌>>=◌, ◌>>◌, pure}
use kafka_api.Proto.Errors.{GoError, eqb}
use kafka_api.Proto.Writer.{Writer, Buffer, buffer_writer}
use kafka_api.Proto.Encoder.{
  Encoding, encode_int8, encode_int16, encode_int32, encode_int64, encode_string, encode_slice,
  encode_bool, encode_error, encode_duration, encode_int32s, encode_int64s, when,
}
use kafka_api.Proto.Decoder.{
  Reader, Decoding, decode_int8, decode_int16, decode_int32, decode_int64, decode_string,
  decode_nonzero, decode_error, decode_duration32, decode_slice, optional,
}
use kafka_api.Proto.Times.{Time, zero_time, encode_time, decode_time}
use kafka_api.Proto.Header.{Kind, RequestHeader, at_least, is_version, encode_header, decode_header}
use kafka_api.Proto.Frame.{Result, to_bytes, read_all}

pub record ConsumerMetadataReq : Type 0 where
  pub header : RequestHeader
  pub consumer_group : List ℕ
  pub coordinator_type : ℤ

-- Bytes never writes the coordinator type, which ReadConsumerMetadataReq reads from version 1 on.
unfoldable pub consumer_metadata_req_bytes : ConsumerMetadataReq → Result (List ℕ)
consumer_metadata_req_bytes r =
    to_bytes (encode_header Kind.consumer_metadata r.header >> encode_string r.consumer_group)

-- the statements of ReadConsumerMetadataReq behind the consumer group
unfoldable pub decode_coordinator : RequestHeader → List ℕ → Decoding ConsumerMetadataReq
decode_coordinator header consumer_group = do
  coordinator_type ← optional (at_least header.version 1) (pos 0) decode_int8
  pure (record {
    header = header;
    consumer_group = consumer_group;
    coordinator_type = coordinator_type;
  })

unfoldable pub decode_consumer_metadata_req : RequestHeader → Decoding ConsumerMetadataReq
decode_consumer_metadata_req header = decode_string >>= decode_coordinator header

unfoldable pub read_consumer_metadata_req : Reader → Result ConsumerMetadataReq
read_consumer_metadata_req = read_all (decode_header >>= decode_consumer_metadata_req)

pub record ConsumerMetadataResp : Type 0 where
  pub version : ℤ
  pub correlation_id : ℤ
  pub throttle_time : ℤ
  pub err : Option GoError
  pub err_msg : List ℕ
  pub coordinator_id : ℤ
  pub coordinator_host : List ℕ
  pub coordinator_port : ℤ

-- the statements of Bytes behind the placeholder for the size
unfoldable pub encode_consumer_metadata_resp : ConsumerMetadataResp → Encoding Buffer
encode_consumer_metadata_resp r = do
  encode_int32 r.correlation_id
  when (at_least r.version 1) (encode_duration r.throttle_time)
  encode_error r.err
  when (at_least r.version 1) (encode_string r.err_msg)
  encode_int32 r.coordinator_id
  encode_string r.coordinator_host
  encode_int32 r.coordinator_port

unfoldable pub consumer_metadata_resp_bytes : ConsumerMetadataResp → Result (List ℕ)
consumer_metadata_resp_bytes r = to_bytes (encode_int32 (pos 0) >> encode_consumer_metadata_resp r)

unfoldable pub decode_consumer_metadata_resp : ℤ → Decoding ConsumerMetadataResp
decode_consumer_metadata_resp version = do
  correlation_id ← decode_int32
  throttle_time ← optional (at_least version 1) (pos 0) decode_duration32
  err ← decode_error
  err_msg ← optional (at_least version 1) [] decode_string
  coordinator_id ← decode_int32
  coordinator_host ← decode_string
  coordinator_port ← decode_int32
  pure (record {
    version = version;
    correlation_id = correlation_id;
    throttle_time = throttle_time;
    err = err;
    err_msg = err_msg;
    coordinator_id = coordinator_id;
    coordinator_host = coordinator_host;
    coordinator_port = coordinator_port;
  })

-- ReadVersionedConsumerMetadataResp
unfoldable pub read_consumer_metadata_resp : ℤ → Reader → Result ConsumerMetadataResp
read_consumer_metadata_resp version =
    read_all (decode_int32 >>= (λ size. decode_consumer_metadata_resp version))
