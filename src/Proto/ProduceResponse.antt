-- ===== src/Proto/ProduceResponse.antt =====
-- ProduceResp of v2/proto/messages.go.
pub mod RoundTrip
use kafka_api.Common.{ℕ, ◌≡◌, Bool, true, false, Option, none, List, [], ◌∷◌, length, if◌then◌else◌}
use kafka_api.Common.Int.{ℤ, pos, negsuc}
use kafka_api.Flow.{◌>>=◌, ◌>>◌, pure}
use kafka_api.Proto.Errors.{GoError, eqb}
use kafka_api.Proto.Writer.{Writer, Buffer, buffer_writer}
use kafka_api.Proto.Encoder.{
  Encoding, encode_int8, encode_int16, encode_int32, encode_int64, encode_string, encode_slice,
  encode_bool, encode_error, encode_duration, encode_int32s, encode_int64s, when,
}
use kafka_api.Proto.Decoder.{
  Reader, Decoding, decode_int8, decode_int16, decode_int32, decode_int64, decode_string,
  decode_nonzero, decode_error, decode_duration32, decode_slice, optional,
}
use kafka_api.Proto.Times.{Time, zero_time, encode_time, decode_time}
use kafka_api.Proto.Header.{Kind, RequestHeader, at_least, is_version, encode_header, decode_header}
use kafka_api.Proto.Frame.{Result, to_bytes, read_all}

pub record ProduceRespPartition : Type 0 where
  pub id : ℤ
  pub err : Option GoError
  pub offset : ℤ
  pub log_append_time : ℤ

unfoldable pub encode_produce_resp_partition : ℤ → ProduceRespPartition → Encoding Buffer
encode_produce_resp_partition version p = do
  encode_int32 p.id
  encode_error p.err
  encode_int64 p.offset
  when (at_least version 2) (encode_int64 p.log_append_time)

unfoldable pub decode_produce_resp_partition : ℤ → Decoding ProduceRespPartition
decode_produce_resp_partition version = do
  id ← decode_int32
  err ← decode_error
  offset ← decode_int64
  log_append_time ← optional (at_least version 2) (pos 0) decode_int64
  pure (record { id = id; err = err; offset = offset; log_append_time = log_append_time })

pub record ProduceRespTopic : Type 0 where
  pub name : List ℕ
  pub partitions : List ProduceRespPartition

unfoldable pub encode_produce_resp_topic : ℤ → ProduceRespTopic → Encoding Buffer
encode_produce_resp_topic version t = do
  encode_string t.name
  encode_slice (encode_produce_resp_partition version) t.partitions

unfoldable pub decode_produce_resp_topic : ℤ → Decoding ProduceRespTopic
decode_produce_resp_topic version = do
  name ← decode_string
  partitions ← decode_slice (decode_produce_resp_partition version)
  pure (record { name = name; partitions = partitions })

pub record ProduceResp : Type 0 where
  pub version : ℤ
  pub correlation_id : ℤ
  pub topics : List ProduceRespTopic
  pub throttle_time : ℤ

-- the statements of Bytes behind the placeholder for the size
unfoldable pub encode_produce_resp : ProduceResp → Encoding Buffer
encode_produce_resp r = do
  encode_int32 r.correlation_id
  encode_slice (encode_produce_resp_topic r.version) r.topics
  when (at_least r.version 1) (encode_duration r.throttle_time)

unfoldable pub produce_resp_bytes : ProduceResp → Result (List ℕ)
produce_resp_bytes r = to_bytes (encode_int32 (pos 0) >> encode_produce_resp r)

unfoldable pub decode_produce_resp : ℤ → Decoding ProduceResp
decode_produce_resp version = do
  correlation_id ← decode_int32
  topics ← decode_slice (decode_produce_resp_topic version)
  throttle_time ← optional (at_least version 1) (pos 0) decode_duration32
  pure (record {
    version = version;
    correlation_id = correlation_id;
    topics = topics;
    throttle_time = throttle_time;
  })

-- ReadVersionedProduceResp
unfoldable pub read_produce_resp : ℤ → Reader → Result ProduceResp
read_produce_resp version = read_all (decode_int32 >>= (λ size. decode_produce_resp version))
