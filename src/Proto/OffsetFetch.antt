-- ===== src/Proto/OffsetFetch.antt =====
-- OffsetFetchReq and OffsetFetchResp of v2/proto/messages.go.
pub mod RoundTrip
use kafka_api.Common.{ℕ, ◌≡◌, Bool, true, false, Option, none, List, [], ◌∷◌, length, if◌then◌else◌}
use kafka_api.Common.Int.{ℤ, pos, negsuc}
use kafka_api.Flow.{◌>>=◌, ◌>>◌, pure}
use kafka_api.Proto.Errors.{GoError, eqb}
use kafka_api.Proto.Writer.{Writer, Buffer, buffer_writer}
use kafka_api.Proto.Encoder.{
  Encoding, encode_int8, encode_int16, encode_int32, encode_int64, encode_string, encode_slice,
  encode_bool, encode_error, encode_duration, encode_int32s, encode_int64s, when,
}
use kafka_api.Proto.Decoder.{
  Reader, Decoding, decode_int8, decode_int16, decode_int32, decode_int64, decode_string,
  decode_nonzero, decode_error, decode_duration32, decode_slice, optional,
}
use kafka_api.Proto.Times.{Time, zero_time, encode_time, decode_time}
use kafka_api.Proto.Header.{Kind, RequestHeader, at_least, is_version, encode_header, decode_header}
use kafka_api.Proto.Frame.{Result, to_bytes, read_all}

pub record OffsetFetchReqTopic : Type 0 where
  pub name : List ℕ
  pub partitions : List ℤ

unfoldable pub encode_offset_fetch_req_topic : OffsetFetchReqTopic → Encoding Buffer
encode_offset_fetch_req_topic t = do encode_string t.name; encode_int32s t.partitions

unfoldable pub decode_offset_fetch_req_topic : Decoding OffsetFetchReqTopic
decode_offset_fetch_req_topic = do
  name ← decode_string
  partitions ← decode_slice decode_int32
  pure (record { name = name; partitions = partitions })

pub record OffsetFetchReq : Type 0 where
  pub header : RequestHeader
  pub consumer_group : List ℕ
  pub topics : List OffsetFetchReqTopic

-- the statements of Bytes behind encodeHeader
unfoldable pub encode_offset_fetch_req : OffsetFetchReq → Encoding Buffer
encode_offset_fetch_req r = do
  encode_string r.consumer_group
  encode_slice encode_offset_fetch_req_topic r.topics

unfoldable pub offset_fetch_req_bytes : OffsetFetchReq → Result (List ℕ)
offset_fetch_req_bytes r =
    to_bytes (encode_header Kind.offset_fetch r.header >> encode_offset_fetch_req r)

unfoldable pub decode_offset_fetch_req : RequestHeader → Decoding OffsetFetchReq
decode_offset_fetch_req header = do
  consumer_group ← decode_string
  topics ← decode_slice decode_offset_fetch_req_topic
  pure (record { header = header; consumer_group = consumer_group; topics = topics })

unfoldable pub read_offset_fetch_req : Reader → Result OffsetFetchReq
read_offset_fetch_req = read_all (decode_header >>= decode_offset_fetch_req)

pub record OffsetFetchRespPartition : Type 0 where
  pub id : ℤ
  pub offset : ℤ
  pub metadata : List ℕ
  pub err : Option GoError

unfoldable pub encode_offset_fetch_resp_partition : OffsetFetchRespPartition → Encoding Buffer
encode_offset_fetch_resp_partition p = do
  encode_int32 p.id
  encode_int64 p.offset
  encode_string p.metadata
  encode_error p.err

unfoldable pub decode_offset_fetch_resp_partition : Decoding OffsetFetchRespPartition
decode_offset_fetch_resp_partition = do
  id ← decode_int32
  offset ← decode_int64
  metadata ← decode_string
  err ← decode_error
  pure (record { id = id; offset = offset; metadata = metadata; err = err })

pub record OffsetFetchRespTopic : Type 0 where
  pub name : List ℕ
  pub partitions : List OffsetFetchRespPartition

unfoldable pub encode_offset_fetch_resp_topic : OffsetFetchRespTopic → Encoding Buffer
encode_offset_fetch_resp_topic t = do
  encode_string t.name
  encode_slice encode_offset_fetch_resp_partition t.partitions

unfoldable pub decode_offset_fetch_resp_topic : Decoding OffsetFetchRespTopic
decode_offset_fetch_resp_topic = do
  name ← decode_string
  partitions ← decode_slice decode_offset_fetch_resp_partition
  pure (record { name = name; partitions = partitions })

pub record OffsetFetchResp : Type 0 where
  pub version : ℤ
  pub correlation_id : ℤ
  pub throttle_time : ℤ
  pub topics : List OffsetFetchRespTopic
  pub err : Option GoError

-- the statements of Bytes behind the placeholder for the size
unfoldable pub encode_offset_fetch_resp : OffsetFetchResp → Encoding Buffer
encode_offset_fetch_resp r = do
  encode_int32 r.correlation_id
  when (at_least r.version 3) (encode_duration r.throttle_time)
  encode_slice encode_offset_fetch_resp_topic r.topics
  when (at_least r.version 2) (encode_error r.err)

unfoldable pub offset_fetch_resp_bytes : OffsetFetchResp → Result (List ℕ)
offset_fetch_resp_bytes r = to_bytes (encode_int32 (pos 0) >> encode_offset_fetch_resp r)

unfoldable pub decode_offset_fetch_resp : ℤ → Decoding OffsetFetchResp
decode_offset_fetch_resp version = do
  correlation_id ← decode_int32
  throttle_time ← optional (at_least version 3) (pos 0) decode_duration32
  topics ← decode_slice decode_offset_fetch_resp_topic
  err ← optional (at_least version 2) none decode_error
  pure (record {
    version = version;
    correlation_id = correlation_id;
    throttle_time = throttle_time;
    topics = topics;
    err = err;
  })

-- ReadVersionedOffsetFetchResp
unfoldable pub read_offset_fetch_resp : ℤ → Reader → Result OffsetFetchResp
read_offset_fetch_resp version =
    read_all (decode_int32 >>= (λ size. decode_offset_fetch_resp version))
