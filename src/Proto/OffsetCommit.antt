-- ===== src/Proto/OffsetCommit.antt =====
-- OffsetCommitReq and OffsetCommitResp of v2/proto/messages.go.
pub mod RoundTrip
use kafka_api.Common.{ℕ, ◌≡◌, Bool, true, false, Option, none, List, [], ◌∷◌, length, if◌then◌else◌}
use kafka_api.Common.Int.{ℤ, pos, negsuc}
use kafka_api.Flow.{◌>>=◌, ◌>>◌, pure}
use kafka_api.Proto.Errors.{GoError, eqb}
use kafka_api.Proto.Writer.{Writer, Buffer, buffer_writer}
use kafka_api.Proto.Encoder.{
  Encoding, encode_int8, encode_int16, encode_int32, encode_int64, encode_string, encode_slice,
  encode_bool, encode_error, encode_duration, encode_int32s, encode_int64s, when,
}
use kafka_api.Proto.Decoder.{
  Reader, Decoding, decode_int8, decode_int16, decode_int32, decode_int64, decode_string,
  decode_nonzero, decode_error, decode_duration32, decode_slice, optional,
}
use kafka_api.Proto.Times.{Time, zero_time, encode_time, decode_time}
use kafka_api.Proto.Header.{Kind, RequestHeader, at_least, is_version, encode_header, decode_header}
use kafka_api.Proto.Frame.{Result, to_bytes, read_all}

pub record OffsetCommitReqPartition : Type 0 where
  pub id : ℤ
  pub offset : ℤ
  pub time_stamp : Time
  pub metadata : List ℕ

unfoldable pub encode_offset_commit_req_partition : ℤ → OffsetCommitReqPartition → Encoding Buffer
encode_offset_commit_req_partition version p = do
  encode_int32 p.id
  encode_int64 p.offset
  when (is_version version 1) (encode_time p.time_stamp)
  encode_string p.metadata

unfoldable pub decode_offset_commit_req_partition : ℤ → Decoding OffsetCommitReqPartition
decode_offset_commit_req_partition version = do
  id ← decode_int32
  offset ← decode_int64
  time_stamp ← optional (is_version version 1) zero_time decode_time
  metadata ← decode_string
  pure (record { id = id; offset = offset; time_stamp = time_stamp; metadata = metadata })

pub record OffsetCommitReqTopic : Type 0 where
  pub name : List ℕ
  pub partitions : List OffsetCommitReqPartition

unfoldable pub encode_offset_commit_req_topic : ℤ → OffsetCommitReqTopic → Encoding Buffer
encode_offset_commit_req_topic version t = do
  encode_string t.name
  encode_slice (encode_offset_commit_req_partition version) t.partitions

unfoldable pub decode_offset_commit_req_topic : ℤ → Decoding OffsetCommitReqTopic
decode_offset_commit_req_topic version = do
  name ← decode_string
  partitions ← decode_slice (decode_offset_commit_req_partition version)
  pure (record { name = name; partitions = partitions })

pub record OffsetCommitReq : Type 0 where
  pub header : RequestHeader
  pub consumer_group : List ℕ
  pub group_generation_id : ℤ
  pub member_id : List ℕ
  pub retention_time : ℤ
  pub topics : List OffsetCommitReqTopic

-- the statements of Bytes behind encodeHeader
unfoldable pub encode_offset_commit_req : OffsetCommitReq → Encoding Buffer
encode_offset_commit_req r = do
  encode_string r.consumer_group
  when (at_least r.header.version 1) (encode_int32 r.group_generation_id)
  when (at_least r.header.version 1) (encode_string r.member_id)
  when (at_least r.header.version 2) (encode_int64 r.retention_time)
  encode_slice (encode_offset_commit_req_topic r.header.version) r.topics

unfoldable pub offset_commit_req_bytes : OffsetCommitReq → Result (List ℕ)
offset_commit_req_bytes r =
    to_bytes (encode_header Kind.offset_commit r.header >> encode_offset_commit_req r)

unfoldable pub decode_offset_commit_req : RequestHeader → Decoding OffsetCommitReq
decode_offset_commit_req header = do
  consumer_group ← decode_string
  group_generation_id ← optional (at_least header.version 1) (pos 0) decode_int32
  member_id ← optional (at_least header.version 1) [] decode_string
  retention_time ← optional (at_least header.version 2) (pos 0) decode_int64
  topics ← decode_slice (decode_offset_commit_req_topic header.version)
  pure (record {
    header = header;
    consumer_group = consumer_group;
    group_generation_id = group_generation_id;
    member_id = member_id;
    retention_time = retention_time;
    topics = topics;
  })

unfoldable pub read_offset_commit_req : Reader → Result OffsetCommitReq
read_offset_commit_req = read_all (decode_header >>= decode_offset_commit_req)

pub record OffsetCommitRespPartition : Type 0 where
  pub id : ℤ
  pub err : Option GoError

unfoldable pub encode_offset_commit_resp_partition : OffsetCommitRespPartition → Encoding Buffer
encode_offset_commit_resp_partition p = do encode_int32 p.id; encode_error p.err

unfoldable pub decode_offset_commit_resp_partition : Decoding OffsetCommitRespPartition
decode_offset_commit_resp_partition = do
  id ← decode_int32
  err ← decode_error
  pure (record { id = id; err = err })

pub record OffsetCommitRespTopic : Type 0 where
  pub name : List ℕ
  pub partitions : List OffsetCommitRespPartition

unfoldable pub encode_offset_commit_resp_topic : OffsetCommitRespTopic → Encoding Buffer
encode_offset_commit_resp_topic t = do
  encode_string t.name
  encode_slice encode_offset_commit_resp_partition t.partitions

unfoldable pub decode_offset_commit_resp_topic : Decoding OffsetCommitRespTopic
decode_offset_commit_resp_topic = do
  name ← decode_string
  partitions ← decode_slice decode_offset_commit_resp_partition
  pure (record { name = name; partitions = partitions })

pub record OffsetCommitResp : Type 0 where
  pub version : ℤ
  pub correlation_id : ℤ
  pub throttle_time : ℤ
  pub topics : List OffsetCommitRespTopic

-- the statements of Bytes behind the placeholder for the size
unfoldable pub encode_offset_commit_resp : OffsetCommitResp → Encoding Buffer
encode_offset_commit_resp r = do
  encode_int32 r.correlation_id
  when (at_least r.version 3) (encode_duration r.throttle_time)
  encode_slice encode_offset_commit_resp_topic r.topics

unfoldable pub offset_commit_resp_bytes : OffsetCommitResp → Result (List ℕ)
offset_commit_resp_bytes r = to_bytes (encode_int32 (pos 0) >> encode_offset_commit_resp r)

unfoldable pub decode_offset_commit_resp : ℤ → Decoding OffsetCommitResp
decode_offset_commit_resp version = do
  correlation_id ← decode_int32
  throttle_time ← optional (at_least version 3) (pos 0) decode_duration32
  topics ← decode_slice decode_offset_commit_resp_topic
  pure (record {
    version = version;
    correlation_id = correlation_id;
    throttle_time = throttle_time;
    topics = topics;
  })

-- ReadVersionedOffsetCommitResp
unfoldable pub read_offset_commit_resp : ℤ → Reader → Result OffsetCommitResp
read_offset_commit_resp version =
    read_all (decode_int32 >>= (λ size. decode_offset_commit_resp version))
