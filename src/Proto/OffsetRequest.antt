-- ===== src/Proto/OffsetRequest.antt =====
-- OffsetReq of v2/proto/messages.go. Bytes writes -1 in place of the replica id.
pub mod RoundTrip
use kafka_api.Common.{ℕ, ◌≡◌, Bool, true, false, Option, none, List, [], ◌∷◌, length, if◌then◌else◌}
use kafka_api.Common.Int.{ℤ, pos, negsuc}
use kafka_api.Flow.{◌>>=◌, ◌>>◌, pure}
use kafka_api.Proto.Errors.{GoError, eqb}
use kafka_api.Proto.Writer.{Writer, Buffer, buffer_writer}
use kafka_api.Proto.Encoder.{
  Encoding, encode_int8, encode_int16, encode_int32, encode_int64, encode_string, encode_slice,
  encode_bool, encode_error, encode_duration, encode_int32s, encode_int64s, when,
}
use kafka_api.Proto.Decoder.{
  Reader, Decoding, decode_int8, decode_int16, decode_int32, decode_int64, decode_string,
  decode_nonzero, decode_error, decode_duration32, decode_slice, optional,
}
use kafka_api.Proto.Times.{Time, zero_time, encode_time, decode_time}
use kafka_api.Proto.Header.{Kind, RequestHeader, at_least, is_version, encode_header, decode_header}
use kafka_api.Proto.Frame.{Result, to_bytes, read_all}

pub record OffsetReqPartition : Type 0 where
  pub id : ℤ
  pub time_ms : ℤ
  pub max_offsets : ℤ

unfoldable pub encode_offset_req_partition : ℤ → OffsetReqPartition → Encoding Buffer
encode_offset_req_partition version p = do
  encode_int32 p.id
  encode_int64 p.time_ms
  when (is_version version 0) (encode_int32 p.max_offsets)

unfoldable pub decode_offset_req_partition : ℤ → Decoding OffsetReqPartition
decode_offset_req_partition version = do
  id ← decode_int32
  time_ms ← decode_int64
  max_offsets ← optional (is_version version 0) (pos 0) decode_int32
  pure (record { id = id; time_ms = time_ms; max_offsets = max_offsets })

pub record OffsetReqTopic : Type 0 where
  pub name : List ℕ
  pub partitions : List OffsetReqPartition

unfoldable pub encode_offset_req_topic : ℤ → OffsetReqTopic → Encoding Buffer
encode_offset_req_topic version t = do
  encode_string t.name
  encode_slice (encode_offset_req_partition version) t.partitions

unfoldable pub decode_offset_req_topic : ℤ → Decoding OffsetReqTopic
decode_offset_req_topic version = do
  name ← decode_string
  partitions ← decode_slice (decode_offset_req_partition version)
  pure (record { name = name; partitions = partitions })

pub record OffsetReq : Type 0 where
  pub header : RequestHeader
  pub replica_id : ℤ
  pub isolation_level : ℤ
  pub topics : List OffsetReqTopic

-- the statements of Bytes behind encodeHeader
unfoldable pub encode_offset_req : OffsetReq → Encoding Buffer
encode_offset_req r = do
  encode_int32 (negsuc 0)
  when (at_least r.header.version 2) (encode_int8 r.isolation_level)
  encode_slice (encode_offset_req_topic r.header.version) r.topics

unfoldable pub offset_req_bytes : OffsetReq → Result (List ℕ)
offset_req_bytes r = to_bytes (encode_header Kind.offset r.header >> encode_offset_req r)

unfoldable pub decode_offset_req : RequestHeader → Decoding OffsetReq
decode_offset_req header = do
  replica_id ← decode_int32
  isolation_level ← optional (at_least header.version 2) (pos 0) decode_int8
  topics ← decode_slice (decode_offset_req_topic header.version)
  pure (record {
    header = header;
    replica_id = replica_id;
    isolation_level = isolation_level;
    topics = topics;
  })

unfoldable pub read_offset_req : Reader → Result OffsetReq
read_offset_req = read_all (decode_header >>= decode_offset_req)
