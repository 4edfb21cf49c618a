-- ===== src/Proto/FetchRequest.antt =====
-- FetchReq of v2/proto/messages.go. Bytes writes -1 in place of the replica id.
pub mod RoundTrip
use kafka_api.Common.{ℕ, ◌≡◌, Bool, true, false, Option, none, List, [], ◌∷◌, length, if◌then◌else◌}
use kafka_api.Common.Int.{ℤ, pos, negsuc}
use kafka_api.Flow.{◌>>=◌, ◌>>◌, pure}
use kafka_api.Proto.Errors.{GoError, eqb}
use kafka_api.Proto.Writer.{Writer, Buffer, buffer_writer}
use kafka_api.Proto.Encoder.{
  Encoding, encode_int8, encode_int16, encode_int32, encode_int64, encode_string, encode_slice,
  encode_bool, encode_error, encode_duration, encode_int32s, encode_int64s, when,
}
use kafka_api.Proto.Decoder.{
  Reader, Decoding, decode_int8, decode_int16, decode_int32, decode_int64, decode_string,
  decode_nonzero, decode_error, decode_duration32, decode_slice, optional,
}
use kafka_api.Proto.Times.{Time, zero_time, encode_time, decode_time}
use kafka_api.Proto.Header.{Kind, RequestHeader, at_least, is_version, encode_header, decode_header}
use kafka_api.Proto.Frame.{Result, to_bytes, read_all}

pub record FetchReqPartition : Type 0 where
  pub id : ℤ
  pub fetch_offset : ℤ
  pub log_start_offset : ℤ
  pub max_bytes : ℤ

unfoldable pub encode_fetch_req_partition : ℤ → FetchReqPartition → Encoding Buffer
encode_fetch_req_partition version p = do
  encode_int32 p.id
  encode_int64 p.fetch_offset
  when (at_least version 5) (encode_int64 p.log_start_offset)
  encode_int32 p.max_bytes

unfoldable pub decode_fetch_req_partition : ℤ → Decoding FetchReqPartition
decode_fetch_req_partition version = do
  id ← decode_int32
  fetch_offset ← decode_int64
  log_start_offset ← optional (at_least version 5) (pos 0) decode_int64
  max_bytes ← decode_int32
  pure (record {
    id = id;
    fetch_offset = fetch_offset;
    log_start_offset = log_start_offset;
    max_bytes = max_bytes;
  })

pub record FetchReqTopic : Type 0 where
  pub name : List ℕ
  pub partitions : List FetchReqPartition

unfoldable pub encode_fetch_req_topic : ℤ → FetchReqTopic → Encoding Buffer
encode_fetch_req_topic version t = do
  encode_string t.name
  encode_slice (encode_fetch_req_partition version) t.partitions

unfoldable pub decode_fetch_req_topic : ℤ → Decoding FetchReqTopic
decode_fetch_req_topic version = do
  name ← decode_string
  partitions ← decode_slice (decode_fetch_req_partition version)
  pure (record { name = name; partitions = partitions })

pub record FetchReq : Type 0 where
  pub header : RequestHeader
  pub replica_id : ℤ
  pub max_wait_time : ℤ
  pub min_bytes : ℤ
  pub max_bytes : ℤ
  pub isolation_level : ℤ
  pub topics : List FetchReqTopic

-- the statements of Bytes behind encodeHeader
unfoldable pub encode_fetch_req : FetchReq → Encoding Buffer
encode_fetch_req r = do
  encode_int32 (negsuc 0)
  encode_duration r.max_wait_time
  encode_int32 r.min_bytes
  when (at_least r.header.version 3) (encode_int32 r.max_bytes)
  when (at_least r.header.version 4) (encode_int8 r.isolation_level)
  encode_slice (encode_fetch_req_topic r.header.version) r.topics

unfoldable pub fetch_req_bytes : FetchReq → Result (List ℕ)
fetch_req_bytes r = to_bytes (encode_header Kind.fetch r.header >> encode_fetch_req r)

unfoldable pub decode_fetch_req : RequestHeader → Decoding FetchReq
decode_fetch_req header = do
  replica_id ← decode_int32
  max_wait_time ← decode_duration32
  min_bytes ← decode_int32
  max_bytes ← optional (at_least header.version 3) (pos 0) decode_int32
  isolation_level ← optional (at_least header.version 4) (pos 0) decode_int8
  topics ← decode_slice (decode_fetch_req_topic header.version)
  pure (record {
    header = header;
    replica_id = replica_id;
    max_wait_time = max_wait_time;
    min_bytes = min_bytes;
    max_bytes = max_bytes;
    isolation_level = isolation_level;
    topics = topics;
  })

unfoldable pub read_fetch_req : Reader → Result FetchReq
read_fetch_req = read_all (decode_header >>= decode_fetch_req)
