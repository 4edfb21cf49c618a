-- ===== src/Proto/OffsetResponse.antt =====
-- OffsetResp of v2/proto/messages.go.
pub mod RoundTrip
use kafka_api.Common.{ℕ, ◌≡◌, Bool, true, false, Option, none, List, [], ◌∷◌, length, if◌then◌else◌}
use kafka_api.Common.Int.{ℤ, pos, negsuc}
use kafka_api.Flow.{◌>>=◌, ◌>>◌, pure}
use kafka_api.Proto.Errors.{GoError, eqb}
use kafka_api.Proto.Writer.{Writer, Buffer, buffer_writer}
use kafka_api.Proto.Encoder.{
  Encoding, encode_int8, encode_int16, encode_int32, encode_int64, encode_string, encode_slice,
  encode_bool, encode_error, encode_duration, encode_int32s, encode_int64s, when,
}
use kafka_api.Proto.Decoder.{
  Reader, Decoding, decode_int8, decode_int16, decode_int32, decode_int64, decode_string,
  decode_nonzero, decode_error, decode_duration32, decode_slice, optional,
}
use kafka_api.Proto.Times.{Time, zero_time, encode_time, decode_time}
use kafka_api.Proto.Header.{Kind, RequestHeader, at_least, is_version, encode_header, decode_header}
use kafka_api.Proto.Frame.{Result, to_bytes, read_all}

pub record OffsetRespPartition : Type 0 where
  pub id : ℤ
  pub err : Option GoError
  pub time_stamp : Time
  pub offsets : List ℤ

-- from version 1 on, the first offset alone, or 0
unfoldable pub first_offset : List ℤ → ℤ
first_offset [] = pos 0
first_offset (o ∷ os) = o

unfoldable pub encode_offsets : Bool → OffsetRespPartition → Encoding Buffer
encode_offsets true p = do encode_time p.time_stamp; encode_int64 (first_offset p.offsets)
encode_offsets false p = encode_int64s p.offsets

unfoldable pub encode_offset_resp_partition : ℤ → OffsetRespPartition → Encoding Buffer
encode_offset_resp_partition version p = do
  encode_int32 p.id
  encode_error p.err
  encode_offsets (at_least version 1) p

unfoldable pub decode_offsets : Bool → Decoding (Time × List ℤ)
decode_offsets true = do
  time_stamp ← decode_time
  offset ← decode_int64
  pure (time_stamp, offset ∷ [])
decode_offsets false = do offsets ← decode_slice decode_int64; pure (zero_time, offsets)

unfoldable pub decode_offset_resp_partition : ℤ → Decoding OffsetRespPartition
decode_offset_resp_partition version = do
  id ← decode_int32
  err ← decode_error
  q ← decode_offsets (at_least version 1)
  pure (record { id = id; err = err; time_stamp = q.0; offsets = q.1 })

pub record OffsetRespTopic : Type 0 where
  pub name : List ℕ
  pub partitions : List OffsetRespPartition

unfoldable pub encode_offset_resp_topic : ℤ → OffsetRespTopic → Encoding Buffer
encode_offset_resp_topic version t = do
  encode_string t.name
  encode_slice (encode_offset_resp_partition version) t.partitions

unfoldable pub decode_offset_resp_topic : ℤ → Decoding OffsetRespTopic
decode_offset_resp_topic version = do
  name ← decode_string
  partitions ← decode_slice (decode_offset_resp_partition version)
  pure (record { name = name; partitions = partitions })

pub record OffsetResp : Type 0 where
  pub version : ℤ
  pub correlation_id : ℤ
  pub throttle_time : ℤ
  pub topics : List OffsetRespTopic

-- the statements of Bytes behind the placeholder for the size
unfoldable pub encode_offset_resp : OffsetResp → Encoding Buffer
encode_offset_resp r = do
  encode_int32 r.correlation_id
  when (at_least r.version 2) (encode_duration r.throttle_time)
  encode_slice (encode_offset_resp_topic r.version) r.topics

unfoldable pub offset_resp_bytes : OffsetResp → Result (List ℕ)
offset_resp_bytes r = to_bytes (encode_int32 (pos 0) >> encode_offset_resp r)

unfoldable pub decode_offset_resp : ℤ → Decoding OffsetResp
decode_offset_resp version = do
  correlation_id ← decode_int32
  throttle_time ← optional (at_least version 2) (pos 0) decode_duration32
  topics ← decode_slice (decode_offset_resp_topic version)
  pure (record {
    version = version;
    correlation_id = correlation_id;
    throttle_time = throttle_time;
    topics = topics;
  })

-- ReadVersionedOffsetResp
unfoldable pub read_offset_resp : ℤ → Reader → Result OffsetResp
read_offset_resp version = read_all (decode_int32 >>= (λ size. decode_offset_resp version))
