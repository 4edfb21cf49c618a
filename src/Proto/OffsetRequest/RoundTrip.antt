-- ===== src/Proto/OffsetRequest/RoundTrip.antt =====
-- An OffsetReq comes back as it was written, but with the replica id -1.
use kafka_api.Common.{ℕ, ◌≡◌, false, List, ◌++◌, All, arith}
use kafka_api.Common.Int.{half16, half32, to_bits, ℤ, pos, negsuc, half8, half64, InRange}
use kafka_api.Flow.{ok, and_then}
use kafka_api.Common.Bytes.{put_uint}
use kafka_api.Proto.Errors.{GoError}
use kafka_api.Proto.Codec.Fields.{IsString}
use kafka_api.Proto.Codec.Arrays.{IsArray}
use kafka_api.Proto.Rules.{
  Matches, Matches-bind, Matches-last, Matches-optional, Matches-slice, Matches-int8, Matches-int32,
  Matches-int64, Matches-string,
}
use kafka_api.Proto.Header.{Kind, kind_number, IsHeader, at_least, is_version}
use kafka_api.Proto.Frame.RoundTrip.{Sending, sent_back, request_sent}
use kafka_api.Proto.OffsetRequest.{
  OffsetReqPartition, encode_offset_req_partition, decode_offset_req_partition, OffsetReqTopic,
  encode_offset_req_topic, decode_offset_req_topic, OffsetReq, encode_offset_req, offset_req_bytes,
  decode_offset_req, read_offset_req,
}

-- The values that the wire format of a version can carry: in range, and with the initial value
-- in a field that the version leaves out.
pub record IsOffsetReqPartition (version : ℤ) (p : OffsetReqPartition) : Type 0 where
  pub id : InRange half32 p.id
  pub time_ms : InRange half64 p.time_ms
  pub max_offsets : InRange half32 p.max_offsets
  pub no_max_offsets : is_version version 0 ≡ false → p.max_offsets ≡ pos 0

pub record IsOffsetReqTopic (version : ℤ) (t : OffsetReqTopic) : Type 0 where
  pub name : IsString t.name
  pub partitions : IsArray t.partitions
  pub each_partitions : All (IsOffsetReqPartition version) t.partitions

pub record IsOffsetReq (r : OffsetReq) : Type 0 where
  pub header : IsHeader r.header
  pub isolation_level : InRange half8 r.isolation_level
  pub no_isolation_level : at_least r.header.version 2 ≡ false → r.isolation_level ≡ pos 0
  pub topics : IsArray r.topics
  pub each_topics : All (IsOffsetReqTopic r.header.version) r.topics

Matches-offset_req_partition :
    (version : ℤ) (p : OffsetReqPartition)
    → IsOffsetReqPartition version p
    → Matches (encode_offset_req_partition version p) (decode_offset_req_partition version) p
unfolding encode_offset_req_partition decode_offset_req_partition
Matches-offset_req_partition version p h = Matches-bind _ (Matches-int32 p.id h.id) (
    Matches-bind _ (Matches-int64 p.time_ms h.time_ms) (
      Matches-last _ (
        Matches-optional (is_version version 0) (λ c. Matches-int32 p.max_offsets h.max_offsets)
          h.no_max_offsets)))

Matches-offset_req_topic :
    (version : ℤ) (t : OffsetReqTopic)
    → IsOffsetReqTopic version t
    → Matches (encode_offset_req_topic version t) (decode_offset_req_topic version) t
unfolding encode_offset_req_topic decode_offset_req_topic
Matches-offset_req_topic version t h = Matches-bind _ (Matches-string t.name h.name) (
    Matches-last _ (
      Matches-slice (Matches-offset_req_partition version) t.partitions h.partitions
        h.each_partitions))

pub sent_offset_req :
    (r : OffsetReq)
    → IsOffsetReq r
    → Sending
        (put_uint 2 (to_bits half16 (kind_number Kind.offset)))
        (offset_req_bytes r)
        read_offset_req
        (record r { replica_id = negsuc 0 })
unfolding offset_req_bytes read_offset_req encode_offset_req decode_offset_req
sent_offset_req r h =
    request_sent Kind.offset r.header _ decode_offset_req (record r { replica_id = negsuc 0 })
      h.header
      (Matches-bind _ (Matches-int32 (negsuc 0) (omega arith)) (
        Matches-bind _
          (Matches-optional (at_least r.header.version 2)
            (λ c. Matches-int8 r.isolation_level h.isolation_level) h.no_isolation_level)
          (Matches-last _ (
            Matches-slice (Matches-offset_req_topic r.header.version) r.topics h.topics
              h.each_topics))))

-- A well-formed request, written by Bytes and read by ReadOffsetReq,
-- comes back as it was, with -1 for its replica id, whatever follows it on the stream.
pub read_offset_req-offset_req_bytes :
    (r : OffsetReq) (rest : List ℕ) (e : GoError)
    → IsOffsetReq r
    → and_then (offset_req_bytes r) (λ b. read_offset_req (record { bytes = b ++ rest; ended = e }))
      ≡ ok (record r { replica_id = negsuc 0 })
read_offset_req-offset_req_bytes r rest e h = sent_back (sent_offset_req r h) rest e
