-- ===== src/Proto/OffsetCommit/RoundTrip.antt =====
-- OffsetCommitReq and OffsetCommitResp come back as they were written.
use kafka_api.Common.{ℕ, ◌≡◌, true, false, List, [], ◌++◌, All}
use kafka_api.Common.Int.{half16, half32, to_bits, ℤ, pos, half64, InRange}
use kafka_api.Flow.{ok, and_then}
use kafka_api.Common.Bytes.{put_uint}
use kafka_api.Proto.Errors.{GoError}
use kafka_api.Proto.Codec.Fields.{IsString, IsError, IsDuration32}
use kafka_api.Proto.Codec.Arrays.{IsArray}
use kafka_api.Proto.Rules.{
  Matches, Matches-bind, Matches-last, Matches-optional, Matches-slice, Matches-int32,
  Matches-int64, Matches-string, Matches-error, Matches-duration,
}
use kafka_api.Proto.Times.{zero_time, IsTime, Matches-time}
use kafka_api.Proto.Header.{Kind, kind_number, IsHeader, at_least, is_version}
use kafka_api.Proto.Frame.RoundTrip.{Sending, sent_back, request_sent, response_sent}
use kafka_api.Proto.OffsetCommit.{
  OffsetCommitReqPartition, encode_offset_commit_req_partition, decode_offset_commit_req_partition,
  OffsetCommitReqTopic, encode_offset_commit_req_topic, decode_offset_commit_req_topic,
  OffsetCommitReq, encode_offset_commit_req, offset_commit_req_bytes, decode_offset_commit_req,
  read_offset_commit_req, OffsetCommitRespPartition, encode_offset_commit_resp_partition,
  decode_offset_commit_resp_partition, OffsetCommitRespTopic, encode_offset_commit_resp_topic,
  decode_offset_commit_resp_topic, OffsetCommitResp, encode_offset_commit_resp,
  offset_commit_resp_bytes, decode_offset_commit_resp, read_offset_commit_resp,
}

-- The values that the wire format of a version can carry: in range, and with the initial value
-- in a field that the version leaves out.
pub record IsOffsetCommitReqPartition (version : ℤ) (p : OffsetCommitReqPartition) : Type 0 where
  pub id : InRange half32 p.id
  pub offset : InRange half64 p.offset
  pub time_stamp : is_version version 1 ≡ true → IsTime p.time_stamp
  pub no_time_stamp : is_version version 1 ≡ false → p.time_stamp ≡ zero_time
  pub metadata : IsString p.metadata

pub record IsOffsetCommitReqTopic (version : ℤ) (t : OffsetCommitReqTopic) : Type 0 where
  pub name : IsString t.name
  pub partitions : IsArray t.partitions
  pub each_partitions : All (IsOffsetCommitReqPartition version) t.partitions

pub record IsOffsetCommitReq (r : OffsetCommitReq) : Type 0 where
  pub header : IsHeader r.header
  pub consumer_group : IsString r.consumer_group
  pub group_generation_id : InRange half32 r.group_generation_id
  pub no_group_generation_id : at_least r.header.version 1 ≡ false → r.group_generation_id ≡ pos 0
  pub member_id : IsString r.member_id
  pub no_member_id : at_least r.header.version 1 ≡ false → r.member_id ≡ []
  pub retention_time : InRange half64 r.retention_time
  pub no_retention_time : at_least r.header.version 2 ≡ false → r.retention_time ≡ pos 0
  pub topics : IsArray r.topics
  pub each_topics : All (IsOffsetCommitReqTopic r.header.version) r.topics

pub record IsOffsetCommitRespPartition (p : OffsetCommitRespPartition) : Type 0 where
  pub id : InRange half32 p.id
  pub err : IsError p.err

pub record IsOffsetCommitRespTopic (t : OffsetCommitRespTopic) : Type 0 where
  pub name : IsString t.name
  pub partitions : IsArray t.partitions
  pub each_partitions : All IsOffsetCommitRespPartition t.partitions

pub record IsOffsetCommitResp (r : OffsetCommitResp) : Type 0 where
  pub correlation_id : InRange half32 r.correlation_id
  pub throttle_time : IsDuration32 r.throttle_time
  pub no_throttle_time : at_least r.version 3 ≡ false → r.throttle_time ≡ pos 0
  pub topics : IsArray r.topics
  pub each_topics : All IsOffsetCommitRespTopic r.topics

Matches-offset_commit_req_partition :
    (version : ℤ) (p : OffsetCommitReqPartition)
    → IsOffsetCommitReqPartition version p
    → Matches
        (encode_offset_commit_req_partition version p)
        (decode_offset_commit_req_partition version)
        p
unfolding encode_offset_commit_req_partition decode_offset_commit_req_partition
Matches-offset_commit_req_partition version p h = Matches-bind _ (Matches-int32 p.id h.id) (
    Matches-bind _ (Matches-int64 p.offset h.offset) (
      Matches-bind _
        (Matches-optional (is_version version 1) (λ c. Matches-time p.time_stamp (h.time_stamp c))
          h.no_time_stamp)
        (Matches-last _ (Matches-string p.metadata h.metadata))))

Matches-offset_commit_req_topic :
    (version : ℤ) (t : OffsetCommitReqTopic)
    → IsOffsetCommitReqTopic version t
    → Matches (encode_offset_commit_req_topic version t) (decode_offset_commit_req_topic version) t
unfolding encode_offset_commit_req_topic decode_offset_commit_req_topic
Matches-offset_commit_req_topic version t h = Matches-bind _ (Matches-string t.name h.name) (
    Matches-last _ (
      Matches-slice (Matches-offset_commit_req_partition version) t.partitions h.partitions
        h.each_partitions))

pub sent_offset_commit_req :
    (r : OffsetCommitReq)
    → IsOffsetCommitReq r
    → Sending
        (put_uint 2 (to_bits half16 (kind_number Kind.offset_commit)))
        (offset_commit_req_bytes r)
        read_offset_commit_req
        r
unfolding offset_commit_req_bytes read_offset_commit_req encode_offset_commit_req
    decode_offset_commit_req
sent_offset_commit_req r h =
    request_sent Kind.offset_commit r.header _ decode_offset_commit_req r h.header (
      Matches-bind _ (Matches-string r.consumer_group h.consumer_group) (
        Matches-bind _
          (Matches-optional (at_least r.header.version 1)
            (λ c. Matches-int32 r.group_generation_id h.group_generation_id)
            h.no_group_generation_id)
          (Matches-bind _
            (Matches-optional (at_least r.header.version 1)
              (λ c. Matches-string r.member_id h.member_id) h.no_member_id)
            (Matches-bind _
              (Matches-optional (at_least r.header.version 2)
                (λ c. Matches-int64 r.retention_time h.retention_time) h.no_retention_time)
              (Matches-last _ (
                Matches-slice (Matches-offset_commit_req_topic r.header.version) r.topics h.topics
                  h.each_topics))))))

-- A well-formed request, written by Bytes and read by ReadOffsetCommitReq,
-- comes back as it was, whatever follows it on the stream.
pub read_offset_commit_req-offset_commit_req_bytes :
    (r : OffsetCommitReq) (rest : List ℕ) (e : GoError)
    → IsOffsetCommitReq r
    → and_then
        (offset_commit_req_bytes r)
        (λ b. read_offset_commit_req (record { bytes = b ++ rest; ended = e }))
      ≡ ok r
read_offset_commit_req-offset_commit_req_bytes r rest e h =
    sent_back (sent_offset_commit_req r h) rest e

Matches-offset_commit_resp_partition :
    (p : OffsetCommitRespPartition)
    → IsOffsetCommitRespPartition p
    → Matches (encode_offset_commit_resp_partition p) (decode_offset_commit_resp_partition) p
unfolding encode_offset_commit_resp_partition decode_offset_commit_resp_partition
Matches-offset_commit_resp_partition p h =
    Matches-bind _ (Matches-int32 p.id h.id) (Matches-last _ (Matches-error p.err h.err))

Matches-offset_commit_resp_topic :
    (t : OffsetCommitRespTopic)
    → IsOffsetCommitRespTopic t
    → Matches (encode_offset_commit_resp_topic t) (decode_offset_commit_resp_topic) t
unfolding encode_offset_commit_resp_topic decode_offset_commit_resp_topic
Matches-offset_commit_resp_topic t h = Matches-bind _ (Matches-string t.name h.name) (
    Matches-last _ (
      Matches-slice Matches-offset_commit_resp_partition t.partitions h.partitions
        h.each_partitions))

pub sent_offset_commit_resp :
    (r : OffsetCommitResp)
    → IsOffsetCommitResp r
    → Sending
        (put_uint 4 (to_bits half32 r.correlation_id))
        (offset_commit_resp_bytes r)
        (read_offset_commit_resp r.version)
        r
unfolding offset_commit_resp_bytes read_offset_commit_resp encode_offset_commit_resp
    decode_offset_commit_resp
sent_offset_commit_resp r h = response_sent r.correlation_id _ r h.correlation_id (
    Matches-bind _
      (Matches-optional (at_least r.version 3)
        (λ c. Matches-duration r.throttle_time h.throttle_time) h.no_throttle_time)
      (Matches-last _
        (Matches-slice Matches-offset_commit_resp_topic r.topics h.topics h.each_topics)))

-- A well-formed response, written by Bytes and read by ReadVersionedOffsetCommitResp at its version,
-- comes back as it was, whatever follows it on the stream.
pub read_offset_commit_resp-offset_commit_resp_bytes :
    (r : OffsetCommitResp) (rest : List ℕ) (e : GoError)
    → IsOffsetCommitResp r
    → and_then
        (offset_commit_resp_bytes r)
        (λ b. read_offset_commit_resp r.version (record { bytes = b ++ rest; ended = e }))
      ≡ ok r
read_offset_commit_resp-offset_commit_resp_bytes r rest e h =
    sent_back (sent_offset_commit_resp r h) rest e
