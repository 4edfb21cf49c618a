-- ===== src/Proto/OffsetFetch/RoundTrip.antt =====
-- OffsetFetchReq and OffsetFetchResp come back as they were written.
use kafka_api.Common.{ℕ, ◌≡◌, false, none, List, ◌++◌, All}
use kafka_api.Common.Int.{half16, half32, to_bits, pos, half64, InRange}
use kafka_api.Flow.{ok, and_then}
use kafka_api.Common.Bytes.{put_uint}
use kafka_api.Proto.Errors.{GoError}
use kafka_api.Proto.Codec.Fields.{IsString, IsError, IsDuration32}
use kafka_api.Proto.Codec.Arrays.{IsArray}
use kafka_api.Proto.Rules.{
  Matches, Matches-bind, Matches-last, Matches-optional, Matches-slice, Matches-int32,
  Matches-int64, Matches-string, Matches-error, Matches-duration, Matches-int32s,
}
use kafka_api.Proto.Header.{Kind, kind_number, IsHeader, at_least}
use kafka_api.Proto.Frame.RoundTrip.{Sending, sent_back, request_sent, response_sent}
use kafka_api.Proto.OffsetFetch.{
  OffsetFetchReqTopic, encode_offset_fetch_req_topic, decode_offset_fetch_req_topic, OffsetFetchReq,
  encode_offset_fetch_req, offset_fetch_req_bytes, decode_offset_fetch_req, read_offset_fetch_req,
  OffsetFetchRespPartition, encode_offset_fetch_resp_partition, decode_offset_fetch_resp_partition,
  OffsetFetchRespTopic, encode_offset_fetch_resp_topic, decode_offset_fetch_resp_topic,
  OffsetFetchResp, encode_offset_fetch_resp, offset_fetch_resp_bytes, decode_offset_fetch_resp,
  read_offset_fetch_resp,
}

-- The values that the wire format of a version can carry: in range, and with the initial value
-- in a field that the version leaves out.
pub record IsOffsetFetchReqTopic (t : OffsetFetchReqTopic) : Type 0 where
  pub name : IsString t.name
  pub partitions : IsArray t.partitions
  pub each_partitions : All (InRange half32) t.partitions

pub record IsOffsetFetchReq (r : OffsetFetchReq) : Type 0 where
  pub header : IsHeader r.header
  pub consumer_group : IsString r.consumer_group
  pub topics : IsArray r.topics
  pub each_topics : All IsOffsetFetchReqTopic r.topics

pub record IsOffsetFetchRespPartition (p : OffsetFetchRespPartition) : Type 0 where
  pub id : InRange half32 p.id
  pub offset : InRange half64 p.offset
  pub metadata : IsString p.metadata
  pub err : IsError p.err

pub record IsOffsetFetchRespTopic (t : OffsetFetchRespTopic) : Type 0 where
  pub name : IsString t.name
  pub partitions : IsArray t.partitions
  pub each_partitions : All IsOffsetFetchRespPartition t.partitions

pub record IsOffsetFetchResp (r : OffsetFetchResp) : Type 0 where
  pub correlation_id : InRange half32 r.correlation_id
  pub throttle_time : IsDuration32 r.throttle_time
  pub no_throttle_time : at_least r.version 3 ≡ false → r.throttle_time ≡ pos 0
  pub topics : IsArray r.topics
  pub each_topics : All IsOffsetFetchRespTopic r.topics
  pub err : IsError r.err
  pub no_err : at_least r.version 2 ≡ false → r.err ≡ none

Matches-offset_fetch_req_topic :
    (t : OffsetFetchReqTopic)
    → IsOffsetFetchReqTopic t
    → Matches (encode_offset_fetch_req_topic t) (decode_offset_fetch_req_topic) t
unfolding encode_offset_fetch_req_topic decode_offset_fetch_req_topic
Matches-offset_fetch_req_topic t h =
    Matches-bind _ (Matches-string t.name h.name)
      (Matches-last _ (Matches-int32s t.partitions h.partitions h.each_partitions))

pub sent_offset_fetch_req :
    (r : OffsetFetchReq)
    → IsOffsetFetchReq r
    → Sending
        (put_uint 2 (to_bits half16 (kind_number Kind.offset_fetch)))
        (offset_fetch_req_bytes r)
        read_offset_fetch_req
        r
unfolding offset_fetch_req_bytes read_offset_fetch_req encode_offset_fetch_req
    decode_offset_fetch_req
sent_offset_fetch_req r h =
    request_sent Kind.offset_fetch r.header _ decode_offset_fetch_req r h.header (
      Matches-bind _ (Matches-string r.consumer_group h.consumer_group) (
        Matches-last _
          (Matches-slice Matches-offset_fetch_req_topic r.topics h.topics h.each_topics)))

-- A well-formed request, written by Bytes and read by ReadOffsetFetchReq,
-- comes back as it was, whatever follows it on the stream.
pub read_offset_fetch_req-offset_fetch_req_bytes :
    (r : OffsetFetchReq) (rest : List ℕ) (e : GoError)
    → IsOffsetFetchReq r
    → and_then
        (offset_fetch_req_bytes r)
        (λ b. read_offset_fetch_req (record { bytes = b ++ rest; ended = e }))
      ≡ ok r
read_offset_fetch_req-offset_fetch_req_bytes r rest e h =
    sent_back (sent_offset_fetch_req r h) rest e

Matches-offset_fetch_resp_partition :
    (p : OffsetFetchRespPartition)
    → IsOffsetFetchRespPartition p
    → Matches (encode_offset_fetch_resp_partition p) (decode_offset_fetch_resp_partition) p
unfolding encode_offset_fetch_resp_partition decode_offset_fetch_resp_partition
Matches-offset_fetch_resp_partition p h = Matches-bind _ (Matches-int32 p.id h.id) (
    Matches-bind _ (Matches-int64 p.offset h.offset) (
      Matches-bind _ (Matches-string p.metadata h.metadata)
        (Matches-last _ (Matches-error p.err h.err))))

Matches-offset_fetch_resp_topic :
    (t : OffsetFetchRespTopic)
    → IsOffsetFetchRespTopic t
    → Matches (encode_offset_fetch_resp_topic t) (decode_offset_fetch_resp_topic) t
unfolding encode_offset_fetch_resp_topic decode_offset_fetch_resp_topic
Matches-offset_fetch_resp_topic t h = Matches-bind _ (Matches-string t.name h.name) (
    Matches-last _ (
      Matches-slice Matches-offset_fetch_resp_partition t.partitions h.partitions
        h.each_partitions))

pub sent_offset_fetch_resp :
    (r : OffsetFetchResp)
    → IsOffsetFetchResp r
    → Sending
        (put_uint 4 (to_bits half32 r.correlation_id))
        (offset_fetch_resp_bytes r)
        (read_offset_fetch_resp r.version)
        r
unfolding offset_fetch_resp_bytes read_offset_fetch_resp encode_offset_fetch_resp
    decode_offset_fetch_resp
sent_offset_fetch_resp r h = response_sent r.correlation_id _ r h.correlation_id (
    Matches-bind _
      (Matches-optional (at_least r.version 3)
        (λ c. Matches-duration r.throttle_time h.throttle_time) h.no_throttle_time)
      (Matches-bind _
        (Matches-slice Matches-offset_fetch_resp_topic r.topics h.topics h.each_topics)
        (Matches-last _
          (Matches-optional (at_least r.version 2) (λ c. Matches-error r.err h.err) h.no_err))))

-- A well-formed response, written by Bytes and read by ReadVersionedOffsetFetchResp at its version,
-- comes back as it was, whatever follows it on the stream.
pub read_offset_fetch_resp-offset_fetch_resp_bytes :
    (r : OffsetFetchResp) (rest : List ℕ) (e : GoError)
    → IsOffsetFetchResp r
    → and_then
        (offset_fetch_resp_bytes r)
        (λ b. read_offset_fetch_resp r.version (record { bytes = b ++ rest; ended = e }))
      ≡ ok r
read_offset_fetch_resp-offset_fetch_resp_bytes r rest e h =
    sent_back (sent_offset_fetch_resp r h) rest e
