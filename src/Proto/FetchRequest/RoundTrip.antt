-- ===== src/Proto/FetchRequest/RoundTrip.antt =====
-- A FetchReq comes back as it was written, but with the replica id -1.
use kafka_api.Common.{ℕ, ◌≡◌, false, List, ◌++◌, All, arith}
use kafka_api.Common.Int.{half16, half32, to_bits, ℤ, pos, negsuc, half8, half64, InRange}
use kafka_api.Flow.{ok, and_then}
use kafka_api.Common.Bytes.{put_uint}
use kafka_api.Proto.Errors.{GoError}
use kafka_api.Proto.Codec.Fields.{IsString, IsDuration32}
use kafka_api.Proto.Codec.Arrays.{IsArray}
use kafka_api.Proto.Rules.{
  Matches, Matches-bind, Matches-last, Matches-optional, Matches-slice, Matches-int8, Matches-int32,
  Matches-int64, Matches-string, Matches-duration,
}
use kafka_api.Proto.Header.{Kind, kind_number, IsHeader, at_least}
use kafka_api.Proto.Frame.RoundTrip.{Sending, sent_back, request_sent}
use kafka_api.Proto.FetchRequest.{
  FetchReqPartition, encode_fetch_req_partition, decode_fetch_req_partition, FetchReqTopic,
  encode_fetch_req_topic, decode_fetch_req_topic, FetchReq, encode_fetch_req, fetch_req_bytes,
  decode_fetch_req, read_fetch_req,
}

-- The values that the wire format of a version can carry: in range, and with the initial value
-- in a field that the version leaves out.
pub record IsFetchReqPartition (version : ℤ) (p : FetchReqPartition) : Type 0 where
  pub id : InRange half32 p.id
  pub fetch_offset : InRange half64 p.fetch_offset
  pub log_start_offset : InRange half64 p.log_start_offset
  pub no_log_start_offset : at_least version 5 ≡ false → p.log_start_offset ≡ pos 0
  pub max_bytes : InRange half32 p.max_bytes

pub record IsFetchReqTopic (version : ℤ) (t : FetchReqTopic) : Type 0 where
  pub name : IsString t.name
  pub partitions : IsArray t.partitions
  pub each_partitions : All (IsFetchReqPartition version) t.partitions

pub record IsFetchReq (r : FetchReq) : Type 0 where
  pub header : IsHeader r.header
  pub max_wait_time : IsDuration32 r.max_wait_time
  pub min_bytes : InRange half32 r.min_bytes
  pub max_bytes : InRange half32 r.max_bytes
  pub no_max_bytes : at_least r.header.version 3 ≡ false → r.max_bytes ≡ pos 0
  pub isolation_level : InRange half8 r.isolation_level
  pub no_isolation_level : at_least r.header.version 4 ≡ false → r.isolation_level ≡ pos 0
  pub topics : IsArray r.topics
  pub each_topics : All (IsFetchReqTopic r.header.version) r.topics

Matches-fetch_req_partition :
    (version : ℤ) (p : FetchReqPartition)
    → IsFetchReqPartition version p
    → Matches (encode_fetch_req_partition version p) (decode_fetch_req_partition version) p
unfolding encode_fetch_req_partition decode_fetch_req_partition
Matches-fetch_req_partition version p h = Matches-bind _ (Matches-int32 p.id h.id) (
    Matches-bind _ (Matches-int64 p.fetch_offset h.fetch_offset) (
      Matches-bind _
        (Matches-optional (at_least version 5)
          (λ c. Matches-int64 p.log_start_offset h.log_start_offset) h.no_log_start_offset)
        (Matches-last _ (Matches-int32 p.max_bytes h.max_bytes))))

Matches-fetch_req_topic :
    (version : ℤ) (t : FetchReqTopic)
    → IsFetchReqTopic version t
    → Matches (encode_fetch_req_topic version t) (decode_fetch_req_topic version) t
unfolding encode_fetch_req_topic decode_fetch_req_topic
Matches-fetch_req_topic version t h = Matches-bind _ (Matches-string t.name h.name) (
    Matches-last _ (
      Matches-slice (Matches-fetch_req_partition version) t.partitions h.partitions
        h.each_partitions))

pub sent_fetch_req :
    (r : FetchReq)
    → IsFetchReq r
    → Sending
        (put_uint 2 (to_bits half16 (kind_number Kind.fetch)))
        (fetch_req_bytes r)
        read_fetch_req
        (record r { replica_id = negsuc 0 })
unfolding fetch_req_bytes read_fetch_req encode_fetch_req decode_fetch_req
sent_fetch_req r h =
    request_sent Kind.fetch r.header _ decode_fetch_req (record r { replica_id = negsuc 0 })
      h.header
      (Matches-bind _ (Matches-int32 (negsuc 0) (omega arith)) (
        Matches-bind _ (Matches-duration r.max_wait_time h.max_wait_time) (
          Matches-bind _ (Matches-int32 r.min_bytes h.min_bytes) (
            Matches-bind _
              (Matches-optional (at_least r.header.version 3)
                (λ c. Matches-int32 r.max_bytes h.max_bytes) h.no_max_bytes)
              (Matches-bind _
                (Matches-optional (at_least r.header.version 4)
                  (λ c. Matches-int8 r.isolation_level h.isolation_level) h.no_isolation_level)
                (Matches-last _ (
                  Matches-slice (Matches-fetch_req_topic r.header.version) r.topics h.topics
                    h.each_topics)))))))

-- A well-formed request, written by Bytes and read by ReadFetchReq,
-- comes back as it was, with -1 for its replica id, whatever follows it on the stream.
pub read_fetch_req-fetch_req_bytes :
    (r : FetchReq) (rest : List ℕ) (e : GoError)
    → IsFetchReq r
    → and_then (fetch_req_bytes r) (λ b. read_fetch_req (record { bytes = b ++ rest; ended = e }))
      ≡ ok (record r { replica_id = negsuc 0 })
read_fetch_req-fetch_req_bytes r rest e h = sent_back (sent_fetch_req r h) rest e
