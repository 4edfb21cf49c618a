-- ===== src/Proto/ProduceResponse/RoundTrip.antt =====
-- A ProduceResp comes back as it was written.
use kafka_api.Common.{ℕ, ◌≡◌, false, List, ◌++◌, All}
use kafka_api.Common.Int.{half32, to_bits, ℤ, pos, half64, InRange}
use kafka_api.Flow.{ok, and_then}
use kafka_api.Common.Bytes.{put_uint}
use kafka_api.Proto.Errors.{GoError}
use kafka_api.Proto.Codec.Fields.{IsString, IsError, IsDuration32}
use kafka_api.Proto.Codec.Arrays.{IsArray}
use kafka_api.Proto.Rules.{
  Matches, Matches-bind, Matches-last, Matches-optional, Matches-slice, Matches-int32,
  Matches-int64, Matches-string, Matches-error, Matches-duration,
}
use kafka_api.Proto.Header.{at_least}
use kafka_api.Proto.Frame.RoundTrip.{Sending, sent_back, response_sent}
use kafka_api.Proto.ProduceResponse.{
  ProduceRespPartition, encode_produce_resp_partition, decode_produce_resp_partition,
  ProduceRespTopic, encode_produce_resp_topic, decode_produce_resp_topic, ProduceResp,
  encode_produce_resp, produce_resp_bytes, decode_produce_resp, read_produce_resp,
}

-- The values that the wire format of a version can carry: in range, and with the initial value
-- in a field that the version leaves out.
pub record IsProduceRespPartition (version : ℤ) (p : ProduceRespPartition) : Type 0 where
  pub id : InRange half32 p.id
  pub err : IsError p.err
  pub offset : InRange half64 p.offset
  pub log_append_time : InRange half64 p.log_append_time
  pub no_log_append_time : at_least version 2 ≡ false → p.log_append_time ≡ pos 0

pub record IsProduceRespTopic (version : ℤ) (t : ProduceRespTopic) : Type 0 where
  pub name : IsString t.name
  pub partitions : IsArray t.partitions
  pub each_partitions : All (IsProduceRespPartition version) t.partitions

pub record IsProduceResp (r : ProduceResp) : Type 0 where
  pub correlation_id : InRange half32 r.correlation_id
  pub topics : IsArray r.topics
  pub each_topics : All (IsProduceRespTopic r.version) r.topics
  pub throttle_time : IsDuration32 r.throttle_time
  pub no_throttle_time : at_least r.version 1 ≡ false → r.throttle_time ≡ pos 0

Matches-produce_resp_partition :
    (version : ℤ) (p : ProduceRespPartition)
    → IsProduceRespPartition version p
    → Matches (encode_produce_resp_partition version p) (decode_produce_resp_partition version) p
unfolding encode_produce_resp_partition decode_produce_resp_partition
Matches-produce_resp_partition version p h = Matches-bind _ (Matches-int32 p.id h.id) (
    Matches-bind _ (Matches-error p.err h.err) (
      Matches-bind _ (Matches-int64 p.offset h.offset) (
        Matches-last _ (
          Matches-optional (at_least version 2)
            (λ c. Matches-int64 p.log_append_time h.log_append_time) h.no_log_append_time))))

Matches-produce_resp_topic :
    (version : ℤ) (t : ProduceRespTopic)
    → IsProduceRespTopic version t
    → Matches (encode_produce_resp_topic version t) (decode_produce_resp_topic version) t
unfolding encode_produce_resp_topic decode_produce_resp_topic
Matches-produce_resp_topic version t h = Matches-bind _ (Matches-string t.name h.name) (
    Matches-last _ (
      Matches-slice (Matches-produce_resp_partition version) t.partitions h.partitions
        h.each_partitions))

pub sent_produce_resp :
    (r : ProduceResp)
    → IsProduceResp r
    → Sending
        (put_uint 4 (to_bits half32 r.correlation_id))
        (produce_resp_bytes r)
        (read_produce_resp r.version)
        r
unfolding produce_resp_bytes read_produce_resp encode_produce_resp decode_produce_resp
sent_produce_resp r h = response_sent r.correlation_id _ r h.correlation_id (
    Matches-bind _
      (Matches-slice (Matches-produce_resp_topic r.version) r.topics h.topics h.each_topics)
      (Matches-last _ (
        Matches-optional (at_least r.version 1)
          (λ c. Matches-duration r.throttle_time h.throttle_time) h.no_throttle_time)))

-- A well-formed response, written by Bytes and read by ReadVersionedProduceResp at its version,
-- comes back as it was, whatever follows it on the stream.
pub read_produce_resp-produce_resp_bytes :
    (r : ProduceResp) (rest : List ℕ) (e : GoError)
    → IsProduceResp r
    → and_then
        (produce_resp_bytes r)
        (λ b. read_produce_resp r.version (record { bytes = b ++ rest; ended = e }))
      ≡ ok r
read_produce_resp-produce_resp_bytes r rest e h = sent_back (sent_produce_resp r h) rest e
