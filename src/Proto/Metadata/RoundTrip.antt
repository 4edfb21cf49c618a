-- ===== src/Proto/Metadata/RoundTrip.antt =====
-- Metadata requests and responses come back as they were written.
use kafka_api.Common.{
  ℕ, ◌≡◌, Bool, true, false, List, [], ◌∷◌, ◌++◌, All, arith, Bool-cases, inl, inr,
}
use kafka_api.Common.Int.{half16, half32, to_bits, ℤ, pos, InRange}
use kafka_api.Flow.{ok, and_then}
use kafka_api.Common.Bytes.{put_uint}
use kafka_api.Proto.Errors.{GoError}
use kafka_api.Proto.Writer.{buffer_writer, buffer_laws}
use kafka_api.Proto.Encoder.{encode_slice, encode_string, encode_bool, bool_to_int8}
use kafka_api.Proto.Decoder.{decode_slice, decode_string}
use kafka_api.Proto.Codec.{Codec}
use kafka_api.Proto.Codec.Fields.{IsString, IsError, IsDuration32, Codec-string}
use kafka_api.Proto.Codec.Arrays.{IsArray, Codec-slice, Codec-absent, Codec-slice_of}
use kafka_api.Proto.Rules.{
  Matches, Matches-bind, Matches-last, Matches-optional, Matches-slice, Matches-int8, Matches-int32,
  Matches-string, Matches-bool, Matches-error, Matches-duration, Matches-int32s,
}
use kafka_api.Proto.Header.{Kind, kind_number, IsHeader, at_least}
use kafka_api.Proto.Frame.RoundTrip.{Sending, sent_back, request_sent, response_sent}
use kafka_api.Proto.Metadata.{
  MetadataReq, MetadataResp, MetadataRespBroker, MetadataRespPartition, MetadataRespTopic,
  metadata_req_bytes, read_metadata_req, encode_metadata_req, decode_metadata_req, topics_len,
  encode_topics, metadata_resp_bytes, read_metadata_resp, encode_metadata_resp,
  decode_metadata_resp, encode_broker, decode_broker, encode_partition, decode_partition,
  encode_topic, decode_topic, decode_is_one,
}

-- A request that the wire format can carry: field values in range, and no value in a field that
-- the request's version leaves out.
pub record IsMetadataReq (r : MetadataReq) : Type 0 where
  pub header : IsHeader r.header
  pub topics : IsArray r.topics
  pub names : All IsString r.topics
  pub allow : at_least r.header.version 4 ≡ false → r.allow_auto_topic_creation ≡ false

Codec-topics :
    (version : ℤ) (ts : List (List ℕ))
    → IsArray ts
    → All IsString ts
    → Codec buffer_laws (encode_topics version ts) (decode_slice decode_string) ts
unfolding encode_topics topics_len encode_slice
Codec-topics version [] h hs = elim (Bool-cases (at_least version 1)) [
  | inl c ↦ rw c (Codec-absent buffer_laws encode_string decode_string)
  | inr c ↦ rw c (Codec-slice buffer_laws encode_string decode_string [] h tt)
]
Codec-topics version (t ∷ ts) h hs =
    Codec-slice_of buffer_laws (Codec-string buffer_laws) (t ∷ ts) h hs

pub sent_metadata_req :
    (r : MetadataReq)
    → IsMetadataReq r
    → Sending
        (put_uint 2 (to_bits half16 (kind_number Kind.metadata)))
        (metadata_req_bytes r)
        read_metadata_req
        r
unfolding metadata_req_bytes read_metadata_req encode_metadata_req decode_metadata_req
sent_metadata_req r v = request_sent Kind.metadata r.header _ decode_metadata_req r v.header (
    Matches-bind _ (Codec-topics r.header.version r.topics v.topics v.names) (
      Matches-last _ (
        Matches-optional (at_least r.header.version 4)
          (λ _. Matches-bool r.allow_auto_topic_creation) v.allow)))

-- A well-formed request, written by Bytes and read by ReadMetadataReq, comes back as it was,
-- whatever follows it on the stream.
pub read_metadata_req-metadata_req_bytes :
    (r : MetadataReq) (rest : List ℕ) (e : GoError)
    → IsMetadataReq r
    → and_then
        (metadata_req_bytes r)
        (λ b. read_metadata_req (record { bytes = b ++ rest; ended = e }))
      ≡ ok r
read_metadata_req-metadata_req_bytes r rest e v = sent_back (sent_metadata_req r v) rest e

-- The values that a version's wire format can carry: in range, and with the initial value in a
-- field that the version leaves out.
pub record IsBroker (version : ℤ) (b : MetadataRespBroker) : Type 0 where
  pub node_id : InRange half32 b.node_id
  pub host : IsString b.host
  pub port : InRange half32 b.port
  pub rack : IsString b.rack
  pub no_rack : at_least version 1 ≡ false → b.rack ≡ []

pub record IsPartition (version : ℤ) (p : MetadataRespPartition) : Type 0 where
  pub err : IsError p.err
  pub id : InRange half32 p.id
  pub leader : InRange half32 p.leader
  pub replicas : IsArray p.replicas
  pub replica_ids : All (InRange half32) p.replicas
  pub isrs : IsArray p.isrs
  pub isr_ids : All (InRange half32) p.isrs
  pub offline : IsArray p.offline_replicas
  pub offline_ids : All (InRange half32) p.offline_replicas
  pub no_offline : at_least version 5 ≡ false → p.offline_replicas ≡ []

pub record IsTopic (version : ℤ) (t : MetadataRespTopic) : Type 0 where
  pub err : IsError t.err
  pub name : IsString t.name
  pub no_internal : at_least version 1 ≡ false → t.is_internal ≡ false
  pub partitions : IsArray t.partitions
  pub each_partition : All (IsPartition version) t.partitions

pub record IsMetadataResp (r : MetadataResp) : Type 0 where
  pub correlation_id : InRange half32 r.correlation_id
  pub throttle_time : IsDuration32 r.throttle_time
  pub no_throttle : at_least r.version 3 ≡ false → r.throttle_time ≡ pos 0
  pub brokers : IsArray r.brokers
  pub each_broker : All (IsBroker r.version) r.brokers
  pub cluster_id : IsString r.cluster_id
  pub no_cluster : at_least r.version 2 ≡ false → r.cluster_id ≡ []
  pub controller_id : InRange half32 r.controller_id
  pub no_controller : at_least r.version 1 ≡ false → r.controller_id ≡ pos 0
  pub topics : IsArray r.topics
  pub each_topic : All (IsTopic r.version) r.topics

Matches-broker :
    (version : ℤ) (b : MetadataRespBroker)
    → IsBroker version b
    → Matches (encode_broker version b) (decode_broker version) b
unfolding encode_broker decode_broker
Matches-broker version b v = Matches-bind _ (Matches-int32 b.node_id v.node_id) (
    Matches-bind _ (Matches-string b.host v.host) (
      Matches-bind _ (Matches-int32 b.port v.port) (
        Matches-last _
          (Matches-optional (at_least version 1) (λ _. Matches-string b.rack v.rack) v.no_rack))))

Matches-partition :
    (version : ℤ) (p : MetadataRespPartition)
    → IsPartition version p
    → Matches (encode_partition version p) (decode_partition version) p
unfolding encode_partition decode_partition
Matches-partition version p v = Matches-bind _ (Matches-error p.err v.err) (
    Matches-bind _ (Matches-int32 p.id v.id) (
      Matches-bind _ (Matches-int32 p.leader v.leader) (
        Matches-bind _ (Matches-int32s p.replicas v.replicas v.replica_ids) (
          Matches-bind _ (Matches-int32s p.isrs v.isrs v.isr_ids) (
            Matches-last _ (
              Matches-optional (at_least version 5)
                (λ _. Matches-int32s p.offline_replicas v.offline v.offline_ids) v.no_offline))))))

Matches-is_one : (b : Bool) → Matches (encode_bool b) decode_is_one b
unfolding encode_bool decode_is_one bool_to_int8
Matches-is_one true = Matches-last _ (Matches-int8 (pos 1) (omega arith))
Matches-is_one false = Matches-last _ (Matches-int8 (pos 0) (omega arith))

Matches-topic :
    (version : ℤ) (t : MetadataRespTopic)
    → IsTopic version t
    → Matches (encode_topic version t) (decode_topic version) t
unfolding encode_topic decode_topic
Matches-topic version t v = Matches-bind _ (Matches-error t.err v.err) (
    Matches-bind _ (Matches-string t.name v.name) (
      Matches-bind _
        (Matches-optional (at_least version 1) (λ _. Matches-is_one t.is_internal) v.no_internal)
        (Matches-last _
          (Matches-slice (Matches-partition version) t.partitions v.partitions v.each_partition))))

pub sent_metadata_resp :
    (r : MetadataResp)
    → IsMetadataResp r
    → Sending
        (put_uint 4 (to_bits half32 r.correlation_id))
        (metadata_resp_bytes r)
        (read_metadata_resp r.version)
        r
unfolding metadata_resp_bytes read_metadata_resp encode_metadata_resp decode_metadata_resp
sent_metadata_resp r v = response_sent r.correlation_id _ r v.correlation_id (
    Matches-bind _
      (Matches-optional (at_least r.version 3)
        (λ _. Matches-duration r.throttle_time v.throttle_time) v.no_throttle)
      (Matches-bind _ (Matches-slice (Matches-broker r.version) r.brokers v.brokers v.each_broker) (
        Matches-bind _
          (Matches-optional (at_least r.version 2) (λ _. Matches-string r.cluster_id v.cluster_id)
            v.no_cluster)
          (Matches-bind _
            (Matches-optional (at_least r.version 1)
              (λ _. Matches-int32 r.controller_id v.controller_id) v.no_controller)
            (Matches-last _
              (Matches-slice (Matches-topic r.version) r.topics v.topics v.each_topic))))))

-- A well-formed response of any version, written by Bytes and read by ReadVersionedMetadataResp at
-- that version, comes back as it was, whatever follows it on the stream.
pub read_metadata_resp-metadata_resp_bytes :
    (r : MetadataResp) (rest : List ℕ) (e : GoError)
    → IsMetadataResp r
    → and_then
        (metadata_resp_bytes r)
        (λ b. read_metadata_resp r.version (record { bytes = b ++ rest; ended = e }))
      ≡ ok r
read_metadata_resp-metadata_resp_bytes r rest e v = sent_back (sent_metadata_resp r v) rest e
