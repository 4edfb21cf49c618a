-- ===== src/Proto/Metadata.antt =====
-- MetadataReq and MetadataResp of v2/proto/messages.go.
pub mod RoundTrip
use kafka_api.Common.{ℕ, Bool, false, Option, none, List, [], ◌∷◌, length, if◌then◌else◌}
use kafka_api.Common.Int.{ℤ, pos, negsuc}
use kafka_api.Flow.{◌>>=◌, ◌>>◌, pure}
use kafka_api.Proto.Errors.{GoError, eqb}
use kafka_api.Proto.Writer.{Writer, Buffer, buffer_writer}
use kafka_api.Proto.Encoder.{
  Encoding, encode_int32, encode_string, encode_array_len, each, encode_slice, encode_bool,
  encode_error, encode_duration, encode_int32s, when,
}
use kafka_api.Proto.Decoder.{
  Reader, Decoding, decode_int8, decode_int32, decode_string, decode_nonzero, decode_error,
  decode_duration32, decode_slice, optional,
}
use kafka_api.Proto.Header.{Kind, RequestHeader, at_least, encode_header, decode_header}
use kafka_api.Proto.Frame.{Result, to_bytes, read_all}

pub record MetadataReq : Type 0 where
  pub header : RequestHeader
  pub topics : List (List ℕ)
  pub allow_auto_topic_creation : Bool

-- An empty list asks for all topics; from version 1 on that is written as length -1.
unfoldable pub topics_len : ℤ → List (List ℕ) → ℤ
topics_len version [] = if at_least version 1 then negsuc 0 else pos 0
topics_len version (t ∷ ts) = pos (length (t ∷ ts))

unfoldable pub encode_topics : ℤ → List (List ℕ) → Encoding Buffer
encode_topics version ts = encode_array_len (topics_len version ts) >> each encode_string ts

-- the statements of Bytes behind encodeHeader
unfoldable pub encode_metadata_req : MetadataReq → Encoding Buffer
encode_metadata_req r = do
  encode_topics r.header.version r.topics
  when (at_least r.header.version 4) (encode_bool r.allow_auto_topic_creation)

unfoldable pub metadata_req_bytes : MetadataReq → Result (List ℕ)
metadata_req_bytes r = to_bytes (encode_header Kind.metadata r.header >> encode_metadata_req r)

unfoldable pub decode_metadata_req : RequestHeader → Decoding MetadataReq
decode_metadata_req h = do
  topics ← decode_slice decode_string
  allow ← optional (at_least h.version 4) false decode_nonzero
  pure (record { header = h; topics = topics; allow_auto_topic_creation = allow })

unfoldable pub read_metadata_req : Reader → Result MetadataReq
read_metadata_req = read_all (decode_header >>= decode_metadata_req)

pub record MetadataRespBroker : Type 0 where
  pub node_id : ℤ
  pub host : List ℕ
  pub port : ℤ
  pub rack : List ℕ

pub record MetadataRespPartition : Type 0 where
  pub err : Option GoError
  pub id : ℤ
  pub leader : ℤ
  pub replicas : List ℤ
  pub isrs : List ℤ
  pub offline_replicas : List ℤ

pub record MetadataRespTopic : Type 0 where
  pub name : List ℕ
  pub err : Option GoError
  pub is_internal : Bool
  pub partitions : List MetadataRespPartition

pub record MetadataResp : Type 0 where
  pub version : ℤ
  pub correlation_id : ℤ
  pub throttle_time : ℤ
  pub brokers : List MetadataRespBroker
  pub cluster_id : List ℕ
  pub controller_id : ℤ
  pub topics : List MetadataRespTopic

unfoldable pub encode_broker : ℤ → MetadataRespBroker → Encoding Buffer
encode_broker version b = do
  encode_int32 b.node_id
  encode_string b.host
  encode_int32 b.port
  when (at_least version 1) (encode_string b.rack)

unfoldable pub encode_partition : ℤ → MetadataRespPartition → Encoding Buffer
encode_partition version p = do
  encode_error p.err
  encode_int32 p.id
  encode_int32 p.leader
  encode_int32s p.replicas
  encode_int32s p.isrs
  when (at_least version 5) (encode_int32s p.offline_replicas)

unfoldable pub encode_topic : ℤ → MetadataRespTopic → Encoding Buffer
encode_topic version t = do
  encode_error t.err
  encode_string t.name
  when (at_least version 1) (encode_bool t.is_internal)
  encode_slice (encode_partition version) t.partitions

-- the statements of Bytes behind the placeholder for the size
unfoldable pub encode_metadata_resp : MetadataResp → Encoding Buffer
encode_metadata_resp r = do
  encode_int32 r.correlation_id
  when (at_least r.version 3) (encode_duration r.throttle_time)
  encode_slice (encode_broker r.version) r.brokers
  when (at_least r.version 2) (encode_string r.cluster_id)
  when (at_least r.version 1) (encode_int32 r.controller_id)
  encode_slice (encode_topic r.version) r.topics

unfoldable pub metadata_resp_bytes : MetadataResp → Result (List ℕ)
metadata_resp_bytes r = to_bytes (encode_int32 (pos 0) >> encode_metadata_resp r)

unfoldable pub decode_broker : ℤ → Decoding MetadataRespBroker
decode_broker version = do
  node_id ← decode_int32
  host ← decode_string
  port ← decode_int32
  rack ← optional (at_least version 1) [] decode_string
  pure (record { node_id = node_id; host = host; port = port; rack = rack })

unfoldable pub decode_partition : ℤ → Decoding MetadataRespPartition
decode_partition version = do
  e ← decode_error
  id ← decode_int32
  leader ← decode_int32
  replicas ← decode_slice decode_int32
  isrs ← decode_slice decode_int32
  offline ← optional (at_least version 5) [] (decode_slice decode_int32)
  pure (record {
    err = e;
    id = id;
    leader = leader;
    replicas = replicas;
    isrs = isrs;
    offline_replicas = offline;
  })

-- `dec.DecodeInt8() == 1`
unfoldable pub decode_is_one : Decoding Bool
decode_is_one = do b ← decode_int8; pure (eqb b (pos 1))

unfoldable pub decode_topic : ℤ → Decoding MetadataRespTopic
decode_topic version = do
  e ← decode_error
  name ← decode_string
  internal ← optional (at_least version 1) false decode_is_one
  partitions ← decode_slice (decode_partition version)
  pure (record { name = name; err = e; is_internal = internal; partitions = partitions })

unfoldable pub decode_metadata_resp : ℤ → Decoding MetadataResp
decode_metadata_resp version = do
  correlation_id ← decode_int32
  throttle ← optional (at_least version 3) (pos 0) decode_duration32
  brokers ← decode_slice (decode_broker version)
  cluster_id ← optional (at_least version 2) [] decode_string
  controller_id ← optional (at_least version 1) (pos 0) decode_int32
  topics ← decode_slice (decode_topic version)
  pure (record {
    version = version;
    correlation_id = correlation_id;
    throttle_time = throttle;
    brokers = brokers;
    cluster_id = cluster_id;
    controller_id = controller_id;
    topics = topics;
  })

-- ReadVersionedMetadataResp
unfoldable pub read_metadata_resp : ℤ → Reader → Result MetadataResp
read_metadata_resp version = read_all (decode_int32 >>= (λ size. decode_metadata_resp version))
