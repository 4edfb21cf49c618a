-- ===== src/Proto/CreateTopics.antt =====
-- CreateTopicsReq and CreateTopicsResp of v2/proto/messages.go.
pub mod RoundTrip
use kafka_api.Common.{ℕ, ◌≡◌, Bool, true, false, Option, none, List, [], ◌∷◌, length, if◌then◌else◌}
use kafka_api.Common.Int.{ℤ, pos, negsuc}
use kafka_api.Flow.{◌>>=◌, ◌>>◌, pure}
use kafka_api.Proto.Errors.{GoError, err_from_no}
use kafka_api.Proto.Writer.{Writer, Buffer, buffer_writer}
use kafka_api.Proto.Encoder.{
  Encoding, encode_int8, encode_int16, encode_int32, encode_int64, encode_string, encode_slice,
  encode_bool, encode_error, encode_duration, encode_int32s, encode_int64s, when,
}
use kafka_api.Proto.Decoder.{
  Reader, Decoding, decode_int8, decode_int16, decode_int32, decode_int64, decode_string,
  decode_nonzero, decode_error, decode_duration32, decode_slice, optional, decode_array_len,
  make_slice, fill,
}
use kafka_api.Proto.Times.{Time, zero_time, encode_time, decode_time}
use kafka_api.Proto.Header.{Kind, RequestHeader, at_least, is_version, encode_header, decode_header}
use kafka_api.Proto.Frame.{Result, to_bytes, read_all}

pub record ReplicaAssignment : Type 0 where
  pub partition : ℤ
  pub replicas : List ℤ

unfoldable pub encode_replica_assignment : ReplicaAssignment → Encoding Buffer
encode_replica_assignment a = do encode_int32 a.partition; encode_int32s a.replicas

-- a length whose error is not looked at; it is 0 then
unfoldable pub decode_slice_unchecked : {A : Type 0} → Decoding A → Decoding (List A)
decode_slice_unchecked dec = do l ← decode_array_len; k ← make_slice l.0; fill dec k

unfoldable pub decode_replica_assignment : Decoding ReplicaAssignment
decode_replica_assignment = do
  partition ← decode_int32
  replicas ← decode_slice_unchecked decode_int32
  pure (record { partition = partition; replicas = replicas })

pub record ConfigEntry : Type 0 where
  pub config_name : List ℕ
  pub config_value : List ℕ

unfoldable pub encode_config_entry : ConfigEntry → Encoding Buffer
encode_config_entry c = do encode_string c.config_name; encode_string c.config_value

unfoldable pub decode_config_entry : Decoding ConfigEntry
decode_config_entry = do
  config_name ← decode_string
  config_value ← decode_string
  pure (record { config_name = config_name; config_value = config_value })

pub record TopicInfo : Type 0 where
  pub topic : List ℕ
  pub num_partitions : ℤ
  pub replication_factor : ℤ
  pub replica_assignments : List ReplicaAssignment
  pub config_entries : List ConfigEntry

unfoldable pub encode_topic_info : TopicInfo → Encoding Buffer
encode_topic_info t = do
  encode_string t.topic
  encode_int32 t.num_partitions
  encode_int16 t.replication_factor
  encode_slice encode_replica_assignment t.replica_assignments
  encode_slice encode_config_entry t.config_entries

unfoldable pub decode_topic_info : Decoding TopicInfo
decode_topic_info = do
  topic ← decode_string
  num_partitions ← decode_int32
  replication_factor ← decode_int16
  replica_assignments ← decode_slice decode_replica_assignment
  config_entries ← decode_slice_unchecked decode_config_entry
  pure (record {
    topic = topic;
    num_partitions = num_partitions;
    replication_factor = replication_factor;
    replica_assignments = replica_assignments;
    config_entries = config_entries;
  })

pub record CreateTopicsReq : Type 0 where
  pub header : RequestHeader
  pub create_topics_requests : List TopicInfo
  pub timeout : ℤ
  pub validate_only : Bool

-- the statements of Bytes behind encodeHeader
unfoldable pub encode_create_topics_req : CreateTopicsReq → Encoding Buffer
encode_create_topics_req r = do
  encode_slice encode_topic_info r.create_topics_requests
  encode_duration r.timeout
  when (at_least r.header.version 1) (encode_bool r.validate_only)

unfoldable pub create_topics_req_bytes : CreateTopicsReq → Result (List ℕ)
create_topics_req_bytes r =
    to_bytes (encode_header Kind.create_topics r.header >> encode_create_topics_req r)

unfoldable pub decode_create_topics_req : RequestHeader → Decoding CreateTopicsReq
decode_create_topics_req header = do
  create_topics_requests ← decode_slice decode_topic_info
  timeout ← decode_duration32
  validate_only ← optional (at_least header.version 1) false decode_nonzero
  pure (record {
    header = header;
    create_topics_requests = create_topics_requests;
    timeout = timeout;
    validate_only = validate_only;
  })

unfoldable pub read_create_topics_req : Reader → Result CreateTopicsReq
read_create_topics_req = read_all (decode_header >>= decode_create_topics_req)

pub record TopicError : Type 0 where
  pub topic : List ℕ
  pub error_code : ℤ
  pub error_message : List ℕ
  pub err : Option GoError

unfoldable pub encode_topic_error : ℤ → TopicError → Encoding Buffer
encode_topic_error version t = do
  encode_string t.topic
  encode_int16 t.error_code
  when (at_least version 1) (encode_string t.error_message)

unfoldable pub decode_topic_error : ℤ → Decoding TopicError
decode_topic_error version = do
  topic ← decode_string
  error_code ← decode_int16
  error_message ← optional (at_least version 1) [] decode_string
  pure (record {
    topic = topic;
    error_code = error_code;
    error_message = error_message;
    err = err_from_no error_code;
  })

pub record CreateTopicsResp : Type 0 where
  pub version : ℤ
  pub correlation_id : ℤ
  pub throttle_time : ℤ
  pub topic_errors : List TopicError

-- the statements of Bytes behind the placeholder for the size
unfoldable pub encode_create_topics_resp : CreateTopicsResp → Encoding Buffer
encode_create_topics_resp r = do
  encode_int32 r.correlation_id
  when (at_least r.version 2) (encode_duration r.throttle_time)
  encode_slice (encode_topic_error r.version) r.topic_errors

unfoldable pub create_topics_resp_bytes : CreateTopicsResp → Result (List ℕ)
create_topics_resp_bytes r = to_bytes (encode_int32 (pos 0) >> encode_create_topics_resp r)

unfoldable pub decode_create_topics_resp : ℤ → Decoding CreateTopicsResp
decode_create_topics_resp version = do
  correlation_id ← decode_int32
  throttle_time ← optional (at_least version 2) (pos 0) decode_duration32
  topic_errors ← decode_slice (decode_topic_error version)
  pure (record {
    version = version;
    correlation_id = correlation_id;
    throttle_time = throttle_time;
    topic_errors = topic_errors;
  })

-- ReadVersionedCreateTopicsResp
unfoldable pub read_create_topics_resp : ℤ → Reader → Result CreateTopicsResp
read_create_topics_resp version =
    read_all (decode_int32 >>= (λ size. decode_create_topics_resp version))
