-- ===== src/Proto/CreateTopics/RoundTrip.antt =====
-- CreateTopicsReq and CreateTopicsResp come back as they were written.
use kafka_api.Common.{ℕ, ◌≡◌, false, List, [], ◌++◌, length, All, sym, subst}
use kafka_api.Common.Int.{half16, half32, to_bits, ℤ, pos, InRange}
use kafka_api.Flow.{ok, and_then}
use kafka_api.Common.Bytes.{put_uint}
use kafka_api.Proto.Errors.{GoError, err_from_no}
use kafka_api.Proto.Codec.Fields.{IsString, IsDuration32}
use kafka_api.Proto.Codec.Arrays.{
  IsArray, All-map, Writes-array_len, Reads-array_len, array_len-pos, made,
}
use kafka_api.Proto.Rules.{
  Matches, Matches-bind, Matches-last, Matches-optional, Matches-slice, Matches-int16,
  Matches-int32, Matches-string, Matches-bool, Matches-duration,
}
use kafka_api.Proto.Header.{Kind, kind_number, IsHeader, at_least}
use kafka_api.Proto.Frame.RoundTrip.{Sending, sent_back, request_sent, response_sent}
use kafka_api.Proto.Codec.{Codec-each, Writes-then, Reads-bind}
use kafka_api.Proto.Writer.{Buffer, buffer_writer, buffer_laws}
use kafka_api.Proto.Encoder.{Encoding, each, encode_slice, encode_int32, encode_int32s}
use kafka_api.Proto.Decoder.{decode_int32, Decoding, decode_array_len, fill}
use kafka_api.Proto.CreateTopics.{
  decode_slice_unchecked, ReplicaAssignment, encode_replica_assignment, decode_replica_assignment,
  ConfigEntry, encode_config_entry, decode_config_entry, TopicInfo, encode_topic_info,
  decode_topic_info, CreateTopicsReq, encode_create_topics_req, create_topics_req_bytes,
  decode_create_topics_req, read_create_topics_req, TopicError, encode_topic_error,
  decode_topic_error, CreateTopicsResp, encode_create_topics_resp, create_topics_resp_bytes,
  decode_create_topics_resp, read_create_topics_resp,
}

-- The values that the wire format of a version can carry: in range, and with the initial value
-- in a field that the version leaves out.
pub record IsReplicaAssignment (a : ReplicaAssignment) : Type 0 where
  pub partition : InRange half32 a.partition
  pub replicas : IsArray a.replicas
  pub each_replicas : All (InRange half32) a.replicas

pub record IsConfigEntry (c : ConfigEntry) : Type 0 where
  pub config_name : IsString c.config_name
  pub config_value : IsString c.config_value

pub record IsTopicInfo (t : TopicInfo) : Type 0 where
  pub topic : IsString t.topic
  pub num_partitions : InRange half32 t.num_partitions
  pub replication_factor : InRange half16 t.replication_factor
  pub replica_assignments : IsArray t.replica_assignments
  pub each_replica_assignments : All IsReplicaAssignment t.replica_assignments
  pub config_entries : IsArray t.config_entries
  pub each_config_entries : All IsConfigEntry t.config_entries

pub record IsCreateTopicsReq (r : CreateTopicsReq) : Type 0 where
  pub header : IsHeader r.header
  pub create_topics_requests : IsArray r.create_topics_requests
  pub each_create_topics_requests : All IsTopicInfo r.create_topics_requests
  pub timeout : IsDuration32 r.timeout
  pub no_validate_only : at_least r.header.version 1 ≡ false → r.validate_only ≡ false

pub record IsTopicError (version : ℤ) (t : TopicError) : Type 0 where
  pub topic : IsString t.topic
  pub error_code : InRange half16 t.error_code
  pub error_message : IsString t.error_message
  pub no_error_message : at_least version 1 ≡ false → t.error_message ≡ []
  pub err : t.err ≡ err_from_no t.error_code

pub record IsCreateTopicsResp (r : CreateTopicsResp) : Type 0 where
  pub correlation_id : InRange half32 r.correlation_id
  pub throttle_time : IsDuration32 r.throttle_time
  pub no_throttle_time : at_least r.version 2 ≡ false → r.throttle_time ≡ pos 0
  pub topic_errors : IsArray r.topic_errors
  pub each_topic_errors : All (IsTopicError r.version) r.topic_errors

-- on the lengths that are written, a length whose error is dropped is read like any other
Matches-unchecked :
    {A : Type 0} (m : A → Encoding Buffer) (d : Decoding A) (xs : List A)
    → IsArray xs
    → All (λ x. Matches (m x) d x) xs
    → Matches (encode_slice m xs) (decode_slice_unchecked d) xs
unfolding encode_slice decode_slice_unchecked
Matches-unchecked m d xs h hs =
    let body : Matches (each m xs) (fill d (length xs)) xs = Codec-each buffer_laws m d xs hs in
    let size : List ℕ = put_uint 4 (to_bits half32 (pos (length xs))) in
    record {
      bytes = size ++ body.bytes;
      writes =
          Writes-then buffer_laws _ (each m xs) size body.bytes
            (Writes-array_len buffer_laws (pos (length xs)) h) body.writes;
      reads =
          Reads-bind decode_array_len _ size body.bytes
            (Reads-array_len (pos (length xs)) h (array_len-pos (length xs) h))
            (Reads-bind _ _ [] body.bytes (made (length xs)) body.reads);
    }

Matches-unchecked_int32s :
    (xs : List ℤ)
    → IsArray xs
    → All (InRange half32) xs
    → Matches (encode_int32s xs) (decode_slice_unchecked decode_int32) xs
unfolding encode_int32s
Matches-unchecked_int32s xs h hs =
    let c : Matches (encode_slice encode_int32 xs) (decode_slice_unchecked decode_int32) xs =
      Matches-unchecked encode_int32 decode_int32 xs h (All-map xs Matches-int32 hs) in
    record { bytes = c.bytes; writes = unfold encode_slice in c.writes; reads = c.reads }

Matches-replica_assignment :
    (a : ReplicaAssignment)
    → IsReplicaAssignment a
    → Matches (encode_replica_assignment a) (decode_replica_assignment) a
unfolding encode_replica_assignment decode_replica_assignment
Matches-replica_assignment a h =
    Matches-bind _ (Matches-int32 a.partition h.partition)
      (Matches-last _ (Matches-unchecked_int32s a.replicas h.replicas h.each_replicas))

Matches-config_entry :
    (c : ConfigEntry) → IsConfigEntry c → Matches (encode_config_entry c) (decode_config_entry) c
unfolding encode_config_entry decode_config_entry
Matches-config_entry c h =
    Matches-bind _ (Matches-string c.config_name h.config_name)
      (Matches-last _ (Matches-string c.config_value h.config_value))

Matches-topic_info :
    (t : TopicInfo) → IsTopicInfo t → Matches (encode_topic_info t) (decode_topic_info) t
unfolding encode_topic_info decode_topic_info
Matches-topic_info t h = Matches-bind _ (Matches-string t.topic h.topic) (
    Matches-bind _ (Matches-int32 t.num_partitions h.num_partitions) (
      Matches-bind _ (Matches-int16 t.replication_factor h.replication_factor) (
        Matches-bind _
          (Matches-slice Matches-replica_assignment t.replica_assignments h.replica_assignments
            h.each_replica_assignments)
          (Matches-last _ (
            Matches-unchecked _ _ t.config_entries h.config_entries
              (All-map t.config_entries Matches-config_entry h.each_config_entries))))))

pub sent_create_topics_req :
    (r : CreateTopicsReq)
    → IsCreateTopicsReq r
    → Sending
        (put_uint 2 (to_bits half16 (kind_number Kind.create_topics)))
        (create_topics_req_bytes r)
        read_create_topics_req
        r
unfolding create_topics_req_bytes read_create_topics_req encode_create_topics_req
    decode_create_topics_req
sent_create_topics_req r h =
    request_sent Kind.create_topics r.header _ decode_create_topics_req r h.header (
      Matches-bind _
        (Matches-slice Matches-topic_info r.create_topics_requests h.create_topics_requests
          h.each_create_topics_requests)
        (Matches-bind _ (Matches-duration r.timeout h.timeout) (
          Matches-last _ (
            Matches-optional (at_least r.header.version 1) (λ c. Matches-bool r.validate_only)
              h.no_validate_only))))

-- A well-formed request, written by Bytes and read by ReadCreateTopicsReq,
-- comes back as it was, whatever follows it on the stream.
pub read_create_topics_req-create_topics_req_bytes :
    (r : CreateTopicsReq) (rest : List ℕ) (e : GoError)
    → IsCreateTopicsReq r
    → and_then
        (create_topics_req_bytes r)
        (λ b. read_create_topics_req (record { bytes = b ++ rest; ended = e }))
      ≡ ok r
read_create_topics_req-create_topics_req_bytes r rest e h =
    sent_back (sent_create_topics_req r h) rest e

Matches-topic_error :
    (version : ℤ) (t : TopicError)
    → IsTopicError version t
    → Matches (encode_topic_error version t) (decode_topic_error version) t
unfolding encode_topic_error decode_topic_error
Matches-topic_error version t h =
    subst
      (λ e.
        Matches (encode_topic_error version t) (decode_topic_error version) (record t { err = e }))
      (sym h.err)
      (Matches-bind _ (Matches-string t.topic h.topic) (
        Matches-bind _ (Matches-int16 t.error_code h.error_code) (
          Matches-last _ (
            Matches-optional (at_least version 1)
              (λ c. Matches-string t.error_message h.error_message) h.no_error_message))))

pub sent_create_topics_resp :
    (r : CreateTopicsResp)
    → IsCreateTopicsResp r
    → Sending
        (put_uint 4 (to_bits half32 r.correlation_id))
        (create_topics_resp_bytes r)
        (read_create_topics_resp r.version)
        r
unfolding create_topics_resp_bytes read_create_topics_resp encode_create_topics_resp
    decode_create_topics_resp
sent_create_topics_resp r h = response_sent r.correlation_id _ r h.correlation_id (
    Matches-bind _
      (Matches-optional (at_least r.version 2)
        (λ c. Matches-duration r.throttle_time h.throttle_time) h.no_throttle_time)
      (Matches-last _ (
        Matches-slice (Matches-topic_error r.version) r.topic_errors h.topic_errors
          h.each_topic_errors)))

-- A well-formed response, written by Bytes and read by ReadVersionedCreateTopicsResp at its version,
-- comes back as it was, whatever follows it on the stream.
pub read_create_topics_resp-create_topics_resp_bytes :
    (r : CreateTopicsResp) (rest : List ℕ) (e : GoError)
    → IsCreateTopicsResp r
    → and_then
        (create_topics_resp_bytes r)
        (λ b. read_create_topics_resp r.version (record { bytes = b ++ rest; ended = e }))
      ≡ ok r
read_create_topics_resp-create_topics_resp_bytes r rest e h =
    sent_back (sent_create_topics_resp r h) rest e
