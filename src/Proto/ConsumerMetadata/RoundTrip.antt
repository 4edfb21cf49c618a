-- ===== src/Proto/ConsumerMetadata/RoundTrip.antt =====
-- Consumer metadata responses come back as they were written, and requests of version 0 with the
-- coordinator type 0; well-formed requests of later versions are cut short.
use kafka_api.Proto.Writer.{buffer_writer, buffer_laws}
use kafka_api.Flow.{>>=-next, ok, and_then, err, pure, ◌>>=◌}
use kafka_api.Proto.ConsumerMetadata.{
  encode_string, ConsumerMetadataReq, consumer_metadata_req_bytes, decode_consumer_metadata_req,
  decode_coordinator, read_consumer_metadata_req, ConsumerMetadataResp,
  encode_consumer_metadata_resp, consumer_metadata_resp_bytes, decode_consumer_metadata_resp,
  read_consumer_metadata_resp,
}
use kafka_api.Proto.Codec.{Codec}
use kafka_api.Common.{ℕ, ◌≡◌, true, false, List, [], ◌++◌, ◌∙◌}
use kafka_api.Common.Int.{half16, half32, to_bits, pos, InRange}
use kafka_api.Common.Bytes.{put_uint}
use kafka_api.Proto.Errors.{GoError, eof}
use kafka_api.Proto.Codec.Fields.{IsString, IsError, IsDuration32}
use kafka_api.Proto.Rules.{
  Matches-bind, Matches-last, Matches-optional, Matches-int32, Matches-string, Matches-error,
  Matches-duration,
}
use kafka_api.Proto.Header.{Kind, kind_number, IsHeader, at_least}
use kafka_api.Proto.Frame.RoundTrip.{Sending, sent_back, request_sent, response_sent, request_then}
use kafka_api.Proto.Frame.{decoded}
use kafka_api.Proto.Decoder.{
  optional, new_decoder, decode_string, decode_int8, guarded, read_bytes, read_full,
}

-- The values that the wire format of a version can carry: in range, and with the initial value
-- in a field that the version leaves out.
pub record IsConsumerMetadataResp (r : ConsumerMetadataResp) : Type 0 where
  pub correlation_id : InRange half32 r.correlation_id
  pub throttle_time : IsDuration32 r.throttle_time
  pub no_throttle_time : at_least r.version 1 ≡ false → r.throttle_time ≡ pos 0
  pub err : IsError r.err
  pub err_msg : IsString r.err_msg
  pub no_err_msg : at_least r.version 1 ≡ false → r.err_msg ≡ []
  pub coordinator_id : InRange half32 r.coordinator_id
  pub coordinator_host : IsString r.coordinator_host
  pub coordinator_port : InRange half32 r.coordinator_port

pub sent_consumer_metadata_resp :
    (r : ConsumerMetadataResp)
    → IsConsumerMetadataResp r
    → Sending
        (put_uint 4 (to_bits half32 r.correlation_id))
        (consumer_metadata_resp_bytes r)
        (read_consumer_metadata_resp r.version)
        r
unfolding consumer_metadata_resp_bytes read_consumer_metadata_resp encode_consumer_metadata_resp
    decode_consumer_metadata_resp
sent_consumer_metadata_resp r h = response_sent r.correlation_id _ r h.correlation_id (
    Matches-bind _
      (Matches-optional (at_least r.version 1)
        (λ c. Matches-duration r.throttle_time h.throttle_time) h.no_throttle_time)
      (Matches-bind _ (Matches-error r.err h.err) (
        Matches-bind _
          (Matches-optional (at_least r.version 1) (λ c. Matches-string r.err_msg h.err_msg)
            h.no_err_msg)
          (Matches-bind _ (Matches-int32 r.coordinator_id h.coordinator_id) (
            Matches-bind _ (Matches-string r.coordinator_host h.coordinator_host)
              (Matches-last _ (Matches-int32 r.coordinator_port h.coordinator_port)))))))

-- A well-formed response, written by Bytes and read by ReadVersionedConsumerMetadataResp at its version,
-- comes back as it was, whatever follows it on the stream.
pub read_consumer_metadata_resp-consumer_metadata_resp_bytes :
    (r : ConsumerMetadataResp) (rest : List ℕ) (e : GoError)
    → IsConsumerMetadataResp r
    → and_then
        (consumer_metadata_resp_bytes r)
        (λ b. read_consumer_metadata_resp r.version (record { bytes = b ++ rest; ended = e }))
      ≡ ok r
read_consumer_metadata_resp-consumer_metadata_resp_bytes r rest e h =
    sent_back (sent_consumer_metadata_resp r h) rest e

pub record IsConsumerMetadataReq (r : ConsumerMetadataReq) : Type 0 where
  pub header : IsHeader r.header
  pub consumer_group : IsString r.consumer_group

-- what Bytes writes brings the reader to the coordinator type
request_start :
    (r : ConsumerMetadataReq) (rest : List ℕ) (e : GoError)
    → IsConsumerMetadataReq r
    → and_then
        (consumer_metadata_req_bytes r)
        (λ b. read_consumer_metadata_req (record { bytes = b ++ rest; ended = e }))
      ≡ decoded (
          decode_coordinator r.header r.consumer_group
            (new_decoder (record { bytes = rest; ended = e })))
unfolding consumer_metadata_req_bytes read_consumer_metadata_req decode_consumer_metadata_req
request_start r rest e h =
    request_then Kind.consumer_metadata r.header _ (λ _. decode_string) decode_coordinator rest e
      h.header (Matches-string r.consumer_group h.consumer_group)

-- before version 1 nothing stands behind the group
Codec-group :
    (r : ConsumerMetadataReq)
    → IsConsumerMetadataReq r
    → at_least r.header.version 1 ≡ false
    → Codec buffer_laws
        (encode_string r.consumer_group)
        (decode_string >>= decode_coordinator r.header)
        (record r { coordinator_type = pos 0 })
unfolding decode_coordinator optional pure ◌>>=◌
Codec-group r h old =
    let c = Matches-string r.consumer_group h.consumer_group in
    record {
      bytes = c.bytes;
      writes = c.writes;
      reads = λ rest e.
          >>=-next decode_string (decode_coordinator r.header) _ (c.reads rest e) ∙ rw old;
    }

pub sent_consumer_metadata_req :
    (r : ConsumerMetadataReq)
    → IsConsumerMetadataReq r
    → at_least r.header.version 1 ≡ false
    → Sending
        (put_uint 2 (to_bits half16 (kind_number Kind.consumer_metadata)))
        (consumer_metadata_req_bytes r)
        read_consumer_metadata_req
        (record r { coordinator_type = pos 0 })
unfolding consumer_metadata_req_bytes read_consumer_metadata_req decode_consumer_metadata_req
sent_consumer_metadata_req r h old =
    request_sent Kind.consumer_metadata r.header _ (λ h'. decode_string >>= decode_coordinator h')
      (record r { coordinator_type = pos 0 }) h.header (Codec-group r h old)

-- A well-formed request of version 0, written by Bytes and read by ReadConsumerMetadataReq, comes
-- back with coordinator type 0 and otherwise as it was, whatever follows it on the stream.
pub read_consumer_metadata_req-consumer_metadata_req_bytes :
    (r : ConsumerMetadataReq) (rest : List ℕ) (e : GoError)
    → IsConsumerMetadataReq r
    → at_least r.header.version 1 ≡ false
    → and_then
        (consumer_metadata_req_bytes r)
        (λ b. read_consumer_metadata_req (record { bytes = b ++ rest; ended = e }))
      ≡ ok (record r { coordinator_type = pos 0 })
read_consumer_metadata_req-consumer_metadata_req_bytes r rest e h old =
    sent_back (sent_consumer_metadata_req r h old) rest e

-- From version 1 on, what Bytes writes is cut short: read alone, it is refused at the end of input.
pub consumer_metadata_req_bytes_truncated :
    (r : ConsumerMetadataReq)
    → IsConsumerMetadataReq r
    → at_least r.header.version 1 ≡ true
    → and_then
        (consumer_metadata_req_bytes r)
        (λ b. read_consumer_metadata_req (record { bytes = b ++ []; ended = eof }))
      ≡ err eof
consumer_metadata_req_bytes_truncated r h new =
    request_start r [] eof h
    ∙ (unfold decode_coordinator decoded optional pure ◌>>=◌ decode_int8 guarded read_bytes
          read_full in
        rw new)
