-- ===== src/Tests/Wire.antt =====
-- A request of the server's switch, and the response to it.
use kafka_api.Proto.OffsetCommit.{
  encode_offset_commit_resp_partition, encode_offset_commit_resp_topic, encode_offset_commit_resp,
  offset_commit_resp_bytes,
}
use kafka_api.Proto.Stream.Frames.{at}
use kafka_api.Wire.Responses.{parse-response_bytes, correlation_id, IsResponse, Response, call}
use kafka_api.Wire.Delivery.{parse-request_bytes, handled, IsRequest}
use kafka_api.Proto.Decoder.{scale}
use kafka_api.Wire.{kind, Request}
use kafka_api.Common.Int.{wrap, to_bits, pos, half32}
use kafka_api.Common.Bytes.{put_uint}
use kafka_api.Flow.{◌>>◌, ◌>>=◌, continue, pure, ok}
use kafka_api.Proto.OffsetFetch.{
  offset_fetch_req_bytes, encode_offset_fetch_req, encode_offset_fetch_req_topic,
}
use kafka_api.Proto.Frame.{to_bytes, finished, put_at, size_of}
use kafka_api.Proto.Header.{encode_header, encode_fields, encode_named, kind_number}
use kafka_api.Proto.Writer.{write_all}
use kafka_api.Proto.Encoder.{
  when, encode_error, encode_string, encode_int32s, encode_slice, each, encode_array_len,
  encode_int64, encode_int32, encode_int16, then_if_ok, put_all,
}
use kafka_api.Common.{ℕ, ◌≡◌, refl, ◌<◌, List, [], ◌∷◌, ◌++◌, arith, some}
use kafka_api.Proto.Errors.{eof, kafka_error}
use kafka_api.Proto.Stream.{read_req, read_resp}
use kafka_api.Wire
use kafka_api.Wire.Responses

abbrev fetch_offset : Request
fetch_offset = Request.offset_fetch (record {
  header = record { version = pos 1; correlation_id = pos 7; client_id = b'c' ∷ [] };
  consumer_group = b'g' ∷ [];
  topics = record { name = b't' ∷ []; partitions = pos 0 ∷ pos 4 ∷ [] } ∷ [];
})

fetch_offset-IsRequest : IsRequest fetch_offset
fetch_offset-IsRequest = ground arith

fetch_offset-size : size_of (Wire.bytes fetch_offset) < half32
unfolding Wire.bytes put_all then_if_ok encode_int16 encode_int32 encode_int64 encode_array_len each
    encode_slice encode_int32s encode_string write_all kind_number encode_named encode_fields
    encode_header put_at finished to_bytes encode_offset_fetch_req_topic encode_offset_fetch_req
    offset_fetch_req_bytes pure continue ◌>>=◌ ◌>>◌ put_uint to_bits wrap
fetch_offset-size = omega arith

parse-request_bytes_example :
    (b : List ℕ) × (Wire.bytes fetch_offset ≡ ok b)
    × (Wire.parse (kind_number (kind fetch_offset)) b ≡ handled fetch_offset)
    × (read_req (at (b ++ 9 ∷ []) eof) ≡ (ok (kind_number (kind fetch_offset), b), at (9 ∷ []) eof))
parse-request_bytes_example =
    parse-request_bytes fetch_offset (9 ∷ []) eof fetch_offset-IsRequest fetch_offset-size

abbrev committed : Response
committed = Response.offset_commit (record {
  version = pos 2;
  correlation_id = pos 7;
  throttle_time = pos 0;
  topics =
      record {
        name = b't' ∷ [];
        partitions = record { id = pos 2; err = some (kafka_error (pos 12)) } ∷ [];
      }
      ∷ [];
})

committed-IsResponse : IsResponse committed
committed-IsResponse = record {
  correlation_id = omega arith;
  throttle_time = (pos 0, omega arith, unfold scale in refl);
  no_throttle_time = λ e. refl;
  topics = omega arith;
  each_topics = ground arith;
}

committed-size : size_of (Responses.bytes committed) < half32
unfolding Responses.bytes put_all then_if_ok encode_int16 encode_int32 encode_int64 encode_array_len
    each encode_slice encode_int32s encode_string encode_error write_all kind_number encode_named
    encode_fields encode_header put_at finished to_bytes offset_commit_resp_bytes pure continue
    ◌>>=◌ ◌>>◌ put_uint to_bits wrap encode_offset_commit_resp encode_offset_commit_resp_topic
    encode_offset_commit_resp_partition when
committed-size = omega arith

parse-response_bytes_example :
    (b : List ℕ) × (Responses.bytes committed ≡ ok b)
    × (Responses.parse (call committed) b ≡ ok committed)
    × (read_resp (at (b ++ 9 ∷ []) eof) ≡ (ok (correlation_id committed, b), at (9 ∷ []) eof))
parse-response_bytes_example =
    parse-response_bytes committed (9 ∷ []) eof committed-IsResponse committed-size
