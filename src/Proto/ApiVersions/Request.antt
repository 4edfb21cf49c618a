-- ===== src/Proto/ApiVersions/Request.antt =====
-- APIVersionsReq, whose kind and version are read together and dropped.
use kafka_api.Flow.{pure, ◌>>=◌, ok, and_then, ◌>>◌}
use kafka_api.Common.{append_assoc, ℕ, ◌+◌, ◌*◌, ◌<◌, ◌≡◌, List, ◌++◌, arith, subst}
use kafka_api.Common.Int.{ℤ, pos, half16, half32, to_bits, to_bits-lt, from_bits}
use kafka_api.Common.Bytes.{put_uint}
use kafka_api.Proto.Errors.{GoError}
use kafka_api.Proto.Writer.{buffer_writer, buffer_laws}
use kafka_api.Proto.Encoder.{encode_int16, encode_int32, encode_string}
use kafka_api.Proto.Decoder.{decode_string, decode_int32}
use kafka_api.Proto.Codec.{Codec, Reads, Codec-bind, Codec-last, Writes-then, Reads-bind}
use kafka_api.Proto.Codec.Prims.{Codec-int32, Writes-int16, Reads-any32}
use kafka_api.Proto.Codec.Fields.{Codec-string}
use kafka_api.Proto.Header.{
  Kind, kind_number, RequestHeader, IsHeader, encode_header, encode_fields, encode_named,
}
use kafka_api.Proto.Frame.RoundTrip.{Sending, sent_back, framed_sent}
use kafka_api.Proto.ApiVersions.{
  api_versions_req_bytes, read_api_versions_req, decode_api_versions_req,
}

put_uint-pair :
    (a b : ℕ) → a < 65536 → b < 65536 → put_uint 4 (a * 65536 + b) ≡ put_uint 2 a ++ put_uint 2 b
unfolding put_uint
put_uint-pair a b h k = ground arith

-- two int16 are read as one int32
pair : ℤ → ℤ → ℕ
pair a b = to_bits half16 a * 65536 + to_bits half16 b

Reads-pair :
    (a b : ℤ)
    → Reads decode_int32
        (put_uint 2 (to_bits half16 a) ++ put_uint 2 (to_bits half16 b))
        (from_bits half32 (pair a b))
unfolding pair
Reads-pair a b =
    let u : ℕ = to_bits half16 a in
    let v : ℕ = to_bits half16 b in
    let hu : u < 65536 = to_bits-lt half16 a (omega arith) in
    let hv : v < 65536 = to_bits-lt half16 b (omega arith) in
    subst (λ bs. Reads decode_int32 bs (from_bits half32 (u * 65536 + v))) (put_uint-pair u v hu hv)
      (Reads-any32 (u * 65536 + v) (omega arith))

-- what stands behind the kind and the version
Codec-after :
    (header : RequestHeader)
    → IsHeader header
    → Codec buffer_laws
        (encode_int32 header.correlation_id >> encode_string header.client_id)
        (do
          correlation_id ← decode_int32
          client_id ← decode_string
          pure (record { version = pos 0; correlation_id = correlation_id; client_id = client_id }))
        (record header { version = pos 0 })
Codec-after header h =
    Codec-bind buffer_laws _ (Codec-int32 buffer_laws header.correlation_id h.correlation_id)
      (Codec-last buffer_laws _ (Codec-string buffer_laws header.client_id h.client_id))

pub sent_api_versions_req :
    (header : RequestHeader)
    → IsHeader header
    → Sending
        (put_uint 2 (to_bits half16 (kind_number Kind.api_versions)))
        (api_versions_req_bytes header)
        read_api_versions_req
        (record header { version = pos 0 })
unfolding api_versions_req_bytes read_api_versions_req encode_header encode_fields encode_named
    decode_api_versions_req
sent_api_versions_req header h =
    let number = kind_number Kind.api_versions in
    let c = Codec-after header h in
    let u : List ℕ = put_uint 2 (to_bits half16 number) in
    let v : List ℕ = put_uint 2 (to_bits half16 header.version) in
    framed_sent _ _ (record header { version = pos 0 }) u (v ++ c.bytes)
      (Writes-then buffer_laws (encode_int16 number) _ u (v ++ c.bytes)
        (Writes-int16 buffer_laws number)
        (Writes-then buffer_laws (encode_int16 header.version) _ v c.bytes
          (Writes-int16 buffer_laws header.version) c.writes))
      (subst (λ bs. Reads decode_api_versions_req bs (record header { version = pos 0 }))
        (append_assoc u v c.bytes)
        (Reads-bind decode_int32 _ (u ++ v) c.bytes (Reads-pair number header.version) c.reads))

-- A request with a well-formed header, written by Bytes and read by ReadAPIVersionsReq, comes back
-- with version 0 and otherwise as it was, whatever follows it on the stream.
pub read_api_versions_req-api_versions_req_bytes :
    (header : RequestHeader) (rest : List ℕ) (e : GoError)
    → IsHeader header
    → and_then
        (api_versions_req_bytes header)
        (λ b. read_api_versions_req (record { bytes = b ++ rest; ended = e }))
      ≡ ok (record header { version = pos 0 })
read_api_versions_req-api_versions_req_bytes header rest e h =
    sent_back (sent_api_versions_req header h) rest e
