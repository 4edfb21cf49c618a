-- ===== src/Wire/Responses.antt =====
-- Responses on a stream: what Bytes writes, and what the methods of a connection in v2/connection.go
-- make of the bytes that readRespLoop hands them.
use kafka_api.Proto.Frame.{size_of, Result}
use kafka_api.Proto.ApiVersions.{api_versions_resp_bytes, read_api_versions_resp, ApiVersionsResp}
use kafka_api.Proto.ApiVersions.RoundTrip.{sent_api_versions_resp, IsApiVersionsResp}
use kafka_api.Proto.CreateTopics.{
  create_topics_resp_bytes, read_create_topics_resp, CreateTopicsResp,
}
use kafka_api.Proto.ConsumerMetadata.{
  consumer_metadata_resp_bytes, read_consumer_metadata_resp, ConsumerMetadataResp,
}
use kafka_api.Proto.CreateTopics.RoundTrip.{IsCreateTopicsResp, sent_create_topics_resp}
use kafka_api.Proto.ConsumerMetadata.RoundTrip.{IsConsumerMetadataResp, sent_consumer_metadata_resp}
use kafka_api.Proto.ProduceResponse.{produce_resp_bytes, read_produce_resp, ProduceResp}
use kafka_api.Proto.OffsetResponse.{offset_resp_bytes, read_offset_resp, OffsetResp}
use kafka_api.Proto.ProduceResponse.RoundTrip.{IsProduceResp, sent_produce_resp}
use kafka_api.Proto.OffsetFetch.{offset_fetch_resp_bytes, read_offset_fetch_resp, OffsetFetchResp}
use kafka_api.Proto.OffsetResponse.RoundTrip.{IsOffsetResp, sent_offset_resp}
use kafka_api.Proto.OffsetCommit.{
  offset_commit_resp_bytes, read_offset_commit_resp, OffsetCommitResp,
}
use kafka_api.Proto.OffsetFetch.RoundTrip.{IsOffsetFetchResp, sent_offset_fetch_resp}
use kafka_api.Proto.Metadata.{metadata_resp_bytes, MetadataResp, read_metadata_resp}
use kafka_api.Proto.OffsetCommit.RoundTrip.{IsOffsetCommitResp, sent_offset_commit_resp}
use kafka_api.Proto.Metadata.RoundTrip.{IsMetadataResp, sent_metadata_resp}
use kafka_api.Common.{
  ℕ, ◌+◌, ◌<◌, ◌≡◌, ap, subst, List, [], ◌++◌, append-nil, arith, length, length-append,
}
use kafka_api.Common.Int.{ℤ, pos, half32, to_bits, InRange}
use kafka_api.Common.Bytes.{put_uint, length-put_uint}
use kafka_api.Flow.{ok, err, panic}
use kafka_api.Proto.Errors.{GoError, eof}
use kafka_api.Proto.Decoder.{Reader}
use kafka_api.Proto.Frame.RoundTrip.{Sending, framed}
use kafka_api.Proto.Stream.{read_resp}
use kafka_api.Proto.Stream.Frames.{at}
use kafka_api.Proto.Stream.Responses.{read_resp_lem}
use kafka_api.Wire.{buffered}

-- the responses, but FetchResp
pub data Response : Type 0 where
  metadata : MetadataResp → Response
  offset_commit : OffsetCommitResp → Response
  offset_fetch : OffsetFetchResp → Response
  offset : OffsetResp → Response
  produce : ProduceResp → Response
  consumer_metadata : ConsumerMetadataResp → Response
  create_topics : CreateTopicsResp → Response
  api_versions : ApiVersionsResp → Response

-- Bytes
unfoldable pub bytes : Response → Result (List ℕ)
bytes (Response.metadata r) = metadata_resp_bytes r
bytes (Response.offset_commit r) = offset_commit_resp_bytes r
bytes (Response.offset_fetch r) = offset_fetch_resp_bytes r
bytes (Response.offset r) = offset_resp_bytes r
bytes (Response.produce r) = produce_resp_bytes r
bytes (Response.consumer_metadata r) = consumer_metadata_resp_bytes r
bytes (Response.create_topics r) = create_topics_resp_bytes r
bytes (Response.api_versions r) = api_versions_resp_bytes r

unfoldable pub as_response : {A : Type 0} → (A → Response) → Result A → Result Response
as_response make (ok a) = ok (make a)
as_response make (err e) = err e
as_response make panic = panic

-- The call that was made: the methods of connection, with the version of the request. CreateTopic reads
-- its response at version 0, whatever the request's version.
pub data Call : Type 0 where
  metadata offset_commit offset_fetch offset produce consumer_metadata create_topics api_versions :
      ℤ → Call

-- the last statement of each method
unfoldable pub parse : Call → List ℕ → Result Response
unfolding as_response buffered
parse (Call.metadata v) b = as_response Response.metadata (read_metadata_resp v (buffered b))
parse (Call.offset_commit v) b =
    as_response Response.offset_commit (read_offset_commit_resp v (buffered b))
parse (Call.offset_fetch v) b =
    as_response Response.offset_fetch (read_offset_fetch_resp v (buffered b))
parse (Call.offset v) b = as_response Response.offset (read_offset_resp v (buffered b))
parse (Call.produce v) b = as_response Response.produce (read_produce_resp v (buffered b))
parse (Call.consumer_metadata v) b =
    as_response Response.consumer_metadata (read_consumer_metadata_resp v (buffered b))
parse (Call.create_topics v) b =
    as_response Response.create_topics (read_create_topics_resp (pos 0) (buffered b))
parse (Call.api_versions v) b =
    as_response Response.api_versions (read_api_versions_resp v (buffered b))

-- The responses that can be sent; those to CreateTopic in version 0.
abbrev pub IsResponse : Response → Type 0
IsResponse (Response.metadata r) = IsMetadataResp r
IsResponse (Response.offset_commit r) = IsOffsetCommitResp r
IsResponse (Response.offset_fetch r) = IsOffsetFetchResp r
IsResponse (Response.offset r) = IsOffsetResp r
IsResponse (Response.produce r) = IsProduceResp r
IsResponse (Response.consumer_metadata r) = IsConsumerMetadataResp r
IsResponse (Response.create_topics r) = IsCreateTopicsResp r × (r.version ≡ pos 0)
IsResponse (Response.api_versions r) = IsApiVersionsResp r

unfoldable pub correlation_id : Response → ℤ
correlation_id (Response.metadata r) = r.correlation_id
correlation_id (Response.offset_commit r) = r.correlation_id
correlation_id (Response.offset_fetch r) = r.correlation_id
correlation_id (Response.offset r) = r.correlation_id
correlation_id (Response.produce r) = r.correlation_id
correlation_id (Response.consumer_metadata r) = r.correlation_id
correlation_id (Response.create_topics r) = r.correlation_id
correlation_id (Response.api_versions r) = r.correlation_id

-- the call that a response answers, made in the response's version
unfoldable pub call : Response → Call
call (Response.metadata r) = Call.metadata r.version
call (Response.offset_commit r) = Call.offset_commit r.version
call (Response.offset_fetch r) = Call.offset_fetch r.version
call (Response.offset r) = Call.offset r.version
call (Response.produce r) = Call.produce r.version
call (Response.consumer_metadata r) = Call.consumer_metadata r.version
call (Response.create_topics r) = Call.create_topics r.version
call (Response.api_versions r) = Call.api_versions r.version

read_back :
    {A : Type 0} {head : List ℕ} {m : Result (List ℕ)} {read : Reader → Result A} {a : A}
    (make : A → Response) (s : Sending head m read a)
    → as_response make (read (buffered (framed (head ++ s.body)))) ≡ ok (make a)
unfolding buffered as_response
read_back {head = head} {read = read} {a = a} make s = ap (as_response make) (
    subst (λ b. read (record { bytes = b; ended = eof }) ≡ ok a)
      (append-nil (framed (head ++ s.body))) (s.back [] eof))

-- How a response fares: the bytes that are written, and what its call makes of them.
abbrev Fares : Response → Type 0
Fares r =
    (body : List ℕ) × (bytes r
      ≡ ok (framed (put_uint 4 (to_bits half32 (correlation_id r)) ++ body)))
    × (parse (call r) (framed (put_uint 4 (to_bits half32 (correlation_id r)) ++ body)) ≡ ok r)
    × InRange half32 (correlation_id r)

fares : (r : Response) → IsResponse r → Fares r
unfolding bytes parse call correlation_id
fares (Response.metadata r) h =
    let s = sent_metadata_resp r h in
    (s.body, s.sent, read_back Response.metadata s, h.correlation_id)
fares (Response.offset_commit r) h =
    let s = sent_offset_commit_resp r h in
    (s.body, s.sent, read_back Response.offset_commit s, h.correlation_id)
fares (Response.offset_fetch r) h =
    let s = sent_offset_fetch_resp r h in
    (s.body, s.sent, read_back Response.offset_fetch s, h.correlation_id)
fares (Response.offset r) h =
    let s = sent_offset_resp r h in (s.body, s.sent, read_back Response.offset s, h.correlation_id)
fares (Response.produce r) h =
    let s = sent_produce_resp r h in
    (s.body, s.sent, read_back Response.produce s, h.correlation_id)
fares (Response.consumer_metadata r) h =
    let s = sent_consumer_metadata_resp r h in
    (s.body, s.sent, read_back Response.consumer_metadata s, h.correlation_id)
fares (Response.create_topics r) (h, old) =
    let s = sent_create_topics_resp r h in
    let t =
      subst
        (λ v.
          Sending (put_uint 4 (to_bits half32 r.correlation_id)) (create_topics_resp_bytes r)
            (read_create_topics_resp v) r)
        old s in
    (t.body, t.sent, read_back Response.create_topics t, h.correlation_id)
fares (Response.api_versions r) h =
    let s = sent_api_versions_resp r h in
    (s.body, s.sent, read_back Response.api_versions s, h.correlation_id)

-- A well-formed response of less than 2 ^ 31 bytes, of any kind but fetch, a create topics response
-- being of version 0, the one that its method reads, is written to the stream:
-- ReadResp takes its bytes whole, with its correlation id, and leaves what follows on
-- the stream; the method that made the call in the response's version parses them as that response.
pub parse-response_bytes :
    (r : Response) (rest : List ℕ) (e : GoError)
    → IsResponse r
    → size_of (bytes r) < half32
    → (b : List ℕ) × (bytes r ≡ ok b)
      × (parse (call r) b ≡ ok r)
      × (read_resp (at (b ++ rest) e) ≡ (ok (correlation_id r, b), at rest e))
parse-response_bytes r rest e h short =
    let (body, written, parsed, range) = fares r h in
    let id : ℤ = correlation_id r in
    let head : List ℕ = put_uint 4 (to_bits half32 id) in
    let size : ℕ = to_bits half32 (pos (length (head ++ body))) in
    let all : length (framed (head ++ body)) ≡ 8 + length body = omega (
      arith,
      length-append (put_uint 4 size) (head ++ body),
      length-append head body,
      length-put_uint 4 size,
      length-put_uint 4 (to_bits half32 id),
    ) in
    let fits : length (framed (head ++ body)) < half32 =
      subst (λ x. size_of x < half32) written short in
    (
      framed (head ++ body),
      written,
      parsed,
      read_resp_lem id body rest e range (omega (arith, fits, all)),
    )
