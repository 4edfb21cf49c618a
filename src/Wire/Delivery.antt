-- ===== src/Wire/Delivery.antt =====
-- A request that a client writes is taken whole from the stream and parsed by the server.
use kafka_api.Proto.Frame.{size_of, Result}
use kafka_api.Proto.ApiVersions.Request.{sent_api_versions_req}
use kafka_api.Proto.CreateTopics.RoundTrip.{sent_create_topics_req, IsCreateTopicsReq}
use kafka_api.Proto.ConsumerMetadata.RoundTrip.{sent_consumer_metadata_req, IsConsumerMetadataReq}
use kafka_api.Proto.OffsetRequest.RoundTrip.{sent_offset_req, IsOffsetReq}
use kafka_api.Proto.FetchRequest.RoundTrip.{sent_fetch_req, IsFetchReq}
use kafka_api.Proto.OffsetFetch.RoundTrip.{sent_offset_fetch_req, IsOffsetFetchReq}
use kafka_api.Proto.OffsetCommit.RoundTrip.{sent_offset_commit_req, IsOffsetCommitReq}
use kafka_api.Proto.Metadata.RoundTrip.{sent_metadata_req, IsMetadataReq}
use kafka_api.Common.{
  ℕ, ◌+◌, ◌<◌, ◌≡◌, refl, ap, subst, false, Option, none, some, List, [], ◌++◌, append-nil, arith,
  length, length-append,
}
use kafka_api.Common.Int.{ℤ, pos, negsuc, half16, half32, to_bits}
use kafka_api.Common.Bytes.{put_uint, length-put_uint}
use kafka_api.Flow.{ok}
use kafka_api.Proto.Errors.{GoError, eof}
use kafka_api.Proto.Decoder.{Reader}
use kafka_api.Proto.Header.{kind_number, kind_number-InRange, IsHeader, at_least}
use kafka_api.Proto.Frame.RoundTrip.{Sending, framed}
use kafka_api.Proto.Stream.{read_req}
use kafka_api.Proto.Stream.Frames.{at, read_req_lem}
use kafka_api.Wire.{Request, kind, bytes, as_request, buffered, parse}

-- The requests that can be sent: in range, with the zero value in a field that the version leaves out.
abbrev pub IsRequest : Request → Type 0
IsRequest (Request.metadata r) = IsMetadataReq r
IsRequest (Request.offset_commit r) = IsOffsetCommitReq r
IsRequest (Request.offset_fetch r) = IsOffsetFetchReq r
IsRequest (Request.fetch r) = IsFetchReq r
IsRequest (Request.offset r) = IsOffsetReq r
IsRequest (Request.consumer_metadata r) =
    IsConsumerMetadataReq r × (at_least r.header.version 1 ≡ false)
IsRequest (Request.create_topics r) = IsCreateTopicsReq r
IsRequest (Request.api_versions h) = IsHeader h

-- What the server makes of a request: a fetch or offset request has replica id -1, a consumer
-- metadata request coordinator type 0, an API versions request version 0. It does not know a create
-- topics request.
unfoldable pub handled : Request → Option (Result Request)
handled (Request.fetch r) = some (ok (Request.fetch (record r { replica_id = negsuc 0 })))
handled (Request.offset r) = some (ok (Request.offset (record r { replica_id = negsuc 0 })))
handled (Request.consumer_metadata r) =
    some (ok (Request.consumer_metadata (record r { coordinator_type = pos 0 })))
handled (Request.api_versions h) = some (ok (Request.api_versions (record h { version = pos 0 })))
handled (Request.create_topics r) = none
handled r = some (ok r)

read_back :
    {A : Type 0} {head : List ℕ} {m : Result (List ℕ)} {read : Reader → Result A} {a : A}
    (make : A → Request) (s : Sending head m read a)
    → as_request make (read (buffered (framed (head ++ s.body)))) ≡ ok (make a)
unfolding buffered as_request
read_back {head = head} {read = read} {a = a} make s = ap (as_request make) (
    subst (λ b. read (record { bytes = b; ended = eof }) ≡ ok a)
      (append-nil (framed (head ++ s.body))) (s.back [] eof))

-- How a request fares: the bytes that the client writes, which the server takes whole from the stream
-- if a message can be so long, with what it makes of them.
abbrev Fares : Request → Type 0
Fares r =
    (body : List ℕ) × (bytes r
      ≡ ok (framed (put_uint 2 (to_bits half16 (kind_number (kind r))) ++ body)))
    × (parse (kind_number (kind r))
          (framed (put_uint 2 (to_bits half16 (kind_number (kind r))) ++ body))
        ≡ handled r)

fares : (r : Request) → IsRequest r → Fares r
unfolding kind bytes parse handled kind_number
fares (Request.metadata r) h =
    let s = sent_metadata_req r h in (s.body, s.sent, ap some (read_back Request.metadata s))
fares (Request.offset_commit r) h =
    let s = sent_offset_commit_req r h in
    (s.body, s.sent, ap some (read_back Request.offset_commit s))
fares (Request.offset_fetch r) h =
    let s = sent_offset_fetch_req r h in
    (s.body, s.sent, ap some (read_back Request.offset_fetch s))
fares (Request.fetch r) h =
    let s = sent_fetch_req r h in (s.body, s.sent, ap some (read_back Request.fetch s))
fares (Request.offset r) h =
    let s = sent_offset_req r h in (s.body, s.sent, ap some (read_back Request.offset s))
fares (Request.consumer_metadata r) (h, old) =
    let s = sent_consumer_metadata_req r h old in
    (s.body, s.sent, ap some (read_back Request.consumer_metadata s))
fares (Request.create_topics r) h = let s = sent_create_topics_req r h in (s.body, s.sent, refl)
fares (Request.api_versions r) h =
    let s = sent_api_versions_req r h in
    (s.body, s.sent, ap some (read_back Request.api_versions s))

-- A well-formed request of less than 2 ^ 31 bytes, of any kind but produce, a consumer metadata
-- request being of version 0, is written to the stream: the server's ReadReq takes its bytes whole,
-- with its kind, leaves what follows on the stream, and its switch parses the bytes as `handled`
-- says: as that request, but with the replica id -1 in a fetch or offset request, the coordinator
-- type 0 in a consumer metadata request and the version 0 in an API versions request; it does not
-- know a create topics request.
pub parse-request_bytes :
    (r : Request) (rest : List ℕ) (e : GoError)
    → IsRequest r
    → size_of (bytes r) < half32
    → (b : List ℕ) × (bytes r ≡ ok b)
      × (parse (kind_number (kind r)) b ≡ handled r)
      × (read_req (at (b ++ rest) e) ≡ (ok (kind_number (kind r), b), at rest e))
parse-request_bytes r rest e h short =
    let (body, written, parsed) = fares r h in
    let number : ℤ = kind_number (kind r) in
    let head : List ℕ = put_uint 2 (to_bits half16 number) in
    let size : ℕ = to_bits half32 (pos (length (head ++ body))) in
    let all : length (framed (head ++ body)) ≡ 6 + length body = omega (
      arith,
      length-append (put_uint 4 size) (head ++ body),
      length-append head body,
      length-put_uint 4 size,
      length-put_uint 2 (to_bits half16 number),
    ) in
    let fits : length (framed (head ++ body)) < half32 =
      subst (λ x. size_of x < half32) written short in
    (
      framed (head ++ body),
      written,
      parsed,
      read_req_lem number body rest e (kind_number-InRange (kind r)) (omega (arith, fits, all)),
    )
