-- ===== src/Wire.antt =====
-- Requests and responses on a stream: the interface Request of v2/proto/messages.go, what a client
-- writes, and how Server.handleClient of v2/kafkatest/server.go takes requests from the stream.
pub mod Delivery
pub mod Responses
use kafka_api.Common.{if◌then◌else◌, ℕ, Option, none, some, List, []}
use kafka_api.Common.Int.{ℤ, pos}
use kafka_api.Flow.{Returned, ok, err, panic}
use kafka_api.Proto.Errors.{GoError, eof, eqb}
use kafka_api.Proto.Decoder.{Reader}
use kafka_api.Proto.Header.{Kind, kind_number, RequestHeader}
use kafka_api.Proto.Frame.{Result}
use kafka_api.Proto.Metadata.{MetadataReq, metadata_req_bytes, read_metadata_req}
use kafka_api.Proto.OffsetCommit.{OffsetCommitReq, offset_commit_req_bytes, read_offset_commit_req}
use kafka_api.Proto.OffsetFetch.{OffsetFetchReq, offset_fetch_req_bytes, read_offset_fetch_req}
use kafka_api.Proto.FetchRequest.{FetchReq, fetch_req_bytes, read_fetch_req}
use kafka_api.Proto.OffsetRequest.{OffsetReq, offset_req_bytes, read_offset_req}
use kafka_api.Proto.ConsumerMetadata.{
  ConsumerMetadataReq, consumer_metadata_req_bytes, read_consumer_metadata_req,
}
use kafka_api.Proto.CreateTopics.{CreateTopicsReq, create_topics_req_bytes}
use kafka_api.Proto.ApiVersions.{api_versions_req_bytes, read_api_versions_req}

-- the types that implement Request, but ProduceReq
pub data Request : Type 0 where
  metadata : MetadataReq → Request
  offset_commit : OffsetCommitReq → Request
  offset_fetch : OffsetFetchReq → Request
  fetch : FetchReq → Request
  offset : OffsetReq → Request
  consumer_metadata : ConsumerMetadataReq → Request
  create_topics : CreateTopicsReq → Request
  api_versions : RequestHeader → Request

-- Kind
unfoldable pub kind : Request → Kind
kind (Request.metadata r) = Kind.metadata
kind (Request.offset_commit r) = Kind.offset_commit
kind (Request.offset_fetch r) = Kind.offset_fetch
kind (Request.fetch r) = Kind.fetch
kind (Request.offset r) = Kind.offset
kind (Request.consumer_metadata r) = Kind.consumer_metadata
kind (Request.create_topics r) = Kind.create_topics
kind (Request.api_versions h) = Kind.api_versions

-- Bytes, which WriteTo writes
unfoldable pub bytes : Request → Result (List ℕ)
bytes (Request.metadata r) = metadata_req_bytes r
bytes (Request.offset_commit r) = offset_commit_req_bytes r
bytes (Request.offset_fetch r) = offset_fetch_req_bytes r
bytes (Request.fetch r) = fetch_req_bytes r
bytes (Request.offset r) = offset_req_bytes r
bytes (Request.consumer_metadata r) = consumer_metadata_req_bytes r
bytes (Request.create_topics r) = create_topics_req_bytes r
bytes (Request.api_versions h) = api_versions_req_bytes h

unfoldable pub as_request : {A : Type 0} → (A → Request) → Result A → Result Request
as_request make (ok a) = ok (make a)
as_request make (err e) = err e
as_request make panic = panic

-- bytes.NewBuffer(b)
unfoldable pub buffered : List ℕ → Reader
buffered b = record { bytes = b; ended = eof }

-- The switch of handleClient by the kind of a request, less ProduceReqKind; `none` is its default,
-- "unknown request".
unfoldable pub parse : ℤ → List ℕ → Option (Result Request)
unfolding as_request buffered kind_number
parse k b =
    if eqb k (kind_number Kind.fetch)
    then some (as_request Request.fetch (read_fetch_req (buffered b)))
    else if eqb k (kind_number Kind.offset)
    then some (as_request Request.offset (read_offset_req (buffered b)))
    else if eqb k (kind_number Kind.metadata)
    then some (as_request Request.metadata (read_metadata_req (buffered b)))
    else if eqb k (kind_number Kind.offset_commit)
    then some (as_request Request.offset_commit (read_offset_commit_req (buffered b)))
    else if eqb k (kind_number Kind.offset_fetch)
    then some (as_request Request.offset_fetch (read_offset_fetch_req (buffered b)))
    else if eqb k (kind_number Kind.consumer_metadata)
    then some (as_request Request.consumer_metadata (read_consumer_metadata_req (buffered b)))
    else if eqb k (kind_number Kind.api_versions)
    then some (as_request Request.api_versions (read_api_versions_req (buffered b)))
    else none
