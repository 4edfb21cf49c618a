-- ===== src/Proto.antt =====
-- The wire protocol, v2/proto.
pub mod Errors
pub mod Writer
pub mod Encoder
pub mod Decoder
pub mod Codec
pub mod Header
pub mod Metadata
pub mod Frame
pub mod Rules
pub mod Times
pub mod OffsetCommit
pub mod OffsetFetch
pub mod FetchRequest
pub mod OffsetRequest
pub mod ProduceResponse
pub mod ConsumerMetadata
pub mod OffsetResponse
pub mod CreateTopics
pub mod ApiVersions
pub mod Stream
pub mod Snappy
pub mod Message
pub mod SliceWriter
pub mod MessageSet
