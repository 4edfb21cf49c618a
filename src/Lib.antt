-- ===== src/Lib.antt =====
-- Verification of the Go client library for Kafka in v2/: the wire protocol of v2/proto and the
-- producers that distribute messages over partitions, with the core of its connections, of the broker
-- with its producer and consumer, and of the multiplexer of consumers.
--
-- The program and the model
--
-- v2/proto turns requests and responses into bytes and back. Every message type has a method Bytes,
-- which runs an encoder over a buffer and patches the size of the message into the first four
-- bytes, and a function Read… or ReadVersioned…, which runs a decoder over a stream. After an
-- error, an encoder or a decoder does nothing more, but for EncodeError, which still writes and
-- then puts its own outcome in the error's place.
--   Proto.Errors     v2/proto/errors.go: the table of error numbers and errFromNo; the error values.
--   Proto.Writer     io.Writer as a record with its laws, bytes.Buffer, writeAll, allocParseBuf.
--   Proto.Encoder    the encoder of v2/proto/serialization.go, over any writer.
--   Proto.Decoder    the decoder of v2/proto/serialization.go, over a stream of bytes that ends in an
--                    error (io.EOF, or what a connection ends with).
--   Proto.Codec      what it means that an encoder and a decoder match, and the rules for each field,
--                    string, error, duration, optional field and slice. Proto.Rules has the rules at a
--                    buffer, Proto.Times those for time stamps.
--   Proto.Header     RequestHeader, encodeHeader, decodeHeader, the kinds of requests, versions.
--   Proto.Frame      the first and last statements of Bytes and of the Read functions.
--   Proto.Metadata, Proto.OffsetCommit, Proto.OffsetFetch, Proto.FetchRequest, Proto.OffsetRequest,
--   Proto.OffsetResponse, Proto.ProduceResponse, Proto.ConsumerMetadata, Proto.CreateTopics,
--   Proto.ApiVersions
--                    the messages of v2/proto/messages.go. Foo.Bytes is foo_bytes and ReadFoo or
--                    ReadVersionedFoo is read_foo. Each has a child RoundTrip with the conditions under
--                    which a value is well-formed and what comes back of it, which is not always
--                    all: see the results.
--   Proto.Stream     ReadReq and ReadResp, which cut a stream into messages.
--   Proto.Snappy     snappyDecode of v2/proto/snappy.go; snappy.Decode is a parameter.
--   Proto.SliceWriter
--                    slicewriter of v2/proto/messages.go, a writer over a buffer of fixed size.
--   Proto.MessageSet
--                    writeMessageSet (write_message_set) and, in Reading, readMessageSet
--                    (read_message_set). compress/gzip and golang/snappy are the record Compressors;
--                    crc32.ChecksumIEEE is checksum_ieee of Common.Crc, computed as its polynomial says.
--                    Writing has what is written of a set, RoundTrip what is read of it, Compressed the
--                    two together with each compression.
--   Wire             the switch by which handleClient of v2/kafkatest/server.go parses requests
--                    (Delivery), and the last statements of the methods of v2/connection.go, which parse
--                    responses (Responses).
--   Broker           v2/broker.go over an interface to connections, Network, whose operations change a
--                    state of the world. Cluster: fetchMetadata, cacheMetadata, refreshMetadata,
--                    PartitionCount, muCloseDeadConnection, Dial. Leader: muLeaderConnection
--                    (leader_connection). Producer: Produce (produce_messages) and produce. Consumer:
--                    Consume (consume_one), ConsumeBatch, consume and fetch. Extract: extractMessages. Trim:
--                    trimLeadingMessages of v2/connection.go, which conn.Fetch applies to its
--                    responses; the rest of conn.Fetch, and conn.Produce, are parameters. What other
--                    goroutines do while muLeaderConnection sleeps without its lock is a function.
--   Connection       v2/connection.go: the choice of the version of a request (Versions), the
--                    correlation ids (Ids), and the waiters that requests register for their
--                    responses (Waiters), with a step relation for the interleavings of any number of
--                    requests, Close and the goroutine readRespLoop (Waiters.Steps).
--   Multiplexer      v2/multiplexer.go: the workers of Merge, Close and Consume as a step relation. What
--                    the merged consumers return, and when, is arbitrary.
--   Distribute       v2/distributing_producer.go: the random, round robin and hash producers, over a
--                    Producer that is a parameter, as is rand.Intn.
--   Flow, Common     results with errors and panics, the monad of the encoder and the decoder, integers,
--                    bytes, lists, and Go's maps as association lists whose order is that of `range`.
--
-- Conventions
--
-- A Go function that returns an error gives `ok` or `err`; `panic` stands for a panic at run time. An
-- encoder or decoder is a state passed on explicitly; an early return and a panic leave the sequence
-- of statements. A signed integer is a ℤ over the native numbers; a conversion to an intW keeps its
-- wrap-around. Bytes are numbers, strings lists of them. A nil slice of bytes is `none`, other nil
-- slices are empty. A time stamp is the zero time or a number of nanoseconds.
--
-- A value is well-formed when its numbers are within the range of their Go types, its strings are at
-- most 32767 bytes, its slices at most 2 ^ 31 - 1 elements, its durations whole milliseconds that fit
-- an int32, its errors nil or one that its error number is mapped to, and the fields that its version
-- does not carry have their zero values.
--
-- Loops are over a list or count down, but that of snappyDecode, which has one unit of fuel more than
-- the block has bytes: a turn of the loop passes at least four. A step of a step relation is what runs
-- under one lock, or one operation on a channel; which step comes next is arbitrary. A reply channel
-- is told by the number of channels made before it.
--
-- readMessageSet has one unit of fuel more than the stream has bytes, since a turn of its loop
-- takes at least eight or ends it, and a bound on how deep compressed sets are nested in each
-- other: two levels are enough for the sets that writeMessageSet writes. The loop of consume may
-- have no limit to its turns; with a limit of n, fuel for n + 1 is enough. The retries of the
-- broker, the producer and fetch count down. `none` as the outcome of a call in Broker is a panic;
-- a call of a connection that reads a response can be one, on a negative length of an array. The
-- results of consume, Consume and ConsumeBatch have one more `none` around, for a loop out of fuel.
--
-- Not modelled: record batches, the bytes of the fetch response and of the produce request (with the
-- varints, which only record batches use), the dialling of a connection and the sending of its
-- requests, the offset coordinator, offset, callOnClusterController and Close of the broker, the
-- constructors of producers and consumers, the message store of the test server, logging, and the
-- docker cluster of the integration tests. Message texts of errors and the lengths of pauses are left
-- out.
pub mod Common
pub mod Flow
pub mod Proto
pub mod Distribute
pub mod Connection
pub mod Multiplexer
pub mod Broker
pub mod Wire
mod Tests
