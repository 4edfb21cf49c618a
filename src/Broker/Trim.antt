-- ===== src/Broker/Trim.antt =====
-- trimLeadingMessages of v2/connection.go, which conn.Fetch applies to its response.
use kafka_api.Common.{Option, none, some, List, [], ◌∷◌, if◌then◌else◌}
use kafka_api.Common.Int.{ℤ, pos, less}
use kafka_api.Proto.Message.{Message}
use kafka_api.Proto.FetchRequest.{FetchReq, FetchReqTopic, FetchReqPartition}
use kafka_api.Broker.{proceed}
use kafka_api.Broker.Extract.{
  plus, Record, RecordBatch, FetchRespPartition, FetchRespTopic, FetchResp,
}

-- the messages from the first one on whose offset is not below the requested one
unfoldable pub trim_messages : ℤ → List Message → List Message
trim_messages requested_offset [] = []
trim_messages requested_offset (msg ∷ messages) =
    if less msg.offset requested_offset
    then trim_messages requested_offset messages
    else msg ∷ messages

unfoldable pub trim_records : ℤ → ℤ → List Record → List Record
unfolding plus
trim_records requested_offset first_offset [] = []
trim_records requested_offset first_offset (rec ∷ records) =
    if less (plus first_offset rec.offset_delta) requested_offset
    then trim_records requested_offset first_offset records
    else rec ∷ records

-- the loop over partition.RecordBatches
unfoldable pub trim_batches : ℤ → List RecordBatch → List RecordBatch
unfolding trim_records
trim_batches requested_offset [] = []
trim_batches requested_offset (rb ∷ rbs) =
    record rb { records = trim_records requested_offset rb.first_offset rb.records }
    ∷ trim_batches requested_offset rbs

unfoldable pub trim_partition : ℤ → FetchRespPartition → FetchRespPartition
unfolding trim_messages trim_batches
trim_partition requested_offset partition =
    if less partition.message_version (pos 2)
    then record partition { messages = trim_messages requested_offset partition.messages }
    else record partition {
      record_batches = trim_batches requested_offset partition.record_batches;
    }

-- the loop over topic.Partitions; the request's partition is the one at the same place, and `none`
-- is the panic where there is none
unfoldable pub trim_partitions :
    List FetchReqPartition → List FetchRespPartition → Option (List FetchRespPartition)
unfolding trim_partition
trim_partitions asked [] = some []
trim_partitions [] (partition ∷ partitions) = none
trim_partitions (req ∷ asked) (partition ∷ partitions) =
    proceed (trim_partitions asked partitions)
      (λ trimmed. some (trim_partition req.fetch_offset partition ∷ trimmed))

-- the loop over resp.Topics
unfoldable pub trim_topics : List FetchReqTopic → List FetchRespTopic → Option (List FetchRespTopic)
unfolding trim_partitions
trim_topics asked [] = some []
trim_topics [] (topic ∷ topics) = none
trim_topics (req_topic ∷ asked) (topic ∷ topics) =
    proceed (trim_partitions req_topic.partitions topic.partitions) (λ partitions.
      proceed (trim_topics asked topics)
        (λ trimmed. some (record topic { partitions = partitions } ∷ trimmed)))

-- trimLeadingMessages
unfoldable pub trim_leading_messages : FetchReq → FetchResp → Option FetchResp
unfolding trim_topics
trim_leading_messages req resp =
    proceed (trim_topics req.topics resp.topics) (λ topics. some (record resp { topics = topics }))
