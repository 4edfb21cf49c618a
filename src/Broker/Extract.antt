-- ===== src/Broker/Extract.antt =====
-- The types of a fetch response of v2/proto/messages.go, and extractMessages of v2/broker.go, which
-- takes the messages of one partition out of it.
use kafka_api.Common.{
  ◌+◌, ℕ, suc, Bool, true, false, ◌||◌, Option, none, some, List, [], ◌∷◌, ◌++◌, if◌then◌else◌,
}
use kafka_api.Common.Int.{less, ℤ, pos, negsuc, add_int64, half64, wrap}
use kafka_api.Common.Map.{same_string}
use kafka_api.Proto.Errors.{GoError, kafka_error, eqb}
use kafka_api.Proto.Message.{Message}
use kafka_api.Broker.{Error, incomplete_fetch, TopicPartition}
use kafka_api.Broker.Producer.{part_err}

pub record RecordHeader : Type 0 where
  pub key : List ℕ
  pub value : Option (List ℕ)

pub record Record : Type 0 where
  pub length : ℤ
  pub attributes : ℤ
  pub timestamp_delta : ℤ
  pub offset_delta : ℤ
  pub key : Option (List ℕ)
  pub value : Option (List ℕ)
  pub headers : List RecordHeader

pub record RecordBatch : Type 0 where
  pub first_offset : ℤ
  pub length : ℤ
  pub partition_leader_epoch : ℤ
  pub magic : ℤ
  pub crc : ℤ
  pub attributes : ℤ
  pub last_offset_delta : ℤ
  pub first_timestamp : ℤ
  pub max_timestamp : ℤ
  pub producer_id : ℤ
  pub producer_epoch : ℤ
  pub first_sequence : ℤ
  pub records : List Record

pub record FetchRespAbortedTransaction : Type 0 where
  pub producer_id : ℤ
  pub first_offset : ℤ

pub record FetchRespPartition : Type 0 where
  pub id : ℤ
  pub err : Option GoError
  pub tip_offset : ℤ
  pub last_stable_offset : ℤ
  pub log_start_offset : ℤ
  pub aborted_transactions : List FetchRespAbortedTransaction
  pub messages : List Message
  pub message_version : ℤ
  pub record_batches : List RecordBatch

pub record FetchRespTopic : Type 0 where
  pub name : List ℕ
  pub partitions : List FetchRespPartition

pub record FetchResp : Type 0 where
  pub version : ℤ
  pub correlation_id : ℤ
  pub throttle_time : ℤ
  pub topics : List FetchRespTopic

-- the results of extractMessages
pub record Extracted : Type 0 where
  pub messages : List Message
  pub should_retry : Bool
  pub error : Option Error

-- the first switch: the four errors that pass
unfoldable pub is_temporary : Option GoError → Bool
is_temporary none = false
is_temporary (some (kafka_error n)) =
    eqb n (pos 5) || (eqb n (pos 6) || (eqb n (pos 8) || eqb n (pos 3)))
is_temporary (some e) = false

-- a + b in int64 arithmetic
unfoldable pub plus : ℤ → ℤ → ℤ
plus (pos a) b = add_int64 a b
plus (negsuc a) (pos b) = add_int64 b (negsuc a)
plus (negsuc a) (negsuc b) = wrap half64 (negsuc (suc (a + b)))

unfoldable pub of_record : List ℕ → FetchRespPartition → RecordBatch → Record → Message
unfolding plus
of_record name part rb r = record {
  key = r.key;
  value = r.value;
  offset = plus rb.first_offset r.offset_delta;
  crc = 0;
  topic = name;
  partition = part.id;
  tip_offset = part.tip_offset;
}

unfoldable pub of_records : List ℕ → FetchRespPartition → RecordBatch → List Record → List Message
unfolding of_record
of_records name part rb [] = []
of_records name part rb (r ∷ rs) = of_record name part rb r ∷ of_records name part rb rs

unfoldable pub of_batches : List ℕ → FetchRespPartition → List RecordBatch → List Message
unfolding of_records
of_batches name part [] = []
of_batches name part (rb ∷ rbs) = of_records name part rb rb.records ++ of_batches name part rbs

-- what is returned for the partition that was asked for
unfoldable pub extract_partition : List ℕ → FetchRespPartition → Extracted
unfolding is_temporary of_batches
extract_partition name part =
    if is_temporary part.err
    then record { messages = []; should_retry = true; error = part_err part.err }
    else record {
      messages =
          if less part.message_version (pos 2)
          then part.messages
          else of_batches name part part.record_batches;
      should_retry = false;
      error = part_err part.err;
    }

-- the loop over topic.Partitions; `none` is that it ends without a return
unfoldable pub extract_partitions : ℤ → List ℕ → List FetchRespPartition → Option Extracted
unfolding extract_partition
extract_partitions partition name [] = none
extract_partitions partition name (part ∷ parts) =
    if eqb part.id partition
    then some (extract_partition name part)
    else extract_partitions partition name parts

-- the loop over resp.Topics
unfoldable pub extract_topics : TopicPartition → List FetchRespTopic → Extracted
unfolding extract_partitions
extract_topics tp [] = record { messages = []; should_retry = false; error = some incomplete_fetch }
extract_topics tp (topic ∷ topics) =
    if same_string topic.name tp.topic
    then elim (extract_partitions tp.partition topic.name topic.partitions) [
      | some x ↦ x
      | none ↦ extract_topics tp topics
    ]
    else extract_topics tp topics

-- extractMessages
unfoldable pub extract_messages : FetchResp → TopicPartition → Extracted
unfolding extract_topics
extract_messages resp tp = extract_topics tp resp.topics
