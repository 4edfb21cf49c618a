-- ===== src/Broker/Producer.antt =====
-- Produce of v2/broker.go, and the type of its requests.
pub mod Answers
pub mod Stored
use kafka_api.Broker.{proceed}
use kafka_api.Common.{
  ℕ, zero, suc, Bool, true, false, ◌||◌, Option, none, some, List, [], ◌∷◌, ◌⊎◌, inl, inr,
  if◌then◌else◌,
}
use kafka_api.Common.Int.{ℤ, pos, negsuc, add_int64}
use kafka_api.Common.Map.{same_string}
use kafka_api.Proto.Errors.{GoError, eof, eqb}
use kafka_api.Proto.Header.{RequestHeader}
use kafka_api.Proto.Message.{Message}
use kafka_api.Proto.ProduceResponse.{ProduceResp, ProduceRespTopic, ProduceRespPartition}
use kafka_api.Broker.{Error, from_conn, incomplete_produce, Network, TopicPartition, Broker}
use kafka_api.Broker.Cluster.{refresh_metadata, close_dead_connection}
use kafka_api.Broker.Leader.{leader_connection}

pub record ProduceReqPartition : Type 0 where
  pub id : ℤ
  pub messages : List Message

pub record ProduceReqTopic : Type 0 where
  pub name : List ℕ
  pub partitions : List ProduceReqPartition

pub record ProduceReq : Type 0 where
  pub header : RequestHeader
  pub compression : ℤ
  pub transactional_id : List ℕ
  pub required_acks : ℤ
  pub timeout : ℤ
  pub topics : List ProduceReqTopic

-- what ProducerConf says of requests and retries
pub record ProducerConf : Type 0 where
  pub compression : ℤ
  pub required_acks : ℤ
  pub request_timeout : ℤ
  pub retry_limit : ℕ

-- the offset and the error of a produce call: both are results
abbrev pub Produced : Type 0
Produced = ℤ × Option Error

abbrev pub part_err : Option GoError → Option Error
part_err none = none
part_err (some e) = some (from_conn e)

-- the loop over t.Partitions; `none` is `found` at false
unfoldable pub find_partition : ℤ → List ProduceRespPartition → Option Produced → Option Produced
find_partition partition [] found = found
find_partition partition (part ∷ parts) found =
    find_partition partition parts
      (if eqb part.id partition then some (part.offset, part_err part.err) else found)

-- the loop over resp.Topics
unfoldable pub find_produced :
    TopicPartition → List ProduceRespTopic → Option Produced → Option Produced
unfolding find_partition
find_produced tp [] found = found
find_produced tp (t ∷ topics) found =
    find_produced tp topics (
      if same_string t.name tp.topic then find_partition tp.partition t.partitions found else found)

-- `if !found { return 0, errors.New("incomplete produce response") }`
unfoldable pub produced : Option Produced → Produced
produced none = (pos 0, some incomplete_produce)
produced (some p) = p

-- `for i, msg := range messages`: msg.Offset = int64(i) + offset
unfoldable pub number_from : ℕ → ℤ → List Message → List Message
number_from i offset [] = []
number_from i offset (m ∷ ms) =
    record m { offset = add_int64 i offset } ∷ number_from (suc i) offset ms

-- the results of Produce, the messages with their offsets, and the broker
abbrev pub Ending : Type 0 → Type 0 → Type 0
Ending C W = (Produced × List Message) × Broker C W

-- a connection is broken: *net.OpError, io.EOF, EPIPE
unfoldable pub is_dead : {C W : Type 0} → Network C W → GoError → Bool
is_dead net eof = true
is_dead net e = net.op_error e || net.epipe e

unfoldable pub produce_req :
    {C W : Type 0} → ProducerConf → TopicPartition → List Message → Broker C W → ProduceReq
produce_req conf tp messages b = record {
  header = record { version = pos 0; correlation_id = pos 0; client_id = b.conf.client_id };
  compression = conf.compression;
  transactional_id = [];
  required_acks = conf.required_acks;
  timeout = conf.request_timeout;
  topics =
      record {
        name = tp.topic;
        partitions = record { id = tp.partition; messages = messages } ∷ [];
      }
      ∷ [];
}

-- `send` is conn.Produce with the reading of its response; `none` is a panic of that, which a negative
-- length of an array in the response gives. `pause` is what other goroutines do to the broker while
-- muLeaderConnection sleeps.
module _ {C W : Type 0} (net : Network C W)
    (send : C → ProduceReq → W → Option ((GoError ⊎ ProduceResp) × W))
    (pause : Broker C W → Broker C W) where
  -- behind conn.Produce(&req)
  unfoldable pub sent :
      ProducerConf
      → TopicPartition
      → C
      → Broker C W
      → (GoError ⊎ ProduceResp) × W
      → Option (Produced × Broker C W)
  unfolding is_dead find_produced produced
  sent conf tp conn b (inl e, w) =
      if is_dead net e
      then proceed (close_dead_connection net conn (record b { world = w }))
          (λ b'. some ((pos 0, some (from_conn e)), b'))
      else some ((pos 0, some (from_conn e)), record b { world = w })
  sent conf tp conn b (inr resp, w) =
      if eqb conf.required_acks (pos 0)
      then some ((pos 0, none), record b { world = w })
      else some (produced (find_produced tp resp.topics none), record b { world = w })

  -- behind muLeaderConnection; without an error and without a connection, a method of nil is called,
  -- which is a panic: `none`
  unfoldable pub on_leader :
      ProducerConf
      → TopicPartition
      → List Message
      → (Option C × Option Error) × Broker C W
      → Option (Produced × Broker C W)
  unfolding sent produce_req
  on_leader conf tp messages ((conn, some e), b) = some ((pos 0, some e), b)
  on_leader conf tp messages ((none, none), b) = none
  on_leader conf tp messages ((some conn, none), b) =
      proceed (send conn (produce_req conf tp messages b) b.world) (sent conf tp conn b)

  -- produce
  unfoldable pub produce :
      ProducerConf → TopicPartition → List Message → Broker C W → Option (Produced × Broker C W)
  unfolding on_leader
  produce conf tp messages b =
      proceed (leader_connection net pause tp b) (on_leader conf tp messages)

  -- the error of refreshMetadata is only logged
  unfoldable pub refreshing : Broker C W → Option (Broker C W)
  unfolding refresh_metadata
  refreshing b = proceed (refresh_metadata net b) (λ r. some r.1)

  -- the errors that are retried as they are: io.EOF and EPIPE
  unfoldable pub is_retried : Error → Bool
  is_retried (from_conn eof) = true
  is_retried (from_conn e) = net.epipe e
  is_retried e = false

  -- after another error, the metadata is refreshed
  unfoldable pub after_error : Error → Broker C W → Option (Broker C W)
  unfolding is_retried refreshing
  after_error e b = if is_retried e then some b else refreshing b

  -- the switch on the error of an attempt
  unfoldable pub tried :
      List Message
      → (Option Error → Broker C W → Option (Ending C W))
      → Produced × Broker C W
      → Option (Ending C W)
  unfolding after_error number_from
  tried messages again ((offset, none), b) =
      some (((offset, none), number_from 0 offset messages), b)
  tried messages again ((offset, some e), b) = proceed (after_error e b) (again (some e))

  -- the loop, with the error of the last attempt
  unfoldable pub produce_loop :
      ℕ
      → ProducerConf
      → TopicPartition
      → List Message
      → Option Error
      → Broker C W
      → Option (Ending C W)
  unfolding produce tried
  produce_loop zero conf tp messages e b = some (((pos 0, e), messages), b)
  produce_loop (suc n) conf tp messages e b =
      proceed (produce conf tp messages b) (tried messages (produce_loop n conf tp messages))

  -- Produce
  unfoldable pub produce_messages :
      ProducerConf → TopicPartition → List Message → Broker C W → Option (Ending C W)
  unfolding produce_loop
  produce_messages conf tp [] b = some (((pos 0, none), []), b)
  produce_messages conf tp (m ∷ ms) b = produce_loop conf.retry_limit conf tp (m ∷ ms) none b
