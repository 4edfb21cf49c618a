-- ===== src/Broker/Producer/Answers.antt =====
-- The answers to Produce of v2/broker.go: what a response says of a partition, and the numbering of
-- the messages.
use kafka_api.Common.{
  ℕ, suc, ◌≡◌, ◌≤◌, ◌+◌, refl, ap, sym, ◌∙◌, Bool, true, false, Option, none, some, List, [], ◌∷◌,
  arith, length, if◌then◌else◌,
}
use kafka_api.Common.Int.{ℤ, pos, half64, add_int64, add_int64-pos}
use kafka_api.Common.Map.{same_string, same_string→≡}
use kafka_api.Broker.{TopicPartition}
use kafka_api.Broker.Producer.{
  Produced, part_err, find_partition, find_produced, number_from, ProducerConf, ProduceReq,
}
use kafka_api.Proto.Errors.{GoError, eqb, eqb→eq}
use kafka_api.Proto.Message.{Message}
use kafka_api.Proto.ProduceResponse.{ProduceRespTopic, ProduceRespPartition}

-- the messages ms, but with the offsets o, o + 1, …
abbrev pub Numbered : ℕ → List Message → List Message → Type 0
Numbered o [] [] = Unit {0}
Numbered o (m ∷ ms) (n ∷ ns) = (n ≡ record m { offset = pos o }) × Numbered (suc o) ms ns
Numbered o [] (n ∷ ns) = ⊥
Numbered o (m ∷ ms) [] = ⊥

pub number_from-Numbered :
    (i o k : ℕ) (ms : List Message)
    → k ≡ i + o
    → k + length ms ≤ half64
    → Numbered k ms (number_from i (pos o) ms)
unfolding number_from
number_from-Numbered i o k [] e h = tt
number_from-Numbered i o k (m ∷ ms) e h =
    let here : add_int64 i (pos o) ≡ pos k = add_int64-pos i o (omega arith) ∙ ap pos (sym e) in
    (
      ap (λ z. record m { offset = z }) here,
      number_from-Numbered (suc i) o (suc k) ms (omega arith) (omega arith),
    )

-- the entries of a partition without an error have offsets of which P holds
abbrev pub PartitionsHave : ℤ → (ℤ → Type 0) → List ProduceRespPartition → Type 0
PartitionsHave partition P [] = Unit {0}
PartitionsHave partition P (part ∷ parts) =
    (part.id ≡ partition → part.err ≡ none → P part.offset) × PartitionsHave partition P parts

abbrev pub TopicsHave : TopicPartition → (ℤ → Type 0) → List ProduceRespTopic → Type 0
TopicsHave tp P [] = Unit {0}
TopicsHave tp P (t ∷ topics) =
    (t.name ≡ tp.topic → PartitionsHave tp.partition P t.partitions) × TopicsHave tp P topics

-- what has been found in a response
abbrev pub Good : (ℤ → Type 0) → Option Produced → Type 0
Good P none = Unit {0}
Good P (some (offset, none)) = P offset
Good P (some (offset, some e)) = Unit {0}

part-Good :
    (P : ℤ → Type 0) (offset : ℤ) (err : Option GoError)
    → (err ≡ none → P offset)
    → Good P (some (offset, part_err err))
part-Good P offset none h = h refl
part-Good P offset (some e) h = tt

if-Good :
    (P : ℤ → Type 0) (t : Bool) (x y : Option Produced)
    → (t ≡ true → Good P x)
    → Good P y
    → Good P (if t then x else y)
if-Good P true x y h k = h refl
if-Good P false x y h k = k

find_partition-Good :
    (P : ℤ → Type 0) (partition : ℤ) (parts : List ProduceRespPartition) (found : Option Produced)
    → PartitionsHave partition P parts
    → Good P found
    → Good P (find_partition partition parts found)
unfolding find_partition
find_partition-Good P partition [] found h g = g
find_partition-Good P partition (part ∷ parts) found (h, hs) g =
    find_partition-Good P partition parts _ hs (
      if-Good P (eqb part.id partition) _ found
        (λ t. part-Good P part.offset part.err (h (eqb→eq part.id partition t))) g)

pub find_produced-Good :
    (P : ℤ → Type 0) (tp : TopicPartition) (topics : List ProduceRespTopic)
    (found : Option Produced)
    → TopicsHave tp P topics
    → Good P found
    → Good P (find_produced tp topics found)
unfolding find_produced
find_produced-Good P tp [] found h g = g
find_produced-Good P tp (t ∷ topics) found (h, hs) g = find_produced-Good P tp topics _ hs (
    if-Good P (same_string t.name tp.topic) _ found
      (λ e.
        find_partition-Good P tp.partition t.partitions found (h (same_string→≡ t.name tp.topic e))
          g)
      g)

-- a request stores the messages in the partition, with the acknowledgements asked for
pub record Sends (conf : ProducerConf) (tp : TopicPartition) (ms : List Message) (req : ProduceReq)
    : Type 0 where
  pub acks : req.required_acks ≡ conf.required_acks
  pub compression : req.compression ≡ conf.compression
  pub topics :
      req.topics
      ≡ record { name = tp.topic; partitions = record { id = tp.partition; messages = ms } ∷ [] }
        ∷ []
