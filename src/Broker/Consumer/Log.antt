-- ===== src/Broker/Consumer/Log.antt =====
-- The messages of a log, and what trimLeadingMessages of v2/connection.go and extractMessages of
-- v2/broker.go make of a response that holds some of them.
use kafka_api.Common.{
  ◌-◌, ltb_cases, ltb, ℕ, suc, ◌+◌, ◌≤◌, ◌≡◌, refl, ap, sym, ◌∙◌, subst, true, false, Option, List,
  [], ◌∷◌, ◌++◌, inl, inr, arith, length, if◌then◌else◌,
}
use kafka_api.Common.Int.{ℤ, pos, less}
use kafka_api.Proto.Message.{Message}
use kafka_api.Broker.{TopicPartition}
use kafka_api.Broker.Extract.{
  plus, of_record, of_records, of_batches, Record, RecordBatch, FetchRespPartition, FetchResp,
}
use kafka_api.Broker.Trim.{trim_messages, trim_records, trim_batches}

-- a log: the key and the value of the message at each offset
abbrev pub Log : Type 0
Log = ℕ → Option (List ℕ) × Option (List ℕ)

module _ (log : Log) (tp : TopicPartition) where
  -- the message of the log at the offset o
  pub record IsEntry (o : ℕ) (m : Message) : Type 0 where
    pub offset : m.offset ≡ pos o
    pub key : m.key ≡ (log o).0
    pub value : m.value ≡ (log o).1
    pub topic : m.topic ≡ tp.topic
    pub partition : m.partition ≡ tp.partition

  -- the messages of the log from the offset o on
  abbrev pub IsLog : ℕ → List Message → Type 0
  IsLog o [] = Unit {0}
  IsLog o (m ∷ ms) = IsEntry o m × IsLog (suc o) ms

  -- a record of a batch with the contents of the log at the offset o
  pub record IsRecord (o : ℕ) (first_offset : ℤ) (r : Record) : Type 0 where
    pub offset : plus first_offset r.offset_delta ≡ pos o
    pub key : r.key ≡ (log o).0
    pub value : r.value ≡ (log o).1

  abbrev pub AreRecords : ℕ → ℤ → List Record → Type 0
  AreRecords o first_offset [] = Unit {0}
  AreRecords o first_offset (r ∷ rs) =
      IsRecord o first_offset r × AreRecords (suc o) first_offset rs

  -- batches one behind the other
  abbrev pub AreBatches : ℕ → List RecordBatch → Type 0
  AreBatches o [] = Unit {0}
  AreBatches o (rb ∷ rbs) =
      AreRecords o rb.first_offset rb.records × AreBatches (o + length rb.records) rbs

  -- a response holds the log from an offset on that is not behind the one asked for
  pub record Holds (o : ℕ) (resp : FetchResp) : Type 0 where
    pub part : FetchRespPartition
    pub topics : resp.topics ≡ record { name = tp.topic; partitions = part ∷ [] } ∷ []
    pub id : part.id ≡ tp.partition
    pub start : ℕ
    pub early : start ≤ o
    pub messages : less part.message_version (pos 2) ≡ true → IsLog start part.messages
    pub batches : less part.message_version (pos 2) ≡ false → AreBatches start part.record_batches

  pub trim_messages-IsLog :
      (s o : ℕ) (ms : List Message) → s ≤ o → IsLog s ms → IsLog o (trim_messages (pos o) ms)
  unfolding trim_messages
  trim_messages-IsLog s o [] h l = tt
  trim_messages-IsLog s o (m ∷ ms) h (first, rest) =
      let test : less m.offset (pos o) ≡ ltb s o = ap (λ x. less x (pos o)) first.offset in
      elim (ltb_cases s o) [
        | inl (t, l) ↦
            rw (IsLog, trim_messages, test ∙ t)
              (trim_messages-IsLog (suc s) o ms (omega arith) rest)
        | inr (f, l) ↦
            let here : s ≡ o = omega arith in
            rw (IsLog, trim_messages, test ∙ f)
              (subst (λ k. IsEntry k m) here first, subst (λ k. IsLog (suc k) ms) here rest)
      ]

  module _ (part : FetchRespPartition) (at : part.id ≡ tp.partition) where
    record-IsEntry :
        (o : ℕ) (rb : RecordBatch) (r : Record)
        → IsRecord o rb.first_offset r
        → IsEntry o (of_record tp.topic part rb r)
    unfolding of_record
    record-IsEntry o rb r h = record {
      offset = h.offset;
      key = h.key;
      value = h.value;
      topic = refl;
      partition = at;
    }

    of_records-IsLog :
        (o : ℕ) (rb : RecordBatch) (rs : List Record) (rest : List Message)
        → AreRecords o rb.first_offset rs
        → IsLog (o + length rs) rest
        → IsLog o (of_records tp.topic part rb rs ++ rest)
    unfolding of_records
    of_records-IsLog o rb [] rest h k = subst (λ x. IsLog x rest) (omega arith) k
    of_records-IsLog o rb (r ∷ rs) rest (h, hs) k = (
      record-IsEntry o rb r h,
      of_records-IsLog (suc o) rb rs rest hs (subst (λ x. IsLog x rest) (omega arith) k),
    )

    -- from the later one of s and o on
    trim_records-IsLog :
        (s o : ℕ) (rb rb' : RecordBatch) (rs : List Record) (rest : List Message)
        → rb'.first_offset ≡ rb.first_offset
        → AreRecords s rb.first_offset rs
        → IsLog (o + (s + length rs - o)) rest
        → IsLog
            (o + (s - o))
            (of_records tp.topic part rb' (trim_records (pos o) rb.first_offset rs) ++ rest)
    unfolding trim_records of_records
    trim_records-IsLog s o rb rb' [] rest same h k = subst (λ x. IsLog x rest) (omega arith) k
    trim_records-IsLog s o rb rb' (r ∷ rs) rest same (h, hs) k =
        let test : less (plus rb.first_offset r.offset_delta) (pos o) ≡ ltb s o =
          ap (λ x. less x (pos o)) h.offset in
        elim (ltb_cases s o) [
          | inl (t, l) ↦
              let later : o + (suc s - o) ≡ o + (s - o) = omega arith in
              subst
                (λ b. IsLog (o + (s - o)) (
                  of_records tp.topic part rb'
                    (if b then trim_records (pos o) rb.first_offset rs else r ∷ rs)
                  ++ rest))
                (sym (test ∙ t))
                (subst
                  (λ x. IsLog x (
                    of_records tp.topic part rb' (trim_records (pos o) rb.first_offset rs) ++ rest))
                  later
                  (trim_records-IsLog (suc s) o rb rb' rs rest same hs
                    (subst (λ x. IsLog x rest) (omega arith) k)))
          | inr (f, l) ↦
              let here : s ≡ o + (s - o) = omega arith in
              subst
                (λ b. IsLog (o + (s - o)) (
                  of_records tp.topic part rb'
                    (if b then trim_records (pos o) rb.first_offset rs else r ∷ rs)
                  ++ rest))
                (sym (test ∙ f))
                (subst (λ x. IsLog x (of_records tp.topic part rb' (r ∷ rs) ++ rest)) here
                  (of_records-IsLog s rb' (r ∷ rs) rest
                    (subst (λ x. AreRecords s x (r ∷ rs)) (sym same) (h, hs))
                    (subst (λ x. IsLog x rest) (omega arith) k)))
        ]

    pub trim_batches-IsLog :
        (s o : ℕ) (rbs : List RecordBatch)
        → AreBatches s rbs
        → IsLog (o + (s - o)) (of_batches tp.topic part (trim_batches (pos o) rbs))
    unfolding trim_batches of_batches
    trim_batches-IsLog s o [] h = tt
    trim_batches-IsLog s o (rb ∷ rbs) (h, hs) =
        trim_records-IsLog s o rb
          (record rb { records = trim_records (pos o) rb.first_offset rb.records }) rb.records
          (of_batches tp.topic part (trim_batches (pos o) rbs)) refl h
          (trim_batches-IsLog (s + length rb.records) o rbs hs)
