-- ===== src/Broker/Consumer/Served.antt =====
-- Which messages Consume of v2/broker.go delivers from a log, and in which order.
use kafka_api.Broker.{proceed}
use kafka_api.Common.{
  ℕ, suc, ◌+◌, ◌<◌, ◌≤◌, ◌≡◌, refl, ap, sym, ◌∙◌, subst, true, false, Option, none, some, [], ◌∷◌,
  ◌⊎◌, inl, inr, arith, Bool-cases,
}
use kafka_api.Common.Int.{ℤ, pos, less, half64, add_int64, add_int64-pos}
use kafka_api.Common.Map.{same_string_refl}
use kafka_api.Proto.Errors.{GoError, eqb, eqb_refl}
use kafka_api.Proto.Message.{Message}
use kafka_api.Proto.FetchRequest.{FetchReq, FetchReqPartition}
use kafka_api.Broker.{Error, Network, TopicPartition, Broker}
use kafka_api.Broker.Extract.{
  of_batches, extract_partition, extract_partitions, extract_topics, extract_messages, is_temporary,
  FetchRespPartition, FetchResp,
}
use kafka_api.Broker.Trim.{
  trim_batches, trim_partition, trim_topics, trim_partitions, trim_leading_messages,
}
use kafka_api.Broker.Panics.{Panics, Within, proceed-Within}
use kafka_api.Broker.Consumer.{consume_one, Consumer, Run}
use kafka_api.Broker.Consumer.Steps.{IsAt, AsksFor, fetch-Within}
use kafka_api.Broker.Consumer.Ending.{Delivers, consume_one-Delivers}
use kafka_api.Broker.Consumer.Log.{
  Log, IsEntry, IsLog, AreBatches, Holds, trim_messages-IsLog, trim_batches-IsLog,
}

module _ (log : Log) (tp : TopicPartition) (o : ℕ) where
  -- the partition of a response, trimmed and extracted
  part-IsLog :
      (part : FetchRespPartition) (s : ℕ)
      → part.id ≡ tp.partition
      → s ≤ o
      → (less part.message_version (pos 2) ≡ true → IsLog log tp s part.messages)
      → (less part.message_version (pos 2) ≡ false → AreBatches log tp s part.record_batches)
      → IsLog log tp o (extract_partition tp.topic (trim_partition (pos o) part)).messages
  unfolding extract_partition trim_partition
  part-IsLog part s at h old new = elim (Bool-cases (less part.message_version (pos 2))) [
    | inl v ↦ elim (Bool-cases (is_temporary part.err)) [
      | inl e ↦ rw (IsLog, extract_partition, trim_partition, v, e) tt
      | inr f ↦
          rw (IsLog, extract_partition, trim_partition, v, f)
            (rw v (trim_messages-IsLog log tp s o part.messages h (old v)))
    ]
    | inr v ↦ elim (Bool-cases (is_temporary part.err)) [
      | inl e ↦ rw (IsLog, extract_partition, trim_partition, v, e) tt
      | inr f ↦
          rw (IsLog, extract_partition, trim_partition, v, f)
            (rw v (
              subst
                (λ k. IsLog log tp k (
                  of_batches tp.topic
                    (record part { record_batches = trim_batches (pos o) part.record_batches })
                    (trim_batches (pos o) part.record_batches)))
                (omega arith)
                (trim_batches-IsLog log tp
                  (record part { record_batches = trim_batches (pos o) part.record_batches }) at s o
                  part.record_batches (new v))))
    ]
  ]

  trim_partition-id : (z : ℤ) (part : FetchRespPartition) → (trim_partition z part).id ≡ part.id
  unfolding trim_partition
  trim_partition-id z part = elim (Bool-cases (less part.message_version (pos 2))) [
    | inl t ↦ rw (trim_partition, t) refl
    | inr f ↦ rw (trim_partition, f) refl
  ]

  extract_one :
      (part : FetchRespPartition)
      → part.id ≡ tp.partition
      → IsLog log tp o (extract_partition tp.topic part).messages
      → IsLog log tp o
          (extract_topics tp (record { name = tp.topic; partitions = part ∷ [] } ∷ [])).messages
  unfolding extract_topics extract_partitions
  extract_one part at h =
      let here : eqb part.id tp.partition ≡ true =
        ap (λ x. eqb x tp.partition) at ∙ eqb_refl tp.partition in
      rw (same_string_refl tp.topic, here) h

  trim_topics-IsLog :
      (X : Type 0) (req_part : FetchReqPartition) (part : FetchRespPartition) (s : ℕ)
      → req_part.fetch_offset ≡ pos o
      → part.id ≡ tp.partition
      → s ≤ o
      → (less part.message_version (pos 2) ≡ true → IsLog log tp s part.messages)
      → (less part.message_version (pos 2) ≡ false → AreBatches log tp s part.record_batches)
      → Within X
          (λ ts. IsLog log tp o (extract_topics tp ts).messages)
          (trim_topics
            (record { name = tp.topic; partitions = req_part ∷ [] } ∷ [])
            (record { name = tp.topic; partitions = part ∷ [] } ∷ []))
  unfolding trim_topics trim_partitions proceed
  trim_topics-IsLog X req_part part s from at h old new =
      extract_one (trim_partition req_part.fetch_offset part)
        (trim_partition-id req_part.fetch_offset part ∙ at)
        (subst (λ z. IsLog log tp o (extract_partition tp.topic (trim_partition z part)).messages)
          (sym from) (part-IsLog part s at h old new))

  -- a response that holds the log is trimmed without a panic, and then gives the log from o on
  pub trim_leading_messages-IsLog :
      (X : Type 0) (req : FetchReq) (resp : FetchResp)
      → AsksFor tp (pos o) req
      → Holds log tp o resp
      → Within X
          (λ t. IsLog log tp o (extract_messages t tp).messages)
          (trim_leading_messages req resp)
  unfolding trim_leading_messages extract_messages
  trim_leading_messages-IsLog X req resp for h =
      proceed-Within X (λ ts. IsLog log tp o (extract_topics tp ts).messages)
        (λ t. IsLog log tp o (extract_topics tp t.topics).messages)
        (trim_topics req.topics resp.topics) (λ topics. some (record resp { topics = topics }))
        (subst
          (λ ts.
            Within X (λ us. IsLog log tp o (extract_topics tp us).messages)
              (trim_topics ts resp.topics))
          (sym for.topics)
          (subst
            (λ ts.
              Within X (λ us. IsLog log tp o (extract_topics tp us).messages)
                (trim_topics (record { name = tp.topic; partitions = for.part ∷ [] } ∷ []) ts))
            (sym h.topics)
            (trim_topics-IsLog X for.part h.part h.start for.from h.id h.early h.messages
              h.batches)))
        (λ ts l. l)

module _ {C W : Type 0} (net : Network C W)
    (ask : C → FetchReq → W → Option ((GoError ⊎ FetchResp) × W)) (pause : Broker C W → Broker C W)
    (pause-conf : (b : Broker C W) → (pause b).conf ≡ b.conf) (log : Log)
    (tp : TopicPartition) where
  -- The cluster keeps the log: a request for messages of the partition from an offset on is answered
  -- with some of them, before which there may be others from before that offset.
  abbrev pub Serves : Type 0
  Serves =
      (conn : C) (req : FetchReq) (w w' : W) (o : ℕ) (resp : FetchResp)
      → AsksFor tp (pos o) req
      → ask conn req w ≡ some (inr resp, w')
      → Holds log tp o resp

  -- a call of a connection that panics
  abbrev pub Stops : Type 0
  Stops = Panics net ⊎ ((conn : C) × (req : FetchReq) × (w : W) × (ask conn req w ≡ none))

  -- what Consume leaves, at the offset o of the log
  abbrev pub IsDelivered : ℕ → ℕ → Run net ask pause (Error ⊎ Message) → Type 0
  IsDelivered o n none = ⊥
  IsDelivered o n (some none) = Stops
  IsDelivered o n (some (some (inl e, c))) = IsAt tp (pos o) n c × IsLog log tp o c.msgbuf
  IsDelivered o n (some (some (inr m, c))) =
      IsEntry log tp o m × (IsAt tp (pos (suc o)) n c × IsLog log tp (suc o) c.msgbuf)

  Delivers-IsDelivered :
      (o n : ℕ) (r : Run net ask pause (Error ⊎ Message))
      → o + 1 < half64
      → Delivers net ask pause tp (pos o) n (IsLog log tp o) Stops r
      → IsDelivered o n r
  Delivers-IsDelivered o n none h d = d
  Delivers-IsDelivered o n (some none) h d = d
  Delivers-IsDelivered o n (some (some (inl e, c))) h (at, empty) =
      (at, subst (IsLog log tp o) (sym empty) tt)
  Delivers-IsDelivered o n (some (some (inr m, c))) h (at, (entry, rest)) =
      let one_more : 1 + o ≡ suc o = omega arith in
      let next_offset : add_int64 1 m.offset ≡ pos (suc o) =
        ap (λ z. add_int64 1 z) entry.offset ∙ add_int64-pos 1 o (omega arith) ∙ ap pos one_more in
      (entry, (subst (λ z. IsAt tp z n c) next_offset at, rest))

  -- A consumer of a log, which the cluster keeps, with a limit n to the retries, fuel for n + 1
  -- calls of fetch, a leader that is asked for at least once, and pauses that keep the broker's
  -- configuration: at the offset o, if o + 1 is less than 2 ^ 63, with what the log has next in its
  -- buffer, Consume ends with the message of the log at o, its key and its value, and moves on by
  -- one, the buffer too; or with an error, and stays at o; or in a panic, which is one of a call of
  -- a connection.
  pub consume_one-IsDelivered :
      (o n fuel : ℕ) (c : Consumer C W)
      → Serves
      → o + 1 < half64
      → IsAt tp (pos o) n c
      → IsLog log tp o c.msgbuf
      → n < fuel
      → IsDelivered o n (consume_one net ask pause fuel c)
  consume_one-IsDelivered o n fuel c serves small at buffered h =
      Delivers-IsDelivered o n (consume_one net ask pause fuel c) small (
        consume_one-Delivers net ask pause tp (pos o) n (IsLog log tp o) Stops fuel c
          (λ c' at'.
            fetch-Within net ask pause pause-conf tp (pos o) n (IsLog log tp o) Stops (λ p. inl p)
              (λ conn req w e. inr (conn, req, w, e))
              (λ conn req w w' resp for e.
                trim_leading_messages-IsLog log tp o Stops req resp for
                  (serves conn req w w' o resp for e))
              c' tt at')
          at buffered h)
