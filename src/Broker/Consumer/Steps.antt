-- ===== src/Broker/Consumer/Steps.antt =====
-- What the steps of Consume of v2/broker.go keep, for any property P of the messages of a fetch, and
-- with any condition X of a panic.
use kafka_api.Common.{
  ℕ, zero, suc, ◌<◌, ◌≡◌, refl, sym, subst, Option, none, some, List, [], ◌∷◌, ◌⊎◌, inl, inr,
  Option-cases,
}
use kafka_api.Common.Int.{ℤ, pos}
use kafka_api.Proto.Errors.{GoError}
use kafka_api.Proto.Message.{Message}
use kafka_api.Proto.FetchRequest.{FetchReq, FetchReqPartition}
use kafka_api.Broker.{Error, from_conn, Network, TopicPartition, Broker, proceed}
use kafka_api.Broker.Cluster.{refresh_metadata, close_dead_connection}
use kafka_api.Broker.Extract.{Extracted, extract_messages, FetchResp}
use kafka_api.Broker.Trim.{trim_leading_messages}
use kafka_api.Broker.Leader.{leader_connection}
use kafka_api.Broker.Leader.Conf.{leader_connection-conf}
use kafka_api.Broker.Leader.Found.{leader_connection-IsLeader, Outcome}
use kafka_api.Broker.Panics.{
  Panics, Within, Ends-Within, Ends-both, IsSame, proceed-Within, if-Within, known-Within,
  refresh_metadata-Ends, close_dead_connection-Ends,
}
use kafka_api.Broker.Consumer.{
  Fetched, ask_conn, fetch_req, extracted, fetch, fetch_again, fetch_loop, fetch_once, reconnected,
  responded, Consumer,
}

-- a request asks for the messages of a partition from an offset on
pub record AsksFor (tp : TopicPartition) (offset : ℤ) (req : FetchReq) : Type 0 where
  pub part : FetchReqPartition
  pub topics : req.topics ≡ record { name = tp.topic; partitions = part ∷ [] } ∷ []
  pub id : part.id ≡ tp.partition
  pub from : part.fetch_offset ≡ offset

-- a consumer of a partition whose next offset is z, with the limit n to its retries, and whose broker
-- asks for a leader at least once
pub record IsAt {C W : Type 0} (tp : TopicPartition) (z : ℤ) (n : ℕ) (c : Consumer C W)
    : Type 0 where
  pub place : c.conf.place ≡ tp
  pub offset : c.offset ≡ z
  pub limit : c.conf.retry_limit ≡ pos n
  pub leader : 0 < c.broker.conf.leader_retry_limit

fetch_req-AsksFor :
    {C W : Type 0} (tp : TopicPartition) (z : ℤ) (n : ℕ) (c : Consumer C W)
    → IsAt tp z n c
    → AsksFor tp z (fetch_req c)
unfolding fetch_req
fetch_req-AsksFor tp z n c at = record {
  part = record {
    id = tp.partition;
    fetch_offset = c.offset;
    log_start_offset = pos 0;
    max_bytes = c.conf.max_fetch_size;
  };
  topics = λ i.
      record {
        name = (at.place i).topic;
        partitions =
            record {
              id = (at.place i).partition;
              fetch_offset = c.offset;
              log_start_offset = pos 0;
              max_bytes = c.conf.max_fetch_size;
            }
            ∷ [];
      }
      ∷ [];
  id = refl;
  from = at.offset;
}

module _ {C W : Type 0} (net : Network C W)
    (ask : C → FetchReq → W → Option ((GoError ⊎ FetchResp) × W)) (pause : Broker C W → Broker C W)
    (pause-conf : (b : Broker C W) → (pause b).conf ≡ b.conf) (tp : TopicPartition) (z : ℤ) (n : ℕ)
    (P : List Message → Type 0) (X : Type 0) (breaks : Panics net → X)
    (asks : (conn : C) (req : FetchReq) (w : W) → ask conn req w ≡ none → X)
    (answers : (conn : C) (req : FetchReq) (w w' : W) (resp : FetchResp)
      → AsksFor tp z req
      → ask conn req w ≡ some (inr resp, w')
      → Within X (λ t. P (extract_messages t tp).messages) (trim_leading_messages req resp)) where
  -- what an iteration of fetch leaves
  abbrev IsOnce : (Option Error ⊎ Fetched) × Consumer C W → Type 0
  IsOnce (inl e, c) = IsAt tp z n c
  IsOnce (inr (ms, e), c) = IsAt tp z n c × P ms

  moved :
      (c : Consumer C W) (b : Broker C W) (conn : Option C)
      → b.conf ≡ c.broker.conf
      → IsAt tp z n c
      → IsAt tp z n (record c { broker = b; conn = conn })
  moved c b conn e at = record {
    place = at.place;
    offset = at.offset;
    limit = at.limit;
    leader = subst (λ x. 0 < x.leader_retry_limit) (sym e) at.leader;
  }

  extracted-Within :
      (x : Extracted) (c : Consumer C W)
      → IsAt tp z n c
      → P x.messages
      → Within X IsOnce (extracted net ask pause x c)
  unfolding extracted
  extracted-Within x c at ms =
      if-Within X IsOnce x.should_retry _ _
        (proceed-Within X (IsSame net c.broker) IsOnce (refresh_metadata net c.broker)
          (λ r. some (inl none, record c { broker = r.1; conn = none }))
          (Ends-Within net X (IsSame net c.broker) (refresh_metadata net c.broker) breaks
            (refresh_metadata-Ends net c.broker))
          (λ r same. moved c r.1 none same at))
        (at, ms)

  responded-Within :
      (req : FetchReq) (conn : C) (c : Consumer C W) (r : (GoError ⊎ FetchResp) × W)
      → AsksFor tp z req
      → IsAt tp z n c
      → ask conn req c.broker.world ≡ some r
      → Within X IsOnce (responded net ask pause req conn c r)
  unfolding responded
  responded-Within req conn c (inl e, w) for at h =
      let b = record c.broker { world = w } in
      proceed-Within X (λ b'. b'.conf ≡ c.broker.conf) IsOnce (close_dead_connection net conn b)
        (λ b'. some (inl (some (from_conn e)), record c { broker = b'; conn = none }))
        (Ends-Within net X (λ b'. b'.conf ≡ c.broker.conf) (close_dead_connection net conn b) breaks
          (close_dead_connection-Ends net conn b))
        (λ b' same. moved c b' none same at)
  responded-Within req conn c (inr resp, w) for at h =
      proceed-Within X (λ t. P (extract_messages t tp).messages) IsOnce
        (trim_leading_messages req resp)
        (λ t.
          extracted net ask pause (extract_messages t c.conf.place)
            (record c { broker = record c.broker { world = w } }))
        (answers conn req c.broker.world w resp for h)
        (λ t ms.
          extracted-Within (extract_messages t c.conf.place)
            (record c { broker = record c.broker { world = w } })
            (record { place = at.place; offset = at.offset; limit = at.limit; leader = at.leader })
            (subst (λ p. P (extract_messages t p).messages) (sym at.place) ms))

  ask_conn-Within :
      (req : FetchReq) (conn : C) (c : Consumer C W)
      → AsksFor tp z req
      → IsAt tp z n c
      → Within X IsOnce (ask_conn net ask pause req conn c)
  unfolding ask_conn
  ask_conn-Within req conn c for at =
      proceed-Within X (λ a. ask conn req c.broker.world ≡ some a) IsOnce
        (ask conn req c.broker.world) (responded net ask pause req conn c)
        (known-Within X (ask conn req c.broker.world) _ refl (asks conn req c.broker.world))
        (λ r h. responded-Within req conn c r for at h)

  reconnected-Within :
      (req : FetchReq) (c : Consumer C W) (l : (Option C × Option Error) × Broker C W)
      → AsksFor tp z req
      → IsAt tp z n c
      → Outcome net tp l
      → IsSame net c.broker l
      → Within X IsOnce (reconnected net ask pause req c l)
  unfolding reconnected
  reconnected-Within req c ((some conn, some e), b) for at out same = absurd out
  reconnected-Within req c ((none, none), b) for at out same = absurd out
  reconnected-Within req c ((none, some e), b) for at out same = moved c b c.conn same at
  reconnected-Within req c ((some conn, none), b) for at out same =
      ask_conn-Within req conn (record c { broker = b; conn = some conn }) for
        (moved c b (some conn) same at)

  connected-Within :
      (req : FetchReq) (c : Consumer C W) (p : TopicPartition)
      → p ≡ tp
      → AsksFor tp z req
      → IsAt tp z n c
      → Within X IsOnce
          (proceed (leader_connection net pause p c.broker) (reconnected net ask pause req c))
  connected-Within req c p e for at =
      proceed-Within X (λ l. Outcome net p l × IsSame net c.broker l) IsOnce
        (leader_connection net pause p c.broker) (reconnected net ask pause req c)
        (Ends-Within net X (λ l. Outcome net p l × IsSame net c.broker l)
          (leader_connection net pause p c.broker) breaks
          (Ends-both net (Outcome net p) (IsSame net c.broker)
            (leader_connection net pause p c.broker)
            (leader_connection-IsLeader net pause p c.broker at.leader)
            (leader_connection-conf net c.broker pause pause-conf p)))
        (λ l (out, same).
          reconnected-Within req c l for at (subst (λ q. Outcome net q l) e out) same)

  fetch_once-Within :
      (req : FetchReq) (c : Consumer C W)
      → AsksFor tp z req
      → IsAt tp z n c
      → Within X IsOnce (fetch_once net ask pause req c)
  unfolding fetch_once
  fetch_once-Within req c for at = elim (Option-cases c.conn) [
    | inl closed ↦
        rw (Within, fetch_once, closed) (connected-Within req c c.conf.place at.place for at)
    | inr (conn, kept) ↦ rw (Within, fetch_once, kept) (ask_conn-Within req conn c for at)
  ]

  -- what fetch leaves
  abbrev pub IsFetched : Fetched × Consumer C W → Type 0
  IsFetched ((ms, e), c) = IsAt tp z n c × P ms

  fetch_again-Within :
      (again : Option Error → Consumer C W → Option (Fetched × Consumer C W))
      (r : (Option Error ⊎ Fetched) × Consumer C W)
      → IsOnce r
      → ((e : Option Error) (c : Consumer C W) → IsAt tp z n c → Within X IsFetched (again e c))
      → Within X IsFetched (fetch_again net ask pause again r)
  unfolding fetch_again
  fetch_again-Within again (inr (ms, e), c) h k = h
  fetch_again-Within again (inl e, c) h k = k e c h

  fetch_loop-Within :
      (k : ℕ) (req : FetchReq) (e : Option Error) (c : Consumer C W)
      → P []
      → AsksFor tp z req
      → IsAt tp z n c
      → Within X IsFetched (fetch_loop net ask pause k req e c)
  unfolding fetch_loop
  fetch_loop-Within zero req e c nil for at = (at, nil)
  fetch_loop-Within (suc k) req e c nil for at =
      proceed-Within X IsOnce IsFetched (fetch_once net ask pause req c)
        (fetch_again net ask pause (fetch_loop net ask pause k req))
        (fetch_once-Within req c for at)
        (λ r once.
          fetch_again-Within (fetch_loop net ask pause k req) r once
            (λ e' c' at'. fetch_loop-Within k req e' c' nil for at'))

  pub fetch-Within :
      (c : Consumer C W) → P [] → IsAt tp z n c → Within X IsFetched (fetch net ask pause c)
  unfolding fetch
  fetch-Within c nil at =
      fetch_loop-Within c.conf.retry_err_limit (fetch_req c) none c nil
        (fetch_req-AsksFor tp z n c at) at
