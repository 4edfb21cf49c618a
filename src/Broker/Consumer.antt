-- ===== src/Broker/Consumer.antt =====
-- The consumer of v2/broker.go.
pub mod Log
pub mod Steps
pub mod Ending
pub mod Served
use kafka_api.Broker.Extract.{Extracted}
use kafka_api.Broker.Extract.{extract_messages}
use kafka_api.Broker.Extract.{FetchResp}
use kafka_api.Common.{
  ◌+◌, ℕ, zero, suc, Bool, true, false, ◌||◌, Option, none, some, List, [], ◌∷◌, ◌++◌, ◌⊎◌, inl,
  inr, if◌then◌else◌, ltb, leb,
}
use kafka_api.Common.Int.{less, ℤ, pos, negsuc, add_int64, half64, wrap}
use kafka_api.Common.Map.{same_string}
use kafka_api.Proto.Errors.{GoError, kafka_error, eof, eqb}
use kafka_api.Proto.Header.{RequestHeader}
use kafka_api.Proto.Message.{Message}
use kafka_api.Proto.FetchRequest.{FetchReq}
use kafka_api.Broker.Trim.{trim_leading_messages}
use kafka_api.Broker.{
  proceed, Error, from_conn, incomplete_fetch, invalid_start, no_data, Network, TopicPartition,
  Broker,
}
use kafka_api.Broker.Cluster.{refresh_metadata, close_dead_connection}
use kafka_api.Broker.Leader.{leader_connection}
use kafka_api.Broker.Producer.{part_err}

-- what ConsumerConf says of requests and retries; -1 is no limit
pub record ConsumerConf : Type 0 where
  pub place : TopicPartition
  pub request_timeout : ℤ
  pub min_fetch_size : ℤ
  pub max_fetch_size : ℤ
  pub retry_limit : ℤ
  pub retry_err_limit : ℕ
  pub start_offset : ℤ

-- consumer, with the broker that it is bound to
pub record Consumer (C W : Type 0) : Type 0 where
  pub broker : Broker C W
  pub conf : ConsumerConf
  pub offset : ℤ
  pub conn : Option C
  pub msgbuf : List Message

unfoldable pub fetch_req : {C W : Type 0} → Consumer C W → FetchReq
fetch_req c = record {
  header = record { version = pos 0; correlation_id = pos 0; client_id = c.broker.conf.client_id };
  replica_id = pos 0;
  max_wait_time = c.conf.request_timeout;
  min_bytes = c.conf.min_fetch_size;
  max_bytes = c.conf.max_fetch_size;
  isolation_level = pos 0;
  topics =
      record {
        name = c.conf.place.topic;
        partitions =
            record {
              id = c.conf.place.partition;
              fetch_offset = c.offset;
              log_start_offset = pos 0;
              max_bytes = c.conf.max_fetch_size;
            }
            ∷ [];
      }
      ∷ [];
}

-- messages and an error, both of which are results
abbrev pub Fetched : Type 0
Fetched = List Message × Option Error

-- `ask` is conn.Fetch up to the reading of its response, without trimLeadingMessages; `none` is a
-- panic of that, which a negative length of an array in the response gives. Where these functions
-- return `none`, there is a panic.
module _ {C W : Type 0} (net : Network C W)
    (ask : C → FetchReq → W → Option ((GoError ⊎ FetchResp) × W))
    (pause : Broker C W → Broker C W) where
  -- what an iteration of fetch ends with: a return, or the value of resErr for the next one
  unfoldable pub extracted :
      Extracted → Consumer C W → Option ((Option Error ⊎ Fetched) × Consumer C W)
  extracted x c =
      if x.should_retry
      then proceed (refresh_metadata net c.broker)
          (λ r. some (inl none, record c { broker = r.1; conn = none }))
      else some (inr (x.messages, x.error), c)

  -- behind c.conn.Fetch(&req): whatever the error is, the connection is given up
  unfoldable pub responded :
      FetchReq
      → C
      → Consumer C W
      → (GoError ⊎ FetchResp) × W
      → Option ((Option Error ⊎ Fetched) × Consumer C W)
  unfolding extracted extract_messages trim_leading_messages
  responded req conn c (inl e, w) =
      proceed (close_dead_connection net conn (record c.broker { world = w }))
        (λ b. some (inl (some (from_conn e)), record c { broker = b; conn = none }))
  responded req conn c (inr resp, w) = proceed (trim_leading_messages req resp) (λ trimmed.
      extracted (extract_messages trimmed c.conf.place)
        (record c { broker = record c.broker { world = w } }))

  unfoldable pub ask_conn :
      FetchReq → C → Consumer C W → Option ((Option Error ⊎ Fetched) × Consumer C W)
  unfolding responded
  ask_conn req conn c = proceed (ask conn req c.broker.world) (responded req conn c)

  -- behind muLeaderConnection; without a connection, a method of nil is called
  unfoldable pub reconnected :
      FetchReq
      → Consumer C W
      → (Option C × Option Error) × Broker C W
      → Option ((Option Error ⊎ Fetched) × Consumer C W)
  unfolding ask_conn
  reconnected req c ((conn, some e), b) = some (inl (some e), record c { broker = b })
  reconnected req c ((some conn, none), b) =
      ask_conn req conn (record c { broker = b; conn = some conn })
  reconnected req c ((none, none), b) = none

  -- the body of the loop of fetch
  unfoldable pub fetch_once :
      FetchReq → Consumer C W → Option ((Option Error ⊎ Fetched) × Consumer C W)
  unfolding reconnected
  fetch_once req c = elim c.conn [
    | some conn ↦ ask_conn req conn c
    | none ↦ proceed (leader_connection net pause c.conf.place c.broker) (reconnected req c)
  ]

  unfoldable pub fetch_again :
      (Option Error → Consumer C W → Option (Fetched × Consumer C W))
      → (Option Error ⊎ Fetched) × Consumer C W
      → Option (Fetched × Consumer C W)
  fetch_again again (inr x, c) = some (x, c)
  fetch_again again (inl e, c) = again e c

  -- the loop of fetch, with resErr
  unfoldable pub fetch_loop :
      ℕ → FetchReq → Option Error → Consumer C W → Option (Fetched × Consumer C W)
  unfolding fetch_once fetch_again
  fetch_loop zero req e c = some (([], e), c)
  fetch_loop (suc n) req e c = proceed (fetch_once req c) (fetch_again (fetch_loop n req))

  -- fetch
  unfoldable pub fetch : Consumer C W → Option (Fetched × Consumer C W)
  unfolding fetch_loop fetch_req
  fetch c = fetch_loop c.conf.retry_err_limit (fetch_req c) none c

  -- The loop of consume runs on fuel, since there may be no limit to the calls without a message:
  -- `none` is that the fuel has run out, `some none` is a panic.
  abbrev pub Run : Type 0 → Type 0
  Run A = Option (Option (A × Consumer C W))

  -- behind a call of fetch in the loop of consume; `retry` counts the calls without a message
  unfoldable pub consumed :
      ℕ
      → (Consumer C W → Run (Error ⊎ List Message))
      → Option (Fetched × Consumer C W)
      → Run (Error ⊎ List Message)
  consumed retry again none = some none
  consumed retry again (some ((ms, some e), c)) = some (some (inl e, c))
  consumed retry again (some ((m ∷ ms, none), c)) = some (some (inr (m ∷ ms), c))
  consumed retry again (some (([], none), c)) =
      if eqb c.conf.retry_limit (negsuc 0)
      then again c
      else if less c.conf.retry_limit (pos (suc retry))
      then some (some (inl no_data, c))
      else again c

  -- consume
  unfoldable pub consume_loop : ℕ → ℕ → Consumer C W → Run (Error ⊎ List Message)
  unfolding fetch consumed
  consume_loop zero retry c = none
  consume_loop (suc fuel) retry c = consumed retry (consume_loop fuel (suc retry)) (fetch c)

  -- `msg := c.msgbuf[0]` and what follows; an empty buffer is a panic
  unfoldable pub deliver : Consumer C W → List Message → Option ((Error ⊎ Message) × Consumer C W)
  deliver c [] = none
  deliver c (m ∷ ms) = some (inr m, record c { msgbuf = ms; offset = add_int64 1 m.offset })

  unfoldable pub refilled : Run (Error ⊎ List Message) → Run (Error ⊎ Message)
  unfolding deliver
  refilled none = none
  refilled (some none) = some none
  refilled (some (some (inl e, c))) = some (some (inl e, record c { msgbuf = [] }))
  refilled (some (some (inr ms, c))) = some (deliver (record c { msgbuf = ms }) ms)

  -- Consume
  unfoldable pub consume_one : ℕ → Consumer C W → Run (Error ⊎ Message)
  unfolding consume_loop refilled
  consume_one fuel c = elim c.msgbuf [
    | [] ↦ refilled (consume_loop fuel 0 c)
    | m ∷ ms ↦ some (deliver c (m ∷ ms))
  ]

  -- batch[len(batch)-1].Offset + 1
  unfoldable pub behind_last : Message → List Message → ℤ
  behind_last m [] = add_int64 1 m.offset
  behind_last m (n ∷ ns) = behind_last n ns

  unfoldable pub batched : Run (Error ⊎ List Message) → Run (Error ⊎ List Message)
  unfolding behind_last
  batched none = none
  batched (some none) = some none
  batched (some (some (inl e, c))) = some (some (inl e, c))
  batched (some (some (inr [], c))) = some none
  batched (some (some (inr (m ∷ ms), c))) =
      some (some (inr (m ∷ ms), record c { offset = behind_last m ms }))

  -- ConsumeBatch
  unfoldable pub consume_batch : ℕ → Consumer C W → Run (Error ⊎ List Message)
  unfolding consume_loop batched
  consume_batch fuel c = batched (consume_loop fuel 0 c)
