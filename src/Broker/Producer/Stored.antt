-- ===== src/Broker/Producer/Stored.antt =====
-- What Produce of v2/broker.go returns after its retries, and with which offsets.
use kafka_api.Common.{
  ℕ, zero, suc, ◌≡◌, ◌≢◌, ◌<◌, ◌≤◌, ◌+◌, refl, sym, subst, Option, none, some, List, [], ◌∷◌, ◌⊎◌,
  inl, inr, arith, Bool-cases, length,
}
use kafka_api.Common.Int.{ℤ, pos, half64}
use kafka_api.Broker.{Error, from_conn, Network, TopicPartition, Broker, proceed}
use kafka_api.Broker.Cluster.{refresh_metadata, close_dead_connection}
use kafka_api.Broker.Leader.{leader_connection}
use kafka_api.Broker.Leader.Conf.{leader_connection-conf}
use kafka_api.Broker.Leader.Found.{leader_connection-IsLeader, Outcome}
use kafka_api.Broker.Panics.{
  Panics, Within, Ends-Within, Ends-both, IsSame, proceed-Within, if-Within, known-Within,
  refresh_metadata-Ends, close_dead_connection-Ends,
}
use kafka_api.Broker.Producer.{
  Produced, Ending, find_produced, produced, number_from, is_dead, is_retried, produce_req, sent,
  on_leader, produce, refreshing, after_error, tried, produce_loop, produce_messages, ProducerConf,
  ProduceReq,
}
use kafka_api.Proto.Errors.{GoError, eqb, eqb→eq}
use kafka_api.Proto.Message.{Message}
use kafka_api.Proto.ProduceResponse.{ProduceResp}
use kafka_api.Broker.Producer.Answers.{
  Numbered, number_from-Numbered, TopicsHave, Good, find_produced-Good, Sends,
}

module _ {C W : Type 0} (net : Network C W)
    (send : C → ProduceReq → W → Option ((GoError ⊎ ProduceResp) × W))
    (pause : Broker C W → Broker C W) (pause-conf : (b : Broker C W) → (pause b).conf ≡ b.conf)
    (conf : ProducerConf) (tp : TopicPartition) (ms : List Message)
    (Stored : W → ℕ → List Message → Type 0) where
  -- an offset at which the messages are stored
  abbrev pub StoredAt : W → ℤ → Type 0
  StoredAt w offset = (o : ℕ) × (offset ≡ pos o) × ((o + length ms ≤ half64) × Stored w o ms)

  -- A leader that answers a request to store the messages has stored them at the offset that it
  -- gives for the partition, if it gives no error there.
  abbrev pub Stores : Type 0
  Stores =
      (conn : C) (req : ProduceReq) (w w' : W) (resp : ProduceResp)
      → Sends conf tp ms req
      → send conn req w ≡ some (inr resp, w')
      → TopicsHave tp (StoredAt w') resp.topics

  -- a call of a connection that panics
  abbrev pub Fails : Type 0
  Fails = Panics net ⊎ ((conn : C) × (req : ProduceReq) × (w : W) × (send conn req w ≡ none))

  -- what Produce returns
  abbrev pub IsProduced : Ending C W → Type 0
  IsProduced (((offset, none), ns), b) =
      (o : ℕ) × (offset ≡ pos o) × (Stored b.world o ms × Numbered o ms ns)
  IsProduced (((offset, some e), ns), b) = (offset ≡ pos 0) × (ns ≡ ms)

  -- the leader is asked for at least once
  abbrev Ready : Broker C W → Type 0
  Ready b = 0 < b.conf.leader_retry_limit

  with_conf : (b b' : Broker C W) → b'.conf ≡ b.conf → Ready b → Ready b'
  with_conf b b' e h = subst (λ x. 0 < x.leader_retry_limit) (sym e) h

  -- what an attempt leaves
  abbrev IsTried : Produced × Broker C W → Type 0
  IsTried ((offset, none), b) = Ready b × StoredAt b.world offset
  IsTried ((offset, some e), b) = Ready b

  produced-IsTried :
      (found : Option Produced) (b : Broker C W)
      → Ready b
      → Good (StoredAt b.world) found
      → IsTried (produced found, b)
  unfolding produced
  produced-IsTried none b r g = r
  produced-IsTried (some (offset, none)) b r g = (r, g)
  produced-IsTried (some (offset, some e)) b r g = r

  -- a dead connection is closed
  closed-Within :
      (conn : C) (e : GoError) (b : Broker C W)
      → Ready b
      → Within Fails IsTried (
          proceed (close_dead_connection net conn b) (λ b'. some ((pos 0, some (from_conn e)), b')))
  closed-Within conn e b r =
      proceed-Within Fails (λ b'. b'.conf ≡ b.conf) IsTried (close_dead_connection net conn b) _
        (Ends-Within net Fails (λ b'. b'.conf ≡ b.conf) (close_dead_connection net conn b)
          (λ p. inl p) (close_dead_connection-Ends net conn b))
        (λ b' same. with_conf b b' same r)

  sent-Within :
      (conn : C) (b : Broker C W) (a : (GoError ⊎ ProduceResp) × W)
      → conf.required_acks ≢ pos 0
      → Stores
      → send conn (produce_req conf tp ms b) b.world ≡ some a
      → Ready b
      → Within Fails IsTried (sent net send pause conf tp conn b a)
  unfolding sent produce_req
  sent-Within conn b (inl e, w) acks stores h r =
      if-Within Fails IsTried (is_dead net e) _ _ (closed-Within conn e (record b { world = w }) r)
        r
  sent-Within conn b (inr resp, w) acks stores h r =
      elim (Bool-cases (eqb conf.required_acks (pos 0))) [
        | inl t ↦ absurd (acks (eqb→eq conf.required_acks (pos 0) t))
        | inr f ↦
            rw (Within, sent, f)
              (produced-IsTried (find_produced tp resp.topics none) (record b { world = w }) r
                (find_produced-Good (StoredAt w) tp resp.topics none
                  (stores conn (produce_req conf tp ms b) b.world w resp
                    (record { acks = refl; compression = refl; topics = refl }) h)
                  tt))
      ]

  on_leader-Within :
      (l : (Option C × Option Error) × Broker C W)
      → conf.required_acks ≢ pos 0
      → Stores
      → Outcome net tp l
      → Ready l.1
      → Within Fails IsTried (on_leader net send pause conf tp ms l)
  unfolding on_leader
  on_leader-Within ((some conn, some e), b) acks stores out r = absurd out
  on_leader-Within ((none, some e), b) acks stores out r = r
  on_leader-Within ((none, none), b) acks stores out r = absurd out
  on_leader-Within ((some conn, none), b) acks stores out r =
      proceed-Within Fails (λ a. send conn (produce_req conf tp ms b) b.world ≡ some a) IsTried
        (send conn (produce_req conf tp ms b) b.world) (sent net send pause conf tp conn b)
        (known-Within Fails (send conn (produce_req conf tp ms b) b.world) _ refl
          (λ e. inr (conn, produce_req conf tp ms b, b.world, e)))
        (λ a e. sent-Within conn b a acks stores e r)

  produce-Within :
      (b : Broker C W)
      → conf.required_acks ≢ pos 0
      → Stores
      → Ready b
      → Within Fails IsTried (produce net send pause conf tp ms b)
  unfolding produce
  produce-Within b acks stores r =
      proceed-Within Fails (λ l. Outcome net tp l × IsSame net b l) IsTried
        (leader_connection net pause tp b) (on_leader net send pause conf tp ms)
        (Ends-Within net Fails (λ l. Outcome net tp l × IsSame net b l)
          (leader_connection net pause tp b) (λ p. inl p)
          (Ends-both net (Outcome net tp) (IsSame net b) (leader_connection net pause tp b)
            (leader_connection-IsLeader net pause tp b r)
            (leader_connection-conf net b pause pause-conf tp)))
        (λ l (out, same). on_leader-Within l acks stores out (with_conf b l.1 same r))

  refreshing-Within : (b : Broker C W) → Ready b → Within Fails Ready (refreshing net send pause b)
  unfolding refreshing
  refreshing-Within b r =
      proceed-Within Fails (IsSame net b) Ready (refresh_metadata net b) (λ a. some a.1)
        (Ends-Within net Fails (IsSame net b) (refresh_metadata net b) (λ p. inl p)
          (refresh_metadata-Ends net b))
        (λ a same. with_conf b a.1 same r)

  after_error-Within :
      (e : Error) (b : Broker C W) → Ready b → Within Fails Ready (after_error net send pause e b)
  unfolding after_error
  after_error-Within e b r =
      if-Within Fails Ready (is_retried net send pause e) (some b) _ r (refreshing-Within b r)

  tried-Within :
      (again : Option Error → Broker C W → Option (Ending C W)) (a : Produced × Broker C W)
      → ((e : Error) (b : Broker C W) → Ready b → Within Fails IsProduced (again (some e) b))
      → IsTried a
      → Within Fails IsProduced (tried net send pause ms again a)
  unfolding tried
  tried-Within again ((offset, none), b) k (r, (o, at, (fits, stored))) = (
    o,
    at,
    (
      stored,
      subst (λ z. Numbered o ms (number_from 0 z ms)) (sym at)
          (number_from-Numbered 0 o o ms (omega arith) fits),
    ),
  )
  tried-Within again ((offset, some e), b) k r =
      proceed-Within Fails Ready IsProduced (after_error net send pause e b) (again (some e))
        (after_error-Within e b r) (k e)

  produce_loop-Within :
      (n : ℕ) (e : Error) (b : Broker C W)
      → conf.required_acks ≢ pos 0
      → Stores
      → Ready b
      → Within Fails IsProduced (produce_loop net send pause n conf tp ms (some e) b)
  unfolding produce_loop
  produce_loop-Within zero e b acks stores r = (refl, refl)
  produce_loop-Within (suc n) e b acks stores r =
      proceed-Within Fails IsTried IsProduced (produce net send pause conf tp ms b)
        (tried net send pause ms (produce_loop net send pause n conf tp ms))
        (produce-Within b acks stores r)
        (λ a.
          tried-Within (produce_loop net send pause n conf tp ms) a
            (λ x b' r'. produce_loop-Within n x b' acks stores r'))

  first-Within :
      (n : ℕ) (b : Broker C W)
      → 0 < n
      → conf.required_acks ≢ pos 0
      → Stores
      → Ready b
      → Within Fails IsProduced (produce_loop net send pause n conf tp ms none b)
  unfolding produce_loop
  first-Within zero b h acks stores r = absurd (omega arith)
  first-Within (suc n) b h acks stores r =
      proceed-Within Fails IsTried IsProduced (produce net send pause conf tp ms b)
        (tried net send pause ms (produce_loop net send pause n conf tp ms))
        (produce-Within b acks stores r)
        (λ a.
          tried-Within (produce_loop net send pause n conf tp ms) a
            (λ x b' r'. produce_loop-Within n x b' acks stores r'))

  produce_messages-loop :
      (l : List Message) (b : Broker C W)
      → 0 < length l
      → produce_messages net send pause conf tp l b
        ≡ produce_loop net send pause conf.retry_limit conf tp l none b
  unfolding produce_messages
  produce_messages-loop [] b h = absurd (omega arith)
  produce_messages-loop (m ∷ rest) b h = refl

  -- Produce of messages, at least one of which is given: with a retry limit that is not 0,
  -- acknowledgements asked for, a leader that is asked for at least once (by a configuration that
  -- the pauses keep), and a leader that has stored the messages of a request at the offset that its
  -- response gives for the partition without an error, all their offsets below 2 ^ 63. If the call
  -- succeeds, the offset that it returns is one at which the messages are stored, and the messages
  -- come back numbered from it and otherwise as they were; with an error, the offset is 0 and the
  -- messages are as they were; a panic is one of a call of a connection.
  pub produce_messages-Stored :
      (b : Broker C W)
      → 0 < length ms
      → 0 < conf.retry_limit
      → conf.required_acks ≢ pos 0
      → Stores
      → 0 < b.conf.leader_retry_limit
      → Within Fails IsProduced (produce_messages net send pause conf tp ms b)
  produce_messages-Stored b some_ms tries acks stores r =
      subst (Within Fails IsProduced) (sym (produce_messages-loop ms b some_ms))
        (first-Within conf.retry_limit b tries acks stores r)
