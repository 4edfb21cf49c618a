-- ===== src/Broker/Leader/Found.antt =====
-- Which connection muLeaderConnection of v2/broker.go returns.
use kafka_api.Broker.Cluster.{fetch_metadata}
use kafka_api.Broker.Panics.{connect-Ends}
use kafka_api.Broker.Panics.{refresh_metadata-Ends}
use kafka_api.Broker.Panics.{Any}
use kafka_api.Broker.Panics.{IsSame}
use kafka_api.Broker.Panics.{proceed-Ends}
use kafka_api.Broker.{proceed, from_conn}
use kafka_api.Common.{[], ◌∷◌}
use kafka_api.Broker.Panics.{Ends, if-Ends, fetch_metadata-Ends}
use kafka_api.Proto.Errors.{kafka_error}
use kafka_api.Common.Int.{pos}
use kafka_api.Broker.{arith, GoError, Error, Network, TopicPartition, place_key, int_key, Broker}
use kafka_api.Broker.Leader.{
  no_endpoint, attempt, leader_connection, leader_loop, next_attempt, refreshed_attempt, retries,
  dialled, to_node,
}
use kafka_api.Common.{Option-cases, ℕ, zero, suc, ◌≡◌, Option, none, some, inl, inr, ◌⊎◌, ◌<◌}
use kafka_api.Common.Int.{ℤ}
use kafka_api.Common.Map.{find, find-put}
use kafka_api.Broker.Cluster.{refresh_metadata}

-- the connection is the one that the broker keeps for the leader that its metadata names
pub record IsLeader {C W : Type 0} (tp : TopicPartition) (conn : C) (b : Broker C W) : Type 0 where
  pub node_id : ℤ
  pub is_endpoint : find tp b.metadata.endpoints ≡ some node_id
  pub is_kept : find node_id b.conns ≡ some conn

-- what an attempt leaves behind
abbrev Sound : {C W : Type 0} → TopicPartition → (Error ⊎ C) × Broker C W → Type 0
Sound tp (inl e, b) = Unit {0}
Sound tp (inr conn, b) = IsLeader tp conn b

module _ {C W : Type 0} (net : Network C W) where
  dialled-Sound :
      (tp : TopicPartition) (node_id : ℤ) (r : (GoError ⊎ C) × W) (b : Broker C W)
      → find tp b.metadata.endpoints ≡ some node_id
      → Sound tp (dialled net tp node_id r b)
  unfolding dialled
  dialled-Sound tp node_id (inl e, w) b h = tt
  dialled-Sound tp node_id (inr conn, w) b h = record {
    node_id = node_id;
    is_endpoint = h;
    is_kept = find-put node_id conn b.conns;
  }

  to_node-Sound :
      (tp : TopicPartition) (node_id : ℤ) (b : Broker C W)
      → find tp b.metadata.endpoints ≡ some node_id
      → Ends net (Sound tp) (to_node net tp node_id b)
  unfolding to_node
  to_node-Sound tp node_id b h = elim (Option-cases (find node_id b.conns)) [
    | inr (conn, kept) ↦
        rw (Ends, to_node, kept) (record { node_id = node_id; is_endpoint = h; is_kept = kept })
    | inl none_kept ↦ elim (Option-cases (find node_id b.metadata.nodes)) [
      | inl unknown ↦ rw (Ends, to_node, none_kept, unknown) tt
      | inr (addr, known) ↦
          rw (Ends, to_node, none_kept, known)
            (proceed-Ends net Any (Sound tp) (net.connect addr b.world)
              (λ r. some (dialled net tp node_id r b)) (connect-Ends net addr b.world)
              (λ r any. dialled-Sound tp node_id r b h))
    ]
  ]

  no_endpoint-Sound :
      (tp : TopicPartition) (b : Broker C W) → Ends net (Sound tp) (no_endpoint net tp b)
  unfolding no_endpoint
  no_endpoint-Sound tp b =
      if-Ends net (Sound tp) b.conf.allow_topic_creation _ _
        (proceed-Ends net (IsSame net b) (Sound tp) (fetch_metadata net (tp.topic ∷ []) b)
          (λ r. some (inl (from_conn (kafka_error (pos 3))), r.1))
          (fetch_metadata-Ends net (tp.topic ∷ []) b) (λ r kept. tt))
        tt

  refreshed_attempt-Sound :
      (tp : TopicPartition) (r : Option Error × Broker C W)
      → Ends net (Sound tp) (refreshed_attempt net tp r)
  unfolding refreshed_attempt
  refreshed_attempt-Sound tp (some e, b) = tt
  refreshed_attempt-Sound tp (none, b) = elim (Option-cases (find tp b.metadata.endpoints)) [
    | inl unknown ↦ rw (Ends, refreshed_attempt, unknown) (no_endpoint-Sound tp b)
    | inr (node_id, known) ↦ rw (Ends, refreshed_attempt, known) (to_node-Sound tp node_id b known)
  ]

  attempt-Sound : (tp : TopicPartition) (b : Broker C W) → Ends net (Sound tp) (attempt net tp b)
  unfolding attempt
  attempt-Sound tp b = elim (Option-cases (find tp b.metadata.endpoints)) [
    | inl unknown ↦
        rw (Ends, attempt, unknown)
          (proceed-Ends net (λ r. IsSame net b r) (Sound tp) (refresh_metadata net b)
            (refreshed_attempt net tp) (refresh_metadata-Ends net b)
            (λ r kept. refreshed_attempt-Sound tp r))
    | inr (node_id, known) ↦ rw (Ends, attempt, known) (to_node-Sound tp node_id b known)
  ]

  -- either a leader's connection and no error, or an error and no connection
  abbrev pub Outcome : TopicPartition → (Option C × Option Error) × Broker C W → Type 0
  Outcome tp ((some conn, none), b) = IsLeader tp conn b
  Outcome tp ((none, some e), b) = Unit {0}
  Outcome tp ((some conn, some e), b) = ⊥
  Outcome tp ((none, none), b) = ⊥

  module _ (pause : Broker C W → Broker C W) where
    next_attempt-Outcome :
        (tp : TopicPartition) (r : (Error ⊎ C) × Broker C W)
        (again : Option Error → Broker C W → Option ((Option C × Option Error) × Broker C W))
        → Sound tp r
        → ((e : Error) (b : Broker C W) → Ends net (Outcome tp) (again (some e) b))
        → Ends net (Outcome tp) (next_attempt net pause again r)
    unfolding next_attempt
    next_attempt-Outcome tp (inr conn, b) again s h = s
    next_attempt-Outcome tp (inl e, b) again s h = h e b

    -- an attempt, and the loop behind it
    then-Outcome :
        (tp : TopicPartition) (b : Broker C W)
        (again : Option Error → Broker C W → Option ((Option C × Option Error) × Broker C W))
        → ((e : Error) (b : Broker C W) → Ends net (Outcome tp) (again (some e) b))
        → Ends net (Outcome tp) (proceed (attempt net tp b) (next_attempt net pause again))
    then-Outcome tp b again h =
        proceed-Ends net (Sound tp) (Outcome tp) (attempt net tp b) (next_attempt net pause again)
          (attempt-Sound tp b) (λ r s. next_attempt-Outcome tp r again s h)

    retries-Outcome :
        (n : ℕ) (tp : TopicPartition) (e : Error) (b : Broker C W)
        → Ends net (Outcome tp) (retries net pause n tp (some e) b)
    unfolding retries
    retries-Outcome zero tp e b = tt
    retries-Outcome (suc n) tp e b =
        then-Outcome tp (pause b) (retries net pause n tp) (retries-Outcome n tp)

    leader_loop-Outcome :
        (n : ℕ) (tp : TopicPartition) (b : Broker C W)
        → 0 < n
        → Ends net (Outcome tp) (leader_loop net pause n tp b)
    unfolding leader_loop
    leader_loop-Outcome zero tp b h = absurd (omega arith)
    leader_loop-Outcome (suc n) tp b h =
        then-Outcome tp b (retries net pause n tp) (retries-Outcome n tp)

    pub leader_connection-IsLeader :
        (tp : TopicPartition) (b : Broker C W)
        → 0 < b.conf.leader_retry_limit
        → Ends net (Outcome tp) (leader_connection net pause tp b)
    unfolding leader_connection
    leader_connection-IsLeader tp b h = leader_loop-Outcome b.conf.leader_retry_limit tp b h
