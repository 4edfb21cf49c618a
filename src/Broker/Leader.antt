-- ===== src/Broker/Leader.antt =====
-- muLeaderConnection of v2/broker.go.
pub mod Conf
pub mod Found
use kafka_api.Common.{
  ℕ, zero, suc, Bool, true, false, Option, none, some, List, [], ◌∷◌, ◌⊎◌, inl, inr, if◌then◌else◌,
}
use kafka_api.Common.Int.{ℤ, pos}
use kafka_api.Common.Map.{find, remove, put}
use kafka_api.Proto.Errors.{GoError, kafka_error}
use kafka_api.Broker.{
  Error, from_conn, Network, proceed, TopicPartition, place_key, int_key, ClusterMetadata, Broker,
}
use kafka_api.Broker.Cluster.{refresh_metadata, fetch_metadata}

-- delete(b.metadata.endpoints, tp)
unfoldable pub forget_endpoint : {C W : Type 0} → TopicPartition → Broker C W → Broker C W
forget_endpoint tp b = record b {
  metadata = record b.metadata { endpoints = remove tp b.metadata.endpoints };
}

module _ {C W : Type 0} (net : Network C W) where
  -- behind b.getConnection(addr): a connection is returned, or the error of this attempt is kept
  unfoldable pub dialled :
      TopicPartition → ℤ → (GoError ⊎ C) × W → Broker C W → (Error ⊎ C) × Broker C W
  unfolding forget_endpoint
  dialled tp node_id (inl e, w) b = (inl (from_conn e), forget_endpoint tp (record b { world = w }))
  dialled tp node_id (inr conn, w) b =
      (inr conn, record b { conns = put node_id conn b.conns; world = w })

  -- from `conn, ok = b.conns[nodeID]` on
  unfoldable pub to_node : TopicPartition → ℤ → Broker C W → Option ((Error ⊎ C) × Broker C W)
  unfolding dialled
  to_node tp node_id b = elim (find node_id b.conns) [
    | some conn ↦ some (inr conn, b)
    | none ↦ elim (find node_id b.metadata.nodes) [
      | some addr ↦ proceed (net.connect addr b.world) (λ r. some (dialled tp node_id r b))
      | none ↦ some (inl (from_conn (kafka_error (pos 8))), forget_endpoint tp b)
    ]
  ]

  -- the endpoint is not known, even now
  unfoldable pub no_endpoint : TopicPartition → Broker C W → Option ((Error ⊎ C) × Broker C W)
  no_endpoint tp b =
      if b.conf.allow_topic_creation
      then proceed (fetch_metadata net (tp.topic ∷ []) b)
          (λ r. some (inl (from_conn (kafka_error (pos 3))), r.1))
      else some (inl (from_conn (kafka_error (pos 3))), b)

  -- with fresh metadata
  unfoldable pub refreshed_attempt :
      TopicPartition → Option Error × Broker C W → Option ((Error ⊎ C) × Broker C W)
  unfolding to_node no_endpoint
  refreshed_attempt tp (some e, b) = some (inl e, b)
  refreshed_attempt tp (none, b) = elim (find tp b.metadata.endpoints) [
    | some node_id ↦ to_node tp node_id b
    | none ↦ no_endpoint tp b
  ]

  -- the body of the loop: the connection, or the error with which the loop goes on
  unfoldable pub attempt : TopicPartition → Broker C W → Option ((Error ⊎ C) × Broker C W)
  unfolding refreshed_attempt
  attempt tp b = elim (find tp b.metadata.endpoints) [
    | some node_id ↦ to_node tp node_id b
    | none ↦ proceed (refresh_metadata net b) (refreshed_attempt tp)
  ]

  -- `pause` is what other goroutines do to the broker while this one sleeps: the lock is not held.
  module _ (pause : Broker C W → Broker C W) where
    -- after an attempt, with the retries that are left
    unfoldable pub next_attempt :
        (Option Error → Broker C W → Option ((Option C × Option Error) × Broker C W))
        → (Error ⊎ C) × Broker C W
        → Option ((Option C × Option Error) × Broker C W)
    next_attempt again (inr conn, b) = some ((some conn, none), b)
    next_attempt again (inl e, b) = again (some e) b

    -- the loop behind its first iteration, with the error of the last one
    unfoldable pub retries :
        ℕ
        → TopicPartition
        → Option Error
        → Broker C W
        → Option ((Option C × Option Error) × Broker C W)
    unfolding next_attempt attempt
    retries zero tp e b = some ((none, e), b)
    retries (suc n) tp e b = proceed (attempt tp (pause b)) (next_attempt (retries n tp))

    -- the loop, with the number of its iterations
    unfoldable pub leader_loop :
        ℕ → TopicPartition → Broker C W → Option ((Option C × Option Error) × Broker C W)
    unfolding retries
    leader_loop zero tp b = some ((none, none), b)
    leader_loop (suc n) tp b = proceed (attempt tp b) (next_attempt (retries n tp))

    -- muLeaderConnection: the connection and the error, each of which may be nil; `none` is a panic
    unfoldable pub leader_connection :
        TopicPartition → Broker C W → Option ((Option C × Option Error) × Broker C W)
    unfolding leader_loop
    leader_connection tp b = leader_loop b.conf.leader_retry_limit tp b
