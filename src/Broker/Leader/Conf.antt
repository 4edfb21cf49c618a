-- ===== src/Broker/Leader/Conf.antt =====
-- muLeaderConnection of v2/broker.go leaves the configuration of the broker as it is.
use kafka_api.Common.{
  ℕ, zero, suc, ◌≡◌, ◌∙◌, refl, Option, none, some, [], ◌∷◌, ◌⊎◌, inl, inr, Option-cases,
}
use kafka_api.Common.Int.{ℤ, pos}
use kafka_api.Common.Map.{find}
use kafka_api.Proto.Errors.{GoError, kafka_error}
use kafka_api.Broker.{Error, from_conn, Network, TopicPartition, Broker, place_key, int_key}
use kafka_api.Broker.Cluster.{refresh_metadata, fetch_metadata}
use kafka_api.Broker.Panics.{
  if-Ends, Ends, Any, IsSame, proceed-Ends, connect-Ends, fetch_metadata-Ends,
  refresh_metadata-Ends,
}
use kafka_api.Broker.Leader.{
  no_endpoint, attempt, leader_connection, leader_loop, next_attempt, refreshed_attempt, retries,
  dialled, to_node,
}

module _ {C W : Type 0} (net : Network C W) (b : Broker C W) where
  -- the broker that is left has the configuration of b
  abbrev Kept : {A : Type 0} → A × Broker C W → Type 0
  Kept (a, b') = b'.conf ≡ b.conf

  dialled-Kept :
      (tp : TopicPartition) (node_id : ℤ) (r : (GoError ⊎ C) × W) (b' : Broker C W)
      → b'.conf ≡ b.conf
      → Kept (dialled net tp node_id r b')
  unfolding dialled
  dialled-Kept tp node_id (inl e, w) b' h = h
  dialled-Kept tp node_id (inr conn, w) b' h = h

  to_node-Kept :
      (tp : TopicPartition) (node_id : ℤ) (b' : Broker C W)
      → b'.conf ≡ b.conf
      → Ends net Kept (to_node net tp node_id b')
  unfolding to_node
  to_node-Kept tp node_id b' h = elim (Option-cases (find node_id b'.conns)) [
    | inr (conn, kept) ↦ rw (Ends, to_node, kept) h
    | inl none_kept ↦ elim (Option-cases (find node_id b'.metadata.nodes)) [
      | inl unknown ↦ rw (Ends, to_node, none_kept, unknown) h
      | inr (addr, known) ↦
          rw (Ends, to_node, none_kept, known)
            (proceed-Ends net Any Kept (net.connect addr b'.world)
              (λ r. some (dialled net tp node_id r b')) (connect-Ends net addr b'.world)
              (λ r any. dialled-Kept tp node_id r b' h))
    ]
  ]

  no_endpoint-Kept :
      (tp : TopicPartition) (b' : Broker C W)
      → b'.conf ≡ b.conf
      → Ends net Kept (no_endpoint net tp b')
  unfolding no_endpoint
  no_endpoint-Kept tp b' h =
      if-Ends net Kept b'.conf.allow_topic_creation _ _
        (proceed-Ends net (IsSame net b') Kept (fetch_metadata net (tp.topic ∷ []) b')
          (λ r. some (inl (from_conn (kafka_error (pos 3))), r.1))
          (fetch_metadata-Ends net (tp.topic ∷ []) b') (λ r kept. kept ∙ h))
        h

  refreshed_attempt-Kept :
      (tp : TopicPartition) (r : Option Error × Broker C W)
      → Kept r
      → Ends net Kept (refreshed_attempt net tp r)
  unfolding refreshed_attempt
  refreshed_attempt-Kept tp (some e, b') h = h
  refreshed_attempt-Kept tp (none, b') h = elim (Option-cases (find tp b'.metadata.endpoints)) [
    | inl unknown ↦ rw (Ends, refreshed_attempt, unknown) (no_endpoint-Kept tp b' h)
    | inr (node_id, known) ↦ rw (Ends, refreshed_attempt, known) (to_node-Kept tp node_id b' h)
  ]

  attempt-Kept :
      (tp : TopicPartition) (b' : Broker C W) → b'.conf ≡ b.conf → Ends net Kept (attempt net tp b')
  unfolding attempt
  attempt-Kept tp b' h = elim (Option-cases (find tp b'.metadata.endpoints)) [
    | inl unknown ↦
        rw (Ends, attempt, unknown)
          (proceed-Ends net (λ r. IsSame net b' r) Kept (refresh_metadata net b')
            (refreshed_attempt net tp) (refresh_metadata-Ends net b')
            (λ r kept. refreshed_attempt-Kept tp r (kept ∙ h)))
    | inr (node_id, known) ↦ rw (Ends, attempt, known) (to_node-Kept tp node_id b' h)
  ]

  module _ (pause : Broker C W → Broker C W)
      (pause-conf : (b : Broker C W) → (pause b).conf ≡ b.conf) where
    next_attempt-Kept :
        (r : (Error ⊎ C) × Broker C W)
        (again : Option Error → Broker C W → Option ((Option C × Option Error) × Broker C W))
        → Kept r
        → ((e : Error) (b' : Broker C W) → b'.conf ≡ b.conf → Ends net Kept (again (some e) b'))
        → Ends net Kept (next_attempt net pause again r)
    unfolding next_attempt
    next_attempt-Kept (inr conn, b') again h k = h
    next_attempt-Kept (inl e, b') again h k = k e b' h

    retries-Kept :
        (n : ℕ) (tp : TopicPartition) (e : Option Error) (b' : Broker C W)
        → b'.conf ≡ b.conf
        → Ends net Kept (retries net pause n tp e b')
    unfolding retries
    retries-Kept zero tp e b' h = h
    retries-Kept (suc n) tp e b' h =
        proceed-Ends net Kept Kept (attempt net tp (pause b'))
          (next_attempt net pause (retries net pause n tp))
          (attempt-Kept tp (pause b') (pause-conf b' ∙ h))
          (λ r kept.
            next_attempt-Kept r (retries net pause n tp) kept
              (λ x b2 same. retries-Kept n tp (some x) b2 same))

    leader_loop-Kept : (n : ℕ) (tp : TopicPartition) → Ends net Kept (leader_loop net pause n tp b)
    unfolding leader_loop
    leader_loop-Kept zero tp = refl
    leader_loop-Kept (suc n) tp =
        proceed-Ends net Kept Kept (attempt net tp b)
          (next_attempt net pause (retries net pause n tp)) (attempt-Kept tp b refl)
          (λ r kept.
            next_attempt-Kept r (retries net pause n tp) kept
              (λ x b2 same. retries-Kept n tp (some x) b2 same))

    pub leader_connection-conf :
        (tp : TopicPartition) → Ends net (IsSame net b) (leader_connection net pause tp b)
    unfolding leader_connection
    leader_connection-conf tp = leader_loop-Kept b.conf.leader_retry_limit tp
