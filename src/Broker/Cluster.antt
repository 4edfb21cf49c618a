-- ===== src/Broker/Cluster.antt =====
-- How the broker of v2/broker.go gets its metadata, keeps it and forgets a dead connection.
pub mod Cached
use kafka_api.Broker.{
  BrokerConf, Error, from_conn, no_metadata, unknown_topic, no_addresses, cannot_connect, Network,
  proceed, TopicPartition, place_key, int_key, ClusterMetadata, Broker,
}
use kafka_api.Common.{
  ℕ, zero, suc, Bool, true, false, Option, none, some, List, [], ◌∷◌, ◌⊎◌, inl, inr, if◌then◌else◌,
  length,
}
use kafka_api.Common.Int.{ℤ, pos, negsuc, half32, wrap}
use kafka_api.Common.Map.{find, remove, put, string_key}
use kafka_api.Proto.Errors.{GoError}
use kafka_api.Proto.Metadata.{
  MetadataResp, MetadataRespTopic, MetadataRespPartition, MetadataRespBroker,
}

abbrev pub Result : Type 0 → Type 0
Result A = Error ⊎ A

module _ {C W : Type 0} (net : Network C W) where
  -- `if err != nil { …; continue }; return resp, nil`
  unfoldable pub first_answer :
      (W → Option (Option MetadataResp × W))
      → (GoError ⊎ MetadataResp) × W
      → Option (Option MetadataResp × W)
  first_answer next_conn (inr resp, w) = some (some resp, w)
  first_answer next_conn (inl e, w) = next_conn w

  -- the loop over b.conns: the first answer
  unfoldable pub ask_conns : List (List ℕ) → List (ℤ × C) → W → Option (Option MetadataResp × W)
  unfolding first_answer
  ask_conns topics [] w = some (none, w)
  ask_conns topics ((node_id, conn) ∷ conns) w =
      proceed (net.metadata conn topics w) (first_answer (ask_conns topics conns))

  -- Close, and the answer
  unfoldable pub closing : C → (GoError ⊎ MetadataResp) × W → Option (Option MetadataResp × W)
  closing conn (inr resp, w) = some (some resp, net.close conn w)
  closing conn (inl e, w) = some (none, net.close conn w)

  -- behind getConnection
  unfoldable pub ask_dialled : List (List ℕ) → (GoError ⊎ C) × W → Option (Option MetadataResp × W)
  unfolding closing
  ask_dialled topics (inl e, w) = some (none, w)
  ask_dialled topics (inr conn, w) = proceed (net.metadata conn topics w) (closing conn)

  -- getConnection, Metadata and Close, at an address
  unfoldable pub ask_address : List (List ℕ) → List ℕ → W → Option (Option MetadataResp × W)
  unfolding ask_dialled
  ask_address topics addr w = proceed (net.connect addr w) (ask_dialled topics)

  -- `return resp, nil`, or what is tried next
  unfoldable pub or_else :
      (W → Option (Option MetadataResp × W))
      → Option MetadataResp × W
      → Option (Option MetadataResp × W)
  or_else next_try (some resp, w) = some (some resp, w)
  or_else next_try (none, w) = next_try w

  -- the loop over b.metadata.nodes, past the nodes that were asked already
  unfoldable pub ask_nodes :
      List (List ℕ) → List (ℤ × C) → List (ℤ × List ℕ) → W → Option (Option MetadataResp × W)
  unfolding ask_address or_else
  ask_nodes topics conns [] w = some (none, w)
  ask_nodes topics conns ((node_id, addr) ∷ nodes) w = elim (find node_id conns) [
    | some c ↦ ask_nodes topics conns nodes w
    | none ↦ proceed (ask_address topics addr w) (or_else (ask_nodes topics conns nodes))
  ]

  -- the loop over b.getInitialAddresses()
  unfoldable pub ask_seeds : List (List ℕ) → List (List ℕ) → W → Option (Option MetadataResp × W)
  unfolding ask_address or_else
  ask_seeds topics [] w = some (none, w)
  ask_seeds topics (addr ∷ addrs) w =
      proceed (ask_address topics addr w) (or_else (ask_seeds topics addrs))

  -- behind the two loops over the cluster's nodes
  unfoldable pub ask_initial : List (List ℕ) → List (List ℕ) → W → Option (Option MetadataResp × W)
  unfolding ask_seeds
  ask_initial topics addresses w =
      let (addrs, w') = net.shuffle addresses w in ask_seeds topics addrs w'

  unfoldable pub answered : Option MetadataResp → Result MetadataResp
  answered (some resp) = inr resp
  answered none = inl no_metadata

  -- fetchMetadata
  unfoldable pub fetch_metadata :
      List (List ℕ) → Broker C W → Option (Result MetadataResp × Broker C W)
  unfolding answered ask_initial
  fetch_metadata topics b =
      proceed
        (proceed
          (proceed (ask_conns topics b.conns b.world)
            (or_else (ask_nodes topics b.conns b.metadata.nodes)))
          (or_else (ask_initial topics b.node_addresses)))
        (λ r. some (answered r.0, record b { world = r.1 }))

  -- the loop over resp.Brokers
  unfoldable pub cache_nodes : List MetadataRespBroker → List (ℤ × List ℕ) → List (ℤ × List ℕ)
  cache_nodes [] nodes = nodes
  cache_nodes (node ∷ brokers) nodes =
      cache_nodes brokers (put node.node_id (net.address node.host node.port) nodes)

-- the loop over topic.Partitions
unfoldable pub cache_partitions :
    List ℕ → List MetadataRespPartition → List (TopicPartition × ℤ) → List (TopicPartition × ℤ)
cache_partitions name [] endpoints = endpoints
cache_partitions name (part ∷ parts) endpoints =
    cache_partitions name parts
      (put (record { topic = name; partition = part.id }) part.leader endpoints)

-- the loop over resp.Topics
unfoldable pub cache_topics :
    List MetadataRespTopic
    → List (TopicPartition × ℤ) × List (List ℕ × ℤ)
    → List (TopicPartition × ℤ) × List (List ℕ × ℤ)
unfolding cache_partitions
cache_topics [] m = m
cache_topics (topic ∷ topics) (endpoints, partitions) = cache_topics topics (
  cache_partitions topic.name topic.partitions endpoints,
  put topic.name (wrap half32 (pos (length topic.partitions))) partitions,
)

module _ {C W : Type 0} (net : Network C W) where
  unfoldable pub cluster_of : MetadataResp → ClusterMetadata
  unfolding cache_nodes cache_topics
  cluster_of resp =
      let (endpoints, partitions) = cache_topics resp.topics ([], []) in
      record {
        nodes = cache_nodes net resp.brokers [];
        endpoints = endpoints;
        partitions = partitions;
        controller_id = resp.controller_id;
      }

  -- cacheMetadata
  unfoldable pub cache_metadata : MetadataResp → Broker C W → Broker C W
  unfolding cluster_of
  cache_metadata resp b = record b { metadata = cluster_of resp }

  unfoldable pub refreshed : Result MetadataResp × Broker C W → Option Error × Broker C W
  unfolding cache_metadata
  refreshed (inr resp, b) = (none, cache_metadata resp b)
  refreshed (inl e, b) = (some e, b)

  -- refreshMetadata
  unfoldable pub refresh_metadata : Broker C W → Option (Option Error × Broker C W)
  unfolding refreshed
  refresh_metadata b = proceed (fetch_metadata net [] b) (λ r. some (refreshed r))

  -- PartitionCount
  unfoldable pub partition_count : List ℕ → Broker C W → Result ℤ
  partition_count topic b = elim (find topic b.metadata.partitions) [
    | some count ↦ inr count
    | none ↦ inl (unknown_topic topic)
  ]

  -- the node of the first entry of b.conns with this connection
  unfoldable pub node_of : C → List (ℤ × C) → Option ℤ
  node_of conn [] = none
  node_of conn ((node_id, c) ∷ conns) =
      if net.same_conn c conn then some node_id else node_of conn conns

  -- muCloseDeadConnection; the error of refreshMetadata is only logged
  unfoldable pub close_dead_connection : C → Broker C W → Option (Broker C W)
  unfolding node_of refresh_metadata
  close_dead_connection conn b = elim (node_of conn b.conns) [
    | none ↦ some b
    | some node_id ↦
        proceed
          (refresh_metadata
            (record b { conns = remove node_id b.conns; world = net.close conn b.world }))
          (λ r. some r.1)
  ]

  -- the end of an iteration of Dial
  unfoldable pub redial :
      (Broker C W → Option (Result (Broker C W)))
      → Option Error × Broker C W
      → Option (Result (Broker C W))
  redial again (none, b) = some (inr b)
  redial again (some e, b) = again b

  -- the loop of Dial
  unfoldable pub dial_loop : ℕ → Broker C W → Option (Result (Broker C W))
  unfolding refresh_metadata redial
  dial_loop zero b = some (inl cannot_connect)
  dial_loop (suc retries) b = proceed (refresh_metadata b) (redial (dial_loop retries))

  -- Dial
  unfoldable pub dial : List (List ℕ) → BrokerConf → W → Option (Result (Broker C W))
  unfolding dial_loop
  dial [] conf w = some (inl no_addresses)
  dial (addr ∷ addrs) conf w = dial_loop conf.dial_retry_limit (record {
    conf = conf;
    metadata = record { nodes = []; endpoints = []; partitions = []; controller_id = pos 0 };
    conns = [];
    node_addresses = addr ∷ addrs;
    world = w;
  })
