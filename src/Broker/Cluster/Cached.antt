-- ===== src/Broker/Cluster/Cached.antt =====
-- What cacheMetadata of v2/broker.go keeps of a response.
use kafka_api.Broker.Cluster.{
  partition_count, cluster_of, cache_metadata, cache_nodes, cache_partitions, cache_topics,
}
use kafka_api.Common.{
  ℕ, ◌≡◌, refl, ap, sym, ◌∙◌, true, false, Option, none, some, List, [], ◌∷◌, ◌++◌, inl, inr,
  Bool-cases, length,
}
use kafka_api.Common.Int.{ℤ, pos, half32, wrap}
use kafka_api.Common.Map.{Key, find, put, find-put, find-put_other, string_key}
use kafka_api.Proto.Metadata.{
  MetadataResp, MetadataRespTopic, MetadataRespPartition, MetadataRespBroker,
}
use kafka_api.Broker.{unknown_topic, Network, TopicPartition, place_key, int_key, Broker}

module _ {V : Type 0} where
  first : Option V → Option V → Option V
  first (some v) o = some v
  first none o = o

  first_assoc : (a b c : Option V) → first (first a b) c ≡ first a (first b c)
  unfolding first
  first_assoc (some v) b c = refl
  first_assoc none b c = refl

  first-none : (a : Option V) → first a none ≡ a
  unfolding first
  first-none none = refl
  first-none (some v) = refl

module _ {K V : Type 0} ⦃key : Key K⦄ where
  -- the last entry of a key
  unfoldable pub last_of : K → List (K × V) → Option V
  unfolding first
  last_of k [] = none
  last_of k ((k', v) ∷ m) =
      first (last_of k m) (elim (key.same k k') [ true ↦ some v | false ↦ none ])

  -- the entries, assigned one after the other
  unfoldable pub put_all : List (K × V) → List (K × V) → List (K × V)
  put_all [] m = m
  put_all ((k, v) ∷ entries) m = put_all entries (put k v m)

  find-put_first :
      (k k' : K) (v : V) (m : List (K × V))
      → find k (put k' v m)
        ≡ first (elim (key.same k k') [ true ↦ some v | false ↦ none ]) (find k m)
  unfolding first
  find-put_first k k' v m = elim (Bool-cases (key.same k k')) [
    | inl t ↦ rw t (ap (λ x. find x (put k' v m)) (key.same→≡ k k' t) ∙ find-put k' v m)
    | inr f ↦ rw f (find-put_other k' k v m f)
  ]

  find-put_all :
      (k : K) (entries m : List (K × V))
      → find k (put_all entries m) ≡ first (last_of k entries) (find k m)
  unfolding put_all last_of first
  find-put_all k [] m = refl
  find-put_all k ((k', v) ∷ entries) m =
      find-put_all k entries (put k' v m)
      ∙ ap (λ o. first (last_of k entries) o) (find-put_first k k' v m)
      ∙ sym (
          first_assoc (last_of k entries) (elim (key.same k k') [ true ↦ some v | false ↦ none ])
            (find k m))

  pub put_all-last_of :
      (k : K) (entries : List (K × V)) → find k (put_all entries []) ≡ last_of k entries
  unfolding find
  put_all-last_of k entries = find-put_all k entries [] ∙ first-none (last_of k entries)

  put_all-append : (a b m : List (K × V)) → put_all (a ++ b) m ≡ put_all b (put_all a m)
  unfolding put_all
  put_all-append [] b m = refl
  put_all-append ((k, v) ∷ a) b m = put_all-append a b (put k v m)

-- the leaders that a response names, in its order
abbrev pub leaders : List ℕ → List MetadataRespPartition → List (TopicPartition × ℤ)
leaders name [] = []
leaders name (p ∷ ps) = (record { topic = name; partition = p.id }, p.leader) ∷ leaders name ps

abbrev pub all_leaders : List MetadataRespTopic → List (TopicPartition × ℤ)
all_leaders [] = []
all_leaders (t ∷ ts) = leaders t.name t.partitions ++ all_leaders ts

-- how many partitions a response lists for each topic
abbrev pub counts : List MetadataRespTopic → List (List ℕ × ℤ)
counts [] = []
counts (t ∷ ts) = (t.name, wrap half32 (pos (length t.partitions))) ∷ counts ts

abbrev pub addresses : {C W : Type 0} → Network C W → List MetadataRespBroker → List (ℤ × List ℕ)
addresses net [] = []
addresses net (n ∷ ns) = (n.node_id, net.address n.host n.port) ∷ addresses net ns

cache_partitions-put_all :
    (name : List ℕ) (ps : List MetadataRespPartition) (m : List (TopicPartition × ℤ))
    → cache_partitions name ps m ≡ put_all (leaders name ps) m
unfolding cache_partitions put_all
cache_partitions-put_all name [] m = refl
cache_partitions-put_all name (p ∷ ps) m =
    cache_partitions-put_all name ps (put (record { topic = name; partition = p.id }) p.leader m)

cache_topics-put_all :
    (ts : List MetadataRespTopic) (m : List (TopicPartition × ℤ)) (c : List (List ℕ × ℤ))
    → cache_topics ts (m, c) ≡ (put_all (all_leaders ts) m, put_all (counts ts) c)
unfolding cache_topics put_all
cache_topics-put_all [] m c = refl
cache_topics-put_all (t ∷ ts) m c =
    let counted = put t.name (wrap half32 (pos (length t.partitions))) c in
    cache_topics-put_all ts (cache_partitions t.name t.partitions m) counted
    ∙ ap (λ x. (x, put_all (counts ts) counted))
        (ap (put_all (all_leaders ts)) (cache_partitions-put_all t.name t.partitions m)
          ∙ sym (put_all-append (leaders t.name t.partitions) (all_leaders ts) m))

cache_nodes-put_all :
    {C W : Type 0} (net : Network C W) (ns : List MetadataRespBroker) (m : List (ℤ × List ℕ))
    → cache_nodes net ns m ≡ put_all (addresses net ns) m
unfolding cache_nodes put_all
cache_nodes-put_all net [] m = refl
cache_nodes-put_all net (n ∷ ns) m =
    cache_nodes-put_all net ns (put n.node_id (net.address n.host n.port) m)

-- Once a response is cached, the leader of each partition is the last one that the response names
-- for it, the count of partitions of each topic is that of its last entry, first an error if it has
-- none, and the address of each node is that of its last entry; nothing of older metadata is left.
pub cache_metadata-last_of :
    {C W : Type 0} (net : Network C W) (resp : MetadataResp) (b : Broker C W) (tp : TopicPartition)
    (topic : List ℕ) (node_id : ℤ)
    → (find tp (cache_metadata net resp b).metadata.endpoints
        ≡ last_of tp (all_leaders resp.topics))
      × (partition_count net topic (cache_metadata net resp b)
          ≡ elim (last_of topic (counts resp.topics)) [
            | some n ↦ inr n
            | none ↦ inl (unknown_topic topic)
          ])
      × (find node_id (cache_metadata net resp b).metadata.nodes
          ≡ last_of node_id (addresses net resp.brokers))
unfolding cache_metadata cluster_of partition_count
cache_metadata-last_of net resp b tp topic node_id =
    let cached = cache_topics-put_all resp.topics [] [] in
    (
      ap (λ m. find tp m.0) cached ∙ put_all-last_of tp (all_leaders resp.topics),
      ap (λ o. elim o [ some n ↦ inr n | none ↦ inl (unknown_topic topic) ])
          (ap (λ m. find topic m.1) cached ∙ put_all-last_of topic (counts resp.topics)),
      ap (find node_id) (cache_nodes-put_all net resp.brokers [])
          ∙ put_all-last_of node_id (addresses net resp.brokers),
    )
