-- ===== src/Broker.antt =====
-- The broker of v2/broker.go: the metadata and the connections that it keeps, and how it gets both.
-- What a connection does is an interface (its methods, and those of the packages net, crypto/tls,
-- math/rand and fmt, are external to the broker); log messages and the lengths of pauses are left out.
pub mod Cluster
pub mod Panics
pub mod Trim
pub mod Leader
pub mod Producer
pub mod Extract
pub mod Consumer
use kafka_api.Common.{
  arith, ℕ, zero, suc, ◌≡◌, refl, ◌∙◌, ap, Bool, true, false, not, ◌&&◌, Option, none, some, List,
  [], ◌∷◌, ◌⊎◌, inl, inr, if◌then◌else◌,
}
use kafka_api.Common.Int.{ℤ, pos, negsuc, half32, wrap}
use kafka_api.Common.Map.{
  Key, find, remove, put, string_key, same_string, same_string_refl, same_string→≡,
}
use kafka_api.Proto.Errors.{GoError, kafka_error, eof, eqb, eqb_refl, eqb→eq}
use kafka_api.Proto.Metadata.{
  MetadataResp, MetadataRespTopic, MetadataRespPartition, MetadataRespBroker,
}

-- error values: those of the connection, and those that broker.go makes
pub data Error : Type 0 where
  from_conn : GoError → Error
  -- errors.New("cannot fetch metadata. No topics created?")
  no_metadata : Error
  -- fmt.Errorf("topic %s not found in metadata", topic)
  unknown_topic : List ℕ → Error
  -- errors.New("Cannot get connection to controller node")
  no_controller : Error
  -- errors.New("no addresses provided"), fmt.Errorf("cannot connect to: …")
  no_addresses cannot_connect : Error
  -- errors.New("incomplete fetch response"), errors.New("incomplete produce response")
  incomplete_fetch incomplete_produce : Error
  -- fmt.Errorf("invalid start offset: %d", …)
  invalid_start : ℤ → Error
  -- ErrNoData
  no_data : Error

-- What the broker calls. W is the state of everything outside of the broker, C a connection.
pub record Network (C W : Type 0) : Type 0 where
  -- == of two connections
  pub same_conn : C → C → Bool
  -- err.(*net.OpError), err == syscall.EPIPE
  pub op_error : GoError → Bool
  pub epipe : GoError → Bool
  -- fmt.Sprintf("%s:%d", host, port)
  pub address : List ℕ → ℤ → List ℕ
  -- rand.Perm, applied to the seed addresses
  pub shuffle : List (List ℕ) → W → List (List ℕ) × W
  -- newTCPConnection or newTLSConnection; Close; Metadata. `none` is a panic: the functions that read
  -- responses panic on a slice of negative length.
  pub connect : List ℕ → W → Option ((GoError ⊎ C) × W)
  pub close : C → W → W
  pub metadata : C → List (List ℕ) → W → Option ((GoError ⊎ MetadataResp) × W)

-- a call that may panic, which is `none`, and what follows it
unfoldable pub proceed : {A B : Type 0} → Option A → (A → Option B) → Option B
proceed none f = none
proceed (some a) f = f a

-- topicPartition
pub record TopicPartition : Type 0 where
  pub topic : List ℕ
  pub partition : ℤ

instance abbrev pub int_key : Key ℤ
int_key = record { same = eqb; same_refl = eqb_refl; same→≡ = eqb→eq }

-- == of two of them
unfoldable pub same_place : TopicPartition → TopicPartition → Bool
same_place a b = same_string a.topic b.topic && eqb a.partition b.partition

pub same_place_refl : (a : TopicPartition) → same_place a a ≡ true
unfolding same_place
same_place_refl a = rw (same_string_refl a.topic) (eqb_refl a.partition)

and-true : (a b : Bool) → (a && b) ≡ true → (a ≡ true) × (b ≡ true)
and-true true b h = (refl, h)
and-true false b h = ground arith

pub same_place→≡ : (a b : TopicPartition) → same_place a b ≡ true → a ≡ b
unfolding same_place
same_place→≡ a b h =
    let (t, p) = and-true (same_string a.topic b.topic) (eqb a.partition b.partition) h in
    λ i. record {
      topic = same_string→≡ a.topic b.topic t i;
      partition = eqb→eq a.partition b.partition p i;
    }

instance abbrev pub place_key : Key TopicPartition
place_key = record { same = same_place; same_refl = same_place_refl; same→≡ = same_place→≡ }

-- clusterMetadata, without the time of its creation
pub record ClusterMetadata : Type 0 where
  pub nodes : List (ℤ × List ℕ)
  pub endpoints : List (TopicPartition × ℤ)
  pub partitions : List (List ℕ × ℤ)
  pub controller_id : ℤ

-- what BrokerConf says of retries, and of the creation of topics
pub record BrokerConf : Type 0 where
  pub leader_retry_limit : ℕ
  pub retry_err_limit : ℕ
  pub dial_retry_limit : ℕ
  pub allow_topic_creation : Bool
  pub client_id : List ℕ

-- Broker, and the state outside of it
pub record Broker (C W : Type 0) : Type 0 where
  pub conf : BrokerConf
  pub metadata : ClusterMetadata
  pub conns : List (ℤ × C)
  pub node_addresses : List (List ℕ)
  pub world : W
