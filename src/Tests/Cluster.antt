-- ===== src/Tests/Cluster.antt =====
-- A cluster of one node, whose connections answer every call, and clients of it.
use kafka_api.Proto.Errors.{GoError}
use kafka_api.Broker.Extract.{FetchResp, FetchRespTopic, FetchRespPartition}
use kafka_api.Broker.Consumer.{Consumer, consume_one}
use kafka_api.Broker.{unknown_topic, Network, TopicPartition, Broker, place_key, int_key}
use kafka_api.Common.{
  Option, ℕ, suc, ◌≡◌, refl, ap, sym, ◌∙◌, subst, false, none, some, List, [], ◌∷◌, ◌⊎◌, inl, inr,
  arith, ◌==◌,
}
use kafka_api.Common.Int.{pos}
use kafka_api.Common.Map.{find, string_key}
use kafka_api.Proto.Message.{Message}
use kafka_api.Proto.Metadata.{MetadataResp, MetadataRespBroker}
use kafka_api.Proto.FetchRequest.{FetchReq, FetchReqTopic, FetchReqPartition}
use kafka_api.Proto.ProduceResponse.{ProduceResp}
use kafka_api.Broker.Cluster.{cache_metadata, partition_count}
use kafka_api.Broker.Cluster.Cached.{
  cache_metadata-last_of, last_of, all_leaders, counts, addresses,
}
use kafka_api.Broker.Producer.{ProducerConf, ProduceReq, produce_messages}
use kafka_api.Broker.Panics.{Within}
use kafka_api.Broker.Producer.Answers.{TopicsHave}
use kafka_api.Broker.Producer.Stored.{StoredAt, Stores, Fails, IsProduced, produce_messages-Stored}
use kafka_api.Broker.Consumer.Log.{Log}
use kafka_api.Broker.Consumer.Served.{Serves, IsDelivered, consume_one-IsDelivered}
use kafka_api.Broker.Consumer.Ending.{Delivers, Breaks, consume_one-Ends}

abbrev logs : List ℕ
logs = b'l' ∷ []

abbrev place : TopicPartition
place = record { topic = logs; partition = pos 0 }

abbrev node : MetadataRespBroker
node = record { node_id = pos 3; host = b'h' ∷ []; port = pos 9; rack = [] }

abbrev known : MetadataResp
known = record {
  version = pos 0;
  correlation_id = pos 1;
  throttle_time = pos 0;
  brokers = node ∷ [];
  cluster_id = [];
  controller_id = pos 3;
  topics =
      record {
        name = logs;
        err = none;
        is_internal = false;
        partitions =
            record {
              err = none;
              id = pos 0;
              leader = pos 3;
              replicas = [];
              isrs = [];
              offline_replicas = [];
            }
            ∷ [];
      }
      ∷ [];
}

-- connections are numbered, and the state of the world is the next number
abbrev one_node : Network ℕ ℕ
one_node = record {
  same_conn = λ a b. a == b;
  op_error = λ e. false;
  epipe = λ e. false;
  address = λ host port. host;
  shuffle = λ addrs w. (addrs, w);
  connect = λ addr w. some (inr w, suc w);
  close = λ c w. w;
  metadata = λ c topics w. some (inr known, w);
}

abbrev unconnected : Broker ℕ ℕ
unconnected = record {
  conf = record {
    leader_retry_limit = 2;
    retry_err_limit = 2;
    dial_retry_limit = 2;
    allow_topic_creation = false;
    client_id = [];
  };
  metadata = record { nodes = []; endpoints = []; partitions = []; controller_id = pos 0 };
  conns = [];
  node_addresses = (b'h' ∷ []) ∷ [];
  world = 1;
}

cache_metadata-last_of_example :
    (find place (cache_metadata one_node known unconnected).metadata.endpoints
      ≡ last_of place (all_leaders known.topics))
    × (partition_count one_node logs (cache_metadata one_node known unconnected)
        ≡ elim (last_of logs (counts known.topics)) [
          | some n ↦ inr n
          | none ↦ inl (unknown_topic logs)
        ])
    × (find (pos 3) (cache_metadata one_node known unconnected).metadata.nodes
        ≡ last_of (pos 3) (addresses one_node known.brokers))
cache_metadata-last_of_example =
    cache_metadata-last_of one_node known unconnected place logs (pos 3)

abbrev produced_resp : ProduceResp
produced_resp = record {
  version = pos 0;
  correlation_id = pos 1;
  throttle_time = pos 0;
  topics =
      record {
        name = logs;
        partitions =
            record { id = pos 0; err = none; offset = pos 7; log_append_time = pos 0 } ∷ [];
      }
      ∷ [];
}

abbrev produced_at : ℕ → ProduceReq → ℕ → Option ((GoError ⊎ ProduceResp) × ℕ)
produced_at c req w = some (inr produced_resp, w)

abbrev producing : ProducerConf
producing = record {
  compression = pos 0;
  required_acks = pos 1;
  request_timeout = pos 0;
  retry_limit = 3;
}

abbrev message : ℕ → Message
message offset = record {
  key = none;
  value = some (b'v' ∷ []);
  offset = pos offset;
  crc = 0;
  topic = [];
  partition = pos 0;
  tip_offset = pos 0;
}

abbrev two : List Message
two = message 0 ∷ message 0 ∷ []

-- all messages are stored at the offset 7
abbrev Stored : ℕ → ℕ → List Message → Type 0
Stored w o ms = o ≡ 7

produced_in : Option ((GoError ⊎ ProduceResp) × ℕ) → ProduceResp → ProduceResp
produced_in (some (inr resp, w)) d = resp
produced_in (some (inl e, w)) d = d
produced_in none d = d

produced_at-Stores : Stores one_node produced_at (λ b. b) (λ b. refl) producing place two Stored
unfolding produced_in
produced_at-Stores conn req w w' resp sends e =
    subst
      (λ r.
        TopicsHave place
          (StoredAt one_node produced_at (λ b. b) (λ b. refl) producing place two Stored w')
          r.topics)
      (ap (λ x. produced_in x resp) e)
      ((λ name. ((λ id err. (7, refl, (omega arith, refl))), tt)), tt)

produce_messages-Stored_example :
    Within
      (Fails one_node produced_at (λ b. b) (λ b. refl) producing place two Stored)
      (IsProduced one_node produced_at (λ b. b) (λ b. refl) producing place two Stored)
      (produce_messages one_node produced_at (λ b. b) producing place two unconnected)
produce_messages-Stored_example =
    produce_messages-Stored one_node produced_at (λ b. b) (λ b. refl) producing place two Stored
      unconnected (omega arith) (omega arith) (λ e. ground (arith, e)) produced_at-Stores
      (omega arith)

-- a log with the same message at every offset
abbrev values : Log
values o = (none, some (b'v' ∷ []))

served_partitions : List ℕ → List FetchReqPartition → List FetchRespPartition
served_partitions name [] = []
served_partitions name (p ∷ ps) =
    record {
      id = p.id;
      err = none;
      tip_offset = pos 0;
      last_stable_offset = pos 0;
      log_start_offset = pos 0;
      aborted_transactions = [];
      messages =
          record (message 0) { offset = p.fetch_offset; topic = name; partition = p.id } ∷ [];
      message_version = pos 0;
      record_batches = [];
    }
    ∷ served_partitions name ps

served_topics : List FetchReqTopic → List FetchRespTopic
unfolding served_partitions
served_topics [] = []
served_topics (t ∷ ts) =
    record { name = t.name; partitions = served_partitions t.name t.partitions } ∷ served_topics ts

abbrev served : FetchReq → FetchResp
served req = record {
  version = pos 0;
  correlation_id = pos 1;
  throttle_time = pos 0;
  topics = served_topics req.topics;
}

abbrev serving : ℕ → FetchReq → ℕ → Option ((GoError ⊎ FetchResp) × ℕ)
serving c req w = some (inr (served req), w)

response_of : Option ((GoError ⊎ FetchResp) × ℕ) → FetchResp → FetchResp
response_of (some (inr resp, w)) d = resp
response_of (some (inl e, w)) d = d
response_of none d = d

serving-Serves : Serves one_node serving (λ b. b) (λ b. refl) values place
unfolding response_of served_topics served_partitions
serving-Serves c req w w' o resp asks e = record {
  part = record {
    id = asks.part.id;
    err = none;
    tip_offset = pos 0;
    last_stable_offset = pos 0;
    log_start_offset = pos 0;
    aborted_transactions = [];
    messages =
        record (message 0) {
          offset = asks.part.fetch_offset;
          topic = logs;
          partition = asks.part.id;
        }
        ∷ [];
    message_version = pos 0;
    record_batches = [];
  };
  topics = sym (ap (λ x. (response_of x resp).topics) e) ∙ ap served_topics asks.topics;
  id = asks.id;
  start = o;
  early = omega arith;
  messages = λ old. (
    record { offset = asks.from; key = refl; value = refl; topic = refl; partition = asks.id },
    tt,
  );
  batches = λ new. tt;
}

abbrev consuming : Consumer ℕ ℕ
consuming = record {
  broker = unconnected;
  conf = record {
    place = place;
    request_timeout = pos 0;
    min_fetch_size = pos 0;
    max_fetch_size = pos 9;
    retry_limit = pos 1;
    retry_err_limit = 2;
    start_offset = pos 5;
  };
  offset = pos 5;
  conn = none;
  msgbuf = [];
}

consume_one-IsDelivered_example :
    IsDelivered one_node serving
      (λ b. b)
      (λ b. refl)
      values
      place
      5
      1
      (consume_one one_node serving (λ b. b) 2 consuming)
consume_one-IsDelivered_example =
    consume_one-IsDelivered one_node serving (λ b. b) (λ b. refl) values place 5 1 2 consuming
      serving-Serves (omega arith)
      (record { place = refl; offset = refl; limit = refl; leader = omega arith }) tt (omega arith)

consume_one-Ends_example :
    Delivers one_node serving
      (λ b. b)
      place
      (pos 5)
      1
      (λ ms. Unit {0})
      (Breaks one_node serving)
      (consume_one one_node serving (λ b. b) 2 consuming)
consume_one-Ends_example =
    consume_one-Ends one_node serving (λ b. b) (λ b. refl) place (pos 5) 1 2 consuming
      (record { place = refl; offset = refl; limit = refl; leader = omega arith }) (omega arith)
