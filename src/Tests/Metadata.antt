-- ===== src/Tests/Metadata.antt =====
-- Metadata messages of concrete values.
use kafka_api.Common.{◌≡◌, refl, true, none, some, [], ◌∷◌, ◌++◌, arith}
use kafka_api.Common.Int.{pos, negsuc}
use kafka_api.Flow.{ok, and_then}
use kafka_api.Proto.Errors.{eof, kafka_error}
use kafka_api.Proto.Decoder.{scale}
use kafka_api.Proto.Header.{RequestHeader}
use kafka_api.Proto.Metadata.{
  MetadataReq, MetadataResp, MetadataRespBroker, MetadataRespTopic, MetadataRespPartition,
  metadata_req_bytes, read_metadata_req, metadata_resp_bytes, read_metadata_resp,
}
use kafka_api.Proto.Metadata.RoundTrip.{
  IsMetadataReq, IsMetadataResp, IsBroker, IsTopic, IsPartition,
  read_metadata_req-metadata_req_bytes, read_metadata_resp-metadata_resp_bytes,
}

abbrev header4 : RequestHeader
header4 = record { version = pos 4; correlation_id = pos 7; client_id = b'c' ∷ [] }

abbrev request : MetadataReq
request = record {
  header = header4;
  topics = (b't' ∷ []) ∷ (b'u' ∷ b'v' ∷ []) ∷ [];
  allow_auto_topic_creation = true;
}

request-IsMetadataReq : IsMetadataReq request
request-IsMetadataReq = ground arith

read_metadata_req_run :
    and_then
      (metadata_req_bytes request)
      (λ b. read_metadata_req (record { bytes = b ++ 9 ∷ []; ended = eof }))
    ≡ ok request
read_metadata_req_run =
    read_metadata_req-metadata_req_bytes request (9 ∷ []) eof request-IsMetadataReq

abbrev partition : MetadataRespPartition
partition = record {
  err = some (kafka_error (pos 5));
  id = pos 0;
  leader = negsuc 0;
  replicas = pos 1 ∷ pos 2 ∷ [];
  isrs = pos 1 ∷ [];
  offline_replicas = [];
}

abbrev topic : MetadataRespTopic
topic = record { name = b't' ∷ []; err = none; is_internal = true; partitions = partition ∷ [] }

abbrev broker : MetadataRespBroker
broker = record { node_id = pos 1; host = b'h' ∷ []; port = pos 9092; rack = [] }

abbrev response : MetadataResp
response = record {
  version = pos 3;
  correlation_id = pos 7;
  throttle_time = pos 20_000_000;
  brokers = broker ∷ [];
  cluster_id = b'k' ∷ [];
  controller_id = pos 1;
  topics = topic ∷ [];
}

partition-IsPartition : IsPartition (pos 3) partition
partition-IsPartition = ground arith

topic-IsTopic : IsTopic (pos 3) topic
topic-IsTopic = ground (arith, partition-IsPartition)

broker-IsBroker : IsBroker (pos 3) broker
broker-IsBroker = ground arith

response-IsMetadataResp : IsMetadataResp response
response-IsMetadataResp = record {
  correlation_id = omega arith;
  throttle_time = (pos 20, omega arith, unfold scale in refl);
  no_throttle = λ e. ground arith;
  brokers = omega arith;
  each_broker = (broker-IsBroker, tt);
  cluster_id = omega arith;
  no_cluster = λ e. ground arith;
  controller_id = omega arith;
  no_controller = λ e. ground arith;
  topics = omega arith;
  each_topic = (topic-IsTopic, tt);
}

read_metadata_resp_example :
    and_then
      (metadata_resp_bytes response)
      (λ b. read_metadata_resp response.version (record { bytes = b ++ 9 ∷ []; ended = eof }))
    ≡ ok response
read_metadata_resp_example =
    read_metadata_resp-metadata_resp_bytes response (9 ∷ []) eof response-IsMetadataResp
