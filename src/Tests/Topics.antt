-- ===== src/Tests/Topics.antt =====
-- Create topics and API versions messages of concrete values.
use kafka_api.Common.{◌≡◌, refl, true, some, [], ◌∷◌, ◌++◌, arith}
use kafka_api.Common.Int.{pos}
use kafka_api.Flow.{ok, and_then}
use kafka_api.Proto.Errors.{eof, kafka_error, err_from_no}
use kafka_api.Proto.Decoder.{scale}
use kafka_api.Proto.Header.{RequestHeader}
use kafka_api.Proto.CreateTopics.{
  CreateTopicsReq, CreateTopicsResp, TopicInfo, create_topics_req_bytes, read_create_topics_req,
  create_topics_resp_bytes, read_create_topics_resp, TopicError,
}
use kafka_api.Proto.CreateTopics.RoundTrip.{
  IsCreateTopicsReq, IsCreateTopicsResp, IsTopicInfo, IsTopicError,
  read_create_topics_req-create_topics_req_bytes, read_create_topics_resp-create_topics_resp_bytes,
}
use kafka_api.Proto.ApiVersions.Request.{read_api_versions_req-api_versions_req_bytes}
use kafka_api.Proto.ApiVersions.{
  api_versions_req_bytes, read_api_versions_req, ApiVersionsResp, api_versions_resp_bytes,
  read_api_versions_resp,
}
use kafka_api.Proto.ApiVersions.RoundTrip.{
  IsApiVersionsResp, read_api_versions_resp-api_versions_resp_bytes,
}

abbrev header5 : RequestHeader
header5 = record { version = pos 5; correlation_id = pos 7; client_id = b'c' ∷ [] }

abbrev info : TopicInfo
info = record {
  topic = b't' ∷ [];
  num_partitions = pos 3;
  replication_factor = pos 1;
  replica_assignments = record { partition = pos 0; replicas = pos 1 ∷ pos 2 ∷ [] } ∷ [];
  config_entries = record { config_name = b'k' ∷ []; config_value = b'v' ∷ [] } ∷ [];
}

info-IsTopicInfo : IsTopicInfo info
info-IsTopicInfo = ground arith

abbrev create : CreateTopicsReq
create = record {
  header = record header5 { version = pos 1 };
  create_topics_requests = info ∷ [];
  timeout = pos 20_000_000;
  validate_only = true;
}

create-IsCreateTopicsReq : IsCreateTopicsReq create
create-IsCreateTopicsReq = record {
  header = ground arith;
  create_topics_requests = omega arith;
  each_create_topics_requests = (info-IsTopicInfo, tt);
  timeout = (pos 20, omega arith, unfold scale in refl);
  no_validate_only = λ e. ground arith;
}

read_create_topics_req_example :
    and_then
      (create_topics_req_bytes create)
      (λ b. read_create_topics_req (record { bytes = b ++ 9 ∷ []; ended = eof }))
    ≡ ok create
read_create_topics_req_example =
    read_create_topics_req-create_topics_req_bytes create (9 ∷ []) eof create-IsCreateTopicsReq

abbrev topic_error : TopicError
topic_error = record {
  topic = b't' ∷ [];
  error_code = pos 36;
  error_message = b'x' ∷ [];
  err = some (kafka_error (pos 36));
}

topic_error-IsTopicError : IsTopicError (pos 2) topic_error
topic_error-IsTopicError = record {
  topic = omega arith;
  error_code = omega arith;
  error_message = omega arith;
  no_error_message = λ e. ground arith;
  err = unfold err_from_no in refl;
}

abbrev created : CreateTopicsResp
created = record {
  version = pos 2;
  correlation_id = pos 7;
  throttle_time = pos 20_000_000;
  topic_errors = topic_error ∷ [];
}

created-IsCreateTopicsResp : IsCreateTopicsResp created
created-IsCreateTopicsResp = record {
  correlation_id = omega arith;
  throttle_time = (pos 20, omega arith, unfold scale in refl);
  no_throttle_time = λ e. ground arith;
  topic_errors = omega arith;
  each_topic_errors = (topic_error-IsTopicError, tt);
}

read_create_topics_resp_example :
    and_then
      (create_topics_resp_bytes created)
      (λ b. read_create_topics_resp created.version (record { bytes = b ++ 9 ∷ []; ended = eof }))
    ≡ ok created
read_create_topics_resp_example =
    read_create_topics_resp-create_topics_resp_bytes created (9 ∷ []) eof created-IsCreateTopicsResp

abbrev versions : ApiVersionsResp
versions = record {
  version = pos 1;
  correlation_id = pos 7;
  api_versions = record { api_key = pos 3; min_version = pos 0; max_version = pos 5 } ∷ [];
  throttle_time = pos 20_000_000;
}

versions-IsApiVersionsResp : IsApiVersionsResp versions
versions-IsApiVersionsResp = record {
  correlation_id = omega arith;
  api_versions = omega arith;
  each_api = ground arith;
  throttle_time = (pos 20, omega arith, unfold scale in refl);
  no_throttle = λ e. ground arith;
}

read_api_versions_resp_run :
    and_then
      (api_versions_resp_bytes versions)
      (λ b. read_api_versions_resp versions.version (record { bytes = b ++ 9 ∷ []; ended = eof }))
    ≡ ok versions
read_api_versions_resp_run =
    read_api_versions_resp-api_versions_resp_bytes versions (9 ∷ []) eof versions-IsApiVersionsResp

read_api_versions_req_example :
    and_then
      (api_versions_req_bytes header5)
      (λ b. read_api_versions_req (record { bytes = b ++ 9 ∷ []; ended = eof }))
    ≡ ok (record header5 { version = pos 0 })
read_api_versions_req_example =
    read_api_versions_req-api_versions_req_bytes header5 (9 ∷ []) eof (ground arith)
