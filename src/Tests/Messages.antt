-- ===== src/Tests/Messages.antt =====
-- Fetch, produce and consumer metadata messages of concrete values.
use kafka_api.Common.{◌≡◌, refl, none, [], ◌∷◌, ◌++◌, arith}
use kafka_api.Common.Int.{pos, negsuc}
use kafka_api.Flow.{ok, err, and_then}
use kafka_api.Proto.Errors.{eof}
use kafka_api.Proto.Decoder.{scale}
use kafka_api.Proto.Header.{RequestHeader}
use kafka_api.Proto.FetchRequest.{FetchReq, fetch_req_bytes, read_fetch_req}
use kafka_api.Proto.FetchRequest.RoundTrip.{IsFetchReq, read_fetch_req-fetch_req_bytes}
use kafka_api.Proto.ProduceResponse.{ProduceResp, produce_resp_bytes, read_produce_resp}
use kafka_api.Proto.ProduceResponse.RoundTrip.{IsProduceResp, read_produce_resp-produce_resp_bytes}
use kafka_api.Proto.ConsumerMetadata.{
  ConsumerMetadataReq, ConsumerMetadataResp, consumer_metadata_req_bytes,
  read_consumer_metadata_req, consumer_metadata_resp_bytes, read_consumer_metadata_resp,
}
use kafka_api.Proto.ConsumerMetadata.RoundTrip.{
  IsConsumerMetadataReq, IsConsumerMetadataResp,
  read_consumer_metadata_req-consumer_metadata_req_bytes, consumer_metadata_req_bytes_truncated,
  read_consumer_metadata_resp-consumer_metadata_resp_bytes,
}

abbrev header5 : RequestHeader
header5 = record { version = pos 5; correlation_id = pos 7; client_id = b'c' ∷ [] }

abbrev fetch : FetchReq
fetch = record {
  header = header5;
  replica_id = pos 3;
  max_wait_time = pos 50_000_000;
  min_bytes = pos 1;
  max_bytes = pos 4096;
  isolation_level = pos 1;
  topics =
      record {
        name = b't' ∷ [];
        partitions =
            record {
              id = pos 2;
              fetch_offset = pos 100;
              log_start_offset = pos 10;
              max_bytes = pos 4096;
            }
            ∷ [];
      }
      ∷ [];
}

fetch-IsFetchReq : IsFetchReq fetch
fetch-IsFetchReq = record {
  header = ground arith;
  max_wait_time = (pos 50, omega arith, unfold scale in refl);
  min_bytes = omega arith;
  max_bytes = omega arith;
  no_max_bytes = λ e. ground arith;
  isolation_level = omega arith;
  no_isolation_level = λ e. ground arith;
  topics = omega arith;
  each_topics = ground arith;
}

read_fetch_req_run :
    and_then
      (fetch_req_bytes fetch)
      (λ b. read_fetch_req (record { bytes = b ++ 9 ∷ []; ended = eof }))
    ≡ ok (record fetch { replica_id = negsuc 0 })
read_fetch_req_run = read_fetch_req-fetch_req_bytes fetch (9 ∷ []) eof fetch-IsFetchReq

abbrev produced : ProduceResp
produced = record {
  version = pos 2;
  correlation_id = pos 7;
  topics =
      record {
        name = b't' ∷ [];
        partitions =
            record { id = pos 2; err = none; offset = pos 100; log_append_time = negsuc 0 } ∷ [];
      }
      ∷ [];
  throttle_time = pos 20_000_000;
}

produced-IsProduceResp : IsProduceResp produced
produced-IsProduceResp = record {
  correlation_id = omega arith;
  topics = omega arith;
  each_topics = ground arith;
  throttle_time = (pos 20, omega arith, unfold scale in refl);
  no_throttle_time = λ e. ground arith;
}

read_produce_resp_run :
    and_then
      (produce_resp_bytes produced)
      (λ b. read_produce_resp produced.version (record { bytes = b ++ 9 ∷ []; ended = eof }))
    ≡ ok produced
read_produce_resp_run =
    read_produce_resp-produce_resp_bytes produced (9 ∷ []) eof produced-IsProduceResp

abbrev asked : ConsumerMetadataReq
asked = record {
  header = record header5 { version = pos 0 };
  consumer_group = b'g' ∷ [];
  coordinator_type = pos 1;
}

asked-IsConsumerMetadataReq : IsConsumerMetadataReq asked
asked-IsConsumerMetadataReq = ground arith

read_consumer_metadata_req_run :
    and_then
      (consumer_metadata_req_bytes asked)
      (λ b. read_consumer_metadata_req (record { bytes = b ++ 9 ∷ []; ended = eof }))
    ≡ ok (record asked { coordinator_type = pos 0 })
read_consumer_metadata_req_run =
    read_consumer_metadata_req-consumer_metadata_req_bytes asked (9 ∷ []) eof
      asked-IsConsumerMetadataReq refl

abbrev asked1 : ConsumerMetadataReq
asked1 = record {
  header = record header5 { version = pos 1 };
  consumer_group = b'g' ∷ [];
  coordinator_type = pos 1;
}

asked1-IsConsumerMetadataReq : IsConsumerMetadataReq asked1
asked1-IsConsumerMetadataReq = ground arith

consumer_metadata_req_bytes_truncated_example :
    and_then
      (consumer_metadata_req_bytes asked1)
      (λ b. read_consumer_metadata_req (record { bytes = b ++ []; ended = eof }))
    ≡ err eof
consumer_metadata_req_bytes_truncated_example =
    consumer_metadata_req_bytes_truncated asked1 asked1-IsConsumerMetadataReq refl

abbrev found : ConsumerMetadataResp
found = record {
  version = pos 1;
  correlation_id = pos 7;
  throttle_time = pos 20_000_000;
  err = none;
  err_msg = b'x' ∷ [];
  coordinator_id = pos 3;
  coordinator_host = b'h' ∷ [];
  coordinator_port = pos 9092;
}

found-IsConsumerMetadataResp : IsConsumerMetadataResp found
found-IsConsumerMetadataResp = record {
  correlation_id = omega arith;
  throttle_time = (pos 20, omega arith, unfold scale in refl);
  no_throttle_time = λ e. ground arith;
  err = tt;
  err_msg = omega arith;
  no_err_msg = λ e. ground arith;
  coordinator_id = omega arith;
  coordinator_host = omega arith;
  coordinator_port = omega arith;
}

read_consumer_metadata_resp_run :
    and_then
      (consumer_metadata_resp_bytes found)
      (λ b. read_consumer_metadata_resp found.version (record { bytes = b ++ 9 ∷ []; ended = eof }))
    ≡ ok found
read_consumer_metadata_resp_run =
    read_consumer_metadata_resp-consumer_metadata_resp_bytes found (9 ∷ []) eof
      found-IsConsumerMetadataResp
