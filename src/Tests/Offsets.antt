-- ===== src/Tests/Offsets.antt =====
-- Offset messages of concrete values.
use kafka_api.Common.{◌≡◌, refl, none, some, [], ◌∷◌, ◌++◌, arith}
use kafka_api.Common.Int.{pos, negsuc}
use kafka_api.Flow.{ok, and_then}
use kafka_api.Proto.Errors.{eof, kafka_error}
use kafka_api.Proto.Decoder.{scale}
use kafka_api.Proto.Times.{at_nano}
use kafka_api.Proto.Header.{RequestHeader}
use kafka_api.Proto.OffsetCommit.{
  OffsetCommitReq, OffsetCommitReqPartition, OffsetCommitResp, offset_commit_req_bytes,
  read_offset_commit_req, offset_commit_resp_bytes, read_offset_commit_resp,
}
use kafka_api.Proto.OffsetCommit.RoundTrip.{
  IsOffsetCommitReq, IsOffsetCommitReqPartition, IsOffsetCommitResp,
  read_offset_commit_req-offset_commit_req_bytes, read_offset_commit_resp-offset_commit_resp_bytes,
}
use kafka_api.Proto.OffsetFetch.{
  OffsetFetchReq, OffsetFetchResp, offset_fetch_req_bytes, read_offset_fetch_req,
  offset_fetch_resp_bytes, read_offset_fetch_resp,
}
use kafka_api.Proto.OffsetFetch.RoundTrip.{
  IsOffsetFetchReq, IsOffsetFetchResp, read_offset_fetch_req-offset_fetch_req_bytes,
  read_offset_fetch_resp-offset_fetch_resp_bytes,
}
use kafka_api.Proto.OffsetRequest.{OffsetReq, offset_req_bytes, read_offset_req}
use kafka_api.Proto.OffsetRequest.RoundTrip.{IsOffsetReq, read_offset_req-offset_req_bytes}
use kafka_api.Proto.OffsetResponse.{
  OffsetResp, OffsetRespPartition, offset_resp_bytes, read_offset_resp,
}
use kafka_api.Proto.OffsetResponse.RoundTrip.{
  IsOffsetResp, IsOffsetRespPartition, read_offset_resp-offset_resp_bytes,
}

abbrev header1 : RequestHeader
header1 = record { version = pos 1; correlation_id = pos 7; client_id = b'c' ∷ [] }

abbrev commit_partition : OffsetCommitReqPartition
commit_partition = record {
  id = pos 2;
  offset = pos 100;
  time_stamp = at_nano (pos 5_000_000);
  metadata = b'm' ∷ [];
}

commit_partition-IsPartition : IsOffsetCommitReqPartition (pos 1) commit_partition
commit_partition-IsPartition = record {
  id = omega arith;
  offset = omega arith;
  time_stamp = λ e. (pos 5, omega arith, unfold scale in omega arith, unfold scale in refl);
  no_time_stamp = λ e. ground arith;
  metadata = omega arith;
}

abbrev commit : OffsetCommitReq
commit = record {
  header = header1;
  consumer_group = b'g' ∷ [];
  group_generation_id = pos 3;
  member_id = b'm' ∷ [];
  retention_time = pos 0;
  topics = record { name = b't' ∷ []; partitions = commit_partition ∷ [] } ∷ [];
}

commit-IsOffsetCommitReq : IsOffsetCommitReq commit
commit-IsOffsetCommitReq = ground (arith, commit_partition-IsPartition)

read_offset_commit_req_example :
    and_then
      (offset_commit_req_bytes commit)
      (λ b. read_offset_commit_req (record { bytes = b ++ 9 ∷ []; ended = eof }))
    ≡ ok commit
read_offset_commit_req_example =
    read_offset_commit_req-offset_commit_req_bytes commit (9 ∷ []) eof commit-IsOffsetCommitReq

abbrev committed : OffsetCommitResp
committed = record {
  version = pos 3;
  correlation_id = pos 7;
  throttle_time = pos 20_000_000;
  topics =
      record {
        name = b't' ∷ [];
        partitions = record { id = pos 2; err = some (kafka_error (pos 12)) } ∷ [];
      }
      ∷ [];
}

committed-IsOffsetCommitResp : IsOffsetCommitResp committed
committed-IsOffsetCommitResp = record {
  correlation_id = omega arith;
  throttle_time = (pos 20, omega arith, unfold scale in refl);
  no_throttle_time = λ e. ground arith;
  topics = omega arith;
  each_topics = ground arith;
}

read_offset_commit_resp_run :
    and_then
      (offset_commit_resp_bytes committed)
      (λ b. read_offset_commit_resp committed.version (record { bytes = b ++ 9 ∷ []; ended = eof }))
    ≡ ok committed
read_offset_commit_resp_run =
    read_offset_commit_resp-offset_commit_resp_bytes committed (9 ∷ []) eof
      committed-IsOffsetCommitResp

abbrev fetch_offset : OffsetFetchReq
fetch_offset = record {
  header = header1;
  consumer_group = b'g' ∷ [];
  topics = record { name = b't' ∷ []; partitions = pos 0 ∷ pos 4 ∷ [] } ∷ [];
}

fetch_offset-IsOffsetFetchReq : IsOffsetFetchReq fetch_offset
fetch_offset-IsOffsetFetchReq = ground arith

read_offset_fetch_req_run :
    and_then
      (offset_fetch_req_bytes fetch_offset)
      (λ b. read_offset_fetch_req (record { bytes = b ++ 9 ∷ []; ended = eof }))
    ≡ ok fetch_offset
read_offset_fetch_req_run =
    read_offset_fetch_req-offset_fetch_req_bytes fetch_offset (9 ∷ []) eof
      fetch_offset-IsOffsetFetchReq

abbrev fetched_offset : OffsetFetchResp
fetched_offset = record {
  version = pos 3;
  correlation_id = pos 7;
  throttle_time = pos 20_000_000;
  topics =
      record {
        name = b't' ∷ [];
        partitions = record { id = pos 2; offset = negsuc 0; metadata = []; err = none } ∷ [];
      }
      ∷ [];
  err = some (kafka_error (pos 16));
}

fetched_offset-IsOffsetFetchResp : IsOffsetFetchResp fetched_offset
fetched_offset-IsOffsetFetchResp = record {
  correlation_id = omega arith;
  throttle_time = (pos 20, omega arith, unfold scale in refl);
  no_throttle_time = λ e. ground arith;
  topics = omega arith;
  each_topics = ground arith;
  err = ground arith;
  no_err = λ e. ground arith;
}

read_offset_fetch_resp_run :
    and_then (offset_fetch_resp_bytes fetched_offset) (λ b.
      read_offset_fetch_resp fetched_offset.version (record { bytes = b ++ 9 ∷ []; ended = eof }))
    ≡ ok fetched_offset
read_offset_fetch_resp_run =
    read_offset_fetch_resp-offset_fetch_resp_bytes fetched_offset (9 ∷ []) eof
      fetched_offset-IsOffsetFetchResp

abbrev ask_offset : OffsetReq
ask_offset = record {
  header = record header1 { version = pos 0 };
  replica_id = pos 0;
  isolation_level = pos 0;
  topics =
      record {
        name = b't' ∷ [];
        partitions = record { id = pos 2; time_ms = negsuc 1; max_offsets = pos 2 } ∷ [];
      }
      ∷ [];
}

ask_offset-IsOffsetReq : IsOffsetReq ask_offset
ask_offset-IsOffsetReq = ground arith

read_offset_req_run :
    and_then
      (offset_req_bytes ask_offset)
      (λ b. read_offset_req (record { bytes = b ++ 9 ∷ []; ended = eof }))
    ≡ ok (record ask_offset { replica_id = negsuc 0 })
read_offset_req_run =
    read_offset_req-offset_req_bytes ask_offset (9 ∷ []) eof ask_offset-IsOffsetReq

abbrev told_partition : OffsetRespPartition
told_partition = record {
  id = pos 2;
  err = none;
  time_stamp = at_nano (pos 5_000_000);
  offsets = pos 100 ∷ [];
}

told_partition-IsPartition : IsOffsetRespPartition (pos 1) told_partition
told_partition-IsPartition = record {
  id = omega arith;
  err = tt;
  offsets = (
    (pos 5, omega arith, unfold scale in omega arith, unfold scale in refl),
    (pos 100, omega arith, refl),
  );
}

abbrev told_offset : OffsetResp
told_offset = record {
  version = pos 1;
  correlation_id = pos 7;
  throttle_time = pos 0;
  topics = record { name = b't' ∷ []; partitions = told_partition ∷ [] } ∷ [];
}

told_offset-IsOffsetResp : IsOffsetResp told_offset
told_offset-IsOffsetResp = record {
  correlation_id = omega arith;
  throttle_time = (pos 0, omega arith, unfold scale in refl);
  no_throttle_time = λ e. refl;
  topics = omega arith;
  each_topics = ground (arith, told_partition-IsPartition);
}

read_offset_resp_run :
    and_then
      (offset_resp_bytes told_offset)
      (λ b. read_offset_resp told_offset.version (record { bytes = b ++ 9 ∷ []; ended = eof }))
    ≡ ok told_offset
read_offset_resp_run =
    read_offset_resp-offset_resp_bytes told_offset (9 ∷ []) eof told_offset-IsOffsetResp
