-- ===== src/Proto/OffsetResponse/RoundTrip.antt =====
-- An OffsetResp comes back as it was written.
use kafka_api.Common.{ℕ, ◌≡◌, refl, Bool, true, false, List, [], ◌∷◌, ◌++◌, All, sym, subst}
use kafka_api.Common.Int.{half32, to_bits, ℤ, pos, half64, InRange}
use kafka_api.Flow.{ok, and_then, ◌>>◌}
use kafka_api.Common.Bytes.{put_uint}
use kafka_api.Proto.Errors.{GoError}
use kafka_api.Proto.Codec.Fields.{IsString, IsError, IsDuration32}
use kafka_api.Proto.Codec.Arrays.{IsArray}
use kafka_api.Proto.Rules.{
  Matches, Matches-bind, Matches-last, Matches-optional, Matches-slice, Matches-int32,
  Matches-int64, Matches-string, Matches-error, Matches-duration, Matches-int64s,
}
use kafka_api.Proto.Times.{Time, zero_time, IsTime, Matches-time, encode_time}
use kafka_api.Proto.Header.{at_least}
use kafka_api.Proto.Frame.RoundTrip.{Sending, sent_back, response_sent}
use kafka_api.Proto.Encoder.{encode_int64, encode_int64s}
use kafka_api.Proto.Writer.{buffer_writer}
use kafka_api.Proto.OffsetResponse.{
  OffsetRespPartition, first_offset, encode_offsets, decode_offsets, encode_offset_resp_partition,
  decode_offset_resp_partition, OffsetRespTopic, encode_offset_resp_topic, decode_offset_resp_topic,
  OffsetResp, encode_offset_resp, offset_resp_bytes, decode_offset_resp, read_offset_resp,
}

-- The values that the wire format of a version can carry: in range, and with the initial value
-- in a field that the version leaves out.
-- from version 1 on a partition has one offset and a time; before that, offsets and no time
abbrev IsOffsets : Bool → Time → List ℤ → Type 0
IsOffsets true t os = IsTime t × ((o : ℤ) × InRange half64 o × (os ≡ o ∷ []))
IsOffsets false t os = (t ≡ zero_time) × IsArray os × All (InRange half64) os

pub record IsOffsetRespPartition (version : ℤ) (p : OffsetRespPartition) : Type 0 where
  pub id : InRange half32 p.id
  pub err : IsError p.err
  pub offsets : IsOffsets (at_least version 1) p.time_stamp p.offsets

pub record IsOffsetRespTopic (version : ℤ) (t : OffsetRespTopic) : Type 0 where
  pub name : IsString t.name
  pub partitions : IsArray t.partitions
  pub each_partitions : All (IsOffsetRespPartition version) t.partitions

pub record IsOffsetResp (r : OffsetResp) : Type 0 where
  pub correlation_id : InRange half32 r.correlation_id
  pub throttle_time : IsDuration32 r.throttle_time
  pub no_throttle_time : at_least r.version 2 ≡ false → r.throttle_time ≡ pos 0
  pub topics : IsArray r.topics
  pub each_topics : All (IsOffsetRespTopic r.version) r.topics

-- the single offset of the later versions
single_offset :
    (os : List ℤ)
    → ((o : ℤ) × InRange half64 o × (os ≡ o ∷ []))
    → (first_offset os ∷ [] ≡ os) × InRange half64 (first_offset os)
unfolding first_offset
single_offset os (o, r, e) = rw e (refl, r)

Matches-offsets :
    (c : Bool) (p : OffsetRespPartition)
    → IsOffsets c p.time_stamp p.offsets
    → Matches (encode_offsets c p) (decode_offsets c) (p.time_stamp, p.offsets)
unfolding encode_offsets decode_offsets
Matches-offsets true p (t, one) =
    let (e, r) = single_offset p.offsets one in
    subst
      (λ os.
        Matches (encode_time p.time_stamp >> encode_int64 (first_offset p.offsets))
          (decode_offsets true) (p.time_stamp, os))
      e
      (Matches-bind _ (Matches-time p.time_stamp t)
        (Matches-last _ (Matches-int64 (first_offset p.offsets) r)))
Matches-offsets false p (z, h, hs) =
    subst (λ t. Matches (encode_int64s p.offsets) (decode_offsets false) (t, p.offsets)) (sym z)
      (Matches-last _ (Matches-int64s p.offsets h hs))

Matches-offset_resp_partition :
    (version : ℤ) (p : OffsetRespPartition)
    → IsOffsetRespPartition version p
    → Matches (encode_offset_resp_partition version p) (decode_offset_resp_partition version) p
unfolding encode_offset_resp_partition decode_offset_resp_partition
Matches-offset_resp_partition version p h = Matches-bind _ (Matches-int32 p.id h.id) (
    Matches-bind _ (Matches-error p.err h.err)
      (Matches-last _ (Matches-offsets (at_least version 1) p h.offsets)))

Matches-offset_resp_topic :
    (version : ℤ) (t : OffsetRespTopic)
    → IsOffsetRespTopic version t
    → Matches (encode_offset_resp_topic version t) (decode_offset_resp_topic version) t
unfolding encode_offset_resp_topic decode_offset_resp_topic
Matches-offset_resp_topic version t h = Matches-bind _ (Matches-string t.name h.name) (
    Matches-last _ (
      Matches-slice (Matches-offset_resp_partition version) t.partitions h.partitions
        h.each_partitions))

pub sent_offset_resp :
    (r : OffsetResp)
    → IsOffsetResp r
    → Sending
        (put_uint 4 (to_bits half32 r.correlation_id))
        (offset_resp_bytes r)
        (read_offset_resp r.version)
        r
unfolding offset_resp_bytes read_offset_resp encode_offset_resp decode_offset_resp
sent_offset_resp r h = response_sent r.correlation_id _ r h.correlation_id (
    Matches-bind _
      (Matches-optional (at_least r.version 2)
        (λ c. Matches-duration r.throttle_time h.throttle_time) h.no_throttle_time)
      (Matches-last _
        (Matches-slice (Matches-offset_resp_topic r.version) r.topics h.topics h.each_topics)))

-- A well-formed response, written by Bytes and read by ReadVersionedOffsetResp at its version,
-- comes back as it was, whatever follows it on the stream.
pub read_offset_resp-offset_resp_bytes :
    (r : OffsetResp) (rest : List ℕ) (e : GoError)
    → IsOffsetResp r
    → and_then
        (offset_resp_bytes r)
        (λ b. read_offset_resp r.version (record { bytes = b ++ rest; ended = e }))
      ≡ ok r
read_offset_resp-offset_resp_bytes r rest e h = sent_back (sent_offset_resp r h) rest e
