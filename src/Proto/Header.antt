-- ===== src/Proto/Header.antt =====
-- RequestHeader, encodeHeader and decodeHeader of v2/proto/messages.go, and the kinds and versions
-- of requests.
use kafka_api.Common.{ℕ, Bool, false, List, leb, ◌==◌, arith}
use kafka_api.Common.Int.{ℤ, pos, negsuc, half16, half32, InRange}
use kafka_api.Flow.{◌>>=◌, ◌>>◌, pure}
use kafka_api.Proto.Writer.{Writer, IsWriter}
use kafka_api.Proto.Encoder.{Encoding, encode_int16, encode_int32, encode_string}
use kafka_api.Proto.Decoder.{Decoding, decode_int16, decode_int32, decode_string}
use kafka_api.Proto.Codec.{Codec, Codec-bind, Codec-last}
use kafka_api.Proto.Codec.Prims.{Codec-int16, Codec-int32}
use kafka_api.Proto.Codec.Fields.{IsString, Codec-string}

-- ProduceReqKind, FetchReqKind, …: the types that implement Request
pub data Kind : Type 0 where
  produce fetch offset metadata offset_commit offset_fetch consumer_metadata api_versions : Kind
  create_topics : Kind

unfoldable pub kind_number : Kind → ℤ
kind_number Kind.produce = pos 0
kind_number Kind.fetch = pos 1
kind_number Kind.offset = pos 2
kind_number Kind.metadata = pos 3
kind_number Kind.offset_commit = pos 8
kind_number Kind.offset_fetch = pos 9
kind_number Kind.consumer_metadata = pos 10
kind_number Kind.api_versions = pos 18
kind_number Kind.create_topics = pos 19

-- version >= KafkaVk
abbrev pub at_least : ℤ → ℕ → Bool
at_least (pos v) k = leb k v
at_least (negsuc v) k = false

-- version == KafkaVk
abbrev pub is_version : ℤ → ℕ → Bool
is_version (pos v) k = v == k
is_version (negsuc v) k = false

pub record RequestHeader : Type 0 where
  pub version : ℤ
  pub correlation_id : ℤ
  pub client_id : List ℕ

module _ {W : Type 0} ⦃io : Writer W⦄ where
  -- what encodeHeader writes behind the kind
  unfoldable pub encode_named : RequestHeader → Encoding W
  encode_named h = do
    encode_int16 h.version
    encode_int32 h.correlation_id
    encode_string h.client_id

  -- what encodeHeader writes behind its placeholder for the message size
  unfoldable pub encode_fields : Kind → RequestHeader → Encoding W
  unfolding encode_named
  encode_fields kind h = encode_int16 (kind_number kind) >> encode_named h

  unfoldable pub encode_header : Kind → RequestHeader → Encoding W
  unfolding encode_fields
  encode_header kind h = encode_int32 (pos 0) >> encode_fields kind h

-- what decodeHeader reads behind the kind
unfoldable pub decode_named : Decoding RequestHeader
decode_named = do
  version ← decode_int16
  correlation_id ← decode_int32
  client_id ← decode_string
  pure (record { version = version; correlation_id = correlation_id; client_id = client_id })

-- what decodeHeader reads behind the message size
unfoldable pub decode_fields : Decoding RequestHeader
unfolding decode_named
decode_fields = decode_int16 >>= (λ api_key. decode_named)

unfoldable pub decode_header : Decoding RequestHeader
unfolding decode_fields
decode_header = decode_int32 >>= (λ size. decode_fields)

pub record IsHeader (h : RequestHeader) : Type 0 where
  pub version : InRange half16 h.version
  pub correlation_id : InRange half32 h.correlation_id
  pub client_id : IsString h.client_id

pub kind_number-InRange : (kind : Kind) → InRange half16 (kind_number kind)
unfolding kind_number
kind_number-InRange Kind.produce = omega arith
kind_number-InRange _ = omega arith

module _ {W : Type 0} ⦃io : Writer W⦄ (laws : IsWriter io) where
  pub Codec-named : (h : RequestHeader) → IsHeader h → Codec laws (encode_named h) decode_named h
  unfolding encode_named decode_named
  Codec-named h v = Codec-bind laws _ (Codec-int16 laws h.version v.version) (
      Codec-bind laws _ (Codec-int32 laws h.correlation_id v.correlation_id)
        (Codec-last laws _ (Codec-string laws h.client_id v.client_id)))

  pub Codec-fields :
      (kind : Kind) (h : RequestHeader)
      → IsHeader h
      → Codec laws (encode_fields kind h) decode_fields h
  unfolding encode_fields decode_fields
  Codec-fields kind h v =
      Codec-bind laws _ (Codec-int16 laws (kind_number kind) (kind_number-InRange kind))
        (Codec-named h v)
