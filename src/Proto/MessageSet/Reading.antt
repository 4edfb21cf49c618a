-- ===== src/Proto/MessageSet/Reading.antt =====
-- readMessageSet of v2/proto/messages.go.
pub mod Cut
pub mod Ends
pub mod Entries
use kafka_api.Common.{
  ℕ, zero, suc, ◌-◌, ◌*◌, ◌%◌, Bool, true, false, Option, none, some, List, [], ◌∷◌, ◌++◌, ◌⊎◌, inl,
  inr, if◌then◌else◌, length, take, drop, ◌==◌, ltb, leb,
}
use kafka_api.Common.Int.{ℤ, pos, negsuc, half8, half32, to_bits, wrap}
use kafka_api.Common.Crc.{checksum_ieee}
use kafka_api.Flow.{Returned, ok, err, panic, Step, next, returns, panics, ◌>>=◌, pure}
use kafka_api.Proto.Errors.{GoError, eof, unexpected_eof, message_size, eqb}
use kafka_api.Proto.Writer.{alloc_parse_buf}
use kafka_api.Proto.Decoder.{
  Reader, Decoder, Decoding, new_decoder, read_full, decode_int8, decode_int32, decode_int64,
  decode_uint32, decode_bytes,
}
use kafka_api.Proto.Message.{Message}
use kafka_api.Proto.Frame.{Result}
use kafka_api.Proto.Snappy.{snappy_decode}
use kafka_api.Proto.MessageSet.{Compressors}

-- what an iteration of the loop does with the set: append messages and go on, append one and
-- return, return the set as it is, `return nil, nil`, `return nil, err`, panic
pub data Entry : Type 0 where
  more : List Message → Entry
  last : Message → Entry
  enough : Entry
  nothing : Entry
  refused : GoError → Entry
  broken : Entry

-- `if err == io.EOF || err == io.ErrUnexpectedEOF { return set, nil }; return nil, err`
unfoldable pub short : GoError → Entry
short eof = enough
short unexpected_eof = enough
short e = refused e

-- Compression(attributes & 3)
unfoldable pub compression_of : ℤ → ℕ
compression_of attributes = to_bits half8 attributes % 4

unfoldable pub key_and_value : Decoding (Option (List ℕ) × Option (List ℕ))
key_and_value = do key ← decode_bytes; value ← decode_bytes; pure (key, value)

unfoldable pub bytes_of : Option (List ℕ) → List ℕ
bytes_of none = []
bytes_of (some b) = b

unfoldable pub gunzipped : GoError ⊎ List ℕ → Result (List ℕ)
gunzipped (inl e) = err e
gunzipped (inr b) = ok b

module _ (c : Compressors) (nested : List ℕ → Option (Result (List Message))) where
  -- the messages of a compressed set; `none` is a call that has run out of depth
  unfoldable pub from_nested : Option (Result (List Message)) → Option Entry
  from_nested none = none
  from_nested (some (ok ms)) = some (more ms)
  from_nested (some (err e)) = some (refused e)
  from_nested (some panic) = some broken

  unfoldable pub decompressed : Option (Result (List ℕ)) → Option Entry
  unfolding from_nested
  decompressed none = none
  decompressed (some (ok b)) = from_nested (nested b)
  decompressed (some (err e)) = some (refused e)
  decompressed (some panic) = some broken

  -- behind the key and the value
  unfoldable pub with_values :
      ℕ → ℤ → ℕ → Step GoError Decoder (Option (List ℕ) × Option (List ℕ)) → Option Entry
  unfolding decompressed bytes_of gunzipped
  with_values compression offset crc (next (key, value) d) = elim d.err [
    | some e ↦ some (refused e)
    | none ↦
        if compression == 0
        then some (
            more (
              record {
                key = key;
                value = value;
                offset = offset;
                crc = crc;
                topic = [];
                partition = pos 0;
                tip_offset = pos 0;
              }
              ∷ []))
        else if compression == 1
        then decompressed (some (gunzipped (c.gunzip (bytes_of value))))
        else decompressed (snappy_decode c.unsnappy (bytes_of value) [])
  ]
  with_values compression offset crc (returns e) = some (refused e)
  with_values compression offset crc panics = some broken

  -- the switch on the compression
  unfoldable pub with_compression : ℕ → ℤ → ℕ → Decoder → Option Entry
  unfolding with_values
  with_compression compression offset crc d =
      if compression == 3
      then some nothing
      else with_values compression offset crc (key_and_value d)

  -- the magic byte, the attributes and, in version 1, the timestamp
  unfoldable pub attributes : Decoding ℤ
  attributes = do
    version ← decode_int8
    a ← decode_int8
    if eqb version (pos 1) then (do _ ← decode_int64; pure a) else pure a

  unfoldable pub with_attributes : ℤ → ℕ → Step GoError Decoder ℤ → Option Entry
  unfolding with_compression compression_of
  with_attributes offset crc (next a d) = with_compression (compression_of a) offset crc d
  with_attributes offset crc (returns e) = some (refused e)
  with_attributes offset crc panics = some broken

  -- behind the checksum
  unfoldable pub with_crc : List ℕ → ℤ → Step GoError Decoder ℕ → Option Entry
  unfolding with_attributes
  with_crc b offset (next crc d) =
      if leb (length b) 4
      then some (
          last (record {
            key = none;
            value = none;
            offset = offset;
            crc = crc;
            topic = [];
            partition = pos 0;
            tip_offset = pos 0;
          }))
      else if crc == checksum_ieee (drop 4 b)
      then with_attributes offset crc (attributes d)
      else some enough
  with_crc b offset (returns e) = some (refused e)
  with_crc b offset panics = some broken

  -- behind io.ReadFull(r, msgbuf)
  unfoldable pub with_message : ℤ → (List ℕ × Option GoError) × Reader → Option Entry × Reader
  unfolding with_crc
  with_message offset ((b, some e), r) = (some (short e), r)
  with_message offset ((b, none), r) =
      (with_crc b offset (decode_uint32 (new_decoder (record { bytes = b; ended = eof }))), r)

  unfoldable pub allocated : ℤ → ℕ → Option GoError → Reader → Option Entry × Reader
  unfolding with_message
  allocated offset n (some e) r = (some (refused e), r)
  allocated offset n none r = with_message offset (read_full n r)

  -- behind the size
  unfoldable pub with_size : ℤ → ℤ → Reader → Option Entry × Reader
  unfolding allocated
  with_size offset (negsuc n) r = (some enough, r)
  with_size offset (pos zero) r = (some enough, r)
  with_size offset (pos (suc n)) r = allocated offset (suc n) (alloc_parse_buf (pos (suc n))) r

  unfoldable pub after_size : ℤ → Step GoError Decoder ℤ → Option Entry × Reader
  unfolding with_size
  after_size offset (next size d) = elim d.err [
    | some e ↦ (some (short e), d.r)
    | none ↦ with_size offset size d.r
  ]
  after_size offset (returns e) = (some (refused e), record { bytes = []; ended = eof })
  after_size offset panics = (some broken, record { bytes = []; ended = eof })

  unfoldable pub after_offset : Step GoError Decoder ℤ → Option Entry × Reader
  unfolding after_size
  after_offset (next offset d) = elim d.err [
    | some e ↦ (some (short e), d.r)
    | none ↦ after_size offset (decode_int32 d)
  ]
  after_offset (returns e) = (some (refused e), record { bytes = []; ended = eof })
  after_offset panics = (some broken, record { bytes = []; ended = eof })

  -- one iteration of the loop, from the reader where the last one left it
  unfoldable pub entry : Reader → Option Entry × Reader
  unfolding after_offset
  entry r = after_offset (decode_int64 (new_decoder r))

  -- the end of an iteration; `again` is the rest of the loop
  unfoldable pub iterated :
      Option Entry × Reader
      → List Message
      → (Reader → List Message → Option (Result (List Message) × Reader))
      → Option (Result (List Message) × Reader)
  iterated (none, r) set again = none
  iterated (some (more ms), r) set again = again r (set ++ ms)
  iterated (some (last m), r) set again = some (ok (set ++ (m ∷ [])), r)
  iterated (some enough, r) set again = some (ok set, r)
  iterated (some nothing, r) set again = some (ok [], r)
  iterated (some (refused e), r) set again = some (err e, r)
  iterated (some broken, r) set again = some (panic, r)

  -- the loop, on fuel
  unfoldable pub entries : ℕ → Reader → List Message → Option (Result (List Message) × Reader)
  unfolding entry iterated
  entries zero r set = none
  entries (suc fuel) r set = iterated (entry r) set (entries fuel)

-- with conf.SimplifiedMessageSetParsing: the bytes are read, and there are no messages
skipped : (List ℕ × Option GoError) × Reader → Result (List Message) × Reader
skipped ((b, some e), r) = (err e, r)
skipped ((b, none), r) = (ok [], r)

simplified_set : ℕ → Option GoError → Reader → Result (List Message) × Reader
unfolding skipped
simplified_set n (some e) r = (err e, r)
simplified_set n none r = skipped (read_full n r)

-- the result alone, of a call on a reader of its own
unfoldable pub result : Option (Result (List Message) × Reader) → Option (Result (List Message))
result none = none
result (some (x, r)) = some x

-- readMessageSet. `depth` bounds how deep compressed sets are nested: `none` is a call that has run
-- out of it. The loop needs no bound of its own: each of its iterations reads something.
module _ (c : Compressors) (simplified : Bool) where
  unfoldable pub read_message_set : ℕ → Reader → ℤ → Option (Result (List Message) × Reader)
  unfolding simplified_set entries result
  read_message_set depth r (negsuc n) = some (err (message_size (negsuc n)), r)
  read_message_set zero r (pos size) = none
  read_message_set (suc depth) r (pos size) =
      if leb half32 size
      then some (err (message_size (pos size)), r)
      else if simplified
      then some (simplified_set size (alloc_parse_buf (pos size)) r)
      else entries c
          (λ b. result (
            read_message_set depth (record { bytes = b; ended = eof })
              (wrap half32 (pos (length b)))))
          (suc (length r.bytes)) r []
