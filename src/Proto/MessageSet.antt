-- ===== src/Proto/MessageSet.antt =====
-- Message sets: writeMessageSet of v2/proto/messages.go, with gzip and snappy as parameters.
pub mod Compressed
pub mod Reading
pub mod RoundTrip
pub mod Writing
use kafka_api.Common.{
  ℕ, ◌+◌, ◌-◌, Option, none, some, List, [], ◌∷◌, ◌⊎◌, if◌then◌else◌, length, take, drop,
}
use kafka_api.Common.Int.{ℤ, pos, half32, wrap}
use kafka_api.Common.Bytes.{put_uint}
use kafka_api.Common.Crc.{checksum_ieee}
use kafka_api.Flow.{
  Returned, ok, err, panic, Step, next, returns, panics, Act, pure, crash, ◌>>=◌, ◌>>◌,
}
use kafka_api.Proto.Errors.{GoError, eqb}
use kafka_api.Proto.Writer.{Writer, Buffer, buffer_writer}
use kafka_api.Proto.SliceWriter.{
  SliceWriter, slice_writer, new_slice_writer, reset, overwrite, written,
}
use kafka_api.Proto.Encoder.{
  Encoder, Encoding, encode_int8, encode_int32, encode_int64, encode_uint32, encode_bytes,
}
use kafka_api.Proto.Message.{Message}

-- compress/gzip and golang/snappy: what a writer makes of all that is written to it, and back
pub record Compressors : Type 0 where
  pub gzip : List ℕ → List ℕ
  pub gunzip : List ℕ → GoError ⊎ List ℕ
  pub snappy : List ℕ → List ℕ
  pub unsnappy : List ℕ → GoError ⊎ List ℕ

-- len(b), of a slice that may be nil
abbrev pub bytes_len : Option (List ℕ) → ℕ
bytes_len none = 0
bytes_len (some b) = length b

-- bsize
abbrev pub entry_size : Message → ℕ
entry_size m = 26 + bytes_len m.key + bytes_len m.value

-- the calls of the encoder for one message
unfoldable pub encode_entry : ℤ → Message → Encoding SliceWriter
encode_entry compression m = do
  encode_int64 m.offset
  encode_int32 (wrap half32 (pos (14 + bytes_len m.key + bytes_len m.value)))
  encode_uint32 0
  encode_int8 (pos 0)
  encode_int8 compression
  encode_bytes m.key
  encode_bytes m.value

-- binary.BigEndian.PutUint32(b.buf[crcoff:crcoff+4], crc32.ChecksumIEEE(b.buf[hsize:bsize]))
unfoldable pub put_crc : ℕ → SliceWriter → SliceWriter
unfolding overwrite
put_crc bsize b = record b {
  buf = overwrite 12 (put_uint 4 (checksum_ieee (take (bsize - 16) (drop 16 b.buf)))) b.buf;
}

module _ {W : Type 0} ⦃io : Writer W⦄ where
  -- `if n, err := w.Write(…); err != nil { return totalSize, err } else { totalSize += n }`, and
  -- then the other messages
  counted :
      ℕ
      → (ℕ × Option GoError) × W
      → (ℕ → Act GoError W (ℕ × Option GoError))
      → Step GoError W (ℕ × Option GoError)
  counted total ((n, some e), w) rest = next (total, some e) w
  counted total ((n, none), w) rest = rest (total + n) w

  -- behind the encoder's calls
  encoded :
      ℕ
      → ℕ
      → Step GoError (Encoder SliceWriter) Unit
      → (SliceWriter → ℕ → Act GoError W (ℕ × Option GoError))
      → Act GoError W (ℕ × Option GoError)
  unfolding counted put_crc
  encoded total bsize (next u e) rest w = elim e.err [
    | some x ↦ next (total, some x) w
    | none ↦ let b = put_crc bsize e.w in counted total (io.write w (written b)) (rest b)
  ]
  encoded total bsize (returns x) rest w = returns x
  encoded total bsize panics rest w = panics

  -- behind b.Reset
  ready :
      ℤ
      → Message
      → ℕ
      → Option GoError × SliceWriter
      → (SliceWriter → ℕ → Act GoError W (ℕ × Option GoError))
      → Act GoError W (ℕ × Option GoError)
  unfolding encoded
  ready compression m total (some e, b) rest = pure (0, some e)
  ready compression m total (none, b) rest =
      encoded total (entry_size m) (encode_entry compression m (record { w = b; err = none })) rest

  -- the loop over the messages
  unfoldable pub write_entries :
      ℤ → List Message → SliceWriter → ℕ → Act GoError W (ℕ × Option GoError)
  unfolding ready
  write_entries compression [] b total = pure (total, none)
  write_entries compression (m ∷ ms) b total =
      ready compression m total (reset (entry_size m) b) (write_entries compression ms)

-- messages[bytes_len(messages)-1].Offset
unfoldable pub last_offset : Message → List Message → ℤ
last_offset m [] = m.offset
last_offset m (n ∷ ns) = last_offset n ns

-- the message that stands for a compressed set
unfoldable pub packed : List ℕ → ℤ → Message
packed value offset = record {
  key = none;
  value = some value;
  offset = offset;
  crc = 0;
  topic = [];
  partition = pos 0;
  tip_offset = pos 0;
}

-- a set that was written to a bytes.Buffer, compressed
repacked :
    (List ℕ → List ℕ)
    → ℤ
    → Step GoError Buffer (ℕ × Option GoError)
    → Returned GoError (List Message)
unfolding packed
repacked pack offset (next (n, none) b) = ok (packed (pack b.bytes) offset ∷ [])
repacked pack offset (next (n, some e) b) = err e
repacked pack offset (returns e) = err e
repacked pack offset panics = panic

module _ (c : Compressors) where
  -- the switch on the compression
  unfoldable pub repack : ℤ → Message → List Message → Returned GoError (List Message)
  unfolding repacked
  repack compression m ms =
      let plain = write_entries (pos 0) (m ∷ ms) new_slice_writer 0 (record { bytes = [] }) in
      if eqb compression (pos 1)
      then repacked c.gzip (last_offset m ms) plain
      else if eqb compression (pos 2)
      then repacked c.snappy (last_offset m ms) plain
      else ok (m ∷ ms)

  module _ {W : Type 0} ⦃io : Writer W⦄ where
    write_repacked : ℤ → Returned GoError (List Message) → Act GoError W (ℕ × Option GoError)
    write_repacked compression (ok ms) = write_entries compression ms new_slice_writer 0
    write_repacked compression (err e) = pure (0, some e)
    write_repacked compression panic = crash

    -- writeMessageSet
    unfoldable pub write_message_set : ℤ → List Message → Act GoError W (ℕ × Option GoError)
    unfolding write_repacked
    write_message_set compression [] = pure (0, none)
    write_message_set compression (m ∷ ms) = write_repacked compression (repack compression m ms)
