-- ===== src/Proto/MessageSet/RoundTrip.antt =====
-- readMessageSet reads what writeMessageSet writes, up to an entry that is cut off or corrupted.
use kafka_api.Proto.MessageSet.Reading.{
  iterated, read_message_set, result, enough, with_values, entries, entry,
}
use kafka_api.Proto.MessageSet.Reading.Entries.{
  entry-corrupted, leb-false, Sound, entry-entry_image,
}
use kafka_api.Common.Int.{to_bits, wrap, ℤ, pos, half64, half32, InRange}
use kafka_api.Common.{
  ◌^◌, ℕ, zero, suc, ◌+◌, ◌<◌, ◌≡◌, ◌≢◌, refl, ap, ◌∙◌, Option, some, List, [], ◌∷◌, ◌++◌,
  append_assoc, append-nil, arith, length, take, length-append, All, false,
}
use kafka_api.Common.Bytes.{put_uint}
use kafka_api.Common.Crc.{checksum_ieee}
use kafka_api.Flow.{ok}
use kafka_api.Proto.Errors.{eof}
use kafka_api.Proto.Decoder.{Reader}
use kafka_api.Proto.Frame.{Result}
use kafka_api.Proto.Message.{Message}
use kafka_api.Proto.MessageSet.{Compressors}
use kafka_api.Proto.MessageSet.Reading.Cut.{entry-cut}
use kafka_api.Proto.MessageSet.Writing.{entry_image, entry_body, set_image, length-entry_image}

-- the message that is read: it has got a checksum, and the decoder does not know where it came from
abbrev pub received : Message → Message
received m = record m {
  crc = checksum_ieee (entry_body (pos 0) m);
  topic = [];
  partition = pos 0;
  tip_offset = pos 0;
}

abbrev pub all_received : List Message → List Message
all_received [] = []
all_received (m ∷ ms) = received m ∷ all_received ms

module _ (c : Compressors) (nested : List ℕ → Option (Result (List Message))) where
  -- bytes at which the loop stops
  abbrev pub Stops : List ℕ → Reader → Type 0
  Stops t behind = entry c nested (record { bytes = t; ended = eof }) ≡ (some enough, behind)

  pub entries-set_image :
      (fuel : ℕ) (ms : List Message) (t : List ℕ) (set : List Message) (behind : Reader)
      → Stops t behind
      → All Sound ms
      → length (set_image (pos 0) ms) < fuel
      → entries c nested fuel (record { bytes = set_image (pos 0) ms ++ t; ended = eof }) set
        ≡ some (ok (set ++ all_received ms), behind)
  unfolding entries iterated with_values
  entries-set_image zero ms t set behind stops sound h = absurd (omega arith)
  entries-set_image (suc fuel) [] t set behind stops sound h = rw (stops, append-nil set) refl
  entries-set_image (suc fuel) (m ∷ ms) t set behind stops (s, sound) h =
      let image = entry_image (pos 0) m in
      let rest = set_image (pos 0) ms in
      rw (append_assoc image rest t, entry-entry_image c nested 0 m (rest ++ t) eof (omega arith) s)
        (entries-set_image fuel ms t (set ++ (received m ∷ [])) behind stops sound
            (omega (arith, h, length-append image rest, length-entry_image (pos 0) m))
          ∙ ap (λ xs. some (ok xs, behind)) (append_assoc set (received m ∷ []) (all_received ms)))

module _ (c : Compressors) where
  -- the recursive call
  abbrev pub deeper : ℕ → List ℕ → Option (Result (List Message))
  deeper depth b = result (
      read_message_set c false depth (record { bytes = b; ended = eof })
        (wrap half32 (pos (length b))))

  pub read-stopped :
      (depth : ℕ) (ms : List Message) (t : List ℕ) (size : ℕ) (behind : Reader)
      → Stops c (deeper depth) t behind
      → All Sound ms
      → size < half32
      → read_message_set c false
          (suc depth)
          (record { bytes = set_image (pos 0) ms ++ t; ended = eof })
          (pos size)
        ≡ some (ok (all_received ms), behind)
  unfolding read_message_set
  read-stopped depth ms t size behind stops sound h =
      let b = set_image (pos 0) ms ++ t in
      rw (leb-false half32 size h) (
        entries-set_image c (deeper depth) (suc (length b)) ms t [] behind stops sound
          (omega (arith, length-append (set_image (pos 0) ms) t)))

  -- A set of uncompressed messages of version 0, of which the last one is cut off anywhere, as
  -- Kafka sends it, is read as the messages in front of it, and what was there of the last one is
  -- dropped; cut off in front of its first byte, it is a whole set. Conditions: offsets fit an
  -- int64, keys and values are nil or not empty, the sizes fit, simplified parsing is off, the
  -- stream ends with io.EOF behind the cut, and the size that is passed is less than 2 ^ 31.
  pub read_message_set-cut :
      (depth : ℕ) (ms : List Message) (m : Message) (n size : ℕ)
      → All Sound ms
      → Sound m
      → n < length (entry_image (pos 0) m)
      → size < half32
      → read_message_set c false
          (suc depth)
          (record { bytes = set_image (pos 0) ms ++ take n (entry_image (pos 0) m); ended = eof })
          (pos size)
        ≡ some (ok (all_received ms), record { bytes = []; ended = eof })
  read_message_set-cut depth ms m n size sound s h l =
      read-stopped depth ms (take n (entry_image (pos 0) m)) size _
        (entry-cut c (deeper depth) (pos 0) m n s h) sound l

  -- Behind uncompressed messages of version 0, a message whose checksum does not match ends the
  -- set: the messages in front of it are returned, and what follows it is not read. Conditions:
  -- offsets fit an int64, keys and values in front are nil or not empty, the sizes fit, simplified
  -- parsing is off, and the stream ends with io.EOF; the body of the message that does not match is
  -- not empty, its offset and its checksum are in the range of their types, and the sizes are less
  -- than 2 ^ 31.
  pub read_message_set-corrupted :
      (depth : ℕ) (ms : List Message) (offset : ℤ) (crc : ℕ) (body rest : List ℕ) (size : ℕ)
      → All Sound ms
      → InRange half64 offset
      → crc < 2 ^ 32
      → crc ≢ checksum_ieee body
      → 0 < length body
      → 4 + length body < half32
      → size < half32
      → read_message_set c false
          (suc depth)
          (record {
            bytes =
                set_image (pos 0) ms
                ++ (put_uint 8 (to_bits half64 offset)
                    ++ (put_uint 4 (to_bits half32 (pos (4 + length body)))
                        ++ ((put_uint 4 crc ++ body) ++ rest)));
            ended = eof;
          })
          (pos size)
        ≡ some (ok (all_received ms), record { bytes = rest; ended = eof })
  read_message_set-corrupted depth ms offset crc body rest size sound o l ne nonempty fit ls =
      read-stopped depth ms _ size _
        (entry-corrupted c (deeper depth) offset crc body rest o l ne nonempty fit) sound ls
