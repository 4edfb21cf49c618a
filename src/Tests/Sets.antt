-- ===== src/Tests/Sets.antt =====
-- A set of two messages, with stand-ins for gzip and snappy that put a byte in front.
use kafka_api.Common.{
  length-append, ◌+◌, ℕ, ◌≡◌, ◌≢◌, refl, Option, none, some, List, [], ◌∷◌, ◌++◌, ◌⊎◌, inl, inr,
  arith, length, take, false,
}
use kafka_api.Common.Crc.{checksum_ieee}
use kafka_api.Proto.MessageSet.Writing.{
  length-entry_image, set_image, entry_image, write_entries-set_image,
}
use kafka_api.Common.Int.{pos, half32, half64, to_bits}
use kafka_api.Common.Bytes.{put_uint}
use kafka_api.Flow.{ok, next}
use kafka_api.Proto.Errors.{GoError, other, eof}
use kafka_api.Proto.Writer.{buffer_laws, buffer_writer}
use kafka_api.Proto.SliceWriter.{new_slice_writer}
use kafka_api.Proto.Message.{Message}
use kafka_api.Proto.Snappy.{has_prefix}
use kafka_api.Proto.MessageSet.{Compressors, write_entries, write_message_set}
use kafka_api.Proto.MessageSet.Reading.{read_message_set}
use kafka_api.Proto.MessageSet.Reading.Entries.{Sound}
use kafka_api.Proto.MessageSet.Reading.Cut.{left_of}
use kafka_api.Proto.MessageSet.RoundTrip.{
  all_received, read_message_set-cut, read_message_set-corrupted,
}
use kafka_api.Proto.MessageSet.Compressed.{
  IsCompressors, buffer, write_message_set-read_message_set,
}

abbrev message : Option (List ℕ) → ℕ → Message
message key offset = record {
  key = key;
  value = some (b'v' ∷ []);
  offset = pos offset;
  crc = 0;
  topic = [];
  partition = pos 0;
  tip_offset = pos 0;
}

abbrev first : Message
first = message (some (b'k' ∷ [])) 5

abbrev second : Message
second = message none 6

cons≢nil : (x : ℕ) (xs : List ℕ) → x ∷ xs ≢ []
cons≢nil x xs e = ground (arith, e)

first-Sound : Sound first
first-Sound = record {
  fits = omega arith;
  offset = omega arith;
  key = (cons≢nil _ _, omega arith);
  value = (cons≢nil _ _, omega arith);
}

second-Sound : Sound second
second-Sound = record {
  fits = omega arith;
  offset = omega arith;
  key = tt;
  value = (cons≢nil _ _, omega arith);
}

unmarked : List ℕ → GoError ⊎ List ℕ
unmarked [] = inl (other 0)
unmarked (b ∷ bs) = inr bs

abbrev marking : Compressors
marking = record { gzip = λ b. 31 ∷ b; gunzip = unmarked; snappy = λ b. 1 ∷ b; unsnappy = unmarked }

marking-IsCompressors : IsCompressors marking
unfolding unmarked has_prefix
marking-IsCompressors = record {
  gunzip-gzip = λ b. refl;
  unsnappy-snappy = λ b. refl;
  no_magic = λ b. refl;
  gzip-nonempty = λ b. cons≢nil 31 b;
  snappy-nonempty = λ b. cons≢nil 1 b;
}

write_entries-set_image_example :
    write_entries (pos 0) (first ∷ second ∷ []) new_slice_writer 0 (buffer (9 ∷ []))
    ≡ next
        (0 + length (set_image (pos 0) (first ∷ second ∷ [])), none)
        (buffer (9 ∷ set_image (pos 0) (first ∷ second ∷ [])))
write_entries-set_image_example =
    write_entries-set_image buffer_laws (pos 0) (first ∷ second ∷ []) new_slice_writer 0
      (buffer (9 ∷ [])) (first-Sound.fits, (second-Sound.fits, tt)) tt

read_message_set-cut_example :
    read_message_set marking false 1
      (record {
        bytes = set_image (pos 0) (first ∷ []) ++ take 20 (entry_image (pos 0) second);
        ended = eof;
      })
      (pos 60)
    ≡ some (ok (all_received (first ∷ [])), record { bytes = []; ended = eof })
read_message_set-cut_example =
    read_message_set-cut marking 0 (first ∷ []) second 20 60 (first-Sound, tt) second-Sound
      (omega (arith, length-entry_image (pos 0) second)) (omega arith)

abbrev two_zeros : List ℕ
two_zeros = 0 ∷ 0 ∷ []

zeros_sum : checksum_ieee two_zeros ≡ 1104745215
unfolding checksum_ieee
zeros_sum = refl

zeros-differ : 7 ≢ checksum_ieee two_zeros
zeros-differ e = absurd (omega (arith, e, zeros_sum))

read_message_set-corrupted_example :
    read_message_set marking false 1
      (record {
        bytes =
            set_image (pos 0) (first ∷ [])
            ++ (put_uint 8 (to_bits half64 (pos 6))
                ++ (put_uint 4 (to_bits half32 (pos (4 + length two_zeros)))
                    ++ ((put_uint 4 7 ++ two_zeros) ++ (9 ∷ []))));
        ended = eof;
      })
      (pos 60)
    ≡ some (ok (all_received (first ∷ [])), record { bytes = 9 ∷ []; ended = eof })
read_message_set-corrupted_example =
    read_message_set-corrupted marking 0 (first ∷ []) (pos 6) 7 two_zeros (9 ∷ []) 60
      (first-Sound, tt) (omega arith) (omega arith) zeros-differ (omega arith) (omega arith)
      (omega arith)

both-length : length (set_image (pos 0) (first ∷ second ∷ [])) ≡ 55
both-length = omega (
  arith,
  length-append (entry_image (pos 0) first) (set_image (pos 0) (second ∷ [])),
  length-append (entry_image (pos 0) second) [],
  length-entry_image (pos 0) first,
  length-entry_image (pos 0) second,
)

write_message_set-read_message_set_example :
    (b : List ℕ) × (write_message_set marking (pos 2) (first ∷ second ∷ []) (buffer [])
      ≡ next (length b, none) (buffer b))
    × (read_message_set marking false 2 (left_of b) (pos 100)
        ≡ some (ok (all_received (first ∷ second ∷ [])), left_of []))
write_message_set-read_message_set_example =
    write_message_set-read_message_set marking 2 0 100 first (second ∷ []) marking-IsCompressors
      (omega arith) (first-Sound, (second-Sound, tt)) (omega (arith, both-length))
      (omega (arith, both-length)) (omega arith)
