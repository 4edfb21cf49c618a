-- ===== src/Proto/MessageSet/Compressed.antt =====
-- writeMessageSet and readMessageSet with each compression, together.
use kafka_api.Proto.Snappy.{plain, snappy_decode, has_prefix, snappy_java_magic}
use kafka_api.Proto.MessageSet.Reading.{
  gunzipped, bytes_of, from_nested, decompressed, more, with_values, iterated, entries,
  read_message_set, result,
}
use kafka_api.Proto.MessageSet.{
  write_repacked, repacked, repack, write_entries, checksum_ieee, Compressors, write_message_set,
  packed, last_offset,
}
use kafka_api.Proto.MessageSet.Writing.{
  length-entry_image, entry_body, entry_image, set_image, write_entries-set_image, Fits,
}
use kafka_api.Common.{
  length-append, ℕ, zero, suc, ◌+◌, ◌<◌, ◌≡◌, ◌≢◌, refl, ap, ◌∙◌, subst, none, some, List, [], ◌∷◌,
  ◌++◌, append-nil, arith, length, All, false, inr,
}
use kafka_api.Proto.MessageSet.Reading.Entries.{leb-false, Sound, entry-entry_image}
use kafka_api.Proto.Decoder.{new_decoder}
use kafka_api.Common.Int.{ℤ, pos, half64, half32, InRange, wrap-pos}
use kafka_api.Flow.{ok, next}
use kafka_api.Proto.Errors.{eof}
use kafka_api.Proto.Writer.{Buffer, buffer_writer, buffer_laws}
use kafka_api.Proto.SliceWriter.{new_slice_writer}
use kafka_api.Proto.Message.{Message}
use kafka_api.Proto.MessageSet.Reading.Cut.{left_of, entry-short}
use kafka_api.Proto.MessageSet.RoundTrip.{all_received, entries-set_image, read-stopped, deeper}

-- What the compressions promise. A block of snappy that starts with the magic bytes of snappy-java
-- would begin with a copy of what there is not yet.
pub record IsCompressors (c : Compressors) : Type 0 where
  pub gunzip-gzip : (b : List ℕ) → c.gunzip (c.gzip b) ≡ inr b
  pub unsnappy-snappy : (b : List ℕ) → c.unsnappy (c.snappy b) ≡ inr b
  pub no_magic : (b : List ℕ) → has_prefix (c.snappy b) snappy_java_magic ≡ false
  pub gzip-nonempty : (b : List ℕ) → c.gzip b ≢ []
  pub snappy-nonempty : (b : List ℕ) → c.snappy b ≢ []

-- the bytes that a set becomes with a compression
abbrev pub pack : Compressors → ℕ → List ℕ → List ℕ
pack c zero = λ b. b
pack c (suc zero) = c.gzip
pack c (suc (suc k)) = c.snappy

abbrev pub buffer : List ℕ → Buffer
buffer b = record { bytes = b }

All-Fits : (ms : List Message) → All Sound ms → All Fits ms
All-Fits [] s = tt
All-Fits (m ∷ ms) (s, ss) = (s.fits, All-Fits ms ss)

last_offset-InRange :
    (m : Message) (ms : List Message) → All Sound (m ∷ ms) → InRange half64 (last_offset m ms)
unfolding last_offset
last_offset-InRange m [] (s, ss) = s.offset
last_offset-InRange m (n ∷ ns) (s, ss) = last_offset-InRange n ns ss

packed-Sound :
    (b : List ℕ) (offset : ℤ)
    → b ≢ []
    → length b + 1026 < half32
    → InRange half64 offset
    → Sound (packed b offset)
unfolding packed
packed-Sound b offset ne h r = record {
  fits = omega arith;
  offset = r;
  key = tt;
  value = (ne, omega arith);
}

module _ (c : Compressors) where
  pack-nonempty : (k : ℕ) (b : List ℕ) → IsCompressors c → 0 < k → pack c k b ≢ []
  pack-nonempty zero b laws h = absurd (omega arith)
  pack-nonempty (suc zero) b laws h = laws.gzip-nonempty b
  pack-nonempty (suc (suc k)) b laws h = laws.snappy-nonempty b

  -- an entry that stands for other messages
  read-packed :
      (k depth : ℕ) (p : Message) (ms : List Message) (size : ℕ)
      → k < 3
      → Sound p
      → size < half32
      → with_values c
          (deeper c depth)
          k
          p.offset
          (checksum_ieee (entry_body (pos k) p))
          (next (p.key, p.value) (new_decoder (left_of [])))
        ≡ some (more ms)
      → read_message_set c false (suc depth) (left_of (entry_image (pos k) p ++ [])) (pos size)
        ≡ some (ok ms, left_of [])
  unfolding read_message_set entries iterated
  read-packed k depth p ms size h s l e =
      let b = entry_image (pos k) p ++ [] in
      let stop =
        entries-set_image c (deeper c depth) (length b) [] [] ms (left_of [])
          (entry-short c (deeper c depth) [] (omega arith)) tt
          (omega (arith, length-append (entry_image (pos k) p) [], length-entry_image (pos k) p)) in
      rw (leb-false half32 size l, entry-entry_image c (deeper c depth) k p [] eof h s, e)
        (stop ∙ ap (λ xs. some (ok xs, left_of [])) (append-nil ms))

  -- a set that is not compressed
  read-plain :
      (depth size : ℕ) (ms : List Message)
      → All Sound ms
      → size < half32
      → read_message_set c false (suc depth) (left_of (set_image (pos 0) ms)) (pos size)
        ≡ some (ok (all_received ms), left_of [])
  read-plain depth size ms s h =
      subst
        (λ b.
          read_message_set c false (suc depth) (left_of b) (pos size)
          ≡ some (ok (all_received ms), left_of []))
        (append-nil (set_image (pos 0) ms))
        (read-stopped c depth ms [] size (left_of [])
          (entry-short c (deeper c depth) [] (omega arith)) s h)

  read-inner :
      (depth : ℕ) (ms : List Message)
      → All Sound ms
      → length (set_image (pos 0) ms) < half32
      → deeper c (suc depth) (set_image (pos 0) ms) ≡ some (ok (all_received ms))
  unfolding result
  read-inner depth ms s h =
      let n = length (set_image (pos 0) ms) in
      rw (wrap-pos half32 n h, read-plain depth n ms s h) refl

  -- what a compression is undone to
  values-pack :
      (k depth : ℕ) (m : Message) (ms : List Message) (offset : ℤ) (crc : ℕ)
      → IsCompressors c
      → 0 < k
      → k < 3
      → All Sound (m ∷ ms)
      → length (set_image (pos 0) (m ∷ ms)) < half32
      → with_values c
          (deeper c (suc depth))
          k
          offset
          crc
          (next (none, some (pack c k (set_image (pos 0) (m ∷ ms)))) (new_decoder (left_of [])))
        ≡ some (more (all_received (m ∷ ms)))
  unfolding with_values decompressed from_nested bytes_of gunzipped snappy_decode plain
  values-pack zero depth m ms offset crc laws p h s l = absurd (omega arith)
  values-pack (suc zero) depth m ms offset crc laws p h s l =
      rw (laws.gunzip-gzip (set_image (pos 0) (m ∷ ms)), read-inner depth (m ∷ ms) s l) refl
  values-pack (suc (suc zero)) depth m ms offset crc laws p h s l =
      let b = set_image (pos 0) (m ∷ ms) in
      rw (laws.no_magic b, laws.unsnappy-snappy b, read-inner depth (m ∷ ms) s l) refl
  values-pack (suc (suc (suc k))) depth m ms offset crc laws p h s l = absurd (omega arith)

  -- what is written of a set
  written_set : ℕ → Message → List Message → List ℕ
  written_set zero m ms = set_image (pos 0) (m ∷ ms)
  written_set (suc k) m ms =
      set_image (pos (suc k))
        (packed (pack c (suc k) (set_image (pos 0) (m ∷ ms))) (last_offset m ms) ∷ [])

  write-plain :
      (m : Message) (ms : List Message)
      → All Sound (m ∷ ms)
      → write_entries (pos 0) (m ∷ ms) new_slice_writer 0 (buffer [])
        ≡ next (length (set_image (pos 0) (m ∷ ms)), none) (buffer (set_image (pos 0) (m ∷ ms)))
  write-plain m ms s =
      let n = length (set_image (pos 0) (m ∷ ms)) in
      let e : 0 + n ≡ n = omega arith in
      subst
        (λ k.
          write_entries (pos 0) (m ∷ ms) new_slice_writer 0 (buffer [])
          ≡ next (k, none) (buffer (set_image (pos 0) (m ∷ ms))))
        e
        (write_entries-set_image buffer_laws (pos 0) (m ∷ ms) new_slice_writer 0 (buffer [])
          (All-Fits (m ∷ ms) s) tt)

  write_packed :
      (k : ℕ) (p : Message)
      → Sound p
      → write_entries (pos k) (p ∷ []) new_slice_writer 0 (buffer [])
        ≡ next (length (set_image (pos k) (p ∷ [])), none) (buffer (set_image (pos k) (p ∷ [])))
  write_packed k p s =
      let n = length (set_image (pos k) (p ∷ [])) in
      let e : 0 + n ≡ n = omega arith in
      subst
        (λ j.
          write_entries (pos k) (p ∷ []) new_slice_writer 0 (buffer [])
          ≡ next (j, none) (buffer (set_image (pos k) (p ∷ []))))
        e
        (write_entries-set_image buffer_laws (pos k) (p ∷ []) new_slice_writer 0 (buffer [])
          (s.fits, tt) tt)

  write_message_set-written :
      (k : ℕ) (m : Message) (ms : List Message)
      → IsCompressors c
      → k < 3
      → All Sound (m ∷ ms)
      → length (pack c k (set_image (pos 0) (m ∷ ms))) + 1026 < half32
      → write_message_set c (pos k) (m ∷ ms) (buffer [])
        ≡ next (length (written_set k m ms), none) (buffer (written_set k m ms))
  unfolding write_message_set repack repacked write_repacked written_set
  write_message_set-written zero m ms laws h s l = rw (write-plain m ms s) refl
  write_message_set-written (suc zero) m ms laws h s l =
      let b = set_image (pos 0) (m ∷ ms) in
      rw (write-plain m ms s) (
        write_packed 1 (packed (c.gzip b) (last_offset m ms)) (
          packed-Sound (c.gzip b) (last_offset m ms) (laws.gzip-nonempty b) l
            (last_offset-InRange m ms s)))
  write_message_set-written (suc (suc zero)) m ms laws h s l =
      let b = set_image (pos 0) (m ∷ ms) in
      rw (write-plain m ms s) (
        write_packed 2 (packed (c.snappy b) (last_offset m ms)) (
          packed-Sound (c.snappy b) (last_offset m ms) (laws.snappy-nonempty b) l
            (last_offset-InRange m ms s)))
  write_message_set-written (suc (suc (suc k))) m ms laws h s l = absurd (omega arith)

  read_message_set-written :
      (k depth size : ℕ) (m : Message) (ms : List Message)
      → IsCompressors c
      → k < 3
      → All Sound (m ∷ ms)
      → length (set_image (pos 0) (m ∷ ms)) < half32
      → length (pack c k (set_image (pos 0) (m ∷ ms))) + 1026 < half32
      → size < half32
      → read_message_set c false (suc (suc depth)) (left_of (written_set k m ms)) (pos size)
        ≡ some (ok (all_received (m ∷ ms)), left_of [])
  unfolding written_set packed
  read_message_set-written zero depth size m ms laws h s l l' ls =
      read-plain (suc depth) size (m ∷ ms) s ls
  read_message_set-written (suc k) depth size m ms laws h s l l' ls =
      let b = pack c (suc k) (set_image (pos 0) (m ∷ ms)) in
      let p = packed b (last_offset m ms) in
      read-packed (suc k) (suc depth) p (all_received (m ∷ ms)) size h
        (packed-Sound b (last_offset m ms)
          (pack-nonempty (suc k) (set_image (pos 0) (m ∷ ms)) laws (omega arith)) l'
          (last_offset-InRange m ms s))
        ls
        (values-pack (suc k) depth m ms (last_offset m ms)
          (checksum_ieee (entry_body (pos (suc k)) p)) laws (omega arith) h s l)

  -- With each compression, and with none, the messages that are written are read again, in their
  -- order and with their offsets, keys and values; what is written is as long as is returned. The
  -- conditions are that keys and values are nil or not empty, and that the sizes fit.
  pub write_message_set-read_message_set :
      (k depth size : ℕ) (m : Message) (ms : List Message)
      → IsCompressors c
      → k < 3
      → All Sound (m ∷ ms)
      → length (set_image (pos 0) (m ∷ ms)) < half32
      → length (pack c k (set_image (pos 0) (m ∷ ms))) + 1026 < half32
      → size < half32
      → (b : List ℕ) × (write_message_set c (pos k) (m ∷ ms) (buffer [])
          ≡ next (length b, none) (buffer b))
        × (read_message_set c false (suc (suc depth)) (left_of b) (pos size)
            ≡ some (ok (all_received (m ∷ ms)), left_of []))
  write_message_set-read_message_set k depth size m ms laws h s l l' ls = (
    written_set k m ms,
    write_message_set-written k m ms laws h s l',
    read_message_set-written k depth size m ms laws h s l l' ls,
  )
