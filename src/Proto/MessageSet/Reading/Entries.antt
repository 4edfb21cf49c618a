-- ===== src/Proto/MessageSet/Reading/Entries.antt =====
-- What the loop of readMessageSet makes of an entry as writeMessageSet writes it, and of one that
-- is cut off.
use kafka_api.Common.{
  ==-false, ◌≢◌, ◌^◌, ◌==◌, drop-append, ℕ, zero, suc, ◌+◌, ◌<◌, ◌≡◌, refl, subst, Option, none,
  some, List, [], ◌++◌, append_assoc, append-nil, arith, length, drop, length-append, ==_refl,
  false, leb,
}
use kafka_api.Proto.MessageSet.Reading.{
  enough, after_size, with_message, after_offset, allocated, entry, with_size, with_values,
  compression_of, with_compression, with_attributes, attributes, key_and_value, with_crc, Result,
}
use kafka_api.Proto.Codec.Prims.{
  read_full-append, Reads-int32, Reads-int64, Reads-uint32, Reads-int8,
}
use kafka_api.Proto.Decoder.{
  decode_int32, decode_uint32, decode_bytes, decode_int8, Reader, new_decoder, read_full,
}
use kafka_api.Common.Int.{wrap-pos, ℤ, pos, half8, half32, half64, to_bits, wrap, InRange}
use kafka_api.Proto.Codec.{Reads-pure, Reads-map, Reads-bind, Reads}
use kafka_api.Common.Bytes.{put_uint, length-put_uint}
use kafka_api.Common.Crc.{checksum_ieee, checksum_ieee-lt}
use kafka_api.Flow.{next}
use kafka_api.Proto.Errors.{GoError, eof}
use kafka_api.Proto.Writer.{alloc_parse_buf-none}
use kafka_api.Proto.Codec.Fields.{bytes_image, IsBytes, Reads-bytes}
use kafka_api.Proto.Message.{Message}
use kafka_api.Proto.MessageSet.{Compressors, bytes_len}
use kafka_api.Proto.MessageSet.Writing.{
  entry_image, entry_head, entry_body, Fits, length-entry_body,
}

-- a message that an entry can hold: what is empty has to be nil
pub record Sound (m : Message) : Type 0 where
  pub fits : Fits m
  pub offset : InRange half64 m.offset
  pub key : IsBytes m.key
  pub value : IsBytes m.value

-- behind the offset and the size
abbrev pub summed_body : ℤ → Message → List ℕ
summed_body k m = put_uint 4 (checksum_ieee (entry_body k m)) ++ entry_body k m

pub length-summed_body :
    (k : ℤ) (m : Message) → length (summed_body k m) ≡ 14 + bytes_len m.key + bytes_len m.value
length-summed_body k m = omega (
  arith,
  length-append (put_uint 4 (checksum_ieee (entry_body k m))) (entry_body k m),
  length-put_uint 4 (checksum_ieee (entry_body k m)),
  length-entry_body k m,
)

pub leb-false : (a b : ℕ) → b < a → leb a b ≡ false
leb-false a b h = ground arith

one_of_three : (k : ℕ) → k < 3 → (k == 3) ≡ false
one_of_three k h = ground arith

compression_of-pos : (k : ℕ) → k < 3 → compression_of (pos k) ≡ k
unfolding compression_of to_bits
compression_of-pos k h = omega arith

-- behind the checksum
behind_crc :
    (b : List ℕ) (rest : List ℕ) (e : GoError)
    → decode_uint32
        (new_decoder (record { bytes = put_uint 4 (checksum_ieee b) ++ rest; ended = e }))
      ≡ next (checksum_ieee b) (new_decoder (record { bytes = rest; ended = e }))
behind_crc b rest e = Reads-uint32 (checksum_ieee b) (checksum_ieee-lt b) rest e

module _ (c : Compressors) (nested : List ℕ → Option (Result (List Message))) where
  Reads-attributes :
      (k : ℕ)
      → k < 3
      → Reads
          (attributes c nested)
          (put_uint 1 (to_bits half8 (pos 0)) ++ put_uint 1 (to_bits half8 (pos k)))
          (pos k)
  unfolding attributes
  Reads-attributes k h =
      Reads-bind decode_int8 _ _ (put_uint 1 (to_bits half8 (pos k)))
        (Reads-int8 (pos 0) (omega arith))
        (rw (← append-nil (put_uint 1 (to_bits half8 (pos k))))
          (Reads-bind decode_int8 _ _ [] (Reads-int8 (pos k) (omega arith)) (Reads-pure (pos k))))

  Reads-key_and_value :
      (m : Message)
      → Sound m
      → Reads key_and_value (bytes_image m.key ++ bytes_image m.value) (m.key, m.value)
  unfolding key_and_value
  Reads-key_and_value m s =
      Reads-bind decode_bytes _ _ (bytes_image m.value) (Reads-bytes m.key s.key) (
        Reads-map decode_bytes (λ v. (m.key, v)) (bytes_image m.value)
          (Reads-bytes m.value s.value))

  -- the whole body
  summed-with_crc :
      (k : ℕ) (m : Message)
      → k < 3
      → Sound m
      → with_crc c nested
          (summed_body (pos k) m)
          m.offset
          (decode_uint32 (new_decoder (record { bytes = summed_body (pos k) m; ended = eof })))
        ≡ with_values c nested k m.offset
            (checksum_ieee (entry_body (pos k) m))
            (next (m.key, m.value) (new_decoder (record { bytes = []; ended = eof })))
  unfolding with_crc with_attributes with_compression compression_of
  summed-with_crc k m h s =
      let body = entry_body (pos k) m in
      let front = put_uint 1 (to_bits half8 (pos 0)) ++ put_uint 1 (to_bits half8 (pos k)) in
      let fields = bytes_image m.key ++ bytes_image m.value in
      let long : leb (length (summed_body (pos k) m)) 4 ≡ false =
        leb-false (length (summed_body (pos k) m)) 4
          (omega (arith, length-summed_body (pos k) m)) in
      let behind : drop 4 (summed_body (pos k) m) ≡ body =
        subst (λ n. drop n (summed_body (pos k) m) ≡ body) (length-put_uint 4 (checksum_ieee body))
          (drop-append (put_uint 4 (checksum_ieee body)) body) in
      let grouped : front ++ fields ≡ body =
        append_assoc (put_uint 1 (to_bits half8 (pos 0))) (put_uint 1 (to_bits half8 (pos k)))
          fields in
      let at_attributes : attributes c nested (new_decoder (record { bytes = body; ended = eof }))
          ≡ next (pos k) (new_decoder (record { bytes = fields; ended = eof })) =
        rw (← grouped) (Reads-attributes k h fields eof) in
      let at_fields : key_and_value (new_decoder (record { bytes = fields; ended = eof }))
          ≡ next (m.key, m.value) (new_decoder (record { bytes = []; ended = eof })) =
        subst
          (λ b.
            key_and_value (new_decoder (record { bytes = b; ended = eof }))
            ≡ next (m.key, m.value) (new_decoder (record { bytes = []; ended = eof })))
          (append-nil fields) (Reads-key_and_value m s [] eof) in
      rw
        (
          behind_crc body body eof,
          long,
          behind,
          ==_refl (checksum_ieee body),
          at_attributes,
          compression_of-pos k h,
          one_of_three k h,
          at_fields,
        )
        refl

  pub with_size-positive :
      (offset : ℤ) (n : ℕ) (r : Reader)
      → 0 < n
      → n < half32
      → with_size c nested offset (pos n) r ≡ with_message c nested offset (read_full n r)
  unfolding with_size allocated
  with_size-positive offset zero r h l = absurd (omega arith)
  with_size-positive offset (suc n) r h l = rw (alloc_parse_buf-none (suc n) l) refl

  -- The loop reads an entry that was written with its values, and the reader stands behind it.
  pub entry-entry_image :
      (k : ℕ) (m : Message) (rest : List ℕ) (e : GoError)
      → k < 3
      → Sound m
      → entry c nested (record { bytes = entry_image (pos k) m ++ rest; ended = e }) ≡ (
        with_values c nested k m.offset
            (checksum_ieee (entry_body (pos k) m))
            (next (m.key, m.value) (new_decoder (record { bytes = []; ended = eof }))),
        record { bytes = rest; ended = e },
      )
  unfolding entry after_offset after_size with_message
  entry-entry_image k m rest e h s =
      let body = summed_body (pos k) m in
      let size = 14 + bytes_len m.key + bytes_len m.value in
      let eight = put_uint 8 (to_bits half64 m.offset) in
      let four = put_uint 4 (to_bits half32 (wrap half32 (pos size))) in
      let fit : size < half32 = omega (arith, s.fits) in
      let wrapped : wrap half32 (pos size) ≡ pos size = wrap-pos half32 size fit in
      let grouped : entry_image (pos k) m ++ rest ≡ eight ++ (four ++ (body ++ rest)) =
        rw (append_assoc (entry_head m) body rest, append_assoc eight four (body ++ rest)) refl in
      let at_offset = Reads-int64 m.offset s.offset (four ++ (body ++ rest)) e in
      let at_size : decode_int32
            (new_decoder (record { bytes = four ++ (body ++ rest); ended = e }))
          ≡ next (pos size) (new_decoder (record { bytes = body ++ rest; ended = e })) =
        rw wrapped (Reads-int32 (pos size) fit (body ++ rest) e) in
      let at_body : read_full size (record { bytes = body ++ rest; ended = e })
          ≡ ((body, none), record { bytes = rest; ended = e }) =
        subst
          (λ n.
            read_full n (record { bytes = body ++ rest; ended = e })
            ≡ ((body, none), record { bytes = rest; ended = e }))
          (length-summed_body (pos k) m) (read_full-append body rest e) in
      rw
        (
          grouped,
          at_offset,
          at_size,
          with_size-positive m.offset size (record { bytes = body ++ rest; ended = e })
              (omega arith) fit,
          at_body,
          summed-with_crc k m h s,
        )
        refl

  -- The loop stops at an entry whose checksum is not that of what stands behind it.
  pub entry-corrupted :
      (offset : ℤ) (crc : ℕ) (body rest : List ℕ)
      → InRange half64 offset
      → crc < 2 ^ 32
      → crc ≢ checksum_ieee body
      → 0 < length body
      → 4 + length body < half32
      → entry c nested (record {
        bytes =
            put_uint 8 (to_bits half64 offset)
            ++ (put_uint 4 (to_bits half32 (pos (4 + length body)))
                ++ ((put_uint 4 crc ++ body) ++ rest));
        ended = eof;
      })
        ≡ (some enough, record { bytes = rest; ended = eof })
  unfolding entry after_offset after_size with_message with_crc
  entry-corrupted offset crc body rest o l ne nonempty fit =
      let whole = put_uint 4 crc ++ body in
      let size = 4 + length body in
      let sized : length whole ≡ size =
        omega (arith, length-append (put_uint 4 crc) body, length-put_uint 4 crc) in
      let four = put_uint 4 (to_bits half32 (pos size)) in
      let at_offset = Reads-int64 offset o (four ++ (whole ++ rest)) eof in
      let at_size = Reads-int32 (pos size) fit (whole ++ rest) eof in
      let at_body : read_full size (record { bytes = whole ++ rest; ended = eof })
          ≡ ((whole, none), record { bytes = rest; ended = eof }) =
        subst
          (λ n.
            read_full n (record { bytes = whole ++ rest; ended = eof })
            ≡ ((whole, none), record { bytes = rest; ended = eof }))
          sized (read_full-append whole rest eof) in
      let behind : drop 4 whole ≡ body =
        subst (λ n. drop n whole ≡ body) (length-put_uint 4 crc)
          (drop-append (put_uint 4 crc) body) in
      rw
        (
          at_offset,
          at_size,
          with_size-positive offset size (record { bytes = whole ++ rest; ended = eof })
              (omega arith) fit,
          at_body,
          Reads-uint32 crc l body eof,
          leb-false (length whole) 4 (omega (arith, sized)),
          behind,
          ==-false crc (checksum_ieee body) ne,
        )
        refl
