-- ===== src/Proto/MessageSet/Writing.antt =====
-- What writeMessageSet writes of an uncompressed set: the entries one after the other, each with the
-- checksum of what stands behind it.
use kafka_api.Proto.SliceWriter.{
  reset-Room, Room, SliceWriter, slice_writer, slice_laws, put_slice, overwrite, overwrite-start,
  overwrite-middle, written,
}
use kafka_api.Flow.{pure, next}
use kafka_api.Proto.Writer.{IsWriter, buffer_writer}
use kafka_api.Proto.MessageSet.{
  Writer, bytes_len, entry_size, encode_entry, put_crc, write_entries, ready, encoded, counted,
}
use kafka_api.Proto.Encoder.{len32}
use kafka_api.Common.{
  ℕ, ◌+◌, ◌-◌, ◌<◌, ◌≡◌, refl, sym, ◌∙◌, subst, Option, none, some, List, [], ◌∷◌, ◌++◌,
  append_assoc, All, arith, length, take, drop, length-append, take-append, drop-append,
}
use kafka_api.Common.Int.{ℤ, pos, half8, half32, half64, to_bits, wrap}
use kafka_api.Common.Bytes.{put_uint, length-put_uint}
use kafka_api.Common.Crc.{checksum_ieee}
use kafka_api.Proto.Codec.{Writes, Writes-then}
use kafka_api.Proto.Codec.Prims.{Writes-int8, Writes-int32, Writes-int64, Writes-uint32}
use kafka_api.Proto.Codec.Fields.{bytes_image, Writes-bytes}
use kafka_api.Proto.Message.{Message}

-- what the checksum is of: the magic byte, the compression, the key and the value
abbrev pub entry_body : ℤ → Message → List ℕ
entry_body compression m =
    put_uint 1 (to_bits half8 (pos 0))
    ++ (put_uint 1 (to_bits half8 compression) ++ (bytes_image m.key ++ bytes_image m.value))

-- the offset and the size
abbrev pub entry_head : Message → List ℕ
entry_head m =
    put_uint 8 (to_bits half64 m.offset)
    ++ put_uint 4 (to_bits half32 (wrap half32 (pos (14 + bytes_len m.key + bytes_len m.value))))

abbrev pub entry_image : ℤ → Message → List ℕ
entry_image compression m =
    entry_head m
    ++ (put_uint 4 (checksum_ieee (entry_body compression m)) ++ entry_body compression m)

abbrev pub set_image : ℤ → List Message → List ℕ
set_image compression [] = []
set_image compression (m ∷ ms) = entry_image compression m ++ set_image compression ms

-- a message of a size for which a buffer can be made
abbrev pub Fits : Message → Type 0
Fits m = entry_size m + 1000 < half32

length-bytes_image : (o : Option (List ℕ)) → length (bytes_image o) ≡ 4 + bytes_len o
length-bytes_image none = length-put_uint 4 _
length-bytes_image (some b) =
    omega (arith, length-append (put_uint 4 (len32 b)) b, length-put_uint 4 (len32 b))

pub length-entry_body :
    (compression : ℤ) (m : Message)
    → length (entry_body compression m) ≡ 10 + bytes_len m.key + bytes_len m.value
length-entry_body compression m = omega (
  arith,
  length-append (put_uint 1 (to_bits half8 (pos 0)))
      (put_uint 1 (to_bits half8 compression) ++ (bytes_image m.key ++ bytes_image m.value)),
  length-append (put_uint 1 (to_bits half8 compression)) (bytes_image m.key ++ bytes_image m.value),
  length-append (bytes_image m.key) (bytes_image m.value),
  length-bytes_image m.key,
  length-bytes_image m.value,
  length-put_uint 1 (to_bits half8 (pos 0)),
  length-put_uint 1 (to_bits half8 compression),
)

pub length-entry_head : (m : Message) → length (entry_head m) ≡ 12
length-entry_head m = omega (
  arith,
  length-append (put_uint 8 (to_bits half64 m.offset))
      (put_uint 4 (to_bits half32 (wrap half32 (pos (14 + bytes_len m.key + bytes_len m.value))))),
  length-put_uint 8 (to_bits half64 m.offset),
  length-put_uint 4 (to_bits half32 (wrap half32 (pos (14 + bytes_len m.key + bytes_len m.value)))),
)

-- with a placeholder for the checksum
abbrev unsummed : ℤ → Message → List ℕ
unsummed compression m = entry_head m ++ (put_uint 4 0 ++ entry_body compression m)

Writes-entry :
    (compression : ℤ) (m : Message)
    → Writes slice_laws (encode_entry compression m) (unsummed compression m)
unfolding encode_entry
Writes-entry compression m =
    let l = slice_laws in
    subst (Writes l (encode_entry compression m))
      (sym (append_assoc (put_uint 8 (to_bits half64 m.offset)) _ _))
      (Writes-then l _ _ _ _ (Writes-int64 l m.offset) (
        Writes-then l _ _ _ _
          (Writes-int32 l (wrap half32 (pos (14 + bytes_len m.key + bytes_len m.value))))
          (Writes-then l _ _ _ _ (Writes-uint32 l 0) (
            Writes-then l _ _ _ _ (Writes-int8 l (pos 0)) (
              Writes-then l _ _ _ _ (Writes-int8 l compression)
                (Writes-then l _ _ _ _ (Writes-bytes l m.key) (Writes-bytes l m.value)))))))

length-unsummed : (compression : ℤ) (m : Message) → length (unsummed compression m) ≡ entry_size m
length-unsummed compression m = omega (
  arith,
  length-append (entry_head m) (put_uint 4 0 ++ entry_body compression m),
  length-append (put_uint 4 0) (entry_body compression m),
  length-entry_head m,
  length-put_uint 4 0,
  length-entry_body compression m,
)

pub length-entry_image :
    (compression : ℤ) (m : Message) → length (entry_image compression m) ≡ entry_size m
length-entry_image compression m =
    let crc = put_uint 4 (checksum_ieee (entry_body compression m)) in
    omega (
      arith,
      length-append (entry_head m) (crc ++ entry_body compression m),
      length-append crc (entry_body compression m),
      length-entry_head m,
      length-put_uint 4 (checksum_ieee (entry_body compression m)),
      length-entry_body compression m,
    )

take_exactly : (n : ℕ) (a b : List ℕ) → length a ≡ n → take n (a ++ b) ≡ a
take_exactly n a b e = subst (λ k. take k (a ++ b) ≡ a) e (take-append a b)

drop_exactly : (n : ℕ) (a b : List ℕ) → length a ≡ n → drop n (a ++ b) ≡ b
drop_exactly n a b e = subst (λ k. drop k (a ++ b) ≡ b) e (drop-append a b)

-- what the checksum is computed of
summed :
    (compression : ℤ) (m : Message) (z : List ℕ)
    → take (entry_size m - 16) (drop 16 (unsummed compression m ++ z)) ≡ entry_body compression m
summed compression m z =
    let body = entry_body compression m in
    let front = entry_head m ++ put_uint 4 0 in
    let grouped : unsummed compression m ++ z ≡ front ++ (body ++ z) =
      rw
        (
          append_assoc (entry_head m) (put_uint 4 0 ++ body) z,
          append_assoc (put_uint 4 0) body z,
          append_assoc (entry_head m) (put_uint 4 0) (body ++ z),
        )
        refl in
    let sixteen : length front ≡ 16 = omega (
      arith,
      length-append (entry_head m) (put_uint 4 0),
      length-entry_head m,
      length-put_uint 4 0,
    ) in
    rw (grouped, drop_exactly 16 front (body ++ z) sixteen)
      (take_exactly (entry_size m - 16) body z (omega (arith, length-entry_body compression m)))

-- the checksum in its place
with_checksum :
    (compression : ℤ) (m : Message) (z : List ℕ)
    → overwrite 12
        (put_uint 4 (checksum_ieee (entry_body compression m)))
        (unsummed compression m ++ z)
      ≡ entry_image compression m ++ z
with_checksum compression m z =
    let body = entry_body compression m in
    let crc = put_uint 4 (checksum_ieee body) in
    rw
      (
        append_assoc (entry_head m) (put_uint 4 0 ++ body) z,
        append_assoc (put_uint 4 0) body z,
        append_assoc (entry_head m) (crc ++ body) z,
        append_assoc crc body z,
      )
      (overwrite-middle 12 (entry_head m) crc (put_uint 4 0) (body ++ z) (length-entry_head m)
        (length-put_uint 4 (checksum_ieee body) ∙ sym (length-put_uint 4 0)))

written-put_crc :
    (compression : ℤ) (m : Message) (w : SliceWriter)
    → Room (entry_size m) w
    → written (put_crc (entry_size m) (put_slice w (unsummed compression m)))
      ≡ entry_image compression m
unfolding written put_crc
written-put_crc compression m w room =
    let u = unsummed compression m in
    let z = drop (length u) w.buf in
    let size = length-unsummed compression m in
    rw
      (
        room.empty,
        overwrite-start u w.buf (omega (arith, size, room.room)),
        summed compression m z,
        with_checksum compression m z,
      )
      (take_exactly (0 + length u) (entry_image compression m) z
        (omega (arith, length-entry_image compression m, size)))

module _ {W : Type 0} ⦃io : Writer W⦄ (laws : IsWriter io) where
  -- The messages are written one after the other, with their checksums, and counted, whatever the
  -- buffer was used for before.
  pub write_entries-set_image :
      (compression : ℤ) (ms : List Message) (b : SliceWriter) (total : ℕ) (w : W)
      → All Fits ms
      → laws.accepts w (length (set_image compression ms))
      → write_entries compression ms b total w
        ≡ next
            (total + length (set_image compression ms), none)
            (laws.put w (set_image compression ms))
  unfolding write_entries ready encoded counted pure
  write_entries-set_image compression [] b total w fits room =
      let e : total + 0 ≡ total = omega arith in rw (laws.put-nil w, e) refl
  write_entries-set_image compression (m ∷ ms) b total w (fit, fits) room =
      let r = reset-Room (entry_size m) b fit in
      let image = entry_image compression m in
      let rest = set_image compression ms in
      let written_all =
        Writes-entry compression m r.after
          (omega (arith, r.room.empty, r.room.room, length-unsummed compression m)) in
      let sum : total + length image + length rest ≡ total + length (image ++ rest) =
        omega (arith, length-append image rest) in
      let (here, behind) = laws.accepts-append w image rest room in
      rw
        (
          r.ready,
          written_all,
          written-put_crc compression m r.after r.room,
          laws.write_accepted w image here,
        )
        (write_entries-set_image compression ms
            (put_crc (entry_size m) (put_slice r.after (unsummed compression m)))
            (total + length image) (laws.put w image) fits behind
          ∙ rw (laws.put-append w image rest, sum) refl)
