-- ===== src/Proto/MessageSet/Reading/Cut.antt =====
-- An entry that is cut off, as the last one of a set that Kafka sends may be: readMessageSet leaves
-- it out.
use kafka_api.Proto.MessageSet.Reading.Entries.{with_size-positive, summed_body, Sound}
use kafka_api.Proto.Codec.Prims.{Reads-int32, Reads-int64}
use kafka_api.Proto.MessageSet.Reading.{
  with_message, after_size, after_offset, entry, Result, enough, short,
}
use kafka_api.Flow.{pure, continue, ◌>>=◌, next}
use kafka_api.Proto.MessageSet.Writing.{length-entry_image, entry_image}
use kafka_api.Connection.Waiters.{received}
use kafka_api.Common.{
  ℕ, zero, suc, ◌+◌, ◌-◌, ◌<◌, ◌≤◌, ◌≡◌, refl, ap, sym, ◌∙◌, subst, inl, inr, Option, some, List,
  [], ◌∷◌, ◌++◌, append_assoc, arith, length, take, ltb_cases,
}
use kafka_api.Common.Int.{ℤ, pos, half32, half64, to_bits, wrap, InRange, wrap-pos}
use kafka_api.Common.Bytes.{put_uint, length-put_uint}
use kafka_api.Proto.Errors.{eof}
use kafka_api.Proto.Decoder.{
  Reader, new_decoder, read_full, decode_int64, decode_int32, guarded, read_bytes, short_read,
}
use kafka_api.Proto.Message.{Message}
use kafka_api.Proto.MessageSet.{Compressors, bytes_len}

abbrev pub left_of : List ℕ → Reader
left_of b = record { bytes = b; ended = eof }

short-short_read : (b : List ℕ) → short (short_read b eof) ≡ enough
unfolding short
short-short_read [] = refl
short-short_read (x ∷ b) = refl

read_full-short :
    (k : ℕ) (b : List ℕ)
    → length b < k
    → read_full k (left_of b) ≡ ((b, some (short_read b eof)), left_of [])
unfolding read_full
read_full-short k b h = ground arith

decode_int64-short :
    (b : List ℕ)
    → length b < 8
    → decode_int64 (new_decoder (left_of b))
      ≡ next (pos 0) (record { r = left_of []; err = some (short_read b eof) })
unfolding decode_int64 guarded read_bytes received ◌>>=◌ continue pure
decode_int64-short b h = rw (read_full-short 8 b h) refl

decode_int32-short :
    (b : List ℕ)
    → length b < 4
    → decode_int32 (new_decoder (left_of b))
      ≡ next (pos 0) (record { r = left_of []; err = some (short_read b eof) })
unfolding decode_int32 guarded read_bytes received ◌>>=◌ continue pure
decode_int32-short b h = rw (read_full-short 4 b h) refl

length-take : (n : ℕ) (xs : List ℕ) → length (take n xs) ≤ n
length-take zero xs = omega arith
length-take (suc n) [] = omega arith
length-take (suc n) (x ∷ xs) = omega (arith, length-take n xs)

take-beyond : (n : ℕ) (a b : List ℕ) → length a ≤ n → take n (a ++ b) ≡ a ++ take (n - length a) b
take-beyond n [] b h = let e : n ≡ n - 0 = omega arith in ap (λ k. take k b) e
take-beyond zero (x ∷ a) b h = absurd (omega arith)
take-beyond (suc n) (x ∷ a) b h =
    let e : n - length a ≡ suc n - length (x ∷ a) = omega arith in
    ap (λ r. x ∷ r) (take-beyond n a b (omega arith) ∙ ap (λ k. a ++ take k b) e)

module _ (c : Compressors) (nested : List ℕ → Option (Result (List Message))) where
  abbrev pub IsLeftOut : List ℕ → Type 0
  IsLeftOut b = entry c nested (left_of b) ≡ (some enough, left_of [])

  pub entry-short : (b : List ℕ) → length b < 8 → IsLeftOut b
  unfolding entry after_offset
  entry-short b h = rw (decode_int64-short b h, short-short_read b) refl

  entry-no_size :
      (v : ℤ) (b : List ℕ)
      → InRange half64 v
      → length b < 4
      → IsLeftOut (put_uint 8 (to_bits half64 v) ++ b)
  unfolding entry after_offset after_size
  entry-no_size v b r h =
      rw (Reads-int64 v r b eof, decode_int32-short b h, short-short_read b) refl

  entry-no_body :
      (v : ℤ) (n : ℕ) (b : List ℕ)
      → InRange half64 v
      → 0 < n
      → n < half32
      → length b < n
      → IsLeftOut (put_uint 8 (to_bits half64 v) ++ (put_uint 4 (to_bits half32 (pos n)) ++ b))
  unfolding entry after_offset after_size with_message
  entry-no_body v n b r p l h =
      rw
        (
          Reads-int64 v r (put_uint 4 (to_bits half32 (pos n)) ++ b) eof,
          Reads-int32 (pos n) l b eof,
          with_size-positive c nested v n (left_of b) p l,
          read_full-short n b h,
          short-short_read b,
        )
        refl

  -- whatever is left of an entry is left out
  pub entry-cut :
      (k : ℤ) (m : Message) (n : ℕ)
      → Sound m
      → n < length (entry_image k m)
      → entry c nested (left_of (take n (entry_image k m))) ≡ (some enough, left_of [])
  entry-cut k m n s h =
      let body = summed_body k m in
      let size = 14 + bytes_len m.key + bytes_len m.value in
      let eight = put_uint 8 (to_bits half64 m.offset) in
      let four = put_uint 4 (to_bits half32 (wrap half32 (pos size))) in
      let fit : size < half32 = omega (arith, s.fits) in
      let image = entry_image k m in
      let grouped : image ≡ eight ++ (four ++ body) = append_assoc eight four body in
      let l8 = length-put_uint 8 (to_bits half64 m.offset) in
      let l4 = length-put_uint 4 (to_bits half32 (wrap half32 (pos size))) in
      let behind8 : 8 ≤ n → take n image ≡ eight ++ take (n - 8) (four ++ body) = λ le.
        subst (λ x. take n x ≡ eight ++ take (n - 8) (four ++ body)) (sym grouped)
          (take-beyond n eight (four ++ body) (omega (arith, le, l8))
            ∙ ap (λ i. eight ++ take (n - i) (four ++ body)) l8) in
      let behind12 : 12 ≤ n → take (n - 8) (four ++ body) ≡ four ++ take (n - 8 - 4) body = λ le.
        take-beyond (n - 8) four body (omega (arith, le, l4))
        ∙ ap (λ i. four ++ take (n - 8 - i) body) l4 in
      elim (ltb_cases n 8) [
        | inl (_, lt) ↦ entry-short (take n image) (omega (arith, length-take n image))
        | inr (_, le) ↦ elim (ltb_cases n 12) [
          | inl (_, lt) ↦ subst IsLeftOut (sym (behind8 le)) (
              entry-no_size m.offset (take (n - 8) (four ++ body)) s.offset
                (omega (arith, length-take (n - 8) (four ++ body))))
          | inr (_, le12) ↦
              subst IsLeftOut
                (sym (
                  behind8 le
                  ∙ ap (λ r. eight ++ r) (behind12 le12)
                  ∙ ap (λ z. eight ++ (put_uint 4 (to_bits half32 z) ++ take (n - 8 - 4) body))
                      (wrap-pos half32 size fit)))
                (entry-no_body m.offset size (take (n - 8 - 4) body) s.offset (omega arith) fit
                  (omega (arith, h, length-take (n - 8 - 4) body, length-entry_image k m)))
        ]
      ]
