-- ===== src/Tests/Blocks.antt =====
-- snappyDecode with a decoder that drops the first byte of a chunk, and refuses an empty one.
use kafka_api.Common.{ℕ, ◌≡◌, ◌≢◌, none, some, List, [], ◌∷◌, ◌++◌, ◌⊎◌, inl, inr, All, arith, refl}
use kafka_api.Common.Bytes.{put_uint}
use kafka_api.Flow.{ok}
use kafka_api.Proto.Errors.{GoError, other}
use kafka_api.Proto.Snappy.{snappy_java_magic, snappy_decode}
use kafka_api.Proto.Snappy.RoundTrip.{
  frames, contents, IsChunk, snappy_decode-frames, snappy_decode-total,
}

abbrev unmarked : List ℕ → GoError ⊎ List ℕ
unmarked [] = inl (other 0)
unmarked (b ∷ bs) = inr bs

abbrev two_chunks : List (List ℕ × List ℕ)
two_chunks = (0 ∷ 1 ∷ 2 ∷ [], 1 ∷ 2 ∷ []) ∷ (0 ∷ 3 ∷ [], 3 ∷ []) ∷ []

both_chunks : All (IsChunk unmarked) two_chunks
both_chunks = ((refl, omega arith), ((refl, omega arith), tt))

snappy_decode-frames_example :
    snappy_decode unmarked
      (snappy_java_magic ++ (put_uint 4 1 ++ (put_uint 4 1 ++ frames two_chunks)))
      (7 ∷ [])
    ≡ some (ok (contents two_chunks))
snappy_decode-frames_example = snappy_decode-frames unmarked 1 two_chunks (7 ∷ []) both_chunks

snappy_decode-total_example : snappy_decode unmarked snappy_java_magic [] ≢ none
snappy_decode-total_example = snappy_decode-total unmarked snappy_java_magic []
