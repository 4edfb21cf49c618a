-- ===== src/Proto/Snappy.antt =====
-- snappyDecode of v2/proto/snappy.go, which also reads the framing of snappy-java.
pub mod RoundTrip
use kafka_api.Common.{
  ℕ, zero, suc, ◌+◌, Bool, true, false, ◌&&◌, Option, none, some, List, [], ◌∷◌, ◌++◌, ◌⊎◌, inl,
  inr, leb, ltb, ◌==◌, if◌then◌else◌, length, take, drop,
}
use kafka_api.Common.Bytes.{get_uint}
use kafka_api.Flow.{Returned, ok, err, panic}
use kafka_api.Proto.Errors.{GoError, snappy_version}
use kafka_api.Proto.Frame.{Result}

-- "\x82SNAPPY\x00"
abbrev pub snappy_java_magic : List ℕ
snappy_java_magic = 0x82 ∷ b'S' ∷ b'N' ∷ b'A' ∷ b'P' ∷ b'P' ∷ b'Y' ∷ 0 ∷ []

-- bytes.HasPrefix
unfoldable pub has_prefix : List ℕ → List ℕ → Bool
has_prefix b [] = true
has_prefix [] (p ∷ ps) = false
has_prefix (x ∷ xs) (p ∷ ps) = (x == p) && has_prefix xs ps

-- b[i : i+n], where `full` is b with what lies behind it in its array, up to its capacity: a slice
-- may reach as far as that. `none` is a panic.
unfoldable pub slice : ℕ → ℕ → List ℕ → Option (List ℕ)
slice i n full = if leb (i + n) (length full) then some (take n (drop i full)) else none

-- snappy.Decode: an error, or the bytes
module _ (decode : List ℕ → GoError ⊎ List ℕ) where
  -- The loop, on fuel: `none` is a loop that has run out of it.
  unfoldable pub chunks : ℕ → ℕ → List ℕ → ℕ → List ℕ → Option (Result (List ℕ))
  chunks zero len full i decoded = none
  chunks (suc fuel) len full i decoded = elim (ltb i len) [
    | false ↦ some (ok decoded)
    | true ↦ elim (slice i 4 full) [
      | none ↦ some panic
      | some size ↦ elim (slice (i + 4) (get_uint size) full) [
        | none ↦ some panic
        | some c ↦ elim (decode c) [
          | inl e ↦ some (err e)
          | inr d ↦ chunks fuel len full (i + 4 + get_uint size) (decoded ++ d)
        ]
      ]
    ]
  ]

  unfoldable pub plain : GoError ⊎ List ℕ → Result (List ℕ)
  plain (inl e) = err e
  plain (inr d) = ok d

  -- the rest of snappyDecode behind the magic bytes, from b[8:12]
  java_framed : ℕ → List ℕ → Option (List ℕ) → Option (Result (List ℕ))
  unfolding chunks
  java_framed len full none = some panic
  java_framed len full (some version) =
      if get_uint version == 1
      then chunks (suc len) len full 16 []
      else some (err (snappy_version (get_uint version)))

  -- `beyond` is what lies behind b in its array
  unfoldable pub snappy_decode : List ℕ → List ℕ → Option (Result (List ℕ))
  unfolding java_framed plain slice
  snappy_decode b beyond =
      if has_prefix b snappy_java_magic
      then java_framed (length b) (b ++ beyond) (slice 8 4 (b ++ beyond))
      else some (plain (decode b))
