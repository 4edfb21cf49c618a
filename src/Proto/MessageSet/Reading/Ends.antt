-- ===== src/Proto/MessageSet/Reading/Ends.antt =====
-- When the loop of readMessageSet of v2/proto/messages.go ends: if the reading of nested sets does.
use kafka_api.Proto.Errors.{other}
use kafka_api.Proto.Errors.{snappy_version}
use kafka_api.Proto.Errors.{versioning_error}
use kafka_api.Proto.Errors.{short_write}
use kafka_api.Proto.Errors.{unknown_kafka_error}
use kafka_api.Common.{subst}
use kafka_api.Proto.Errors.{kafka_error}
use kafka_api.Common.{sym}
use kafka_api.Proto.Errors.{message_size}
use kafka_api.Flow.{pure}
use kafka_api.Flow.{◌>>=◌}
use kafka_api.Proto.Errors.{eof}
use kafka_api.Proto.MessageSet.Reading.{snappy_decode}
use kafka_api.Flow.{continue}
use kafka_api.Proto.Decoder.{decode_uint32}
use kafka_api.Proto.Decoder.{read_bytes}
use kafka_api.Proto.MessageSet.Reading.{alloc_parse_buf}
use kafka_api.Proto.MessageSet.Reading.{attributes}
use kafka_api.Proto.MessageSet.Reading.{bytes_of}
use kafka_api.Proto.MessageSet.Reading.{entry}
use kafka_api.Proto.Decoder.{guarded}
use kafka_api.Proto.Decoder.{received}
use kafka_api.Proto.MessageSet.{checksum_ieee}
use kafka_api.Proto.MessageSet.Reading.{after_offset}
use kafka_api.Proto.MessageSet.Reading.{after_size}
use kafka_api.Proto.MessageSet.Reading.{allocated}
use kafka_api.Proto.MessageSet.Reading.{entries}
use kafka_api.Proto.MessageSet.Reading.{gunzipped}
use kafka_api.Proto.MessageSet.Reading.{iterated}
use kafka_api.Proto.MessageSet.Reading.{key_and_value}
use kafka_api.Proto.MessageSet.Reading.{short}
use kafka_api.Proto.MessageSet.Reading.{with_message}
use kafka_api.Proto.MessageSet.Reading.{with_size}
use kafka_api.Proto.MessageSet.Reading.{refused}
use kafka_api.Proto.MessageSet.Reading.{compression_of}
use kafka_api.Proto.MessageSet.Reading.{last}
use kafka_api.Proto.MessageSet.Reading.{more}
use kafka_api.Proto.MessageSet.Reading.{with_compression}
use kafka_api.Proto.MessageSet.Reading.{Entry}
use kafka_api.Proto.MessageSet.Reading.{decompressed}
use kafka_api.Proto.MessageSet.Reading.{from_nested}
use kafka_api.Proto.MessageSet.Reading.{with_attributes}
use kafka_api.Proto.MessageSet.Reading.{with_crc}
use kafka_api.Proto.MessageSet.Reading.{with_values}
use kafka_api.Common.{
  ◌++◌, ◌==◌, ℕ, zero, suc, ◌+◌, ◌<◌, ◌≤◌, ◌≡◌, ◌≢◌, refl, Option, none, some, List, [], ◌∷◌, inl,
  inr, arith, length, drop, Bool-cases, Option-cases, leb,
}
use kafka_api.Common.Int.{ℤ, pos, negsuc}
use kafka_api.Flow.{Step, next, returns, panics, ok, err, panic}
use kafka_api.Proto.Errors.{GoError}
use kafka_api.Proto.Decoder.{Reader, Decoder, new_decoder, read_full, decode_int64, decode_int32}
use kafka_api.Proto.Frame.{Result}
use kafka_api.Proto.Message.{Message}
use kafka_api.Proto.MessageSet.{Compressors}
use kafka_api.Proto.Snappy.RoundTrip.{snappy_decode-total}

abbrev IsSome : Option Entry → Type 0
IsSome none = ⊥
IsSome (some x) = Unit {0}

-- an iteration after which the loop goes on has left fewer than n bytes
abbrev Progresses : ℕ → Option Entry × Reader → Type 0
Progresses n (none, r) = ⊥
Progresses n (some (more ms), r) = length r.bytes < n
Progresses n (some x, r) = Unit {0}

-- a decoder's step, from n bytes: after an error or not, no more are left, and k fewer without one
abbrev Takes : {A : Type 0} → ℕ → ℕ → Step GoError Decoder A → Type 0
Takes k n (next a d) = (length d.r.bytes ≤ n) × (d.err ≡ none → length d.r.bytes + k ≤ n)
Takes k n (returns e) = Unit {0}
Takes k n panics = Unit {0}

length-drop : (n : ℕ) (xs : List ℕ) → n ≤ length xs → length (drop n xs) + n ≤ length xs
length-drop zero xs h = omega arith
length-drop (suc n) [] h = absurd (omega arith)
length-drop (suc n) (x ∷ xs) h = omega (arith, length-drop n xs (omega arith))

-- what io.ReadFull leaves
abbrev Left : ℕ → ℕ → (List ℕ × Option GoError) × Reader → Type 0
Left k n ((b, e), r) = (length r.bytes ≤ n) × (e ≡ none → length r.bytes + k ≤ n)

read_full-Left : (k : ℕ) (r : Reader) → Left k (length r.bytes) (read_full k r)
unfolding read_full
read_full-Left k r = elim (Bool-cases (leb k (length r.bytes))) [
  | inl t ↦
      let l : k ≤ length r.bytes = ground arith in
      let left = length-drop k r.bytes l in rw (Left, read_full, t) (omega (arith, left), λ e. left)
  | inr f ↦ rw (Left, read_full, f) (omega arith, λ e. ground (arith, e))
]

decode-Takes :
    {A : Type 0} (k : ℕ) (x : (List ℕ × Option GoError) × Reader) (r : Reader)
    (g : Option (List ℕ) → A)
    → Left k (length r.bytes) x
    → Takes k (length r.bytes) (continue (received k x (new_decoder r)) (λ b. pure (g b)))
unfolding received continue pure
decode-Takes k ((b, some e), r') r g (l, m) = (l, λ e. ground (arith, e))
decode-Takes k ((b, none), r') r g (l, m) = elim (Bool-cases (length b == k)) [
  | inl t ↦ rw (Takes, received, t) (l, λ e. m refl)
  | inr f ↦ rw (Takes, received, f) (l, λ e. ground (arith, e))
]

decode_int64-Takes : (r : Reader) → Takes 8 (length r.bytes) (decode_int64 (new_decoder r))
unfolding decode_int64 guarded read_bytes ◌>>=◌
decode_int64-Takes r = decode-Takes 8 (read_full 8 r) r _ (read_full-Left 8 r)

decode_int32-Takes : (r : Reader) → Takes 4 (length r.bytes) (decode_int32 (new_decoder r))
unfolding decode_int32 guarded read_bytes ◌>>=◌
decode_int32-Takes r = decode-Takes 4 (read_full 4 r) r _ (read_full-Left 4 r)

short-Progresses : (n : ℕ) (e : GoError) (r : Reader) → Progresses n (some (short e), r)
unfolding short
short-Progresses n GoError.eof r = tt
short-Progresses n GoError.unexpected_eof r = tt
short-Progresses n GoError.not_enough_data r = tt
short-Progresses n GoError.invalid_array_len r = tt
short-Progresses n (message_size x) r = tt
short-Progresses n (kafka_error x) r = tt
short-Progresses n (unknown_kafka_error x) r = tt
short-Progresses n GoError.cannot_encode r = tt
short-Progresses n (short_write x y) r = tt
short-Progresses n GoError.buffer_too_small r = tt
short-Progresses n (versioning_error x) r = tt
short-Progresses n (snappy_version x) r = tt
short-Progresses n (other x) r = tt

some_progress :
    (n : ℕ) (o : Option Entry) (r : Reader) → IsSome o → length r.bytes < n → Progresses n (o, r)
some_progress n none r s l = absurd s
some_progress n (some (more ms)) r s l = l
some_progress n (some (last m)) r s l = tt
some_progress n (some Entry.enough) r s l = tt
some_progress n (some Entry.nothing) r s l = tt
some_progress n (some (refused e)) r s l = tt
some_progress n (some Entry.broken) r s l = tt

module _ (c : Compressors) (nested : List ℕ → Option (Result (List Message)))
    (returning : (b : List ℕ) → nested b ≢ none) where
  from_nested-IsSome :
      (o : Option (Result (List Message))) → o ≢ none → IsSome (from_nested c nested o)
  unfolding from_nested
  from_nested-IsSome none h = absurd (h refl)
  from_nested-IsSome (some (ok ms)) h = tt
  from_nested-IsSome (some (err e)) h = tt
  from_nested-IsSome (some panic) h = tt

  decompressed-IsSome : (o : Option (Result (List ℕ))) → o ≢ none → IsSome (decompressed c nested o)
  unfolding decompressed
  decompressed-IsSome none h = absurd (h refl)
  decompressed-IsSome (some (ok b)) h = from_nested-IsSome (nested b) (returning b)
  decompressed-IsSome (some (err e)) h = tt
  decompressed-IsSome (some panic) h = tt

  with_values-IsSome :
      (k : ℕ) (offset : ℤ) (crc : ℕ) (s : Step GoError Decoder (Option (List ℕ) × Option (List ℕ)))
      → IsSome (with_values c nested k offset crc s)
  unfolding with_values
  with_values-IsSome k offset crc (returns e) = tt
  with_values-IsSome k offset crc panics = tt
  with_values-IsSome k offset crc (next (key, value) d) = elim (Option-cases d.err) [
    | inr (e, failed) ↦ rw (IsSome, with_values, failed) tt
    | inl fine ↦ elim (Bool-cases (k == 0)) [
      | inl t ↦ rw (IsSome, with_values, fine, t) tt
      | inr f ↦ elim (Bool-cases (k == 1)) [
        | inl t ↦
            rw (IsSome, with_values, fine, f, t)
              (decompressed-IsSome (some (gunzipped (c.gunzip (bytes_of value))))
                (λ e. ground (arith, e)))
        | inr f' ↦
            rw (IsSome, with_values, fine, f, f')
              (decompressed-IsSome (snappy_decode c.unsnappy (bytes_of value) [])
                (snappy_decode-total c.unsnappy (bytes_of value) []))
      ]
    ]
  ]

  with_attributes-IsSome :
      (offset : ℤ) (crc : ℕ) (s : Step GoError Decoder ℤ)
      → IsSome (with_attributes c nested offset crc s)
  unfolding with_attributes with_compression
  with_attributes-IsSome offset crc (returns e) = tt
  with_attributes-IsSome offset crc panics = tt
  with_attributes-IsSome offset crc (next a d) = elim (Bool-cases (compression_of a == 3)) [
    | inl t ↦ rw (IsSome, with_attributes, t) tt
    | inr f ↦
        rw (IsSome, with_attributes, f)
          (with_values-IsSome (compression_of a) offset crc (key_and_value d))
  ]

  with_crc-IsSome :
      (b : List ℕ) (offset : ℤ) (s : Step GoError Decoder ℕ) → IsSome (with_crc c nested b offset s)
  unfolding with_crc
  with_crc-IsSome b offset (returns e) = tt
  with_crc-IsSome b offset panics = tt
  with_crc-IsSome b offset (next crc d) = elim (Bool-cases (leb (length b) 4)) [
    | inl t ↦ rw (IsSome, with_crc, t) tt
    | inr f ↦ elim (Bool-cases (crc == checksum_ieee (drop 4 b))) [
      | inl t ↦
          rw (IsSome, with_crc, f, t) (with_attributes-IsSome offset crc (attributes c nested d))
      | inr f' ↦ rw (IsSome, with_crc, f, f') tt
    ]
  ]

  with_message-Progresses :
      (n : ℕ) (offset : ℤ) (x : (List ℕ × Option GoError) × Reader)
      → length (x.1).bytes < n
      → Progresses n (with_message c nested offset x)
  unfolding with_message
  with_message-Progresses n offset ((b, some e), r) l = short-Progresses n e r
  with_message-Progresses n offset ((b, none), r) l =
      let o =
        with_crc c nested b offset
          (decode_uint32 (new_decoder (record { bytes = b; ended = eof }))) in
      some_progress n o r
        (with_crc-IsSome b offset (decode_uint32 (new_decoder (record { bytes = b; ended = eof }))))
        l

  allocated-Progresses :
      (n : ℕ) (offset : ℤ) (k : ℕ) (e : Option GoError) (r : Reader)
      → length r.bytes < n
      → Progresses n (allocated c nested offset k e r)
  unfolding allocated
  allocated-Progresses n offset k (some e) r l = tt
  allocated-Progresses n offset k none r l =
      with_message-Progresses n offset (read_full k r) (omega (arith, l, (read_full-Left k r).0))

  with_size-Progresses :
      (n : ℕ) (offset size : ℤ) (r : Reader)
      → length r.bytes < n
      → Progresses n (with_size c nested offset size r)
  unfolding with_size
  with_size-Progresses n offset (negsuc k) r l = tt
  with_size-Progresses n offset (pos zero) r l = tt
  with_size-Progresses n offset (pos (suc k)) r l =
      allocated-Progresses n offset (suc k) (alloc_parse_buf (pos (suc k))) r l

  after_size-Progresses :
      (n : ℕ) (offset : ℤ) (s : Step GoError Decoder ℤ) (m : ℕ)
      → Takes 4 m s
      → m < n
      → Progresses n (after_size c nested offset s)
  unfolding after_size
  after_size-Progresses n offset (returns e) m t l = tt
  after_size-Progresses n offset panics m t l = tt
  after_size-Progresses n offset (next size d) m t l = elim (Option-cases d.err) [
    | inr (e, failed) ↦ rw (Progresses, after_size, failed) (short-Progresses n e d.r)
    | inl fine ↦
        rw (Progresses, after_size, fine)
          (with_size-Progresses n offset size d.r (omega (arith, t.0)))
  ]

  after_offset-Progresses :
      (n : ℕ) (s : Step GoError Decoder ℤ) → Takes 8 n s → Progresses n (after_offset c nested s)
  unfolding after_offset
  after_offset-Progresses n (returns e) t = tt
  after_offset-Progresses n panics t = tt
  after_offset-Progresses n (next offset d) t = elim (Option-cases d.err) [
    | inr (e, failed) ↦ rw (Progresses, after_offset, failed) (short-Progresses n e d.r)
    | inl fine ↦
        let fresh : new_decoder d.r ≡ d = λ i. record d { err = sym fine i } in
        rw (Progresses, after_offset, fine)
          (after_size-Progresses n offset (decode_int32 d) (length d.r.bytes)
            (subst (λ x. Takes 4 (length d.r.bytes) (decode_int32 x)) fresh
              (decode_int32-Takes d.r))
            (omega (arith, t.1 fine)))
  ]

  iterated-IsOver :
      (n : ℕ) (x : Option Entry × Reader) (set : List Message)
      (again : Reader → List Message → Option (Result (List Message) × Reader))
      → Progresses n x
      → ((r : Reader) (set : List Message) → length r.bytes < n → again r set ≢ none)
      → iterated c nested x set again ≢ none
  unfolding iterated
  iterated-IsOver n (none, r) set again p h = absurd p
  iterated-IsOver n (some (more ms), r) set again p h = h r (set ++ ms) p
  iterated-IsOver n (some (last m), r) set again p h = λ e. ground (arith, e)
  iterated-IsOver n (some Entry.enough, r) set again p h = λ e. ground (arith, e)
  iterated-IsOver n (some Entry.nothing, r) set again p h = λ e. ground (arith, e)
  iterated-IsOver n (some (refused x), r) set again p h = λ e. ground (arith, e)
  iterated-IsOver n (some Entry.broken, r) set again p h = λ e. ground (arith, e)

  -- If a nested set is read to an end from any bytes, so is the set by the loop of readMessageSet,
  -- with one unit of fuel more than there are bytes.
  pub entries-ends :
      (fuel : ℕ) (r : Reader) (set : List Message)
      → length r.bytes < fuel
      → entries c nested fuel r set ≢ none
  unfolding entries entry
  entries-ends zero r set h = absurd (omega arith)
  entries-ends (suc fuel) r set h =
      iterated-IsOver (length r.bytes) (entry c nested r) set (entries c nested fuel)
        (after_offset-Progresses (length r.bytes) (decode_int64 (new_decoder r))
          (decode_int64-Takes r))
        (λ r' set' l. entries-ends fuel r' set' (omega arith))
