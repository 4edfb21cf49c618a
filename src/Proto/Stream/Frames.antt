-- ===== src/Proto/Stream/Frames.antt =====
-- A stream of messages is cut where the messages end.
use kafka_api.Common.{
  ℕ, zero, suc, ◌+◌, ◌-◌, ◌<◌, ◌≤◌, ◌≡◌, refl, ap, ◌∙◌, none, List, [], ◌∷◌, ◌++◌, append_assoc,
  length, length-append, drop, take-append, drop-append, arith, subst,
}
use native.Mathlib.Nat.{zero-add, suc-add}
use kafka_api.Common.Int.{ℤ, pos, half16, half32, to_bits, wrap, InRange, from_bits-to_bits}
use kafka_api.Common.Bytes.{put_uint, length-put_uint}
use kafka_api.Flow.{ok}
use kafka_api.Proto.Errors.{GoError}
use kafka_api.Proto.Writer.{alloc_parse_buf}
use kafka_api.Proto.Decoder.{Reader, Decoding, decode_int16, decode_int32}
use kafka_api.Proto.Codec.{Reads, Reads-bind, Reads-map}
use kafka_api.Proto.Codec.Prims.{Reads-int16, Reads-int32, read_full-append}
use kafka_api.Proto.Frame.RoundTrip.{framed}
use kafka_api.Proto.Frame.{put_at}
use kafka_api.Proto.Stream.{
  add_size, zeros, fill_from, read_head, req_rest, put_kind, req_body, req_sized, req_head,
  read_req, resp_head,
}

-- the bytes of a reader
abbrev pub at : List ℕ → GoError → Reader
at b e = record { bytes = b; ended = e }

pub read_head-Reads :
    (dec : Decoding (ℤ × ℤ)) (b rest : List ℕ) (e : GoError) {v : ℤ × ℤ}
    → Reads dec b v
    → read_head dec (at (b ++ rest) e) ≡ (ok v, at rest e)
unfolding read_head
read_head-Reads dec b rest e h = rw (h rest e, read_head)

pub Reads-req_head :
    (size kind : ℤ)
    → InRange half32 size
    → InRange half16 kind
    → Reads req_head
        (put_uint 4 (to_bits half32 size) ++ put_uint 2 (to_bits half16 kind))
        (size, kind)
unfolding req_head
Reads-req_head size kind h k =
    Reads-bind decode_int32 _ (put_uint 4 (to_bits half32 size)) (put_uint 2 (to_bits half16 kind))
      (Reads-int32 size h)
      (Reads-map decode_int16 (λ y. (size, y)) (put_uint 2 (to_bits half16 kind))
        (Reads-int16 kind k))

pub Reads-resp_head :
    (size id : ℤ)
    → InRange half32 size
    → InRange half32 id
    → Reads resp_head
        (put_uint 4 (to_bits half32 size) ++ put_uint 4 (to_bits half32 id))
        (size, id)
unfolding resp_head
Reads-resp_head size id h k =
    Reads-bind decode_int32 _ (put_uint 4 (to_bits half32 size)) (put_uint 4 (to_bits half32 id))
      (Reads-int32 size h)
      (Reads-map decode_int32 (λ y. (size, y)) (put_uint 4 (to_bits half32 id)) (Reads-int32 id k))

pub regroup : (a b c d : List ℕ) → (a ++ (b ++ c)) ++ d ≡ (a ++ b) ++ (c ++ d)
regroup a b c d = simp append_assoc

pub add_size-pos : (n : ℕ) → n + 4 < half32 → add_size (pos n) ≡ pos (n + 4)
unfolding add_size wrap
add_size-pos n h = from_bits-to_bits half32 (pos (n + 4)) h

pub alloc-none : (n : ℕ) → n < half32 → alloc_parse_buf (pos n) ≡ none
unfolding alloc_parse_buf
alloc-none n h = ground arith

drop_two : (a m c : List ℕ) (k : ℕ) → length m ≡ k → drop (length a + k) (a ++ (m ++ c)) ≡ c
drop_two a m c k h = rw (← h, ← length-append a m, ← append_assoc a m c) (drop-append (a ++ m) c)

-- an integer written over the bytes m
pub put_at_lem :
    (a m c : List ℕ) (k u : ℕ)
    → length m ≡ k
    → put_at (length a) k u (a ++ (m ++ c)) ≡ ok (a ++ (put_uint k u ++ c))
unfolding put_at
put_at_lem a m c k u h =
    rw (take-append a (m ++ c), drop_two a m c k h)
      (ground (arith, length-append a (m ++ c), length-append m c))

fill_from_lem :
    (a z body rest : List ℕ) (e : GoError)
    → length z ≡ length body
    → fill_from (length a) (a ++ z) (at (body ++ rest) e) ≡ (ok (a ++ body), at rest e)
unfolding fill_from
fill_from_lem a z body rest e h =
    let n : length (a ++ z) - length a ≡ length body = omega (arith, length-append a z) in
    rw (n, read_full-append body rest e, take-append a z)

pub fill_from-at :
    (i : ℕ) (a z body rest : List ℕ) (e : GoError)
    → length a ≡ i
    → length z ≡ length body
    → fill_from i (a ++ z) (at (body ++ rest) e) ≡ (ok (a ++ body), at rest e)
fill_from-at i a z body rest e h hz =
    subst (λ j. fill_from j (a ++ z) (at (body ++ rest) e) ≡ (ok (a ++ body), at rest e)) h
      (fill_from_lem a z body rest e hz)

pub length-zeros : (n : ℕ) → length (zeros n) ≡ n
unfolding zeros
length-zeros zero = refl
length-zeros (suc n) = ap suc (length-zeros n)

pub zeros-+ : (m n : ℕ) → zeros (m + n) ≡ zeros m ++ zeros n
unfolding zeros
zeros-+ zero n = rw zero-add
zeros-+ (suc m) n = rw suc-add (ap (λ zs. 0 ∷ zs) (zeros-+ m n))

sized : (u n : ℕ) → put_at 0 4 u (zeros (6 + n)) ≡ ok (put_uint 4 u ++ (zeros 2 ++ zeros n))
unfolding zeros
sized u n = ap (put_at 0 4 u) (zeros-+ 6 n) ∙ put_at_lem [] (zeros 4) (zeros 2 ++ zeros n) 4 u refl

put_kind-long :
    (kind : ℤ) (b : List ℕ)
    → 6 ≤ length b
    → put_kind kind (ok b) ≡ put_at 4 2 (to_bits half16 kind) b
unfolding put_kind
put_kind-long kind b h = ground arith

-- the buffer of a request, before the rest is read into it
patched :
    (size kind : ℤ) (n : ℕ)
    → put_kind kind (put_at 0 4 (to_bits half32 size) (zeros (6 + n)))
      ≡ ok (put_uint 4 (to_bits half32 size) ++ (put_uint 2 (to_bits half16 kind) ++ zeros n))
patched size kind n =
    let a : List ℕ = put_uint 4 (to_bits half32 size) in
    let b : List ℕ = a ++ (zeros 2 ++ zeros n) in
    let la : length a ≡ 4 = length-put_uint 4 (to_bits half32 size) in
    let long : 6 ≤ length b = omega (
      arith,
      length-append a (zeros 2 ++ zeros n),
      length-append (zeros 2) (zeros n),
      length-zeros 2,
    ) in
    ap (put_kind kind) (sized (to_bits half32 size) n)
    ∙ put_kind-long kind b long
    ∙ subst
        (λ i.
          put_at i 2 (to_bits half16 kind) b
          ≡ ok (a ++ (put_uint 2 (to_bits half16 kind) ++ zeros n)))
        la (put_at_lem a (zeros 2) (zeros n) 2 (to_bits half16 kind) (length-zeros 2))

-- what ReadReq returns from a buffer whose first six bytes, a, are set
req_rest-read :
    (kind : ℤ) (a body rest : List ℕ) (e : GoError)
    → length a ≡ 6
    → req_rest kind (ok (a ++ zeros (length body))) (at (body ++ rest) e)
      ≡ (ok (kind, a ++ body), at rest e)
unfolding req_rest zeros
req_rest-read kind a [] rest e h = ground (arith, length-append a [])
req_rest-read kind a (x ∷ xs) rest e h = ground (
  arith,
  length-append a (zeros (length (x ∷ xs))),
  fill_from-at 6 a (zeros (length (x ∷ xs))) (x ∷ xs) rest e h (length-zeros (length (x ∷ xs))),
)

-- After six bytes a request has its size and kind, and the rest is read into the buffer.
req_body-read :
    (size kind : ℤ) (body rest : List ℕ) (e : GoError)
    → req_body size kind (pos (6 + length body)) none (at (body ++ rest) e) ≡ (
      ok (kind, put_uint 4 (to_bits half32 size) ++ (put_uint 2 (to_bits half16 kind) ++ body)),
      at rest e,
    )
unfolding req_body
req_body-read size kind body rest e =
    let a : List ℕ = put_uint 4 (to_bits half32 size) in
    let k : List ℕ = put_uint 2 (to_bits half16 kind) in
    let six : length (a ++ k) ≡ 6 = omega (
      arith,
      length-append a k,
      length-put_uint 4 (to_bits half32 size),
      length-put_uint 2 (to_bits half16 kind),
    ) in
    ap (λ b. req_rest kind b (at (body ++ rest) e)) (patched size kind (length body))
    ∙ rw (← append_assoc a k (zeros (length body)), ← append_assoc a k body)
        (req_rest-read kind (a ++ k) body rest e six)

-- from the size that a message states to the length of its buffer
req_sized_lem :
    (n m : ℕ) (kind : ℤ) (r : Reader)
    → n + 4 ≡ m
    → m < half32
    → req_sized (ok (pos n, kind), r) ≡ req_body (pos n) kind (pos m) none r
unfolding req_sized
req_sized_lem n m kind r e h = rw (add_size-pos n (omega arith), e, alloc-none m h)

-- A request of a size that a buffer can hold is delivered whole, with its kind, and what follows
-- it stays on the stream.
pub read_req_lem :
    (kind : ℤ) (body rest : List ℕ) (e : GoError)
    → InRange half16 kind
    → length body + 6 < half32
    → read_req (at (framed (put_uint 2 (to_bits half16 kind) ++ body) ++ rest) e)
      ≡ (ok (kind, framed (put_uint 2 (to_bits half16 kind) ++ body)), at rest e)
unfolding read_req
read_req_lem kind body rest e h fits =
    let k : List ℕ = put_uint 2 (to_bits half16 kind) in
    let n : ℕ = length (k ++ body) in
    let ln : n + 4 ≡ 6 + length body =
      omega (arith, length-append k body, length-put_uint 2 (to_bits half16 kind)) in
    ap (λ b. req_sized (read_head req_head (at b e)))
      (regroup (put_uint 4 (to_bits half32 (pos n))) k body rest)
    ∙ ap req_sized (
        read_head-Reads req_head (put_uint 4 (to_bits half32 (pos n)) ++ k) (body ++ rest) e
          (Reads-req_head (pos n) kind (omega arith) h))
    ∙ req_sized_lem n (6 + length body) kind (at (body ++ rest) e) ln (omega arith)
    ∙ req_body-read (pos n) kind body rest e
