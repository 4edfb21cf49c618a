-- ===== src/Proto/Stream/Responses.antt =====
-- ReadResp delivers responses whole; and the sizes at which it panics.
use kafka_api.Common.{
  ℕ, zero, suc, ◌+◌, ◌-◌, ◌<◌, ◌≡◌, refl, ap, ◌∙◌, none, List, [], ◌++◌, append_assoc, length,
  length-append, arith, subst,
}
use kafka_api.Common.Int.{ℤ, pos, negsuc, half32, to_bits, InRange}
use kafka_api.Common.Bytes.{put_uint, length-put_uint}
use kafka_api.Flow.{ok, panic}
use kafka_api.Proto.Errors.{GoError}
use kafka_api.Proto.Decoder.{Reader}
use kafka_api.Proto.Frame.{put_at}
use kafka_api.Proto.Frame.RoundTrip.{framed}
use kafka_api.Proto.Stream.{
  add_size, zeros, read_head, put_id, resp_rest, resp_body, resp_sized, resp_head, read_resp,
  with_number,
}
use kafka_api.Proto.Stream.Frames.{
  at, read_head-Reads, Reads-resp_head, put_at_lem, fill_from-at, length-zeros, zeros-+,
  add_size-pos, alloc-none, regroup,
}

sized : (u n : ℕ) → put_at 0 4 u (zeros (8 + n)) ≡ ok (put_uint 4 u ++ (zeros 4 ++ zeros n))
unfolding zeros
sized u n = ap (put_at 0 4 u) (zeros-+ 8 n) ∙ put_at_lem [] (zeros 4) (zeros 4 ++ zeros n) 4 u refl

-- the buffer of a response, before the rest is read into it
patched :
    (size id : ℤ) (n : ℕ)
    → put_id id (put_at 0 4 (to_bits half32 size) (zeros (8 + n)))
      ≡ ok (put_uint 4 (to_bits half32 size) ++ (put_uint 4 (to_bits half32 id) ++ zeros n))
unfolding put_id
patched size id n =
    let a : List ℕ = put_uint 4 (to_bits half32 size) in
    ap (put_id id) (sized (to_bits half32 size) n)
    ∙ subst
        (λ i.
          put_at i 4 (to_bits half32 id) (a ++ (zeros 4 ++ zeros n))
          ≡ ok (a ++ (put_uint 4 (to_bits half32 id) ++ zeros n)))
        (length-put_uint 4 (to_bits half32 size))
        (put_at_lem a (zeros 4) (zeros n) 4 (to_bits half32 id) (length-zeros 4))

resp_body-read :
    (size id : ℤ) (body rest : List ℕ) (e : GoError)
    → resp_body size id (pos (8 + length body)) none (at (body ++ rest) e) ≡ (
      ok (id, put_uint 4 (to_bits half32 size) ++ (put_uint 4 (to_bits half32 id) ++ body)),
      at rest e,
    )
unfolding resp_body
resp_body-read size id body rest e =
    let a : List ℕ = put_uint 4 (to_bits half32 size) in
    let k : List ℕ = put_uint 4 (to_bits half32 id) in
    let z : List ℕ = zeros (length body) in
    let eight : length (a ++ k) ≡ 8 = omega (
      arith,
      length-append a k,
      length-put_uint 4 (to_bits half32 size),
      length-put_uint 4 (to_bits half32 id),
    ) in
    ap (λ b. resp_rest id b (at (body ++ rest) e)) (patched size id (length body))
    ∙ rw (← append_assoc a k z, ← append_assoc a k body)
        (ap (with_number id)
          (fill_from-at 8 (a ++ k) z body rest e eight (length-zeros (length body))))

resp_sized_lem :
    (n m : ℕ) (id : ℤ) (r : Reader)
    → n + 4 ≡ m
    → m < half32
    → resp_sized (ok (pos n, id), r) ≡ resp_body (pos n) id (pos m) none r
unfolding resp_sized
resp_sized_lem n m id r e h = rw (add_size-pos n (omega arith), e, alloc-none m h)

-- A response of a size that a buffer can hold is delivered whole, with its correlation id, and what
-- follows it stays on the stream.
pub read_resp_lem :
    (id : ℤ) (body rest : List ℕ) (e : GoError)
    → InRange half32 id
    → length body + 8 < half32
    → read_resp (at (framed (put_uint 4 (to_bits half32 id) ++ body) ++ rest) e)
      ≡ (ok (id, framed (put_uint 4 (to_bits half32 id) ++ body)), at rest e)
unfolding read_resp
read_resp_lem id body rest e h fits =
    let k : List ℕ = put_uint 4 (to_bits half32 id) in
    let n : ℕ = length (k ++ body) in
    let ln : n + 4 ≡ 8 + length body =
      omega (arith, length-append k body, length-put_uint 4 (to_bits half32 id)) in
    ap (λ b. resp_sized (read_head resp_head (at b e)))
      (regroup (put_uint 4 (to_bits half32 (pos n))) k body rest)
    ∙ ap resp_sized (
        read_head-Reads resp_head (put_uint 4 (to_bits half32 (pos n)) ++ k) (body ++ rest) e
          (Reads-resp_head (pos n) id (omega arith) h))
    ∙ resp_sized_lem n (8 + length body) id (at (body ++ rest) e) ln (omega arith)
    ∙ resp_body-read (pos n) id body rest e

-- the message sizes from -4 to -1
abbrev pub IsShort : ℤ → Type 0
IsShort (pos n) = n < 4
IsShort (negsuc n) = n < 4

put_id-short : (id : ℤ) (u n : ℕ) → n < 8 → put_id id (put_at 0 4 u (zeros n)) ≡ panic
unfolding put_id put_at zeros put_uint
put_id-short id u zero h = refl
put_id-short id u (suc zero) h = refl
put_id-short id u (suc (suc zero)) h = refl
put_id-short id u (suc (suc (suc zero))) h = refl
put_id-short id u (suc (suc (suc (suc zero)))) h = refl
put_id-short id u (suc (suc (suc (suc (suc zero))))) h = refl
put_id-short id u (suc (suc (suc (suc (suc (suc zero)))))) h = refl
put_id-short id u (suc (suc (suc (suc (suc (suc (suc zero))))))) h = refl
put_id-short id u (suc (suc (suc (suc (suc (suc (suc (suc n)))))))) h = absurd (omega arith)

short_size : (size : ℤ) → IsShort size → (m : ℕ) × (m < 8) × (add_size size ≡ pos m)
short_size (pos n) h = (n + 4, omega arith, add_size-pos n (omega arith))
short_size (negsuc n) h = (3 - n, omega arith, unfold add_size in ground arith)

short-InRange : (size : ℤ) → IsShort size → InRange half32 size
short-InRange (pos n) h = omega arith
short-InRange (negsuc n) h = omega arith

short_body : (size id : ℤ) (r : Reader) → IsShort size → (resp_sized (ok (size, id), r)).0 ≡ panic
unfolding resp_sized
short_body size id r h =
    let (m, lt, e) = short_size size h in
    rw (e, alloc-none m (omega arith), put_id-short id (to_bits half32 size) m lt)

-- A message size from -4 to 3 makes ReadResp panic: its buffer of size + 4 bytes cannot hold the
-- eight bytes that are put back.
pub read_resp-panic :
    (size id : ℤ) (rest : List ℕ) (e : GoError)
    → IsShort size
    → InRange half32 id
    → (read_resp
        (at ((put_uint 4 (to_bits half32 size) ++ put_uint 4 (to_bits half32 id)) ++ rest) e)).0
      ≡ panic
unfolding read_resp
read_resp-panic size id rest e s h =
    rw
      (read_head-Reads resp_head
        (put_uint 4 (to_bits half32 size) ++ put_uint 4 (to_bits half32 id)) rest e
        (Reads-resp_head size id (short-InRange size s) h))
      (short_body size id (at rest e) s)
