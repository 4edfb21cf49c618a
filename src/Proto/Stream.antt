-- ===== src/Proto/Stream.antt =====
-- ReadReq and ReadResp of v2/proto/messages.go, which cut a stream into messages.
pub mod Frames
pub mod Responses
use kafka_api.Common.{
  ℕ, zero, suc, ◌+◌, ◌-◌, Bool, true, false, Option, none, some, List, [], ◌∷◌, ◌++◌, leb, ltb,
  if◌then◌else◌, length, take,
}
use kafka_api.Common.Int.{ℤ, pos, negsuc, half16, half32, to_bits, wrap}
use kafka_api.Flow.{Returned, ok, err, panic, Step, next, returns, panics, ◌>>=◌, pure}
use kafka_api.Proto.Errors.{GoError}
use kafka_api.Proto.Writer.{alloc_parse_buf}
use kafka_api.Proto.Decoder.{
  Reader, Decoder, Decoding, new_decoder, read_full, decode_int16, decode_int32,
}
use kafka_api.Proto.Frame.{Result, put_at}

-- msgSize + 4 in int32 arithmetic
unfoldable pub add_size : ℤ → ℤ
add_size (pos n) = wrap half32 (pos (n + 4))
add_size (negsuc n) = if leb n 3 then pos (3 - n) else negsuc (n - 4)

-- make([]byte, n)
unfoldable pub zeros : ℕ → List ℕ
zeros zero = []
zeros (suc n) = 0 ∷ zeros n

filled : ℕ → List ℕ → (List ℕ × Option GoError) × Reader → Result (List ℕ) × Reader
filled i b ((got, some e), r) = (err e, r)
filled i b ((got, none), r) = (ok (take i b ++ got), r)

-- io.ReadFull(r, b[i:])
unfoldable pub fill_from : ℕ → List ℕ → Reader → Result (List ℕ) × Reader
unfolding filled
fill_from i b r = filled i b (read_full (length b - i) r)

-- the head of a message, when both integers could be read
unfoldable pub read_head : Decoding (ℤ × ℤ) → Reader → (Result (ℤ × ℤ)) × Reader
read_head dec r = elim (dec (new_decoder r)) [
  | next v d ↦ (elim d.err [ some e ↦ err e | none ↦ ok v ], d.r)
  | returns e ↦ (err e, r)
  | panics ↦ (panic, r)
]

-- `return number, b, err`
with_number : ℤ → Result (List ℕ) × Reader → Result (ℤ × List ℕ) × Reader
with_number number (ok b, r) = (ok (number, b), r)
with_number number (err e, r) = (err e, r)
with_number number (panic, r) = (panic, r)

-- the last test of ReadReq: what the message holds beyond the request kind
unfoldable pub req_rest : ℤ → Result (List ℕ) → Reader → Result (ℤ × List ℕ) × Reader
unfolding fill_from with_number
req_rest kind (ok b) r =
    if ltb 6 (length b) then with_number kind (fill_from 6 b r) else (ok (kind, b), r)
req_rest kind (err e) r = (err e, r)
req_rest kind panic r = (panic, r)

-- `if len(b) >= 6 { binary.BigEndian.PutUint16(b[4:], uint16(requestKind)) }`
unfoldable pub put_kind : ℤ → Result (List ℕ) → Result (List ℕ)
put_kind kind (ok b) = if leb 6 (length b) then put_at 4 2 (to_bits half16 kind) b else ok b
put_kind kind (err e) = err e
put_kind kind panic = panic

unfoldable pub req_body : ℤ → ℤ → ℤ → Option GoError → Reader → Result (ℤ × List ℕ) × Reader
unfolding put_kind req_rest zeros put_at
req_body msg_size kind size (some e) r = (err e, r)
req_body msg_size kind (negsuc n) none r = (panic, r)
req_body msg_size kind (pos n) none r =
    req_rest kind (put_kind kind (put_at 0 4 (to_bits half32 msg_size) (zeros n))) r

unfoldable pub req_sized : Result (ℤ × ℤ) × Reader → Result (ℤ × List ℕ) × Reader
unfolding req_body
req_sized (ok (msg_size, kind), r) =
    req_body msg_size kind (add_size msg_size) (alloc_parse_buf (add_size msg_size)) r
req_sized (err e, r) = (err e, r)
req_sized (panic, r) = (panic, r)

unfoldable pub req_head : Decoding (ℤ × ℤ)
req_head = do msg_size ← decode_int32; kind ← decode_int16; pure (msg_size, kind)

-- The request kind and the whole message, and the reader behind it.
unfoldable pub read_req : Reader → Result (ℤ × List ℕ) × Reader
read_req r = req_sized (read_head req_head r)

-- binary.BigEndian.PutUint32(b[4:], uint32(correlationID)); b[4:] itself panics below 4 bytes
unfoldable pub put_id : ℤ → Result (List ℕ) → Result (List ℕ)
put_id id (ok b) = put_at 4 4 (to_bits half32 id) b
put_id id (err e) = err e
put_id id panic = panic

unfoldable pub resp_rest : ℤ → Result (List ℕ) → Reader → Result (ℤ × List ℕ) × Reader
unfolding fill_from with_number
resp_rest id (ok b) r = with_number id (fill_from 8 b r)
resp_rest id (err e) r = (err e, r)
resp_rest id panic r = (panic, r)

unfoldable pub resp_body : ℤ → ℤ → ℤ → Option GoError → Reader → Result (ℤ × List ℕ) × Reader
unfolding put_id resp_rest zeros put_at
resp_body msg_size id size (some e) r = (err e, r)
resp_body msg_size id (negsuc n) none r = (panic, r)
resp_body msg_size id (pos n) none r =
    resp_rest id (put_id id (put_at 0 4 (to_bits half32 msg_size) (zeros n))) r

unfoldable pub resp_sized : Result (ℤ × ℤ) × Reader → Result (ℤ × List ℕ) × Reader
unfolding resp_body
resp_sized (ok (msg_size, id), r) =
    resp_body msg_size id (add_size msg_size) (alloc_parse_buf (add_size msg_size)) r
resp_sized (err e, r) = (err e, r)
resp_sized (panic, r) = (panic, r)

unfoldable pub resp_head : Decoding (ℤ × ℤ)
resp_head = do msg_size ← decode_int32; id ← decode_int32; pure (msg_size, id)

-- The correlation id and the whole message, and the reader behind it.
unfoldable pub read_resp : Reader → Result (ℤ × List ℕ) × Reader
read_resp r = resp_sized (read_head resp_head r)
