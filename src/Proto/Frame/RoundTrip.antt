-- ===== src/Proto/Frame/RoundTrip.antt =====
-- From the rules for fields to whole messages.
use kafka_api.Common.{
  ℕ, ◌-◌, ◌≡◌, ap, ◌∙◌, List, [], ◌++◌, arith, length, length-append, append_assoc,
}
use kafka_api.Common.Int.{ℤ, pos, InRange, half16, half32, to_bits, to_bits-lt}
use kafka_api.Common.Bytes.{put_uint, length-put_uint}
use kafka_api.Flow.{ok, and_then, ◌>>=◌, ◌>>◌, then_assoc, bind_assoc, >>=-next}
use kafka_api.Proto.Errors.{GoError}
use kafka_api.Proto.Writer.{Buffer, buffer_writer, buffer_laws}
use kafka_api.Proto.Encoder.{Encoding, encode_int16, encode_int32}
use kafka_api.Proto.Decoder.{Decoding, Reader, decode_int16, decode_int32, new_decoder}
use kafka_api.Proto.Codec.{Codec, Writes, Writes-then, Reads, Reads-bind, Codec-bind}
use kafka_api.Proto.Codec.Prims.{Writes-int32, Writes-int16, Reads-int32, Reads-int16, Reads-any32}
use kafka_api.Proto.Header.{
  Kind, RequestHeader, IsHeader, encode_header, decode_header, encode_fields, decode_fields,
  Codec-fields, encode_named, decode_named, Codec-named, kind_number, kind_number-InRange,
}
use kafka_api.Proto.Frame.{Result, put_at, to_bytes, read_all, finished, decoded}

-- the message whose body is the bytes b
abbrev pub framed : List ℕ → List ℕ
framed b = put_uint 4 (to_bits half32 (pos (length b))) ++ b

put_at-placeholder :
    (u : ℕ) (b : List ℕ) → put_at 0 4 u (put_uint 4 0 ++ b) ≡ ok (put_uint 4 u ++ b)
unfolding put_at put_uint
put_at-placeholder u b = ground arith

placeholder_size : (b : List ℕ) → length (put_uint 4 0 ++ b) - 4 ≡ length b
placeholder_size b = omega (arith, length-append (put_uint 4 0) b, length-put_uint 4 0)

-- a body that writes b to a buffer makes the message of b
pub to_bytes-framed :
    (k : Encoding Buffer) (b : List ℕ)
    → Writes buffer_laws k b
    → to_bytes (encode_int32 (pos 0) >> k) ≡ ok (framed b)
unfolding to_bytes to_bits
to_bytes-framed k b h =
    let run =
      Writes-then buffer_laws (encode_int32 (pos 0)) k (put_uint 4 0) b
        (Writes-int32 buffer_laws (pos 0)) h (record { bytes = [] }) tt in
    ap finished run ∙ rw placeholder_size (put_at-placeholder (to_bits half32 (pos (length b))) b)

-- the size is read and dropped, whatever it is
pub read_all-framed :
    {A : Type 0} (d : Decoding A) (b rest : List ℕ) (e : GoError) {a : A}
    → Reads d b a
    → read_all (decode_int32 >>= (λ size. d)) (record { bytes = framed b ++ rest; ended = e })
      ≡ ok a
unfolding read_all
read_all-framed d b rest e h =
    let size : ℕ = to_bits half32 (pos (length b)) in
    let run =
      Reads-bind decode_int32 (λ size. d) (put_uint 4 size) b
        (Reads-any32 size (to_bits-lt half32 _ (omega arith))) h rest e in
    ap decoded run

-- A message that starts with some bytes behind its size: it is written, and comes back as a value,
-- whatever follows it on the stream.
pub record Sending {A : Type 0} (head : List ℕ) (m : Result (List ℕ)) (read : Reader → Result A)
    (a : A) : Type 0 where
  pub body : List ℕ
  pub sent : m ≡ ok (framed (head ++ body))
  pub back :
      (rest : List ℕ) (e : GoError)
      → read (record { bytes = framed (head ++ body) ++ rest; ended = e }) ≡ ok a

pub sent_back :
    {A : Type 0} {head : List ℕ} {m : Result (List ℕ)} {read : Reader → Result A} {a : A}
    → Sending head m read a
    → (rest : List ℕ) (e : GoError)
    → and_then m (λ b. read (record { bytes = b ++ rest; ended = e })) ≡ ok a
sent_back s rest e = rw s.sent (s.back rest e)

pub framed_sent :
    {A : Type 0} (k : Encoding Buffer) (d : Decoding A) (a : A) (head body : List ℕ)
    → Writes buffer_laws k (head ++ body)
    → Reads d (head ++ body) a
    → Sending head
        (to_bytes (encode_int32 (pos 0) >> k))
        (read_all (decode_int32 >>= (λ size. d)))
        a
framed_sent k d a head body w r = record {
  body = body;
  sent = to_bytes-framed k (head ++ body) w;
  back = λ rest e. read_all-framed d (head ++ body) rest e r;
}

-- A response whose statements behind the correlation id match.
pub response_sent :
    {A : Type 0} {k : Encoding Buffer} (id : ℤ) (f : ℤ → Decoding A) (a : A)
    → InRange half32 id
    → Codec buffer_laws k (f id) a
    → Sending
        (put_uint 4 (to_bits half32 id))
        (to_bytes (encode_int32 (pos 0) >> (encode_int32 id >> k)))
        (read_all (decode_int32 >>= (λ size. decode_int32 >>= f)))
        a
response_sent {k = k} id f a h c =
    framed_sent (encode_int32 id >> k) (decode_int32 >>= f) a (put_uint 4 (to_bits half32 id))
      c.bytes
      (Writes-then buffer_laws (encode_int32 id) k _ c.bytes (Writes-int32 buffer_laws id) c.writes)
      (Reads-bind decode_int32 f _ c.bytes (Reads-int32 id h) c.reads)

fields-then :
    (kind : Kind) (h : RequestHeader) (k : Encoding Buffer)
    → (encode_fields kind h >> k) ≡ (encode_int16 (kind_number kind) >> (encode_named h >> k))
unfolding encode_fields
fields-then kind h k = then_assoc (encode_int16 (kind_number kind)) (encode_named h) k

fields-bind :
    {A : Type 0} (d : RequestHeader → Decoding A)
    → (decode_fields >>= d) ≡ (decode_int16 >>= (λ api_key. decode_named >>= d))
unfolding decode_fields
fields-bind d = bind_assoc decode_int16 (λ api_key. decode_named) d

-- A request whose statements behind the header match.
pub request_sent :
    {A : Type 0} (kind : Kind) (h : RequestHeader) (k : Encoding Buffer)
    (d : RequestHeader → Decoding A) (a : A)
    → IsHeader h
    → Codec buffer_laws k (d h) a
    → Sending
        (put_uint 2 (to_bits half16 (kind_number kind)))
        (to_bytes (encode_header kind h >> k))
        (read_all (decode_header >>= d))
        a
unfolding encode_header decode_header
request_sent kind h k d a v c =
    let number = kind_number kind in
    let all = Codec-bind buffer_laws d (Codec-named buffer_laws h v) c in
    rw (then_assoc, bind_assoc, fields-then kind h k, fields-bind d)
      (framed_sent (encode_int16 number >> (encode_named h >> k))
        (decode_int16 >>= (λ api_key. decode_named >>= d)) a (put_uint 2 (to_bits half16 number))
        all.bytes
        (Writes-then buffer_laws (encode_int16 number) (encode_named h >> k) _ all.bytes
          (Writes-int16 buffer_laws number) all.writes)
        (Reads-bind decode_int16 (λ api_key. decode_named >>= d) _ all.bytes
          (Reads-int16 number (kind_number-InRange kind)) all.reads))

-- A request whose first fields are read back: the reader goes on behind them.
pub request_then :
    {A B : Type 0} (kind : Kind) (h : RequestHeader) (k : Encoding Buffer)
    (d : RequestHeader → Decoding A) (g : RequestHeader → A → Decoding B) {x : A} (rest : List ℕ)
    (e : GoError)
    → IsHeader h
    → Codec buffer_laws k (d h) x
    → and_then (to_bytes (encode_header kind h >> k)) (λ b.
      read_all (decode_header >>= (λ h'. d h' >>= g h')) (record { bytes = b ++ rest; ended = e }))
      ≡ decoded (g h x (new_decoder (record { bytes = rest; ended = e })))
unfolding encode_header decode_header read_all
request_then kind h k d g {x} rest e v c =
    let f : RequestHeader → Decoding _ = λ h'. d h' >>= g h' in
    let hd = Codec-fields buffer_laws kind h v in
    let b : List ℕ = hd.bytes ++ c.bytes in
    let size : ℕ = to_bits half32 (pos (length b)) in
    let at = λ (bs : List ℕ). new_decoder (record { bytes = bs; ended = e }) in
    rw
      (
        then_assoc,
        bind_assoc,
        to_bytes-framed (encode_fields kind h >> k) b
            (Writes-then buffer_laws (encode_fields kind h) k hd.bytes c.bytes hd.writes c.writes),
        append_assoc (put_uint 4 size) b rest,
        append_assoc hd.bytes c.bytes rest,
      )
      (ap decoded (
        >>=-next decode_int32 (λ _. decode_fields >>= f)
          (at (put_uint 4 size ++ (hd.bytes ++ (c.bytes ++ rest))))
          (Reads-any32 size (to_bits-lt half32 _ (omega arith)) (hd.bytes ++ (c.bytes ++ rest)) e)
        ∙ >>=-next decode_fields f (at (hd.bytes ++ (c.bytes ++ rest)))
            (hd.reads (c.bytes ++ rest) e)
        ∙ >>=-next (d h) (g h) (at (c.bytes ++ rest)) (c.reads rest e)))
