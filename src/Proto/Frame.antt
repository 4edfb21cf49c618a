-- ===== src/Proto/Frame.antt =====
-- Whole messages of v2/proto/messages.go: the end of every Bytes method (the test of the encoder's
-- error and the size that is patched in) and the end of every Read function.
pub mod RoundTrip
use kafka_api.Common.{
  ℕ, zero, suc, ◌+◌, ◌-◌, ◌%◌, ◌^◌, ◌≡◌, Bool, true, false, Option, none, some, List, [], ◌∷◌, ◌++◌,
  arith, leb, ltb, if◌then◌else◌, length, take, drop,
}
use kafka_api.Common.Int.{ℤ, pos, negsuc, half16, half32, to_bits, wrap}
use kafka_api.Common.Bytes.{put_uint}
use kafka_api.Flow.{Returned, ok, err, panic, Step, next, returns, panics, and_then}
use kafka_api.Proto.Errors.{GoError}
use kafka_api.Proto.Writer.{Buffer, alloc_parse_buf}
use kafka_api.Proto.Encoder.{Encoder, Encoding}
use kafka_api.Proto.Decoder
use kafka_api.Proto.Decoder.{Reader, Decoder, Decoding, new_decoder, read_full}

abbrev pub Result : Type 0 → Type 0
Result A = Returned GoError A

-- binary.BigEndian.PutUintW(b[i:], u) with k bytes: it panics where b is too short
unfoldable pub put_at : ℕ → ℕ → ℕ → List ℕ → Result (List ℕ)
put_at i k u b =
    if leb (i + k) (length b) then ok (take i b ++ (put_uint k u ++ drop (i + k) b)) else panic

unfoldable pub finished : Step GoError (Encoder Buffer) Unit → Result (List ℕ)
unfolding put_at
finished (next x e) = elim e.err [
  | some x ↦ err x
  | none ↦ put_at 0 4 (to_bits half32 (pos (length e.w.bytes - 4))) e.w.bytes
]
finished (returns x) = err x
finished panics = panic

-- `var buf bytes.Buffer; enc := NewEncoder(&buf); …; if enc.Err() != nil { return nil, enc.Err() };
-- b := buf.Bytes(); binary.BigEndian.PutUint32(b, uint32(len(b)-4)); return b, nil`.
-- An encoder without an error has written its placeholder, so len(b)-4 is not negative.
unfoldable pub to_bytes : Encoding Buffer → Result (List ℕ)
unfolding finished
to_bytes enc = finished (enc (record { w = record { bytes = [] }; err = none }))

unfoldable pub decoded : {A : Type 0} → Step GoError Decoder A → Result A
decoded (next a d) = elim d.err [ some e ↦ err e | none ↦ ok a ]
decoded (returns e) = err e
decoded panics = panic

-- `dec := NewDecoder(r); …; if dec.Err() != nil { return nil, dec.Err() }; return &resp, nil`
unfoldable pub read_all : {A : Type 0} → Decoding A → Reader → Result A
unfolding decoded
read_all dec r = decoded (dec (new_decoder r))

-- how many bytes there are, if there are any
abbrev pub size_of : Result (List ℕ) → ℕ
size_of (ok b) = length b
size_of (err e) = 0
size_of panic = 0
