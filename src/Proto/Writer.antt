-- ===== src/Proto/Writer.antt =====
-- The io.Writers that the encoder of v2/proto/serialization.go writes to: bytes.Buffer and the type
-- `buffer` of v2/proto/messages.go, which grow, and `slicewriter`, whose buffer is fixed.
use kafka_api.Common.{
  ◌<◌, ℕ, ◌≡◌, refl, Option, none, some, List, [], ◌++◌, append_assoc, append-nil, arith, leb, ◌==◌,
  if◌then◌else◌, length,
}
use kafka_api.Common.Int.{ℤ, pos, negsuc, half32}
use kafka_api.Proto.Errors.{GoError, short_write, message_size}

-- Write(p []byte) (n int, err error)
pub record Writer (W : Type 0) : Type 0 where
  pub write : W → List ℕ → (ℕ × Option GoError) × W

-- What the encoder relies on: while there is room, a write takes all bytes, and two writes do what
-- one write of both does.
pub record IsWriter {W : Type 0} (io : Writer W) : Type 1 where
  pub put : W → List ℕ → W
  pub accepts : W → ℕ → Type 0
  pub write_accepted :
      (w : W) (b : List ℕ) → accepts w (length b) → io.write w b ≡ ((length b, none), put w b)
  pub put-nil : (w : W) → put w [] ≡ w
  pub put-append : (w : W) (a b : List ℕ) → put (put w a) b ≡ put w (a ++ b)
  pub accepts-append :
      (w : W) (a b : List ℕ)
      → accepts w (length (a ++ b))
      → accepts w (length a) × accepts (put w a) (length b)

-- bytes.Buffer, and `type buffer []byte`
pub record Buffer : Type 0 where
  pub bytes : List ℕ

instance abbrev pub buffer_writer : Writer Buffer
buffer_writer = record { write = λ w p. ((length p, none), record { bytes = w.bytes ++ p }) }

abbrev pub buffer_laws : IsWriter buffer_writer
buffer_laws = record {
  put = λ w p. record { bytes = w.bytes ++ p };
  accepts = λ w n. Unit {0};
  write_accepted = λ w b h. refl;
  put-nil = λ w. λ i. record { bytes = append-nil w.bytes i };
  put-append = λ w a b. λ i. record { bytes = append_assoc w.bytes a b i };
  accepts-append = λ w a b h. (tt, tt);
}

-- allocParseBuf of v2/proto/utils.go, the error alone
unfoldable pub alloc_parse_buf : ℤ → Option GoError
alloc_parse_buf (pos n) = if leb half32 n then some (message_size (pos n)) else none
alloc_parse_buf (negsuc n) = some (message_size (negsuc n))

pub alloc_parse_buf-none : (n : ℕ) → n < half32 → alloc_parse_buf (pos n) ≡ none
unfolding alloc_parse_buf
alloc_parse_buf-none n h = ground arith

-- writeAll of v2/proto/serialization.go
module _ {W : Type 0} ⦃io : Writer W⦄ where
  checked : List ℕ → (ℕ × Option GoError) × W → Option GoError × W
  checked b ((n, some e), w) = (some e, w)
  checked b ((n, none), w) =
      if n == length b then (none, w) else (some (short_write (length b) n), w)

  unfoldable pub write_all : W → List ℕ → Option GoError × W
  unfolding checked
  write_all w b = checked b (io.write w b)

  pub write_all-accepted :
      (laws : IsWriter io) (w : W) (b : List ℕ)
      → laws.accepts w (length b)
      → write_all w b ≡ (none, laws.put w b)
  unfolding write_all
  write_all-accepted laws w b h = rw (laws.write_accepted w b h) (ground arith)
