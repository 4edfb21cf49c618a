-- ===== src/Proto/SliceWriter.antt =====
-- slicewriter of v2/proto/messages.go: an io.Writer over a buffer of fixed size.
use kafka_api.Common.{
  inr, inl, ltb_cases, ◌<◌, ℕ, zero, suc, ◌+◌, ◌≤◌, ◌≡◌, refl, ap, Option, none, some, List, [],
  ◌∷◌, ◌++◌, arith, ltb, if◌then◌else◌, length, length-append, take, drop,
}
use kafka_api.Proto.Writer.{alloc_parse_buf-none, Writer, IsWriter, alloc_parse_buf}
use kafka_api.Common.Int.{half32, pos}
use kafka_api.Proto.Errors.{GoError, buffer_too_small}

pub record SliceWriter : Type 0 where
  pub buf : List ℕ
  pub at : ℕ
  pub size : ℕ

-- make([]byte, n)
unfoldable pub zeroed : ℕ → List ℕ
zeroed zero = []
zeroed (suc n) = 0 ∷ zeroed n

-- copy(b[i:], p), which stops at the shorter end
unfoldable pub overwrite : ℕ → List ℕ → List ℕ → List ℕ
overwrite i p [] = []
overwrite (suc i) p (x ∷ b) = x ∷ overwrite i p b
overwrite zero [] (x ∷ b) = x ∷ b
overwrite zero (y ∷ p) (x ∷ b) = y ∷ overwrite zero p b

-- Write
unfoldable pub write_slice : SliceWriter → List ℕ → (ℕ × Option GoError) × SliceWriter
unfolding overwrite
write_slice w p =
    if ltb (length w.buf) (w.at + length p)
    then ((0, some buffer_too_small), w)
    else ((length p, none), record w { buf = overwrite w.at p w.buf; at = w.at + length p })

instance abbrev pub slice_writer : Writer SliceWriter
slice_writer = record { write = write_slice }

-- newSliceWriter(0)
unfoldable pub new_slice_writer : SliceWriter
new_slice_writer = record { buf = []; at = 0; size = 0 }

-- Reset, with an error if the buffer cannot be made
resized : ℕ → Option GoError → SliceWriter → Option GoError × SliceWriter
resized size (some e) w = (some e, record w { buf = [] })
resized size none w = (none, record { buf = zeroed (size + 1000); at = 0; size = size })

unfoldable pub reset : ℕ → SliceWriter → Option GoError × SliceWriter
unfolding resized zeroed
reset size w =
    if ltb (length w.buf) size
    then resized size (alloc_parse_buf (pos (size + 1000))) w
    else (none, record w { at = 0; size = size })

-- Slice
unfoldable pub written : SliceWriter → List ℕ
written w = take w.at w.buf

pub length-overwrite : (i : ℕ) (p b : List ℕ) → length (overwrite i p b) ≡ length b
unfolding overwrite
length-overwrite i p [] = refl
length-overwrite (suc i) p (x ∷ b) = ap suc (length-overwrite i p b)
length-overwrite zero [] (x ∷ b) = refl
length-overwrite zero (y ∷ p) (x ∷ b) = ap suc (length-overwrite zero p b)

overwrite-nil : (i : ℕ) (b : List ℕ) → overwrite i [] b ≡ b
unfolding overwrite
overwrite-nil i [] = refl
overwrite-nil (suc i) (x ∷ b) = ap (λ r. x ∷ r) (overwrite-nil i b)
overwrite-nil zero (x ∷ b) = refl

overwrite-append :
    (i j : ℕ) (p q b : List ℕ)
    → j ≡ i + length p
    → overwrite j q (overwrite i p b) ≡ overwrite i (p ++ q) b
unfolding overwrite
overwrite-append i j p q [] e = refl
overwrite-append (suc i) zero p q (x ∷ b) e = absurd (omega arith)
overwrite-append (suc i) (suc j) p q (x ∷ b) e =
    ap (λ r. x ∷ r) (overwrite-append i j p q b (omega arith))
overwrite-append zero zero [] q (x ∷ b) e = refl
overwrite-append zero (suc j) [] q (x ∷ b) e = absurd (omega arith)
overwrite-append zero zero (y ∷ p) q (x ∷ b) e = absurd (omega arith)
overwrite-append zero (suc j) (y ∷ p) q (x ∷ b) e =
    ap (λ r. y ∷ r) (overwrite-append zero j p q b (omega arith))

-- writing from the start leaves what lies behind
pub overwrite-start :
    (p b : List ℕ) → length p ≤ length b → overwrite 0 p b ≡ p ++ drop (length p) b
unfolding overwrite
overwrite-start [] [] h = refl
overwrite-start [] (x ∷ b) h = refl
overwrite-start (y ∷ p) [] h = absurd (omega arith)
overwrite-start (y ∷ p) (x ∷ b) h = ap (λ r. y ∷ r) (overwrite-start p b (omega arith))

pub overwrite-middle :
    (i : ℕ) (a p q z : List ℕ)
    → length a ≡ i
    → length p ≡ length q
    → overwrite i p (a ++ (q ++ z)) ≡ a ++ (p ++ z)
unfolding overwrite
overwrite-middle zero [] [] [] z h e = overwrite-nil 0 z
overwrite-middle zero [] [] (x ∷ q) z h e = absurd (omega arith)
overwrite-middle zero [] (y ∷ p) [] z h e = absurd (omega arith)
overwrite-middle zero [] (y ∷ p) (x ∷ q) z h e =
    ap (λ r. y ∷ r) (overwrite-middle zero [] p q z h (omega arith))
overwrite-middle zero (c ∷ a) p q z h e = absurd (omega arith)
overwrite-middle (suc i) [] p q z h e = absurd (omega arith)
overwrite-middle (suc i) (c ∷ a) p q z h e =
    ap (λ r. c ∷ r) (overwrite-middle i a p q z (omega arith) e)

abbrev pub put_slice : SliceWriter → List ℕ → SliceWriter
put_slice w p = record w { buf = overwrite w.at p w.buf; at = w.at + length p }

pub write_slice-put :
    (w : SliceWriter) (b : List ℕ)
    → w.at + length b ≤ length w.buf
    → write_slice w b ≡ ((length b, none), put_slice w b)
unfolding write_slice
write_slice-put w b h = ground arith

pub put_slice-nil : (w : SliceWriter) → put_slice w [] ≡ w
put_slice-nil w =
    let e : w.at + 0 ≡ w.at = omega arith in
    λ i. record w { buf = overwrite-nil w.at w.buf i; at = e i }

pub put_slice-append :
    (w : SliceWriter) (a b : List ℕ) → put_slice (put_slice w a) b ≡ put_slice w (a ++ b)
put_slice-append w a b =
    let e : w.at + length a + length b ≡ w.at + length (a ++ b) =
      omega (arith, length-append a b) in
    λ i. record w { buf = overwrite-append w.at (w.at + length a) a b w.buf refl i; at = e i }

pub fits-append :
    (w : SliceWriter) (a b : List ℕ)
    → w.at + length (a ++ b) ≤ length w.buf
    → (w.at + length a ≤ length w.buf)
      × (w.at + length a + length b ≤ length (overwrite w.at a w.buf))
fits-append w a b h = (
  omega (arith, h, length-append a b),
  omega (arith, h, length-append a b, length-overwrite w.at a w.buf),
)

abbrev pub slice_laws : IsWriter slice_writer
slice_laws = record {
  put = put_slice;
  accepts = λ w n. w.at + n ≤ length w.buf;
  write_accepted = write_slice-put;
  put-nil = put_slice-nil;
  put-append = put_slice-append;
  accepts-append = fits-append;
}

length-zeroed : (n : ℕ) → length (zeroed n) ≡ n
unfolding zeroed
length-zeroed zero = refl
length-zeroed (suc n) = ap suc (length-zeroed n)

-- a buffer that is empty and has room for n bytes
pub record Room (n : ℕ) (w : SliceWriter) : Type 0 where
  pub empty : w.at ≡ 0
  pub room : n ≤ length w.buf

-- a writer that Reset has made ready for n bytes
pub record MadeReady (n : ℕ) (w : SliceWriter) : Type 0 where
  pub after : SliceWriter
  pub ready : reset n w ≡ (none, after)
  pub room : Room n after

resized-Room :
    (n : ℕ) (w : SliceWriter)
    → n + 1000 < half32
    → (after : SliceWriter) × (resized n (alloc_parse_buf (pos (n + 1000))) w ≡ (none, after))
      × Room n after
unfolding resized
resized-Room n w h = (
  record { buf = zeroed (n + 1000); at = 0; size = n },
  rw (alloc_parse_buf-none (n + 1000) h) refl,
  record { empty = refl; room = omega (arith, length-zeroed (n + 1000)) },
)

pub reset-Room : (n : ℕ) (w : SliceWriter) → n + 1000 < half32 → MadeReady n w
unfolding reset
reset-Room n w h = elim (ltb_cases (length w.buf) n) [
  | inl (e, _) ↦
      let (after, eq, room) = resized-Room n w h in
      record { after = after; ready = rw e eq; room = room }
  | inr (e, l) ↦ record {
    after = record w { at = 0; size = n };
    ready = rw e refl;
    room = record { empty = refl; room = omega arith };
  }
]
