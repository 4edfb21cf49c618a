-- ===== src/Proto/Snappy/RoundTrip.antt =====
-- snappyDecode joins the chunks of a framed block, and its loop always ends.
use kafka_api.Common.{
  ℕ, zero, suc, ◌+◌, ◌^◌, ◌<◌, ◌≤◌, ◌≡◌, ◌≢◌, refl, ap, sym, ◌∙◌, arith, true, none, some, List, [],
  ◌∷◌, ◌++◌, append_assoc, append-nil, ◌⊎◌, inr, All, length, length-append, take-append,
  drop-append,
}
use kafka_api.Common.Bytes.{put_uint, get_uint, length-put_uint, get_uint-put_uint}
use kafka_api.Flow.{ok}
use kafka_api.Proto.Errors.{GoError}
use kafka_api.Proto.Snappy.{
  snappy_java_magic, has_prefix, slice, chunks, java_framed, snappy_decode,
}

slice-append : (a x y : List ℕ) → slice (length a) (length x) (a ++ (x ++ y)) ≡ some x
unfolding slice
slice-append a x y =
    rw (drop-append a (x ++ y), take-append x y)
      (ground (arith, length-append a (x ++ y), length-append x y))

slice-at :
    (i n : ℕ) (a x y full : List ℕ)
    → length a ≡ i
    → length x ≡ n
    → full ≡ a ++ (x ++ y)
    → slice i n full ≡ some x
slice-at i n a x y full ei en ef = rw (← ei, ← en, ef) (slice-append a x y)

-- a chunk and what it decodes to
abbrev pub frames : List (List ℕ × List ℕ) → List ℕ
frames [] = []
frames ((c, d) ∷ ps) = put_uint 4 (length c) ++ (c ++ frames ps)

abbrev pub contents : List (List ℕ × List ℕ) → List ℕ
contents [] = []
contents ((c, d) ∷ ps) = d ++ contents ps

module _ (decode : List ℕ → GoError ⊎ List ℕ) where
  abbrev pub IsChunk : List ℕ × List ℕ → Type 0
  IsChunk p = (decode p.0 ≡ inr p.1) × (length p.0 < 2 ^ 32)

  chunks-step :
      (fuel len : ℕ) (full a c d y acc : List ℕ)
      → full ≡ a ++ (put_uint 4 (length c) ++ (c ++ y))
      → length a < len
      → IsChunk (c, d)
      → chunks decode (suc fuel) len full (length a) acc
        ≡ chunks decode fuel len full (length a + 4 + length c) (acc ++ d)
  unfolding chunks
  chunks-step fuel len full a c d y acc e lt (dec, fits) =
      let size : List ℕ = put_uint 4 (length c) in
      let four : length size ≡ 4 = length-put_uint 4 (length c) in
      let s1 : slice (length a) 4 full ≡ some size =
        slice-at (length a) 4 a size (c ++ y) full refl four e in
      let s2 : slice (length a + 4) (length c) full ≡ some c =
        slice-at (length a + 4) (length c) (a ++ size) c y full
          (omega (arith, length-append a size, four)) refl
          (e ∙ sym (append_assoc a size (c ++ y))) in
      ground (arith, s1, s2, get_uint-put_uint 4 (length c) (omega arith))

  chunks-done :
      (fuel len : ℕ) (full acc : List ℕ) (i : ℕ)
      → len ≤ i
      → chunks decode (suc fuel) len full i acc ≡ some (ok acc)
  unfolding chunks
  chunks-done fuel len full acc i h = ground arith

  chunks-frames :
      (ps : List (List ℕ × List ℕ)) (fuel len : ℕ) (full a acc beyond : List ℕ)
      → All IsChunk ps
      → length ps < fuel
      → full ≡ a ++ (frames ps ++ beyond)
      → len ≡ length a + length (frames ps)
      → chunks decode fuel len full (length a) acc ≡ some (ok (acc ++ contents ps))
  chunks-frames ps zero len full a acc beyond h lt e l = absurd (omega arith)
  chunks-frames [] (suc fuel) len full a acc beyond h lt e l =
      chunks-done fuel len full acc (length a) (omega (arith, l))
      ∙ ap (λ r. some (ok r)) (sym (append-nil acc))
  chunks-frames ((c, d) ∷ ps) (suc fuel) len full a acc beyond (hc, hs) lt e l =
      let size : List ℕ = put_uint 4 (length c) in
      let a' : List ℕ = a ++ (size ++ c) in
      let y : List ℕ = frames ps ++ beyond in
      let four : length size ≡ 4 = length-put_uint 4 (length c) in
      let la : length a' ≡ length a + 4 + length c =
        omega (arith, length-append a (size ++ c), length-append size c, four) in
      let lf : length (frames ((c, d) ∷ ps)) ≡ 4 + length c + length (frames ps) =
        omega (arith, length-append size (c ++ frames ps), length-append c (frames ps), four) in
      let e1 : full ≡ a ++ (size ++ (c ++ y)) =
        e
        ∙ ap (λ r. a ++ r)
            (append_assoc size (c ++ frames ps) beyond
              ∙ ap (λ r. size ++ r) (append_assoc c (frames ps) beyond)) in
      let e2 : full ≡ a' ++ y =
        e1 ∙ sym (append_assoc a (size ++ c) y ∙ ap (λ r. a ++ r) (append_assoc size c y)) in
      chunks-step fuel len full a c d y acc e1 (omega (arith, l, lf)) hc
      ∙ ap (λ i. chunks decode fuel len full i (acc ++ d)) (sym la)
      ∙ chunks-frames ps fuel len full a' (acc ++ d) beyond hs (omega arith) e2
          (omega (arith, l, lf, la))
      ∙ ap (λ r. some (ok r)) (append_assoc acc d (contents ps))

  length-frames : (ps : List (List ℕ × List ℕ)) → length ps ≤ length (frames ps)
  length-frames [] = omega arith
  length-frames ((c, d) ∷ ps) = omega (
    arith,
    length-append (put_uint 4 (length c)) (c ++ frames ps),
    length-append c (frames ps),
    length-put_uint 4 (length c),
    length-frames ps,
  )

  framed_lem :
      (len : ℕ) (full : List ℕ) (version : List ℕ)
      → get_uint version ≡ 1
      → java_framed decode len full (some version) ≡ chunks decode (suc len) len full 16 []
  unfolding java_framed
  framed_lem len full version e = rw e refl

  decode_framed :
      (b beyond : List ℕ)
      → has_prefix b snappy_java_magic ≡ true
      → slice 8 4 (b ++ beyond) ≡ some (put_uint 4 1)
      → snappy_decode decode b beyond
        ≡ chunks decode (suc (length b)) (length b) (b ++ beyond) 16 []
  unfolding snappy_decode
  decode_framed b beyond p v =
      rw (p, v)
        (framed_lem (length b) (b ++ beyond) (put_uint 4 1) (get_uint-put_uint 4 1 (omega arith)))

  -- Chunks that snappy.Decode decodes, framed as snappy-java frames them, in codec version 1 and with
  -- any compatible version, are decoded to their contents joined, whatever lies behind them in memory.
  pub snappy_decode-frames :
      (compatible : ℕ) (ps : List (List ℕ × List ℕ)) (beyond : List ℕ)
      → All IsChunk ps
      → snappy_decode decode
          (snappy_java_magic ++ (put_uint 4 1 ++ (put_uint 4 compatible ++ frames ps)))
          beyond
        ≡ some (ok (contents ps))
  snappy_decode-frames compatible ps beyond h =
      let version : List ℕ = put_uint 4 1 in
      let extra : List ℕ = put_uint 4 compatible in
      let head : List ℕ = snappy_java_magic ++ (version ++ extra) in
      let b : List ℕ = snappy_java_magic ++ (version ++ (extra ++ frames ps)) in
      let lh : length head ≡ 16 =
        omega
          (arith, length-append version extra, length-put_uint 4 1, length-put_uint 4 compatible) in
      let eb : b ≡ head ++ frames ps =
        ap (λ r. snappy_java_magic ++ r) (sym (append_assoc version extra (frames ps))) in
      let lb : length b ≡ 16 + length (frames ps) =
        ap length eb ∙ omega (arith, length-append head (frames ps), lh) in
      let ef : b ++ beyond ≡ head ++ (frames ps ++ beyond) =
        ap (λ r. r ++ beyond) eb ∙ append_assoc head (frames ps) beyond in
      let ev : slice 8 4 (b ++ beyond) ≡ some version =
        slice-at 8 4 snappy_java_magic version ((extra ++ frames ps) ++ beyond) (b ++ beyond) refl
          (length-put_uint 4 1)
          (ap (λ r. snappy_java_magic ++ r) (append_assoc version (extra ++ frames ps) beyond)) in
      decode_framed b beyond (unfold has_prefix in refl) ev
      ∙ ap (λ i. chunks decode (suc (length b)) (length b) (b ++ beyond) i []) (sym lh)
      ∙ chunks-frames ps (suc (length b)) (length b) (b ++ beyond) head [] beyond h
          (omega (arith, lb, length-frames ps)) ef (omega (arith, lb, lh))

  -- a turn of the loop ends it, or goes on behind the place where it was
  chunks-turn :
      (fuel len : ℕ) (full : List ℕ) (i : ℕ) (decoded : List ℕ)
      → (i < len → (j : ℕ) (d : List ℕ) → i < j → chunks decode fuel len full j d ≢ none)
      → chunks decode (suc fuel) len full i decoded ≢ none
  unfolding chunks
  chunks-turn fuel len full i decoded h e = grind arith

  -- fuel for every byte that is left is enough
  chunks-total :
      (fuel len : ℕ) (full : List ℕ) (i : ℕ) (decoded : List ℕ)
      → len ≤ i + fuel
      → chunks decode (suc fuel) len full i decoded ≢ none
  chunks-total zero len full i decoded h =
      chunks-turn zero len full i decoded (λ more j d lt. absurd (omega arith))
  chunks-total (suc fuel) len full i decoded h =
      chunks-turn (suc fuel) len full i decoded
        (λ more j d lt. chunks-total fuel len full j d (omega arith))

  -- The loop of snappyDecode ends on every input: there is a result, an error or a panic.
  pub snappy_decode-total : (b beyond : List ℕ) → snappy_decode decode b beyond ≢ none
  unfolding snappy_decode java_framed
  snappy_decode-total b beyond e =
      ground (arith, chunks-total (length b) (length b) (b ++ beyond) 16 [] (omega arith))
