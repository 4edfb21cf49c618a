-- ===== src/Proto/Codec.antt =====
-- What an encoder action writes, what a decoder action reads, and when the two agree. A round trip
-- of a whole message is put together from these rules, one for each statement of the two routines.
pub mod Prims
pub mod Arrays
pub mod Fields
use kafka_api.Common.{
  ℕ, zero, suc, ◌+◌, ◌-◌, ◌*◌, ◌/◌, ◌%◌, ◌^◌, ◌≤◌, ◌<◌, ◌≡◌, refl, ap, sym, ◌∙◌, Bool, true, false,
  Option, none, some, List, [], ◌∷◌, ◌++◌, append_assoc, append-nil, arith, ltb, leb, ◌==◌,
  if◌then◌else◌, length, length-append, take, drop, Bool-cases, inl, inr, subst, All,
}
use kafka_api.Common.Int.{ℤ, pos, negsuc, half32}
use kafka_api.Flow.{Step, Act, next, returns, panics, ◌>>=◌, ◌>>◌, pure, >>-next, >>=-next}
use kafka_api.Proto.Errors.{GoError}
use kafka_api.Proto.Writer.{Writer, IsWriter}
use kafka_api.Proto.Encoder.{Encoder, Encoding, each, when}
use kafka_api.Proto.Decoder.{Reader, Decoder, Decoding, new_decoder, fill, optional}

-- the action reads the bytes b, whatever follows them, as the value a
abbrev pub Reads : {A : Type 0} → Decoding A → List ℕ → A → Type 0
Reads d b a =
    (rest : List ℕ) (e : GoError)
    → d (new_decoder (record { bytes = b ++ rest; ended = e }))
      ≡ next a (new_decoder (record { bytes = rest; ended = e }))

pub Reads-pure : {A : Type 0} (a : A) → Reads (pure a) [] a
unfolding pure
Reads-pure a rest e = refl

pub Reads-bind :
    {A B : Type 0} (d : Decoding A) (f : A → Decoding B) (b c : List ℕ) {x : A} {y : B}
    → Reads d b x
    → Reads (f x) c y
    → Reads (d >>= f) (b ++ c) y
Reads-bind d f b c hd hf rest e =
    rw (append_assoc b c rest) (>>=-next d f _ (hd (c ++ rest) e) ∙ hf rest e)

pub Reads-map :
    {A B : Type 0} (d : Decoding A) (g : A → B) (b : List ℕ) {x : A}
    → Reads d b x
    → Reads (d >>= (λ y. pure (g y))) b (g x)
Reads-map d g b {x} h rest e = >>=-next d (λ y. pure (g y)) _ (h rest e) ∙ Reads-pure (g x) rest e

module _ {W : Type 0} ⦃io : Writer W⦄ (laws : IsWriter io) where
  -- the action writes the bytes b to a writer that has room for them
  abbrev pub Writes : Encoding W → List ℕ → Type 0
  Writes m b =
      (w : W)
      → laws.accepts w (length b)
      → m (record { w = w; err = none }) ≡ next tt (record { w = laws.put w b; err = none })

  pub Writes-nothing : Writes (pure tt) []
  unfolding pure
  Writes-nothing w h = rw (laws.put-nil w)

  pub Writes-then :
      (m k : Encoding W) (b c : List ℕ) → Writes m b → Writes k c → Writes (m >> k) (b ++ c)
  Writes-then m k b c hm hk w h =
      let (here, after) = laws.accepts-append w b c h in
      rw (← laws.put-append w b c) (>>-next m k _ (hm w here) ∙ hk (laws.put w b) after)

  -- the encoder writes some bytes that the decoder reads as the value a
  pub record Codec {A : Type 0} (m : Encoding W) (d : Decoding A) (a : A) : Type 0 where
    pub bytes : List ℕ
    pub writes : Writes m bytes
    pub reads : Reads d bytes a

  pub Codec-nothing : {A : Type 0} (a : A) → Codec (pure tt) (pure a) a
  Codec-nothing a = record { bytes = []; writes = Writes-nothing; reads = Reads-pure a }

  pub Codec-bind :
      {A B : Type 0} {m k : Encoding W} {d : Decoding A} (f : A → Decoding B) {x : A} {y : B}
      → Codec m d x
      → Codec k (f x) y
      → Codec (m >> k) (d >>= f) y
  Codec-bind {m = m} {k = k} {d = d} f hm hk = record {
    bytes = hm.bytes ++ hk.bytes;
    writes = Writes-then m k hm.bytes hk.bytes hm.writes hk.writes;
    reads = Reads-bind d f hm.bytes hk.bytes hm.reads hk.reads;
  }

  -- the last statement of the encoder, and the decoder's last read
  pub Codec-last :
      {A B : Type 0} {m : Encoding W} {d : Decoding A} (g : A → B) {x : A}
      → Codec m d x
      → Codec m (d >>= (λ y. pure (g y))) (g x)
  Codec-last {d = d} g hm = record {
    bytes = hm.bytes;
    writes = hm.writes;
    reads = Reads-map d g hm.bytes hm.reads;
  }

  -- a field that only some versions carry
  pub Codec-optional :
      {A : Type 0} {m : Encoding W} {d : Decoding A} {x z : A} (c : Bool)
      → (c ≡ true → Codec m d x)
      → (c ≡ false → x ≡ z)
      → Codec (when c m) (optional c z d) x
  unfolding when optional
  Codec-optional true h l = h refl
  Codec-optional {x = x} false h l =
      subst (λ z. Codec (pure tt) (pure z) x) (l refl) (Codec-nothing x)

  pub Codec-each :
      {A : Type 0} (m : A → Encoding W) (d : Decoding A) (xs : List A)
      → All (λ x. Codec (m x) d x) xs
      → Codec (each m xs) (fill d (length xs)) xs
  unfolding each fill
  Codec-each m d [] h = Codec-nothing []
  Codec-each m d (x ∷ xs) (h, hs) = Codec-bind _ h (Codec-last _ (Codec-each m d xs hs))
