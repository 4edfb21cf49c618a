-- ===== src/Flow.antt =====
-- How a Go function ends: with a value, with an error, or with a run-time panic; and actions that
-- thread a mutable object (the encoder and the decoder of v2/proto).
use kafka_api.Common.{◌≡◌, refl, ap, fun_ext}

-- What a call of a function with results (A, error) gives its caller; E is the type of errors.
pub data Returned {ℓ} (E A : Type ℓ) : Type ℓ where
  ok : A → Returned E A
  err : E → Returned E A
  panic : Returned E A

-- `v, err := m; if err != nil { return err }`
abbrev pub and_then {ℓ} : {E A B : Type ℓ} → Returned E A → (A → Returned E B) → Returned E B
and_then (ok a) f = f a
and_then (err e) f = err e
and_then panic f = panic

-- An action on an object S inside a function: it goes on with a value and the changed object, or
-- the function returns an error, or panics.
pub data Step {ℓ} (E S A : Type ℓ) : Type ℓ where
  next : A → S → Step E S A
  returns : E → Step E S A
  panics : Step E S A

abbrev pub Act {ℓ} : Type ℓ → Type ℓ → Type ℓ → Type ℓ
Act E S A = S → Step E S A

module _ {ℓ} {E S A : Type ℓ} where
  unfoldable pub pure : A → Act E S A
  pure a s = next a s

  -- an early `return nil, e`
  unfoldable pub fail : E → Act E S A
  fail e s = returns e

  unfoldable pub crash : Act E S A
  crash s = panics

module _ {ℓ} {E S A B : Type ℓ} where
  unfoldable pub continue : Step E S A → (A → Act E S B) → Step E S B
  continue (next a s) f = f a s
  continue (returns e) f = returns e
  continue panics f = panics

  infixr 5 ◌>>=◌ ◌>>◌
  unfoldable pub ◌>>=◌ : Act E S A → (A → Act E S B) → Act E S B
  unfolding continue pure fail crash
  ◌>>=◌ m f s = continue (m s) f

  unfoldable pub ◌>>◌ : Act E S A → Act E S B → Act E S B
  unfolding ◌>>=◌
  ◌>>◌ m k s = continue (m s) (λ _. k)

  pub >>=-next :
      (m : Act E S A) (f : A → Act E S B) (s : S) {a : A} {s' : S}
      → m s ≡ next a s'
      → (m >>= f) s ≡ f a s'
  unfolding ◌>>=◌
  >>=-next m f s e = ap (λ r. continue r f) e

  pub >>-next :
      (m : Act E S A) (k : Act E S B) (s : S) {a : A} {s' : S} → m s ≡ next a s' → (m >> k) s ≡ k s'
  unfolding ◌>>◌
  >>-next m k s e = ap (λ r. continue r (λ _. k)) e

module _ {ℓ} {E S A B C : Type ℓ} where
  continue-continue :
      (f : A → Act E S B) (g : B → Act E S C) (r : Step E S A)
      → continue (continue r f) g ≡ continue r (λ a s. continue (f a s) g)
  unfolding continue
  continue-continue f g (next a s) = refl
  continue-continue f g (returns e) = refl
  continue-continue f g panics = refl

  pub bind_assoc :
      (m : Act E S A) (f : A → Act E S B) (g : B → Act E S C)
      → ((m >>= f) >>= g) ≡ (m >>= (λ a. f a >>= g))
  unfolding ◌>>=◌
  bind_assoc m f g = fun_ext (λ s. continue-continue f g (m s))

  pub then_assoc :
      (m : Act E S A) (k : Act E S B) (l : Act E S C) → ((m >> k) >> l) ≡ (m >> (k >> l))
  unfolding ◌>>◌
  then_assoc m k l = fun_ext (λ s. continue-continue (λ _. k) (λ _. l) (m s))
