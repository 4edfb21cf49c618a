-- ===== src/Common/Map.antt =====
-- Go's maps, as association lists. A key is in such a list once, since `put` removes it first. The
-- order of the list stands for the one in which `range` visits the map, which can be any.
use kafka_api.Common.{
  ℕ, ◌≡◌, refl, ap, ◌∙◌, sym, Bool, true, false, ◌&&◌, Option, none, some, List, [], ◌∷◌, ◌==◌,
  ==_refl, arith, Bool-cases, inl, inr,
}

-- == of the key's type
pub record Key (K : Type 0) : Type 0 where
  pub same : K → K → Bool
  pub same_refl : (k : K) → same k k ≡ true
  pub same→≡ : (a b : K) → same a b ≡ true → a ≡ b

module _ {K V : Type 0} ⦃key : Key K⦄ where
  -- v, ok := m[k]
  unfoldable pub find : K → List (K × V) → Option V
  find k [] = none
  find k ((k', v) ∷ m) = elim (key.same k k') [ true ↦ some v | false ↦ find k m ]

  -- delete(m, k)
  unfoldable pub remove : K → List (K × V) → List (K × V)
  remove k [] = []
  remove k ((k', v) ∷ m) =
      let rest = remove k m in elim (key.same k k') [ true ↦ rest | false ↦ (k', v) ∷ rest ]

  -- m[k] = v
  unfoldable pub put : K → V → List (K × V) → List (K × V)
  unfolding remove
  put k v m = (k, v) ∷ remove k m

  pub find-put : (k : K) (v : V) (m : List (K × V)) → find k (put k v m) ≡ some v
  unfolding find put
  find-put k v m = rw (key.same_refl k) refl

  pub find-remove : (k : K) (m : List (K × V)) → find k (remove k m) ≡ none
  unfolding find remove
  find-remove k [] = refl
  find-remove k ((k', v) ∷ m) = elim (Bool-cases (key.same k k')) [
    | inl t ↦ rw (remove, t) (find-remove k m)
    | inr f ↦ rw (remove, f) (rw (find, f) (find-remove k m))
  ]

  -- another key than the one that is removed
  pub find-remove_other :
      (k l : K) (m : List (K × V)) → key.same l k ≡ false → find l (remove k m) ≡ find l m
  unfolding find remove
  find-remove_other k l [] ne = refl
  find-remove_other k l ((k', v) ∷ m) ne = elim (Bool-cases (key.same k k')) [
    | inl t ↦
        let e : key.same l k' ≡ false = ap (λ x. key.same l x) (sym (key.same→≡ k k' t)) ∙ ne in
        rw (remove, t) (rw (find, e) (find-remove_other k l m ne))
    | inr f ↦ elim (Bool-cases (key.same l k')) [
      | inl t ↦ rw (remove, f) (rw (find, t) refl)
      | inr f' ↦ rw (remove, f) (rw (find, f') (find-remove_other k l m ne))
    ]
  ]

  pub find-put_other :
      (k l : K) (v : V) (m : List (K × V)) → key.same l k ≡ false → find l (put k v m) ≡ find l m
  unfolding find put
  find-put_other k l v m ne = rw ne (find-remove_other k l m ne)

-- == of strings
unfoldable pub same_string : List ℕ → List ℕ → Bool
same_string [] [] = true
same_string (x ∷ xs) (y ∷ ys) = (x == y) && same_string xs ys
same_string _ _ = false

pub same_string_refl : (s : List ℕ) → same_string s s ≡ true
unfolding same_string
same_string_refl [] = refl
same_string_refl (x ∷ xs) = rw (==_refl x) (same_string_refl xs)

pub same_string→≡ : (s t : List ℕ) → same_string s t ≡ true → s ≡ t
unfolding same_string
same_string→≡ [] [] h = refl
same_string→≡ [] (y ∷ ys) h = ground arith
same_string→≡ (x ∷ xs) [] h = ground arith
same_string→≡ (x ∷ xs) (y ∷ ys) h = elim (Bool-cases (x == y)) [
  | inl t ↦
      let tail : same_string xs ys ≡ true = rw (← h, t) refl in
      let head : x ≡ y = ground arith in
      ap (λ z. z ∷ xs) head ∙ ap (λ zs. y ∷ zs) (same_string→≡ xs ys tail)
  | inr f ↦ let no : false ≡ true = rw (← h, f) refl in ground arith
]

instance abbrev pub string_key : Key (List ℕ)
string_key = record { same = same_string; same_refl = same_string_refl; same→≡ = same_string→≡ }
