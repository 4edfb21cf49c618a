-- ===== src/Connection/Versions.antt =====
-- getBestVersion of v2/connection.go and SupportedByDriver of v2/proto/messages.go.
use kafka_api.Common.{
  ◌∙◌, ℕ, ◌≡◌, inl, inr, refl, arith, true, false, not, Bool-cases, Option, none, some, List, [],
  ◌∷◌, if◌then◌else◌,
}
use kafka_api.Common.Int.{ℤ, pos, less}
use kafka_api.Proto.Errors.{eqb}
use kafka_api.Proto.Header.{Kind, kind_number}
use kafka_api.Proto.ApiVersions.{SupportedVersion}

abbrev upto : Kind → ℕ → ℤ × SupportedVersion
upto kind n =
    (kind_number kind, record { api_key = pos 0; min_version = pos 0; max_version = pos n })

-- The map from the kind of a request to the versions of it that the library can speak.
unfoldable pub supported_by_driver : List (ℤ × SupportedVersion)
unfolding kind_number
supported_by_driver =
    upto Kind.produce 2
    ∷ upto Kind.fetch 5
    ∷ upto Kind.offset 2
    ∷ upto Kind.metadata 5
    ∷ upto Kind.offset_commit 3
    ∷ upto Kind.offset_fetch 3
    ∷ upto Kind.consumer_metadata 1
    ∷ upto Kind.api_versions 1
    ∷ []

unfoldable pub find_version : ℤ → List (ℤ × SupportedVersion) → Option SupportedVersion
find_version key [] = none
find_version key ((k, v) ∷ rest) = if eqb key k then some v else find_version key rest

-- SupportedByDriver[apiKey], whose zero value has version 0 alone
unfoldable pub supported : ℤ → SupportedVersion
unfolding supported_by_driver find_version
supported key = elim (find_version key supported_by_driver) [
  | some v ↦ v
  | none ↦ record { api_key = pos 0; min_version = pos 0; max_version = pos 0 }
]

unfoldable pub min : ℤ → ℤ → ℤ
min a b = if less a b then a else b

unfoldable pub max : ℤ → ℤ → ℤ
max a b = if less b a then a else b

-- the two tests of getBestVersion behind the lookup in c.apiVersions
unfoldable pub best_version : SupportedVersion → SupportedVersion → ℤ
unfolding min max
best_version ours theirs =
    if not
      (less (min ours.max_version theirs.max_version) (max ours.min_version theirs.min_version))
    then min ours.max_version theirs.max_version
    else pos 0

unfoldable pub get_best_version : List (ℤ × SupportedVersion) → ℤ → ℤ
unfolding best_version
get_best_version api_versions key = elim (find_version key api_versions) [
  | some requested ↦ best_version (supported key) requested
  | none ↦ pos 0
]

-- a ≤ b
abbrev pub IsUpTo : ℤ → ℤ → Type 0
IsUpTo a b = less b a ≡ false

-- v is a version in a range
pub record Speaks (s : SupportedVersion) (v : ℤ) : Type 0 where
  pub above : IsUpTo s.min_version v
  pub below : IsUpTo v s.max_version

less_trans : (a b c : ℤ) → IsUpTo a b → IsUpTo b c → IsUpTo a c
less_trans a b c p q = ground arith

less→IsUpTo : (a b : ℤ) → less a b ≡ true → IsUpTo a b
less→IsUpTo a b h = ground arith

less_irrefl : (a : ℤ) → IsUpTo a a
less_irrefl a = ground arith

min-below : (a b : ℤ) → IsUpTo (min a b) a × IsUpTo (min a b) b
unfolding min
min-below a b = elim (Bool-cases (less a b)) [
  | inl h ↦ rw h (less_irrefl a, less→IsUpTo a b h)
  | inr h ↦ rw h (h, less_irrefl b)
]

min-above : (a b v : ℤ) → IsUpTo v a → IsUpTo v b → IsUpTo v (min a b)
unfolding min
min-above a b v p q = ground arith

max-above : (a b : ℤ) → IsUpTo a (max a b) × IsUpTo b (max a b)
unfolding max
max-above a b = elim (Bool-cases (less b a)) [
  | inl h ↦ rw h (less_irrefl a, less→IsUpTo b a h)
  | inr h ↦ rw h (h, less_irrefl b)
]

max-below : (a b v : ℤ) → IsUpTo a v → IsUpTo b v → IsUpTo (max a b) v
unfolding max
max-below a b v p q = ground arith

meet-Speaks :
    (s t : SupportedVersion)
    → IsUpTo (max s.min_version t.min_version) (min s.max_version t.max_version)
    → Speaks s (min s.max_version t.max_version) × Speaks t (min s.max_version t.max_version)
meet-Speaks s t h =
    let lo = max-above s.min_version t.min_version in
    let hi = min-below s.max_version t.max_version in
    let m = min s.max_version t.max_version in
    let l = max s.min_version t.min_version in
    (
      record { above = less_trans s.min_version l m lo.0 h; below = hi.0 },
      record { above = less_trans t.min_version l m lo.1 h; below = hi.1 },
    )

best_version-meet :
    (s t : SupportedVersion)
    → IsUpTo (max s.min_version t.min_version) (min s.max_version t.max_version)
    → best_version s t ≡ min s.max_version t.max_version
unfolding best_version
best_version-meet s t h = rw h refl

get_best_version-found :
    (api_versions : List (ℤ × SupportedVersion)) (key : ℤ) (theirs : SupportedVersion)
    → find_version key api_versions ≡ some theirs
    → get_best_version api_versions key ≡ best_version (supported key) theirs
unfolding get_best_version best_version
get_best_version-found api_versions key theirs e = rw (get_best_version, e) refl

-- A broker that has versions of a request in common with the library is spoken to in the greatest
-- of them.
pub get_best_version-greatest :
    (api_versions : List (ℤ × SupportedVersion)) (key v : ℤ) (theirs : SupportedVersion)
    → find_version key api_versions ≡ some theirs
    → Speaks (supported key) v
    → Speaks theirs v
    → Speaks (supported key) (get_best_version api_versions key)
      × Speaks theirs (get_best_version api_versions key)
      × IsUpTo v (get_best_version api_versions key)
get_best_version-greatest api_versions key v theirs e ours both =
    let s = supported key in
    let top = min s.max_version theirs.max_version in
    let bottom = max s.min_version theirs.min_version in
    let high : IsUpTo v top = min-above s.max_version theirs.max_version v ours.below both.below in
    let low : IsUpTo bottom v =
      max-below s.min_version theirs.min_version v ours.above both.above in
    let meet : IsUpTo bottom top = less_trans bottom v top low high in
    let (p, q) = meet-Speaks s theirs meet in
    rw (get_best_version-found api_versions key theirs e, best_version-meet s theirs meet)
      (p, q, high)

-- A broker that lists a request, but in no version in common with the library, is spoken to in
-- version 0.
pub get_best_version-none :
    (api_versions : List (ℤ × SupportedVersion)) (key : ℤ) (theirs : SupportedVersion)
    → find_version key api_versions ≡ some theirs
    → ((v : ℤ) → Speaks (supported key) v → ¬ Speaks theirs v)
    → get_best_version api_versions key ≡ pos 0
unfolding best_version
get_best_version-none api_versions key theirs e h =
    let s = supported key in
    let top = min s.max_version theirs.max_version in
    let bottom = max s.min_version theirs.min_version in
    get_best_version-found api_versions key theirs e ∙ elim (Bool-cases (less top bottom)) [
      | inl none_common ↦ rw none_common refl
      | inr meet ↦ let (p, q) = meet-Speaks s theirs meet in absurd (h top p q)
    ]
