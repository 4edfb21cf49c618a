-- ===== src/Common/Bytes.antt =====
-- encoding/binary's big-endian byte order.
use kafka_api.Common.{
  ℕ, zero, suc, ◌+◌, ◌*◌, ◌/◌, ◌%◌, ◌^◌, ◌<◌, ◌≡◌, refl, List, [], ◌∷◌, ◌++◌, arith, length,
  length-append,
}
use mathlib.Core.List.{foldl, foldl-append}

-- binary.BigEndian.PutUintW: the k lowest bytes of u, highest first
unfoldable pub put_uint : ℕ → ℕ → List ℕ
put_uint zero u = []
put_uint (suc k) u = put_uint k (u / 256) ++ (u % 256) ∷ []

-- binary.BigEndian.UintW
unfoldable pub get_uint : List ℕ → ℕ
get_uint = foldl (λ acc b. acc * 256 + b) 0

pub length-put_uint : (k u : ℕ) → length (put_uint k u) ≡ k
unfolding put_uint
length-put_uint zero u = refl
length-put_uint (suc k) u =
    omega
      (arith, length-append (put_uint k (u / 256)) ((u % 256) ∷ []), length-put_uint k (u / 256))

pub get_uint-put_uint : (k u : ℕ) → u < 256 ^ k → get_uint (put_uint k u) ≡ u
unfolding put_uint get_uint
get_uint-put_uint zero u h = omega arith
get_uint-put_uint (suc k) u h =
    rw foldl-append (omega (arith, get_uint-put_uint k (u / 256) (omega arith)))
