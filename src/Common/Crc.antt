-- ===== src/Common/Crc.antt =====
-- hash/crc32 of the Go library, bit by bit, with the reversed polynomial of its tables.
use Prim.Native.Nat.{bit_xor}
use kafka_api.Common.{
  ℕ, zero, suc, ◌/◌, ◌%◌, ◌^◌, ◌<◌, ◌≡◌, refl, List, [], ◌∷◌, arith, ◌==◌, if◌then◌else◌,
}
use mathlib.Core.List.{foldl}

crc_bits : ℕ → ℕ → ℕ → ℕ
crc_bits poly zero c = c
crc_bits poly (suc n) c = crc_bits poly n (if c % 2 == 1 then bit_xor (c / 2) poly else c / 2)

crc_byte : ℕ → ℕ → ℕ → ℕ
unfolding crc_bits
crc_byte poly c b = crc_bits poly 8 (bit_xor c b)

-- a uint32
unfoldable pub checksum : ℕ → List ℕ → ℕ
unfolding crc_byte
checksum poly bs = bit_xor (foldl (crc_byte poly) 0xffffffff bs) 0xffffffff % 2 ^ 32

-- crc32.ChecksumIEEE
unfoldable pub checksum_ieee : List ℕ → ℕ
unfolding checksum
checksum_ieee = checksum 0xedb88320

-- crc32.New(crc32.MakeTable(crc32.Castagnoli)), Sum32
unfoldable pub checksum_castagnoli : List ℕ → ℕ
unfolding checksum
checksum_castagnoli = checksum 0x82f63b78

pub checksum-lt : (poly : ℕ) (bs : List ℕ) → checksum poly bs < 2 ^ 32
unfolding checksum
checksum-lt poly bs = omega arith

pub checksum_ieee-lt : (bs : List ℕ) → checksum_ieee bs < 2 ^ 32
unfolding checksum_ieee
checksum_ieee-lt bs = checksum-lt 0xedb88320 bs

-- the check values of the two polynomials: the checksums of "123456789"
abbrev digits : List ℕ
digits = b'1' ∷ b'2' ∷ b'3' ∷ b'4' ∷ b'5' ∷ b'6' ∷ b'7' ∷ b'8' ∷ b'9' ∷ []

ieee_check : checksum_ieee digits ≡ 0xcbf43926
unfolding checksum_ieee
ieee_check = refl

castagnoli_check : checksum_castagnoli digits ≡ 0xe3069283
unfolding checksum_castagnoli
castagnoli_check = refl
