-- ===== src/Storage/Checksum.antt =====
-- `recordChecksum` of storage/capture_session_writer.go: hash/crc32 over the Castagnoli
-- polynomial, in its reflected form 0x82f63b78.
use Prim.Native.Nat.{bit_xor}
use http_stack_lens.Base.{
  ℕ, zero, suc, ◌/◌, ◌%◌, ◌^◌, ◌<◌, refl, arith, ◌≡◌, [], ◌∷◌, ◌==◌, if◌then◌else◌, Bytes, codes,
}

shift_bits : ℕ → ℕ → ℕ
shift_bits zero c = c
shift_bits (suc k) c = shift_bits k (if c % 2 == 0 then c / 2 else bit_xor (c / 2) 0x82f6_3b78)

crc_update : ℕ → Bytes → ℕ
crc_update c [] = c
crc_update c (b ∷ bs) = crc_update (shift_bits 8 (bit_xor c (b % 256))) bs

-- A uint32.
unfoldable pub record_checksum : Bytes → ℕ
unfolding crc_update shift_bits
record_checksum b = bit_xor (crc_update 0xffff_ffff b) 0xffff_ffff % 2 ^ 32

pub record_checksum-lt : (b : Bytes) → record_checksum b < 2 ^ 32
unfolding record_checksum
record_checksum-lt b = omega arith

-- The check value of CRC-32C.
check_value : record_checksum (codes "123456789") ≡ 0xe306_9283
unfolding record_checksum
check_value = refl
