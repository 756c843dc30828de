-- ===== src/Crc/Bitwise.antt =====
-- The description that the comment of crc32.c gives of its table: eight shift and exclusive-or
-- operations of the reflected polynomial $edb88320, one for each bit of the next byte.
use koruza_driver.Prelude.{ℕ, zero, suc, ◌/◌, ◌%◌, bit_xor, ◌==◌, if◌then◌else◌, [], ◌∷◌, Bytes}

abbrev pub polynomial : ℕ
polynomial = 0xedb88320

-- One shift of the register towards its lowest-order bit.
unfoldable pub shift_bit : ℕ → ℕ
shift_bit r = if r % 2 == 1 then bit_xor (r / 2) polynomial else r / 2

unfoldable pub shift_bits : ℕ → ℕ → ℕ
shift_bits zero r = r
shift_bits (suc n) r = shift_bits n (shift_bit r)

-- The register after a message, bit by bit.
unfoldable pub register : ℕ → Bytes → ℕ
register r [] = r
register r (b ∷ bs) = register (shift_bits 8 (bit_xor r b)) bs
