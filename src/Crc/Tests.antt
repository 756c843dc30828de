-- ===== src/Crc/Tests.antt =====
-- crc32.c on the check string of the CRC catalogues, and the laws at concrete inputs.
use koruza_driver.Prelude.{◌≡◌, refl, bit_xor, [], ◌∷◌, Bytes, arith}
use koruza_driver.Crc.{crc32_tab, ones, crc32_step, crc32_loop, crc32}
use koruza_driver.Crc.Bitwise.{register}
use koruza_driver.Crc.Laws.{crc32-register}

-- "123456789"
abbrev digits_text : Bytes
digits_text = b'1' ∷ b'2' ∷ b'3' ∷ b'4' ∷ b'5' ∷ b'6' ∷ b'7' ∷ b'8' ∷ b'9' ∷ []

crc32-digits_text : crc32 0 digits_text ≡ 0xcbf43926
unfolding crc32 crc32_loop crc32_step crc32_tab
crc32-digits_text = refl

crc32-register_example : crc32 0 digits_text ≡ bit_xor (register (bit_xor 0 ones) digits_text) ones
crc32-register_example = crc32-register 0 digits_text (omega arith)
