-- ===== src/Crc/Laws.antt =====
-- The table-driven `crc32` of crc32.c against the bit-by-bit register, and its continuation law.
use koruza_driver.Prelude.{
  ℕ, zero, suc, ◌*◌, ◌/◌, ◌%◌, ◌<◌, bit_xor, ◌≡◌, refl, sym, ap, ap₂, ◌∙◌, Bool, true, ◌&&◌, ◌==◌,
  [], ◌∷◌, ◌++◌, Bytes, IsBytes, get_or, arith,
}
use koruza_driver.Crc.{crc32_tab, ones, crc32_step, crc32_loop, crc32}
use koruza_driver.Crc.Bitwise.{polynomial, shift_bit, shift_bits, register}
use koruza_driver.Crc.Mask.{bit_and-low_byte}
use koruza_driver.Crc.Xor.{
  xor-half, xor-parity, xor_twice, xor_masks, xor_swap, xor_assoc, xor_fields, xor-zero, xor_step,
}

-- ---- the register is linear over exclusive or

shift_bit-xor : (a b : ℕ) → shift_bit (bit_xor a b) ≡ bit_xor (shift_bit a) (shift_bit b)
unfolding shift_bit
shift_bit-xor a b = ground (
  arith,
  xor-half a b,
  xor-parity a b,
  xor_masks (a / 2) (b / 2) polynomial,
  xor_swap (a / 2) (b / 2) polynomial,
  xor_assoc (a / 2) (b / 2) polynomial,
)

shift_bits-xor :
    (n a b : ℕ) → shift_bits n (bit_xor a b) ≡ bit_xor (shift_bits n a) (shift_bits n b)
unfolding shift_bits
shift_bits-xor zero a b = refl
shift_bits-xor (suc n) a b =
    ap (shift_bits n) (shift_bit-xor a b) ∙ shift_bits-xor n (shift_bit a) (shift_bit b)

shift_bit-double : (q : ℕ) → shift_bit (q * 2) ≡ q
unfolding shift_bit
shift_bit-double q = ground arith

shift_bits-byte : (q : ℕ) → shift_bits 8 (q * 256) ≡ q
unfolding shift_bits
shift_bits-byte q = ground (
  arith,
  shift_bit-double (q * 128),
  shift_bit-double (q * 64),
  shift_bit-double (q * 32),
  shift_bit-double (q * 16),
  shift_bit-double (q * 8),
  shift_bit-double (q * 4),
  shift_bit-double (q * 2),
  shift_bit-double q,
)

-- ---- every entry of the table

tab_below : ℕ → Bool
tab_below zero = true
tab_below (suc n) = get_or crc32_tab n 0 == shift_bits 8 n && tab_below n

tab_below_sound : (n i : ℕ) → tab_below n ≡ true → i < n → get_or crc32_tab i 0 ≡ shift_bits 8 i
unfolding tab_below
tab_below_sound zero i h lt = absurd (omega arith)
tab_below_sound (suc n) i h lt = ground (arith, tab_below_sound n i)

tab_below_all : tab_below 256 ≡ true
unfolding tab_below crc32_tab shift_bits shift_bit
tab_below_all = refl

-- Each of the 256 entries of the table is what eight shifts of its index give.
pub crc32_tab_lem : (i : ℕ) → i < 256 → get_or crc32_tab i 0 ≡ shift_bits 8 i
crc32_tab_lem i h = tab_below_sound 256 i tab_below_all h

-- ---- one byte, and a buffer

xor-byte : (crc p : ℕ) → p < 256 → bit_xor crc p / 256 ≡ crc / 256
xor-byte crc p h = omega (
  arith,
  xor_step crc p,
  xor_step (crc / 2) (p / 2),
  xor_step (crc / 2 / 2) (p / 2 / 2),
  xor_step (crc / 2 / 2 / 2) (p / 2 / 2 / 2),
  xor_step (crc / 2 / 2 / 2 / 2) (p / 2 / 2 / 2 / 2),
  xor_step (crc / 2 / 2 / 2 / 2 / 2) (p / 2 / 2 / 2 / 2 / 2),
  xor_step (crc / 2 / 2 / 2 / 2 / 2 / 2) (p / 2 / 2 / 2 / 2 / 2 / 2),
  xor_step (crc / 2 / 2 / 2 / 2 / 2 / 2 / 2) (p / 2 / 2 / 2 / 2 / 2 / 2 / 2),
  rest,
)
  where
    rest :
        bit_xor (crc / 2 / 2 / 2 / 2 / 2 / 2 / 2 / 2) (p / 2 / 2 / 2 / 2 / 2 / 2 / 2 / 2)
        ≡ crc / 256
    rest = ap₂ bit_xor (omega arith) (omega arith) ∙ xor-zero (crc / 256)

split_byte : (x : ℕ) → x ≡ bit_xor (x % 256) (x / 256 * 256)
split_byte x = omega (arith, xor_fields 8 (x / 256) (x % 256) (omega arith))

crc32_step-shift_bits : (crc p : ℕ) → p < 256 → crc32_step crc p ≡ shift_bits 8 (bit_xor crc p)
unfolding crc32_step
crc32_step-shift_bits crc p h =
    let x = bit_xor crc p in
    ap₂ bit_xor
      (ap (λ (t : ℕ). get_or crc32_tab t 0) (bit_and-low_byte x)
        ∙ crc32_tab_lem (x % 256) (omega arith))
      (sym (xor-byte crc p h) ∙ sym (shift_bits-byte (x / 256)))
    ∙ sym (shift_bits-xor 8 (x % 256) (x / 256 * 256))
    ∙ ap (shift_bits 8) (sym (split_byte x))

crc32_loop-register : (crc : ℕ) (buf : Bytes) → IsBytes buf → crc32_loop crc buf ≡ register crc buf
unfolding crc32_loop register
crc32_loop-register crc [] h = refl
crc32_loop-register crc (p ∷ buf) h =
    ap (λ (t : ℕ). crc32_loop t buf) (crc32_step-shift_bits crc p h.0)
    ∙ crc32_loop-register (shift_bits 8 (bit_xor crc p)) buf h.1

-- The table-driven `crc32` of a buffer of bytes is the register that takes the buffer bit by bit,
-- with all bits inverted before and after.
pub crc32-register :
    (crc : ℕ) (buf : Bytes)
    → IsBytes buf
    → crc32 crc buf ≡ bit_xor (register (bit_xor crc ones) buf) ones
unfolding crc32
crc32-register crc buf h =
    ap (λ (t : ℕ). bit_xor t ones) (crc32_loop-register (bit_xor crc ones) buf h)

crc32_loop-append :
    (crc : ℕ) (a b : Bytes) → crc32_loop crc (a ++ b) ≡ crc32_loop (crc32_loop crc a) b
unfolding crc32_loop
crc32_loop-append crc [] b = refl
crc32_loop-append crc (p ∷ a) b = crc32_loop-append (crc32_step crc p) a b

-- A running checksum: `crc32` of two buffers in turn is `crc32` of their concatenation.
pub crc32-append : (crc : ℕ) (a b : Bytes) → crc32 (crc32 crc a) b ≡ crc32 crc (a ++ b)
unfolding crc32
crc32-append crc a b =
    ap (λ (t : ℕ). bit_xor t ones)
      (ap (λ (t : ℕ). crc32_loop t b) (xor_twice (crc32_loop (bit_xor crc ones) a) ones)
        ∙ sym (crc32_loop-append (bit_xor crc ones) a b))

-- `crc32` of no bytes changes nothing.
pub crc32-nil : (crc : ℕ) → crc32 crc [] ≡ crc
unfolding crc32 crc32_loop
crc32-nil crc = xor_twice crc ones
