-- ===== src/Crc/Mask.antt =====
-- The mask `& 0xFF` of crc32.c is the remainder by 256.
use Prim.Native.Nat.{min, digits, bit_and-bitwise}
use koruza_driver.Prelude.{
  ℕ, zero, suc, ◌+◌, ◌*◌, ◌/◌, ◌%◌, ◌≤◌, bit_and, ◌≡◌, refl, ap, ◌∙◌, arith,
}

-- The number with `k` binary digits, all of them 1.
abbrev mask : ℕ → ℕ
mask zero = 0
mask (suc k) = mask k * 2 + 1

-- The number that the lowest `k` binary digits of `a` make.
abbrev low_digits : ℕ → ℕ → ℕ
low_digits zero a = 0
low_digits (suc k) a = low_digits k (a / 2) * 2 + a % 2

low_digits-zero : (k : ℕ) → low_digits k 0 ≡ 0
low_digits-zero zero = refl
low_digits-zero (suc k) = omega (arith, low_digits-zero k)

digits-mask : (n k a : ℕ) → a ≤ n → digits (λ b. zero) min n a (mask k) ≡ low_digits k a
digits-mask zero k zero h = omega (arith, low_digits-zero k)
digits-mask (suc n) k zero h = omega (arith, low_digits-zero k)
digits-mask zero k (suc a) h = absurd (omega arith)
digits-mask (suc n) zero (suc a) h = omega (arith, digits-mask n 0 (suc a / 2) (omega arith))
digits-mask (suc n) (suc k) (suc a) h = omega (
  arith,
  ap (λ (t : ℕ). digits (λ b. zero) min n (suc a / 2) t) (half k),
  digits-mask n k (suc a / 2) (omega arith),
)
  where
    half : (j : ℕ) → (mask j * 2 + 1) / 2 ≡ mask j
    half j = omega arith

low_byte : (a : ℕ) → low_digits 8 a ≡ a % 256
low_byte a = omega arith

pub bit_and-low_byte : (a : ℕ) → bit_and a 0xff ≡ a % 256
bit_and-low_byte a = bit_and-bitwise a 0xff ∙ digits-mask a 8 a (omega arith) ∙ low_byte a
