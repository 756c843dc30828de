-- ===== src/Crc/Xor.antt =====
-- Laws of exclusive or at variables, for the operator `^` of crc32.c.
use Prim.Native.Nat.{digits, differ, bit_xor-bitwise}
use native.Mathlib.Nat.{pow-suc, zero-add}
use koruza_driver.Prelude.{
  ℕ, zero, suc, ◌+◌, ◌-◌, ◌*◌, ◌/◌, ◌%◌, ◌^◌, ◌≤◌, ◌<◌, bit_xor, ◌≡◌, refl, sym, ap, ◌∙◌, arith,
}

-- The recursion of the native operation on `n` digits.
abbrev xor_digits : ℕ → ℕ → ℕ → ℕ
xor_digits = digits (λ b. b) differ

-- One digit more than the first number has changes nothing.
xor_digits-suc : (n a b : ℕ) → a ≤ n → xor_digits (suc n) a b ≡ xor_digits n a b
xor_digits-suc n zero b h = none_left n
  where
    none_left : (m : ℕ) → xor_digits (suc m) 0 b ≡ xor_digits m 0 b
    none_left zero = refl
    none_left (suc m) = refl
xor_digits-suc zero (suc a) b h = absurd (omega arith)
xor_digits-suc (suc n) (suc a) b h =
    ap (λ (t : ℕ). t * 2 + differ (suc a % 2) (b % 2))
      (xor_digits-suc n (suc a / 2) (b / 2) (omega arith))

xor_digits-xor : (d n a b : ℕ) → n ≡ d + a → xor_digits n a b ≡ bit_xor a b
xor_digits-xor zero n a b e =
    ap (λ (t : ℕ). xor_digits t a b) e ∙ rw zero-add (sym (bit_xor-bitwise a b))
xor_digits-xor (suc d) zero a b e = absurd (omega arith)
xor_digits-xor (suc d) (suc n) a b e =
    xor_digits-suc n a b (omega arith) ∙ xor_digits-xor d n a b (omega arith)

differ-mod : (x y : ℕ) → x < 2 → y < 2 → differ x y ≡ (x + y) % 2
differ-mod zero y h k = omega arith
differ-mod (suc zero) zero h k = omega arith
differ-mod (suc zero) (suc zero) h k = refl
differ-mod (suc zero) (suc (suc y)) h k = absurd (omega arith)
differ-mod (suc (suc x)) y h k = absurd (omega arith)

pub zero-xor : (b : ℕ) → bit_xor 0 b ≡ b
zero-xor b = bit_xor-bitwise 0 b

-- One equation for the lowest digit.
pub xor_step : (a b : ℕ) → bit_xor a b ≡ bit_xor (a / 2) (b / 2) * 2 + (a % 2 + b % 2) % 2
xor_step zero b = omega (arith, zero-xor b, zero-xor (b / 2))
xor_step (suc a) b = omega (
  arith,
  bit_xor-bitwise (suc a) b,
  xor_digits-xor (a - suc a / 2) a (suc a / 2) (b / 2) (omega arith),
  differ-mod (suc a % 2) (b % 2) (omega arith) (omega arith),
)

pub xor-half : (a b : ℕ) → bit_xor a b / 2 ≡ bit_xor (a / 2) (b / 2)
xor-half a b = omega (arith, xor_step a b)

pub xor-parity : (a b : ℕ) → bit_xor a b % 2 ≡ (a % 2 + b % 2) % 2
xor-parity a b = omega (arith, xor_step a b)

xor_zero_fuel : (n a : ℕ) → a ≤ n → bit_xor a 0 ≡ a
xor_zero_fuel zero zero h = refl
xor_zero_fuel zero (suc a) h = absurd (omega arith)
xor_zero_fuel (suc n) a h = omega (arith, xor_step a 0, xor_zero_fuel n (a / 2) (omega arith))

pub xor-zero : (a : ℕ) → bit_xor a 0 ≡ a
xor-zero a = xor_zero_fuel a a (omega arith)

xor_comm_fuel : (n a b : ℕ) → a ≤ n → bit_xor a b ≡ bit_xor b a
xor_comm_fuel zero zero b h = zero-xor b ∙ sym (xor-zero b)
xor_comm_fuel zero (suc a) b h = absurd (omega arith)
xor_comm_fuel (suc n) a b h =
    omega (arith, xor_step a b, xor_step b a, xor_comm_fuel n (a / 2) (b / 2) (omega arith))

pub xor_comm : (a b : ℕ) → bit_xor a b ≡ bit_xor b a
xor_comm a b = xor_comm_fuel a a b (omega arith)

xor_assoc_fuel : (n a b c : ℕ) → a ≤ n → bit_xor (bit_xor a b) c ≡ bit_xor a (bit_xor b c)
xor_assoc_fuel zero zero b c h = rw (zero-xor b, zero-xor (bit_xor b c)) refl
xor_assoc_fuel zero (suc a) b c h = absurd (omega arith)
xor_assoc_fuel (suc n) a b c h = omega (
  arith,
  xor_step (bit_xor a b) c,
  xor_step a (bit_xor b c),
  xor-parity a b,
  xor-parity b c,
  ap (λ (t : ℕ). bit_xor t (c / 2)) (xor-half a b),
  ap (λ (t : ℕ). bit_xor (a / 2) t) (xor-half b c),
  xor_assoc_fuel n (a / 2) (b / 2) (c / 2) (omega arith),
)

pub xor_assoc : (a b c : ℕ) → bit_xor (bit_xor a b) c ≡ bit_xor a (bit_xor b c)
xor_assoc a b c = xor_assoc_fuel a a b c (omega arith)

xor_self_fuel : (n a : ℕ) → a ≤ n → bit_xor a a ≡ 0
xor_self_fuel zero zero h = refl
xor_self_fuel zero (suc a) h = absurd (omega arith)
xor_self_fuel (suc n) a h = omega (arith, xor_step a a, xor_self_fuel n (a / 2) (omega arith))

pub xor_self : (a : ℕ) → bit_xor a a ≡ 0
xor_self a = xor_self_fuel a a (omega arith)

-- The same mask twice changes nothing.
pub xor_twice : (a m : ℕ) → bit_xor (bit_xor a m) m ≡ a
xor_twice a m = xor_assoc a m m ∙ ap (bit_xor a) (xor_self m) ∙ xor-zero a

-- A mask put on both sides drops out.
pub xor_masks : (a b m : ℕ) → bit_xor (bit_xor a m) (bit_xor b m) ≡ bit_xor a b
xor_masks a b m =
    xor_assoc a m (bit_xor b m) ∙ ap (bit_xor a) (xor_comm m (bit_xor b m) ∙ xor_twice b m)

pub xor_swap : (a b m : ℕ) → bit_xor (bit_xor a b) m ≡ bit_xor (bit_xor a m) b
xor_swap a b m = xor_assoc a b m ∙ ap (bit_xor a) (xor_comm b m) ∙ sym (xor_assoc a m b)

-- A sum of disjoint fields.
pub xor_fields : (k q r : ℕ) → r < 2 ^ k → bit_xor r (q * 2 ^ k) ≡ q * 2 ^ k + r
xor_fields zero q r h = ground (arith, zero-xor (q * 1))
xor_fields (suc k) q r h = ground (
  arith,
  xor_step r (q * 2 ^ suc k),
  pow-suc 2 k,
  ap (λ (t : ℕ). q * t) (pow-suc 2 k),
  xor_fields k q (r / 2) (omega arith),
)

pub xor-lt : (k a b : ℕ) → a < 2 ^ k → b < 2 ^ k → bit_xor a b < 2 ^ k
xor-lt zero a b h g = ground (arith)
xor-lt (suc k) a b h g = omega (
  arith,
  xor_step a b,
  pow-suc 2 k,
  xor-lt k (a / 2) (b / 2) (omega (arith, pow-suc 2 k)) (omega (arith, pow-suc 2 k)),
)
