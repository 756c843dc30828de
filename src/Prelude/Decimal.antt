-- ===== src/Prelude/Decimal.antt =====
-- What the program uses of the C library's decimal conversions: `%d` of `printf` and `scanf`, and
-- `atoi`. Text is a list of its bytes, without the terminating zero.
use Prim.Native.Nat.{ℕ, zero, suc, ◌+◌, ◌-◌, ◌*◌, ◌/◌, ◌%◌, ◌^◌, ◌≤◌, ◌<◌}
use mathlib.Core.Path.{◌≡◌, refl, sym, ap, ◌∙◌}
use mathlib.Core.Bool.{Bool, false, ◌&&◌, ◌||◌}
use mathlib.Core.Option.{Option, some, none}
use mathlib.Core.List.{[], ◌∷◌}
use mathlib.Core.Logic.{inl, inr}
use native.Mathlib.Omega.{arith}
use koruza_driver.Prelude.Tests.{ltb, leb, ◌==◌, if◌then◌else◌, Bool-cases, ltb→lt, lt→ltb}
use koruza_driver.Prelude.Lists.{length}
use koruza_driver.Prelude.Words.{Bytes}
use koruza_driver.Prelude.Int.{ℤ, pos, negsuc, neg, pos_part, neg_part}

-- The digits of `n` in front of `out`; as many rounds as `n` are more than enough.
digits : ℕ → ℕ → Bytes → Bytes
digits zero n out = (48 + n) ∷ out
digits (suc f) n out =
    let more = digits f (n / 10) ((48 + n % 10) ∷ out) in if ltb n 10 then (48 + n) ∷ out else more

-- `%d` of `printf`.
unfoldable pub print_int : ℤ → Bytes
unfolding digits
print_int (pos n) = digits n n []
print_int (negsuc n) = 45 ∷ digits (suc n) (suc n) []

abbrev pub is_digit : ℕ → Bool
is_digit c = leb 48 c && leb c 57

-- Digits up to the first byte that is none: the number that they spell behind `n`, and the rest.
unfoldable pub scan_digits : Bytes → ℕ → ℕ × Bytes
scan_digits [] n = (n, [])
scan_digits (c ∷ s) n =
    let more = scan_digits s (n * 10 + (c - 48)) in if is_digit c then more else (n, c ∷ s)

-- `isspace`.
abbrev pub is_space : ℕ → Bool
is_space c = c == 32 || (leb 9 c && leb c 13)

unfoldable pub skip_spaces : Bytes → Bytes
skip_spaces [] = []
skip_spaces (c ∷ s) = if is_space c then skip_spaces s else c ∷ s

abbrev pub scan_signed : Bytes → ℤ × Bytes
scan_signed [] = (pos 0, [])
scan_signed (c ∷ s) =
    if c == 45
    then (let (n, rest) = scan_digits s 0 in (neg (pos n), rest))
    else if c == 43
    then (let (n, rest) = scan_digits s 0 in (pos n, rest))
    else (let (n, rest) = scan_digits (c ∷ s) 0 in (pos n, rest))

-- `atoi`. A number that no `int` holds is left as it is: the C standard does not say what comes out.
unfoldable pub atoi : Bytes → ℤ
unfolding scan_digits skip_spaces
atoi s = (scan_signed (skip_spaces s)).0

abbrev pub starts_digit : Bytes → Bool
starts_digit [] = false
starts_digit (c ∷ s) = is_digit c

abbrev pub behind_sign : Bytes → Bytes
behind_sign [] = []
behind_sign (c ∷ s) = if c == 45 || c == 43 then s else c ∷ s

-- `%d` of `scanf`: the number and the rest; `none` if there are no digits.
unfoldable pub scan_int : Bytes → Option (ℤ × Bytes)
unfolding scan_digits skip_spaces
scan_int s =
    if starts_digit (behind_sign (skip_spaces s)) then some (scan_signed (skip_spaces s)) else none

-- ---- what is printed is read back

scan_last : (n : ℕ) (out : Bytes) → scan_digits ((48 + n % 10) ∷ out) (n / 10) ≡ scan_digits out n
unfolding scan_digits
scan_last n out = ground arith

scan_first : (n : ℕ) (out : Bytes) → n < 10 → scan_digits ((48 + n) ∷ out) 0 ≡ scan_digits out n
unfolding scan_digits
scan_first n out h = ground arith

scan-digits : (f n : ℕ) (out : Bytes) → n ≤ f → scan_digits (digits f n out) 0 ≡ scan_digits out n
unfolding digits
scan-digits zero n out h = scan_first n out (omega arith)
scan-digits (suc f) n out h = elim (Bool-cases (ltb n 10)) [
  | inl last ↦ rw last (scan_first n out (ltb→lt n 10 last))
  | inr more ↦
      rw more
        (scan-digits f (n / 10) ((48 + n % 10) ∷ out) (ground (arith, h, more)) ∙ scan_last n out)
]

digits_head :
    (f n : ℕ) (out : Bytes)
    → n ≤ f
    → (c : ℕ) × (rest : Bytes) × (digits f n out ≡ c ∷ rest) × (48 ≤ c) × (c ≤ 57)
unfolding digits
digits_head zero n out h = (48 + n, out, refl, omega arith, omega arith)
digits_head (suc f) n out h = elim (Bool-cases (ltb n 10)) [
  | inl last ↦ rw last (48 + n, out, refl, omega arith, omega (arith, ltb→lt n 10 last))
  | inr more ↦ rw more (digits_head f (n / 10) ((48 + n % 10) ∷ out) (ground (arith, h, more)))
]

-- A text that begins with a digit has no space to skip and no sign.
atoi_unsigned :
    (c : ℕ) (rest : Bytes) → 48 ≤ c → c ≤ 57 → atoi (c ∷ rest) ≡ pos (scan_digits (c ∷ rest) 0).0
unfolding atoi
atoi_unsigned c rest l h = ground arith

digits_value : (n : ℕ) → scan_digits (digits n n []) 0 ≡ (n, [])
unfolding scan_digits
digits_value n = scan-digits n n [] (omega arith)

atoi-digits : (n : ℕ) → atoi (digits n n []) ≡ pos n
atoi-digits n =
    let (c, rest, e, l, h) = digits_head n n [] (omega arith) in
    ap atoi e
    ∙ atoi_unsigned c rest l h
    ∙ ap (λ (s : Bytes). pos (scan_digits s 0).0) (sym e)
    ∙ ap (λ (r : ℕ × Bytes). pos r.0) (digits_value n)

neg_pos : (n : ℕ) → neg (pos (suc n)) ≡ negsuc n
neg_pos n = ground arith

atoi_negative : (s : Bytes) → atoi (45 ∷ s) ≡ neg (pos (scan_digits s 0).0)
unfolding atoi
atoi_negative s = refl

-- `atoi` reads back what `%d` prints.
pub atoi-print_int : (a : ℤ) → atoi (print_int a) ≡ a
unfolding print_int
atoi-print_int (pos n) = atoi-digits n
atoi-print_int (negsuc n) =
    atoi_negative (digits (suc n) (suc n) [])
    ∙ ap (λ (r : ℕ × Bytes). neg (pos r.0)) (digits_value (suc n))
    ∙ neg_pos n

-- ---- how long a print is

abbrev ten_pow : ℕ → ℕ
ten_pow zero = 1
ten_pow (suc k) = 10 * ten_pow k

length-digits :
    (k f n : ℕ) (out : Bytes)
    → n ≤ f
    → n < ten_pow (suc k)
    → length (digits f n out) ≤ length out + suc k
unfolding digits
length-digits k zero n out h b = omega arith
length-digits zero (suc f) n out h b = rw (lt→ltb n 10 (omega (arith, b))) (omega arith)
length-digits (suc k) (suc f) n out h b = elim (Bool-cases (ltb n 10)) [
  | inl last ↦ rw last (omega arith)
  | inr more ↦ rw more (
      omega (
        arith,
        length-digits k f (n / 10) ((48 + n % 10) ∷ out) (ground (arith, h, more))
            (omega (arith, b)),
      ))
]

-- The print of an `int` has at most eleven bytes.
pub length-print_int :
    (a : ℤ) → pos_part a < 2 ^ 31 → neg_part a ≤ 2 ^ 31 → length (print_int a) ≤ 11
unfolding print_int
length-print_int (pos n) h l =
    omega (arith, length-digits 9 n n [] (omega arith) (omega (arith, h)))
length-print_int (negsuc n) h l =
    omega (arith, length-digits 9 (suc n) (suc n) [] (omega arith) (omega (arith, l)))
