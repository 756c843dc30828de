-- ===== src/Prelude/Arrays.antt =====
-- Assignments to an element of an array, as lists.
use Prim.Native.Nat.{ℕ, zero, suc, ◌<◌}
use mathlib.Core.Path.{◌≡◌, refl, ap}
use mathlib.Core.Logic.{◌≢◌}
use mathlib.Core.List.{List, [], ◌∷◌}
use native.Mathlib.Omega.{arith}
use koruza_driver.Prelude.Lists.{length, get_or, All}

-- An assignment to one element of an array.
abbrev pub put_at {ℓ} : {A : Type ℓ} → List A → ℕ → A → List A
put_at [] i v = []
put_at (x ∷ xs) zero v = v ∷ xs
put_at (x ∷ xs) (suc i) v = x ∷ put_at xs i v

module _ {ℓ} {A : Type ℓ} where
  pub length-put_at : (xs : List A) (i : ℕ) (v : A) → length (put_at xs i v) ≡ length xs
  length-put_at [] i v = refl
  length-put_at (x ∷ xs) zero v = refl
  length-put_at (x ∷ xs) (suc i) v = ap suc (length-put_at xs i v)

  pub get-put_at : (xs : List A) (i : ℕ) (v d : A) → i < length xs → get_or (put_at xs i v) i d ≡ v
  get-put_at [] i v d h = absurd (omega (arith, h))
  get-put_at (x ∷ xs) zero v d h = refl
  get-put_at (x ∷ xs) (suc i) v d h = get-put_at xs i v d (omega (arith, h))

  pub get-put_at_other :
      (xs : List A) (i j : ℕ) (v d : A) → i ≢ j → get_or (put_at xs i v) j d ≡ get_or xs j d
  get-put_at_other [] i j v d h = refl
  get-put_at_other (x ∷ xs) zero zero v d h = absurd (h refl)
  get-put_at_other (x ∷ xs) zero (suc j) v d h = refl
  get-put_at_other (x ∷ xs) (suc i) zero v d h = refl
  get-put_at_other (x ∷ xs) (suc i) (suc j) v d h = get-put_at_other xs i j v d (λ e. h (ap suc e))

  pub All-put_at {κ} :
      (P : A → Type κ) (xs : List A) (i : ℕ) (v : A) → All P xs → P v → All P (put_at xs i v)
  All-put_at P [] i v h k = tt
  All-put_at P (x ∷ xs) zero v h k = (k, h.1)
  All-put_at P (x ∷ xs) (suc i) v h k = (h.0, All-put_at P xs i v h.1 k)

  pub All-get_or {κ} :
      (P : A → Type κ) (xs : List A) (i : ℕ) (d : A) → All P xs → i < length xs → P (get_or xs i d)
  All-get_or P [] i d h k = absurd (omega (arith, k))
  All-get_or P (x ∷ xs) zero d h k = h.0
  All-get_or P (x ∷ xs) (suc i) d h k = All-get_or P xs i d h.1 (omega (arith, k))
