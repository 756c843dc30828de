-- ===== src/Configuration/RoundTrip.antt =====
-- What is written to the configuration is read back, also by the next start of the daemon.
use koruza_driver.Prelude.{
  true, ◌≡◌, ◌≢◌, refl, ap, ◌∙◌, Bytes, String, ℤ, take, take_all, print_int, atoi, atoi-print_int,
  length-print_int, arith,
}
use koruza_driver.Configuration.{
  IsInt, no_section, has_section, is_option, is_location, unless_failed, string_of, or_default,
  Found, lookup_failed, no_string, string, Uci, UciLaws, uci_get_string, uci_get_int,
  uci_set_string, uci_set_int, uci_delete_ptr,
}

-- The buffer is long enough.
printed_whole : (a : ℤ) → IsInt a → take 15 (print_int a) ≡ print_int a
printed_whole a h = take_all 15 (print_int a) (omega (arith, length-print_int a h.0 h.1))

pub unless_failed-keeps {ℓ} :
    {S : Type ℓ} (P : S → Type 0) (f : Found) (a b : S) → P a → P b → P (unless_failed f a b)
unless_failed-keeps P lookup_failed a b h k = h
unless_failed-keeps P no_section a b h k = k
unless_failed-keeps P no_string a b h k = k
unless_failed-keeps P (string v) a b h k = k

pub unless_failed-ne {ℓ} :
    {S : Type ℓ} (f : Found) (a b : S) → f ≢ lookup_failed → unless_failed f a b ≡ b
unless_failed-ne lookup_failed a b h = absurd (h refl)
unless_failed-ne no_section a b h = refl
unless_failed-ne no_string a b h = refl
unless_failed-ne (string v) a b h = refl

unless_failed-has_section {ℓ} :
    {S : Type ℓ} (f : Found) (a b : S) → has_section f ≡ true → unless_failed f a b ≡ b
unless_failed-has_section lookup_failed a b h = cc
unless_failed-has_section no_section a b h = cc
unless_failed-has_section no_string a b h = refl
unless_failed-has_section (string v) a b h = refl

module _ {S : Type 0} (uci : Uci S) (laws : UciLaws uci) where
  -- A location that can be looked up.
  abbrev pub Known : S → String → Type 0
  Known s l = uci.uci_lookup_ptr s l ≢ lookup_failed

  -- A location whose section is there.
  abbrev pub HasSection : S → String → Type 0
  HasSection s l = has_section (uci.uci_lookup_ptr s l) ≡ true

  pub set_string_other :
      (s : S) (l k : String) (v : Bytes)
      → is_option l ≡ true
      → is_location k ≡ true
      → l ≢ k
      → uci.uci_lookup_ptr (uci_set_string uci s l v) k ≡ uci.uci_lookup_ptr s k
  unfolding uci_set_string
  set_string_other s l k v o p h =
      unless_failed-keeps (λ t. uci.uci_lookup_ptr t k ≡ uci.uci_lookup_ptr s k)
        (uci.uci_lookup_ptr s l) s (uci.uci_set s l v) refl (laws.set_other s l k v o p h)

  set_string_same :
      (s : S) (l : String) (a : ℤ)
      → is_option l ≡ true
      → HasSection s l
      → IsInt a
      → uci.uci_lookup_ptr (uci_set_string uci s l (print_int a)) l ≡ string (print_int a)
  unfolding uci_set_string
  set_string_same s l a o h i =
      ap (λ (t : S). uci.uci_lookup_ptr t l)
        (unless_failed-has_section (uci.uci_lookup_ptr s l) s (uci.uci_set s l (print_int a)) h)
      ∙ laws.set_same s l a o h i

  pub delete_ptr_other :
      (s : S) (l k : String)
      → is_option l ≡ true
      → is_location k ≡ true
      → l ≢ k
      → uci.uci_lookup_ptr (uci_delete_ptr uci s l) k ≡ uci.uci_lookup_ptr s k
  unfolding uci_delete_ptr
  delete_ptr_other s l k o p h =
      unless_failed-keeps (λ t. uci.uci_lookup_ptr t k ≡ uci.uci_lookup_ptr s k)
        (uci.uci_lookup_ptr s l) s (uci.uci_delete s l) refl (laws.delete_other s l k o p h)

  pub delete_ptr_same :
      (s : S) (l : String)
      → is_option l ≡ true
      → HasSection s l
      → uci.uci_lookup_ptr (uci_delete_ptr uci s l) l ≡ no_string
  unfolding uci_delete_ptr
  delete_ptr_same s l o h =
      ap (λ (t : S). uci.uci_lookup_ptr t l)
        (unless_failed-has_section (uci.uci_lookup_ptr s l) s (uci.uci_delete s l) h)
      ∙ laws.delete_same s l o h

  -- ---- numbers

  pub set_int_other :
      (s : S) (l k : String) (a : ℤ)
      → is_option l ≡ true
      → is_location k ≡ true
      → l ≢ k
      → uci.uci_lookup_ptr (uci_set_int uci s l a) k ≡ uci.uci_lookup_ptr s k
  unfolding uci_set_int
  set_int_other s l k a o p h = set_string_other s l k (take 15 (print_int a)) o p h

  -- A number reads by its text alone.
  pub get_int_text :
      (s : S) (l : String) (default : ℤ) {v : Bytes}
      → uci.uci_lookup_ptr s l ≡ string v
      → uci_get_int uci s l default ≡ atoi v
  unfolding uci_get_int uci_get_string
  get_int_text s l default e = ap (λ (f : Found). or_default atoi default (string_of f)) e

  pub get_int_cong :
      (s t : S) (l : String) (default : ℤ)
      → uci.uci_lookup_ptr s l ≡ uci.uci_lookup_ptr t l
      → uci_get_int uci s l default ≡ uci_get_int uci t l default
  unfolding uci_get_int uci_get_string
  get_int_cong s t l default e = ap (λ (f : Found). or_default atoi default (string_of f)) e

  pub get_int-set_int :
      (s : S) (l : String) (a default : ℤ)
      → is_option l ≡ true
      → HasSection s l
      → IsInt a
      → uci_get_int uci (uci_set_int uci s l a) l default ≡ a
  unfolding uci_set_int
  get_int-set_int s l a default o h i =
      get_int_text (uci_set_string uci s l (take 15 (print_int a))) l default (
        ap (λ (v : Bytes). uci.uci_lookup_ptr (uci_set_string uci s l v) l) (printed_whole a i)
        ∙ set_string_same s l a o h i)
      ∙ atoi-print_int a
