-- ===== src/Configuration.antt =====
-- configuration.c: values of the configuration as strings, numbers and floats.
--
-- libuci is a parameter: the record `Uci` has what is called of it, `UciLaws` what the program
-- relies on. A location such as `koruza.@motors[0].last_x` is a `String`, a value the list of its
-- bytes. `strdup` succeeds.
pub mod RoundTrip
pub mod Table
mod Tests
use text.Mathlib.Text.{◌==◌}
use koruza_driver.Prelude.{
  ◌||◌, ◌^◌, ◌≤◌, ◌<◌, pos_part, neg_part, ℕ, ◌≡◌, ◌≢◌, Bool, true, false, Option, some, none,
  Bytes, String, ℤ, take, print_int, atoi,
}

-- The result of `uci_lookup_ptr`: an error; success although the section is missing; a section (or a
-- package) without an option that is a string; or the value of one.
pub data Found : Type 0 where
  lookup_failed no_section no_string : Found
  string : Bytes → Found

-- The calls of libuci on a context of type `S`; the test of `uci_commit` is whether it returns
-- `UCI_OK`. `restarted` is a fresh context, which reads the files.
pub record Uci (S : Type 0) : Type 0 where
  pub uci_lookup_ptr : S → String → Found
  pub uci_set : S → String → Bytes → S
  pub uci_delete : S → String → S
  pub uci_commit : S → Bool × S
  pub restarted : S → S

-- The values of an `int`.
abbrev pub IsInt : ℤ → Type 0
IsInt a = (pos_part a < 2 ^ 31) × (neg_part a ≤ 2 ^ 31)

abbrev pub has_section : Found → Bool
has_section lookup_failed = false
has_section no_section = false
has_section no_string = true
has_section (string v) = true

-- Options that the program writes or deletes, and the ranges: two names of this list never name one
-- option.
abbrev pub is_option : String → Bool
is_option l =
    l == "koruza.@motors[0].last_x"
    || l == "koruza.@motors[0].last_y"
    || l == "koruza.@motors[0].range_x"
    || l == "koruza.@motors[0].range_y"
    || l == "koruza.@webcam[0].offset_x"
    || l == "koruza.@webcam[0].offset_y"
    || l == "koruza.@webcam[0].global_offset_x"
    || l == "koruza.@webcam[0].global_offset_y"

-- These options and their package.
abbrev pub is_location : String → Bool
is_location l = l == "koruza" || is_option l

-- A number written to an option whose section is there is found there, and a deleted option is gone;
-- a write, a deletion or its failure leaves the other locations. A commit that succeeds keeps the
-- values in the context and writes them to the files. No other program writes the files, and the
-- allocations of libuci succeed.
pub record UciLaws {S : Type 0} (uci : Uci S) : Type 0 where
  pub set_same :
      (s : S) (l : String) (a : ℤ)
      → is_option l ≡ true
      → has_section (uci.uci_lookup_ptr s l) ≡ true
      → IsInt a
      → uci.uci_lookup_ptr (uci.uci_set s l (print_int a)) l ≡ string (print_int a)
  pub set_other :
      (s : S) (l k : String) (v : Bytes)
      → is_option l ≡ true
      → is_location k ≡ true
      → l ≢ k
      → uci.uci_lookup_ptr (uci.uci_set s l v) k ≡ uci.uci_lookup_ptr s k
  pub delete_same :
      (s : S) (l : String)
      → is_option l ≡ true
      → has_section (uci.uci_lookup_ptr s l) ≡ true
      → uci.uci_lookup_ptr (uci.uci_delete s l) l ≡ no_string
  pub delete_other :
      (s : S) (l k : String)
      → is_option l ≡ true
      → is_location k ≡ true
      → l ≢ k
      → uci.uci_lookup_ptr (uci.uci_delete s l) k ≡ uci.uci_lookup_ptr s k
  pub commit_keeps :
      (s : S) (l : String)
      → is_location l ≡ true
      → (uci.uci_commit s).0 ≡ true
      → uci.uci_lookup_ptr (uci.uci_commit s).1 l ≡ uci.uci_lookup_ptr s l
  pub commit_restarted :
      (s : S) (l : String)
      → is_location l ≡ true
      → (uci.uci_commit s).0 ≡ true
      → uci.uci_lookup_ptr (uci.restarted (uci.uci_commit s).1) l ≡ uci.uci_lookup_ptr s l

-- The early return on a lookup that fails.
abbrev pub unless_failed {ℓ} : {A : Type ℓ} → Found → A → A → A
unless_failed lookup_failed a b = a
unless_failed no_section a b = b
unless_failed no_string a b = b
unless_failed (string v) a b = b

abbrev pub string_of : Found → Option Bytes
string_of lookup_failed = none
string_of no_section = none
string_of no_string = none
string_of (string v) = some v

abbrev pub or_default {ℓ} : {A : Type ℓ} → (Bytes → A) → A → Option Bytes → A
or_default convert default none = default
or_default convert default (some v) = convert v

module _ {S : Type 0} (uci : Uci S) where
  unfoldable pub uci_get_string : S → String → Option Bytes
  uci_get_string s l = string_of (uci.uci_lookup_ptr s l)

  unfoldable pub uci_get_int : S → String → ℤ → ℤ
  uci_get_int s l default = or_default atoi default (uci_get_string s l)

  -- `atof` and its numbers are a parameter.
  unfoldable pub uci_get_float : {F : Type 0} → (Bytes → F) → S → String → F → F
  uci_get_float atof s l default = or_default atof default (uci_get_string s l)

  unfoldable pub uci_set_string : S → String → Bytes → S
  uci_set_string s l v = unless_failed (uci.uci_lookup_ptr s l) s (uci.uci_set s l v)

  -- The buffer of 16 bytes keeps 15 and a zero.
  unfoldable pub uci_set_int : S → String → ℤ → S
  uci_set_int s l n = uci_set_string s l (take 15 (print_int n))

  unfoldable pub uci_delete_ptr : S → String → S
  uci_delete_ptr s l = unless_failed (uci.uci_lookup_ptr s l) s (uci.uci_delete s l)
