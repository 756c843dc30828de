-- ===== src/Configuration/Tests.antt =====
-- Reading and writing at concrete configurations.
use koruza_driver.Prelude.{◌≡◌, refl, pos, negsuc, [], ◌∷◌, print_int, atoi}
use koruza_driver.Configuration.{
  no_section, no_string, uci_get_int, uci_set_int, uci_get_string, uci_set_string,
}
use koruza_driver.Configuration.Table.{Tables, tables}

-- A file whose sections are there and have no options.
abbrev blank : Tables
blank = record { context = λ l. no_string; files = λ l. no_string }

printed : print_int (negsuc 1041) ≡ 45 ∷ 49 ∷ 48 ∷ 52 ∷ 50 ∷ []
unfolding print_int
printed = refl

read_spaces : atoi (32 ∷ 43 ∷ 55 ∷ 56 ∷ 120 ∷ []) ≡ pos 78
unfolding atoi
read_spaces = refl

-- Where the section is missing, nothing is written.
missing_section :
    uci_get_int tables
      (uci_set_int tables
        (record blank { context = λ l. no_section })
        "koruza.@motors[0].last_x"
        (pos 7))
      "koruza.@motors[0].last_x"
      (pos 0)
    ≡ pos 0
unfolding uci_get_int uci_set_int uci_get_string uci_set_string
missing_section = refl
