-- ===== src/Main/Tests.antt =====
-- main.c at a concrete system.
use koruza_driver.Prelude.{◌≡◌, refl, [], ◌∷◌, true, false, some, none}
use koruza_driver.Main.{
  parse_options, Startup, connected_main, add_ubus_to_loop, start_uci, start_serial, start_koruza,
}

-- The serial devices start and the controller does not.
abbrev broken : Startup
broken = record {
  has_directory = true;
  uci = true;
  serial = true;
  koruza = false;
  ubus = true;
  network = true;
  upgrade = true;
}

broken_stops :
    connected_main broken ≡ (false, add_ubus_to_loop ∷ start_uci ∷ start_serial ∷ start_koruza ∷ [])
unfolding connected_main
broken_stops = refl

options_read :
    parse_options
      ((115, some (47 ∷ [])) ∷ (63, none) ∷ [])
      (record { ubus_socket = none; log_perror = false })
    ≡ record { ubus_socket = some (47 ∷ []); log_perror = false }
unfolding parse_options
options_read = refl
