-- ===== src/Koruza/Store.antt =====
-- koruza.c: what `koruza_init` reads of the motors' configuration, the commit, and the writes of a
-- handler to the configuration.
use koruza_driver.Prelude.{List, [], ◌∷◌, Bool, false, String, pos, pattern32}
use koruza_driver.Configuration.{unless_failed, Uci, uci_get_int, uci_set_int}
use koruza_driver.Koruza.{Key, last_x, last_y, Effect, sent, set_int, commit}
use koruza_driver.Koruza.Timers.{MotorConfig}

abbrev pub key_location : Key → String
key_location last_x = "koruza.@motors[0].last_x"
key_location last_y = "koruza.@motors[0].last_y"

module _ {S : Type 0} (uci : Uci S) where
  -- What `koruza_init` reads of the motors.
  unfoldable pub read_motors : S → MotorConfig
  read_motors s = record {
    range_x = pattern32 (uci_get_int uci s "koruza.@motors[0].range_x" (pos 25000));
    range_y = pattern32 (uci_get_int uci s "koruza.@motors[0].range_y" (pos 25000));
    last_x = pattern32 (uci_get_int uci s "koruza.@motors[0].last_x" (pos 0));
    last_y = pattern32 (uci_get_int uci s "koruza.@motors[0].last_y" (pos 0));
  }

  -- Whether the result is 0. Either call may fail.
  unfoldable pub koruza_uci_commit : S → Bool × S
  koruza_uci_commit s = unless_failed (uci.uci_lookup_ptr s "koruza") (false, s) (uci.uci_commit s)

  -- The effects of a handler on the configuration, in order.
  unfoldable pub perform : List Effect → S → S
  perform [] s = s
  perform (sent d m ∷ es) s = perform es s
  perform (set_int k v ∷ es) s = perform es (uci_set_int uci s (key_location k) v)
  perform (commit ∷ es) s = perform es (koruza_uci_commit s).1
