-- ===== src/Ubus/State.antt =====
-- The state that the methods of ubus.c read and write.
use koruza_driver.Prelude.{ℕ, List, Bytes}
use koruza_driver.Koruza.{Controller}
use koruza_driver.Koruza.Survey.{Survey}
use koruza_driver.Koruza.Window.{Accelerometer}
use koruza_driver.Koruza.Calibration.{Calibration}
use koruza_driver.Koruza.Leds.{Leds}
use koruza_driver.Network.{NetworkStatus}

abbrev pub alignment_variable_count : ℕ
alignment_variable_count = 4

-- `struct koruza_alignment`.
pub record Alignment : Type 0 where
  pub state : ℕ
  pub variables : List ℕ

-- The state of the daemon that the methods read and write: `status` of koruza.c in parts, the
-- survey, the LEDs, the status of network.c, and the configuration.
pub record Daemon (F S : Type 0) : Type 0 where
  pub serial_number : Bytes
  pub leds : ℕ
  pub controller : Controller
  pub accelerometer : Accelerometer F
  pub calibration : Calibration F
  pub tx_power : ℕ
  pub alignment : Alignment
  pub survey : Survey
  pub led_config : Leds
  pub network : NetworkStatus
  pub store : S
