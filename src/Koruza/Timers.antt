-- ===== src/Koruza/Timers.antt =====
-- koruza.c: the start of the motor state in `koruza_init`, the parts of the status request that
-- concern the controller, and the timer of the wait for a reply.
use koruza_driver.Prelude.{
  ℕ, List, [], ◌∷◌, Bool, true, false, not, ◌||◌, if◌then◌else◌, pos, neg, leb_ℤ, signed32,
}
use koruza_driver.Message.{Memory}
use koruza_driver.Serial.{device_motors, device_accelerometer}
use koruza_driver.Koruza.{MotorStatus, Controller, Effect, sent, status_message}

-- A configured range, or the default if it is not positive.
unfoldable pub initial_range : ℕ → ℕ
initial_range r = if leb_ℤ (signed32 r) (pos 0) then 25000 else r

-- A saved coordinate, or 0 if it is out of range.
unfoldable pub initial_coordinate : ℕ → ℕ → ℕ
initial_coordinate range last =
    if not (leb_ℤ (neg (signed32 range)) (signed32 last))
      || not (leb_ℤ (signed32 last) (signed32 range))
    then 0
    else last

-- What the configuration holds of the motors, defaults put in for what is missing.
pub record MotorConfig : Type 0 where
  pub range_x : ℕ
  pub range_y : ℕ
  pub last_x : ℕ
  pub last_y : ℕ

-- The motor state of `koruza_init`, on a state of zeros.
unfoldable pub initial_motors : MotorConfig → MotorStatus
initial_motors config = record {
  connected = false;
  x = initial_coordinate (initial_range config.range_x) config.last_x;
  y = initial_coordinate (initial_range config.range_y) config.last_y;
  z = 0;
  range_x = initial_range config.range_x;
  range_y = initial_range config.range_y;
  encoder_x = 0;
  encoder_y = 0;
}

abbrev pub initial_controller : MotorConfig → Controller
initial_controller config = record {
  motors = initial_motors config;
  accelerometer_connected = false;
  error_code = 0;
  rx_power = 0;
  wait_pending = false;
}

-- The messages that `koruza_update_status` sends, with the received power of `status.sfp`. Its two
-- calls in front, `koruza_update_sfp` and `koruza_update_sfp_leds`, are in Koruza/Sfp and
-- Koruza/Leds; the sending itself is the event loop's.
unfoldable pub status_requests : Memory → ℕ → List Effect
status_requests mem power =
    sent device_motors (status_message mem power)
    ∷ sent device_accelerometer (status_message mem power)
    ∷ []

-- The end of `koruza_update_status`: the two tests say whether `serial_send_message` returned 0.
unfoldable pub update_connections : Bool → Bool → Controller → Controller
update_connections motors_sent accelerometer_sent c = record c {
  motors = record (c.motors) { connected = if motors_sent then c.motors.connected else false };
  accelerometer_connected = if accelerometer_sent then c.accelerometer_connected else false;
}

-- The end of `koruza_timer_status_handler`: the wait for a reply is started unless it runs already.
unfoldable pub start_wait : Controller → Controller
start_wait c = if not c.wait_pending then record c { wait_pending = true } else c

-- The controller of the configured motors behind the first two requests, with the power read, and
-- these requests.
abbrev pub requested_start : Memory → MotorConfig → ℕ → Bool → Bool → Controller × List Effect
requested_start mem config power motors_sent accelerometer_sent = (
  update_connections motors_sent accelerometer_sent
      (record (initial_controller config) { rx_power = power }),
  status_requests mem power,
)

unfoldable pub koruza_timer_wait_reply_handler : Controller → Controller
koruza_timer_wait_reply_handler c =
    if not c.motors.connected
    then c
    else record c { motors = record (c.motors) { connected = false } }
