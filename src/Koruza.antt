-- ===== src/Koruza.antt =====
-- koruza.c and koruza.h: the state of the unit, the commands that are sent to its motor
-- controller, and the messages that come back from it.
--
-- Coordinates are bit patterns of `int32_t`. What a handler does outside its own state is returned
-- as a list of effects in order; `syslog` is left out.
pub mod Commands
pub mod Motors
pub mod Survey
pub mod Timers
pub mod Connection
pub mod Ranges
pub mod Silence
pub mod Report
pub mod Window
pub mod Store
pub mod Sfp
pub mod Leds
pub mod Calibration
pub mod Migration
pub mod Restart
pub mod Start
pub mod Tests
pub mod Examples
use koruza_driver.Prelude.{
  ℕ, List, [], ◌∷◌, ◌++◌, Bool, true, false, not, ◌&&◌, ◌==◌, Option, some, none, if◌then◌else◌,
  Bytes, ℤ, pos, neg, leb_ℤ, signed32,
}
use koruza_driver.Message.{
  tlv_motor_position, tlv_encoder_value, tlv_error_report, tlv_reply, tlv_command, Message, Memory,
  Get, found, not_found, assert_failed, message_init,
}
use koruza_driver.Message.Typed.{
  MotorPosition, EncoderValue, ErrorReport, message_tlv_add_command, message_tlv_add_motor_position,
  message_tlv_add_power_reading, message_tlv_add_checksum, message_tlv_get_reply,
  message_tlv_get_command, message_tlv_get_motor_position, message_tlv_get_encoder_value,
  message_tlv_get_error_report,
}
use koruza_driver.Serial.{DeviceId, device_motors, device_accelerometer}

-- `tlv_command_t` and `tlv_reply_t`.
abbrev pub command_get_status : ℕ
command_get_status = 1

abbrev pub command_move_motor : ℕ
command_move_motor = 2

abbrev pub command_reboot : ℕ
command_reboot = 4

abbrev pub command_firmware_upgrade : ℕ
command_firmware_upgrade = 5

abbrev pub command_homing : ℕ
command_homing = 6

abbrev pub command_restore_motor : ℕ
command_restore_motor = 7

abbrev pub reply_status_report : ℕ
reply_status_report = 1

abbrev pub reply_error_report : ℕ
reply_error_report = 2

-- `struct koruza_motor_status`.
pub record MotorStatus : Type 0 where
  pub connected : Bool
  pub x : ℕ
  pub y : ℕ
  pub z : ℕ
  pub range_x : ℕ
  pub range_y : ℕ
  pub encoder_x : ℕ
  pub encoder_y : ℕ

-- What the motor handlers, commands and timers use of `status`, and whether `timer_wait_reply`
-- is pending.
pub record Controller : Type 0 where
  pub motors : MotorStatus
  pub accelerometer_connected : Bool
  pub error_code : ℕ
  pub rx_power : ℕ
  pub wait_pending : Bool

-- The options of `koruza.@motors[0]` that the handler writes.
pub data Key : Type 0 where
  last_x last_y : Key

pub data Effect : Type 0 where
  sent : DeviceId → Message → Effect
  set_int : Key → ℤ → Effect
  commit : Effect

-- ---- the messages that are sent

abbrev pub command_message : Memory → ℕ → Message
command_message mem command =
    (message_tlv_add_checksum mem (message_tlv_add_command mem message_init command).1).1

abbrev pub position_message : Memory → ℕ → MotorPosition → Message
position_message mem command position =
    (message_tlv_add_checksum mem
      (message_tlv_add_motor_position mem (message_tlv_add_command mem message_init command).1
        position).1).1

abbrev pub status_message : Memory → ℕ → Message
status_message mem power =
    (message_tlv_add_checksum mem
      (message_tlv_add_power_reading mem
        (message_tlv_add_command mem message_init command_get_status).1 power).1).1

abbrev pub stored_position : Controller → MotorPosition
stored_position c = record { x = c.motors.x; y = c.motors.y; z = c.motors.z }

unfoldable pub koruza_restore_motor : Memory → Controller → List Effect
koruza_restore_motor mem c =
    sent device_motors (position_message mem command_restore_motor (stored_position c)) ∷ []

-- Whether the result is 0, and the effects.
unfoldable pub koruza_move_motor : Memory → Controller → ℕ → ℕ → ℕ → Bool × List Effect
koruza_move_motor mem c x y z = if not c.motors.connected then (false, []) else (
  true,
  sent device_motors (position_message mem command_move_motor (record { x = x; y = y; z = z }))
      ∷ [],
)

unfoldable pub koruza_homing : Memory → Controller → Bool × List Effect
koruza_homing mem c =
    if not c.motors.connected
    then (false, [])
    else (true, sent device_motors (command_message mem command_homing) ∷ [])

unfoldable pub koruza_reboot : Memory → Bool × List Effect
koruza_reboot mem = (true, sent device_motors (command_message mem command_reboot) ∷ [])

unfoldable pub koruza_firmware_upgrade : Memory → Bool × List Effect
koruza_firmware_upgrade mem =
    (true, sent device_motors (command_message mem command_firmware_upgrade) ∷ [])

-- ---- the handler of messages from the motor controller

-- A handler's run: `none` is the abort of a failed assertion.
abbrev pub Run : Type 0
Run = Option (Controller × List Effect)

abbrev pub after : List Effect → Run → Run
after es none = none
after es (some (c, fs)) = some (c, es ++ fs)

abbrev pub run_then : Run → (Controller → Run) → Run
run_then none k = none
run_then (some (c, es)) k = after es (k c)

-- A 32-bit coordinate is between minus and plus a range.
abbrev pub in_range : ℕ → ℕ → Bool
in_range x range = leb_ℤ (neg (signed32 range)) (signed32 x) && leb_ℤ (signed32 x) (signed32 range)

-- On the first report after a disconnection the stored position is sent back.
unfoldable pub detect_motors : Memory → Controller → Run
detect_motors mem c =
    if not c.motors.connected
    then (let c' : Controller = record c { motors = record (c.motors) { connected = true } } in
        some (c', koruza_restore_motor mem c'))
    else some (c, [])

-- Saving of the stored position, when it is in range.
unfoldable pub save_position : Controller → List Effect
save_position c =
    if in_range c.motors.x c.motors.range_x && in_range c.motors.y c.motors.range_y
    then set_int last_x (signed32 c.motors.x) ∷ set_int last_y (signed32 c.motors.y) ∷ commit ∷ []
    else []

unfoldable pub take_position : Controller → Get MotorPosition → Run
take_position c (found p) =
    let c' : Controller = record c { motors = record (c.motors) { x = p.x; y = p.y; z = p.z } } in
    some (c', save_position c')
take_position c not_found = some (c, [])
take_position c assert_failed = none

unfoldable pub take_encoder : Controller → Get EncoderValue → Run
take_encoder c (found v) =
    some (record c { motors = record (c.motors) { encoder_x = v.x; encoder_y = v.y } }, [])
take_encoder c not_found = some (c, [])
take_encoder c assert_failed = none

unfoldable pub take_error : Controller → Get ErrorReport → Run
take_error c (found r) = some (record c { error_code = r.code }, [])
take_error c not_found = some (c, [])
take_error c assert_failed = none

-- `case REPLY_STATUS_REPORT`. `before type` is what the uninitialised local that a
-- TLV of that type is read into holds.
unfoldable pub status_report : Memory → (ℕ → Bytes) → Message → Controller → Run
status_report mem before m c =
    run_then (detect_motors mem (record c { wait_pending = false })) (λ d.
      run_then (take_position d (message_tlv_get_motor_position m (before tlv_motor_position)))
        (λ e. take_encoder e (message_tlv_get_encoder_value m (before tlv_encoder_value))))

unfoldable pub handle_reply : Memory → (ℕ → Bytes) → Message → Controller → ℕ → Run
handle_reply mem before m c reply =
    if reply == reply_status_report
    then status_report mem before m c
    else if reply == reply_error_report
    then take_error c (message_tlv_get_error_report m (before tlv_error_report))
    else some (c, [])

unfoldable pub handle_command : Memory → Controller → ℕ → Run
handle_command mem c command =
    if command == command_restore_motor then some (c, koruza_restore_motor mem c) else some (c, [])

-- A local that starts as 0 and is set only if the TLV is there.
abbrev pub or_zero : Get ℕ → Option ℕ
or_zero (found n) = some n
or_zero not_found = some 0
or_zero assert_failed = none

abbrev pub dispatch : Memory → (ℕ → Bytes) → Message → Controller → Option ℕ → Option ℕ → Run
dispatch mem before m c (some reply) (some command) =
    if reply == 0 && command == 0
    then some (c, [])
    else run_then (handle_reply mem before m c reply) (λ d. handle_command mem d command)
dispatch mem before m c _ _ = none

unfoldable pub koruza_serial_motors_message_handler :
    Memory → (ℕ → Bytes) → Message → Controller → Run
koruza_serial_motors_message_handler mem before m c =
    dispatch mem before m c (or_zero (message_tlv_get_reply m (before tlv_reply)))
      (or_zero (message_tlv_get_command m (before tlv_command)))
