-- ===== src/Koruza/Tests.antt =====
-- koruza.c at concrete controllers and messages.
use koruza_driver.Prelude.{
  ◌≤◌, ◌<◌, min, ◌%◌, ◌*◌, get_or, ltb, pos_part, ℕ, ◌+◌, ◌/◌, ◌-◌, ◌≡◌, refl, inl, List, [], ◌∷◌,
  Bool, true, false, some, none, All, arith,
}
use koruza_driver.Message.{
  Message, Memory, Tlv, tlv_reply, found, not_found, success, message_parse, message_tlv_get,
}
use koruza_driver.Message.Format.{wire}
use koruza_driver.Message.Typed.{
  MotorPosition, EncoderValue, message_tlv_get_reply, message_tlv_get_command,
  message_tlv_get_motor_position, message_tlv_get_encoder_value,
}
use koruza_driver.Frame.{Heap, Parser, wait_start}
use koruza_driver.Serial.{SerialDevice, Line}
use koruza_driver.Configuration.{no_string, uci_get_int, uci_get_string}
use koruza_driver.Configuration.Table.{Tables, tables, tables_laws}
use koruza_driver.Koruza.Store.{read_motors, perform}
use koruza_driver.Koruza.Restart.{report_survives_restart}
use koruza_driver.Koruza.{Controller, Effect, koruza_serial_motors_message_handler}
use koruza_driver.Koruza.Motors.{handler_saves, IsSafe, HasRanges, Fits}
use koruza_driver.Koruza.Report.{long_reply_aborts}
use koruza_driver.Koruza.Survey.{
  cell, survey_bin, koruza_timer_survey_handler, koruza_survey_reset, IsSurvey, survey_records,
  reset-IsSurvey,
}
use koruza_driver.Koruza.Timers.{initial_range, initial_motors}
use koruza_driver.Koruza.Window.{FloatOps}
use koruza_driver.Koruza.Window.Recent.{fed, window_recent}

abbrev memory : Memory
memory = record { malloc = λ i n. true; stray = 0 }

abbrev heap : Heap
heap = record { memory = memory; realloc = λ n. true }

abbrev pub listener : Parser
listener = record { has_handler = true; state = wait_start; buffer = []; buffer_size = 1024 }

abbrev pub device : SerialDevice
device = record { ready = true; device = true; fd = some 5; parser = listener }

abbrev pub line : Line
line = record { open_fd = some 6; tcgetattr = true; tcsetattr = true }

abbrev controller : Bool → Controller
controller connected = record {
  motors = record {
    connected = connected;
    x = 700;
    y = 800;
    z = 0;
    range_x = 25000;
    range_y = 25000;
    encoder_x = 0;
    encoder_y = 0;
  };
  accelerometer_connected = false;
  error_code = 0;
  rx_power = 42;
  wait_pending = true;
}

-- Coordinates 1000 and -1000.
abbrev target : MotorPosition
target = record { x = 1000; y = 4294966296; z = 0 }

-- A status report with the position (1, 2, 3) and the encoder value (4, 5).
abbrev pub report : Message
report =
    (record { type = 2; length = 1; value = 1 ∷ [] })
    ∷ (record { type = 4; length = 12; value = 0 ∷ 0 ∷ 0 ∷ 1 ∷ 0 ∷ 0 ∷ 0 ∷ 2 ∷ 0 ∷ 0 ∷ 0 ∷ 3 ∷ [] })
    ∷ (record { type = 9; length = 8; value = 0 ∷ 0 ∷ 0 ∷ 4 ∷ 0 ∷ 0 ∷ 0 ∷ 5 ∷ [] })
    ∷ []

abbrev pub told : MotorPosition
told = record { x = 1; y = 2; z = 3 }

abbrev pub encoder : EncoderValue
encoder = record { x = 4; y = 5 }

pub report-read :
    (message_tlv_get_reply report [] ≡ found 1)
    × (message_tlv_get_command report [] ≡ not_found)
    × (message_tlv_get_motor_position report [] ≡ found told)
    × (message_tlv_get_encoder_value report [] ≡ found encoder)
unfolding message_tlv_get_reply message_tlv_get_command message_tlv_get_motor_position
    message_tlv_get_encoder_value message_tlv_get
report-read = (refl, refl, refl, refl)

report-Fits : All Fits report
report-Fits = (
  (
    (λ e. omega (arith, e)),
    (λ e. omega (arith, e)),
    (λ e. omega (arith, e)),
    (λ e. omega (arith, e)),
    (λ e. omega (arith, e)),
  ),
  (
    (
      (λ e. omega (arith, e)),
      (λ e. omega (arith, e)),
      (λ e. omega (arith, e)),
      (λ e. omega (arith, e)),
      (λ e. omega (arith, e)),
    ),
    (
      (
        (λ e. omega (arith, e)),
        (λ e. omega (arith, e)),
        (λ e. omega (arith, e)),
        (λ e. omega (arith, e)),
        (λ e. omega (arith, e)),
      ),
      tt,
    ),
  ),
)

-- A reply of two bytes.
abbrev long_reply : Tlv
long_reply = record { type = tlv_reply; length = 2; value = 1 ∷ 0 ∷ [] }

long_reply_aborts_example :
    (message_parse memory (wire (long_reply ∷ [])) ≡ (success, long_reply ∷ []))
    × ((m : Message)
        → koruza_serial_motors_message_handler memory
            (λ type. [])
            (long_reply ∷ m)
            (controller true)
          ≡ none)
long_reply_aborts_example =
    long_reply_aborts memory (λ type. []) (controller true) long_reply (inl refl) (omega arith)
      (omega arith) (λ i n. refl)

handler_saves_example :
    (d : Controller) × (es : List Effect) × (koruza_serial_motors_message_handler memory
        (λ t. [])
        report
        (controller false)
      ≡ some (d, es))
    × HasRanges 25000 25000 d
    × All (IsSafe 25000 25000) es
handler_saves_example = handler_saves memory (λ t. []) report report-Fits (controller false)

survey_records_example :
    (cell
        (koruza_timer_survey_handler (controller true) koruza_survey_reset)
        (survey_bin 800)
        (survey_bin 700)
      ≡ 42)
    × ((row column : ℕ)
        → ¬ ((survey_bin 800 ≡ row) × (survey_bin 700 ≡ column))
        → cell (koruza_timer_survey_handler (controller true) koruza_survey_reset) row column
          ≡ cell koruza_survey_reset row column)
    × IsSurvey (koruza_timer_survey_handler (controller true) koruza_survey_reset)
survey_records_example = survey_records (controller true) koruza_survey_reset refl reset-IsSurvey

-- Natural numbers in place of `float`.
abbrev numbers : FloatOps ℕ
numbers = record {
  zero_float = 0;
  nan = 0;
  minus_infinity = 0;
  add = λ a b. a + b;
  sub = λ a b. a - b;
  mul = λ a b. a * b;
  div = λ a b. a / b;
  greater = λ a b. ltb b a;
  of_int = pos_part;
}

window_recent_example :
    ((fed numbers (λ n. n) (λ n. 2 * n) 150).samples ≡ min 150 120)
    × ((fed numbers (λ n. n) (λ n. 2 * n) 150).index ≡ 150 % 120)
    × ((k : ℕ)
        → k < 150
        → 150 ≤ k + 120
        → (get_or (fed numbers (λ n. n) (λ n. 2 * n) 150).buffer (k % 120) 0 ≡ k)
          × (get_or (fed numbers (λ n. n) (λ n. 2 * n) 150).buffer_max (k % 120) 0 ≡ 2 * k))
window_recent_example = window_recent numbers (λ n. n) (λ n. 2 * n) 150

-- A configuration with none of the options.
abbrev blank : Tables
blank = record { context = λ l. no_string; files = λ l. no_string }

blank-range :
    (25000 ≡ initial_range (read_motors tables blank).range_x)
    × (25000 ≡ initial_range (read_motors tables blank).range_y)
unfolding initial_range read_motors uci_get_int uci_get_string
blank-range = (refl, refl)

report_survives_restart_example :
    (d : Controller) × (es : List Effect) × (koruza_serial_motors_message_handler memory
        (λ t. [])
        report
        (controller false)
      ≡ some (d, es))
    × (initial_motors (read_motors tables (tables.restarted (perform tables es blank)))
        ≡ record (initial_motors (read_motors tables blank)) { x = 1; y = 2 })
report_survives_restart_example =
    report_survives_restart tables tables_laws memory (λ t. []) report (controller false) told
      encoder blank report-read.0 report-read.1 report-read.2 report-read.3 blank-range.0
      blank-range.1 (omega arith, omega arith) refl refl (refl, refl, (λ e. cc), λ t. refl)
