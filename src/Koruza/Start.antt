-- ===== src/Koruza/Start.antt =====
-- koruza.c: `koruza_init` as a whole, from the configuration to the first status request.
use koruza_driver.Prelude.{
  ℕ, ◌%◌, ◌^◌, ◌≡◌, refl, ap, ◌∙◌, List, [], ◌∷◌, Bool, Option, some, none, if◌then◌else◌, ◌==◌,
  Bytes, String, pos, pattern32, replicate,
}
use koruza_driver.Message.{Memory}
use koruza_driver.Configuration.{Uci, uci_get_string, uci_get_int}
use koruza_driver.Gpio.{Gpio, Answer, koruza_hard_reset}
use koruza_driver.Koruza.{Controller, Effect}
use koruza_driver.Koruza.Store.{read_motors}
use koruza_driver.Koruza.Timers.{
  requested_start, initial_controller, update_connections, status_requests,
}
use koruza_driver.Koruza.Survey.{Survey, koruza_survey_reset}
use koruza_driver.Koruza.Window.{FloatOps}
use koruza_driver.Koruza.Calibration.{Casts, Calibration, initial_calibration}
use koruza_driver.Koruza.Sfp.{SfpCasts, Service, Sfp, koruza_update_sfp}
use koruza_driver.Koruza.Sfp.Refresh.{then_leds}
use koruza_driver.Koruza.Leds.{LedOps, Leds, led_count, led_color, koruza_update_sfp_leds}

-- What the start meets: the operations of the other parameters, the answers of the SFP service,
-- the colours that `ws2811_init` allocates if it succeeds, the files of the GPIO interface, and
-- whether the two status requests can be sent.
pub record Host (F D S : Type 0) : Type 0 where
  pub floats : FloatOps F
  pub casts : Casts F
  pub sfp_casts : SfpCasts F
  pub doubles : FloatOps D
  pub led_ops : LedOps D
  pub uci : Uci S
  pub memory : Memory
  pub before : Bytes
  pub service : Service
  pub ws2811_init : Option (List ℕ)
  pub files : ℕ → Answer
  pub motors_sent : Bool
  pub accelerometer_sent : Bool

-- The unit behind its start, with the configuration, the accesses to the GPIO interface and what
-- was sent.
pub record Started (F S : Type 0) : Type 0 where
  pub serial_number : Bytes
  pub gpio_reset : ℕ
  pub leds : ℕ
  pub controller : Controller
  pub calibration : Calibration F
  pub sfp : Sfp
  pub survey : Survey
  pub led_config : Leds
  pub store : S
  pub gpio : Gpio
  pub effects : List Effect

-- "0000" if it is not configured.
abbrev pub serial_or_default : Option Bytes → Bytes
serial_or_default none = 48 ∷ 48 ∷ 48 ∷ 48 ∷ []
serial_or_default (some s) = s

-- A `uint8_t`.
abbrev pub get_byte : {S : Type 0} → Uci S → S → String → ℕ → ℕ
get_byte uci s l default = pattern32 (uci_get_int uci s l (pos default)) % 2 ^ 8

module _ {F D S : Type 0} (h : Host F D S) where
  -- The LEDs show the power 0, if there are any.
  abbrev pub initial_leds : ℕ → Option (List ℕ) → Option Leds
  initial_leds leds none = some (record { colors = none; brightness = 255 })
  initial_leds leds (some colors) =
      koruza_update_sfp_leds h.doubles h.led_ops 0 leds
        (record { colors = some colors; brightness = 255 })

  abbrev pub initial_sfp : Calibration F → Sfp
  initial_sfp cal = record {
    tx_power = 0;
    rx_power = 0;
    offset_x = cal.offset_x;
    offset_y = cal.offset_y;
  }

  -- The unit behind the first request for the status.
  abbrev pub settled : Bytes → ℕ → Calibration F → S → Gpio → Sfp → Leds → Started F S
  settled serial leds cal t g sfp l =
      let c =
        update_connections h.motors_sent h.accelerometer_sent
          (record (initial_controller (read_motors h.uci t)) { rx_power = sfp.rx_power }) in
      record {
        serial_number = serial;
        gpio_reset = get_byte h.uci t "koruza.@mcu[0].gpio_reset" 18;
        leds = leds;
        controller = c;
        calibration = record cal { offset_x = sfp.offset_x; offset_y = sfp.offset_y };
        sfp = sfp;
        survey = koruza_survey_reset;
        led_config = l;
        store = t;
        gpio = g;
        effects = status_requests h.memory sfp.rx_power;
      }

  abbrev pub first_status :
      Bytes → ℕ → Calibration F → S → Gpio → Option (Sfp × Leds) → Option (Started F S)
  first_status serial leds cal t g none = none
  first_status serial leds cal t g (some (sfp, l)) = some (settled serial leds cal t g sfp l)

  abbrev pub with_leds : Bytes → ℕ → Calibration F → S → Gpio → Option Leds → Option (Started F S)
  with_leds serial leds cal t g none = none
  with_leds serial leds cal t g (some l) = first_status serial leds cal t g (
      then_leds h.floats h.sfp_casts h.doubles h.led_ops leds l
        (koruza_update_sfp h.floats h.sfp_casts h.memory h.before h.service (initial_sfp cal)))

  -- `none` is a write through a null pointer, or the abort of a failed assertion.
  unfoldable pub start_unit : S → Gpio → Option (Started F S)
  start_unit s g =
      let serial = serial_or_default (uci_get_string h.uci s "koruza.@unit[0].serial_number") in
      let (cal, t) = initial_calibration h.floats h.casts h.uci s in
      let leds = get_byte h.uci t "koruza.leds.status" 1 in
      let (reset, after) =
        koruza_hard_reset h.files (get_byte h.uci t "koruza.@mcu[0].gpio_reset" 18) g in
      with_leds serial leds cal t after (initial_leds leds h.ws2811_init)

  no_leds :
      (leds : ℕ) (l : Leds) (r : Option (Bool × Sfp))
      → l.colors ≡ none
      → then_leds h.floats h.sfp_casts h.doubles h.led_ops leds l r ≡ none
  unfolding koruza_update_sfp_leds
  no_leds leds l none e = refl
  no_leds leds l (some (ok, sfp)) e = rw e refl

  -- The LEDs with the colour of a power.
  abbrev shown : ℕ → ℕ → Leds
  shown leds power = record {
    colors = some (replicate led_count (led_color h.doubles h.led_ops power));
    brightness = if leds == 0 then 0 else 255;
  }

  lit :
      (serial : Bytes) (leds : ℕ) (cal : Calibration F) (t : S) (g : Gpio) (colors : List ℕ)
      (ok : Bool) (sfp : Sfp)
      → koruza_update_sfp h.floats h.sfp_casts h.memory h.before h.service (initial_sfp cal)
        ≡ some (ok, sfp)
      → with_leds serial leds cal t g (initial_leds leds (some colors))
        ≡ some (settled serial leds cal t g sfp (shown leds sfp.rx_power))
  unfolding koruza_update_sfp_leds
  lit serial leds cal t g colors ok sfp e =
      ap
        (λ r.
          first_status serial leds cal t g
            (then_leds h.floats h.sfp_casts h.doubles h.led_ops leds (shown leds 0) r))
        e

  -- Without LEDs the start does not survive: the first update of the status writes through the
  -- null pointer. With LEDs, and an SFP module whose reading does not abort, the unit starts: its
  -- controller and the requests that it sends are those of the configured motors and the power
  -- read, the LEDs all show the colour of this power, and the survey is empty.
  pub start_unit_lem :
      (s : S) (g : Gpio)
      → let (cal, t) = initial_calibration h.floats h.casts h.uci s in
        (h.ws2811_init ≡ none → start_unit s g ≡ none)
        × ((colors : List ℕ) (ok : Bool) (sfp : Sfp)
            → h.ws2811_init ≡ some colors
            → koruza_update_sfp h.floats h.sfp_casts h.memory h.before h.service (initial_sfp cal)
              ≡ some (ok, sfp)
            → (u : Started F S) × (start_unit s g ≡ some u)
              × ((u.controller, u.effects)
                  ≡ requested_start h.memory
                      (read_motors h.uci t)
                      sfp.rx_power
                      h.motors_sent
                      h.accelerometer_sent)
              × (u.led_config.colors
                  ≡ some (replicate led_count (led_color h.doubles h.led_ops sfp.rx_power)))
              × (u.survey ≡ koruza_survey_reset))
  unfolding start_unit
  start_unit_lem s g =
      let (cal, t) = initial_calibration h.floats h.casts h.uci s in
      let serial = serial_or_default (uci_get_string h.uci s "koruza.@unit[0].serial_number") in
      let leds = get_byte h.uci t "koruza.leds.status" 1 in
      let (reset, after) =
        koruza_hard_reset h.files (get_byte h.uci t "koruza.@mcu[0].gpio_reset" 18) g in
      let behind =
        λ (ws : Option (List ℕ)). with_leds serial leds cal t after (initial_leds leds ws) in
      (
        λ e.
            ap behind e
            ∙ ap (first_status serial leds cal t after) (
                no_leds leds (record { colors = none; brightness = 255 })
                  (koruza_update_sfp h.floats h.sfp_casts h.memory h.before h.service
                    (initial_sfp cal))
                  refl),
        λ colors ok sfp e f. (
          settled serial leds cal t after sfp (shown leds sfp.rx_power),
          ap behind e ∙ lit serial leds cal t after colors ok sfp f,
          refl,
          refl,
          refl,
        ),
      )
