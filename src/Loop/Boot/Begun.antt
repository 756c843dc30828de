-- ===== src/Loop/Boot/Begun.antt =====
-- What the start establishes: the ranges, the shapes of all arrays of the state, and the parsers.
use mathlib.Core.Option
use koruza_driver.Prelude.{
  ℕ, ◌^◌, ◌<◌, refl, Bool, true, Option, some, none, ℤ, length-replicate, All, All-replicate, Bytes,
  pattern32, arith, Bool-cases, pos, negsuc, inl, inr,
}
use koruza_driver.Frame.{Parser}
use koruza_driver.Frame.Invariant.{IsParser}
use koruza_driver.Serial.{
  DeviceId, device_motors, device_accelerometer, Devices, Line, serial_get_device, put_device,
  serial_set_message_handler, serial_init,
}
use koruza_driver.Serial.Parsers.{
  HasParsers, get-IsParser, put-HasParsers, StaysStarted, serial_init-StaysStarted,
}
use koruza_driver.Gpio.{Gpio}
use koruza_driver.Koruza.Motors.{IsSafe}
use koruza_driver.Koruza.Connection.{IsRange, initial_range-IsRange}
use koruza_driver.Koruza.Store.{read_motors}
use koruza_driver.Koruza.Timers.{update_connections, status_requests, initial_motors}
use koruza_driver.Koruza.Survey.{IsSurvey, reset-IsSurvey}
use koruza_driver.Koruza.Window.{zero_item}
use koruza_driver.Koruza.Window.Shape.{IsItem, zero-IsItem}
use koruza_driver.Koruza.Calibration.{Calibration}
use koruza_driver.Koruza.Sfp.{Sfp}
use koruza_driver.Koruza.Sfp.Refresh.{then_leds}
use koruza_driver.Koruza.Leds.{Leds}
use koruza_driver.Koruza.Start.{
  Host, settled, first_status, with_leds, initial_leds, initial_sfp, start_unit,
}
use koruza_driver.Koruza.Start
use koruza_driver.Serial
use koruza_driver.Ubus.State.{alignment_variable_count}
use koruza_driver.Ubus.Keeps.{HasLeds, StaysLeds, update_leds-StaysLeds}
use koruza_driver.Loop.{Machine, Ran, heap}
use koruza_driver.Loop.Sound.{IsSound, IsInRange, StaysSound, perform_all-StaysSound}
use koruza_driver.Loop.Boot.{
  Surroundings, host, with_handlers, started_world, first_requests, after_serial_init, boot,
}

module _ {B F D S : Type 0} (m : Machine B F D S) (around : Surroundings) where
  abbrev HasBegun : Option (Start.Started F S) → Type 0
  HasBegun none = Unit
  HasBegun (some u) =
      let c = u.controller.motors in
      (IsRange c.range_x × IsRange c.range_y)
      × IsSurvey u.survey
      × HasLeds u.led_config
      × All (IsSafe c.range_x c.range_y) u.effects

  pattern32_bound : (v : ℤ) → pattern32 v < 2 ^ 32
  pattern32_bound (pos n) = omega arith
  pattern32_bound (negsuc n) = omega arith

  settled-HasBegun :
      (serial : Bytes) (leds : ℕ) (cal : Calibration F) (t : S) (g : Gpio) (sfp : Sfp) (l : Leds)
      → HasLeds l
      → HasBegun (some (settled (host m around) serial leds cal t g sfp l))
  unfolding update_connections status_requests initial_motors read_motors
  settled-HasBegun serial leds cal t g sfp l h = (
    (
      initial_range-IsRange (read_motors m.platform.uci t).range_x (pattern32_bound _),
      initial_range-IsRange (read_motors m.platform.uci t).range_y (pattern32_bound _),
    ),
    reset-IsSurvey,
    h,
    (tt, (tt, tt)),
  )

  shown-HasBegun :
      (serial : Bytes) (leds : ℕ) (cal : Calibration F) (t : S) (g : Gpio) (sfp : Sfp)
      (l : Option Leds)
      → StaysLeds l
      → HasBegun
          (first_status (host m around) serial leds cal t g (Option.map (λ (k : Leds). (sfp, k)) l))
  shown-HasBegun serial leds cal t g sfp none h = tt
  shown-HasBegun serial leds cal t g sfp (some l) h = settled-HasBegun serial leds cal t g sfp l h

  read-HasBegun :
      (serial : Bytes) (leds : ℕ) (cal : Calibration F) (t : S) (g : Gpio) (l : Leds)
      (r : Option (Bool × Sfp))
      → HasBegun (
          first_status (host m around) serial leds cal t g (
            then_leds m.platform.floats m.sfp_casts m.platform.doubles m.platform.led_ops leds l r))
  read-HasBegun serial leds cal t g l none = tt
  read-HasBegun serial leds cal t g l (some (ok, sfp)) =
      shown-HasBegun serial leds cal t g sfp _
        (update_leds-StaysLeds m.platform.doubles m.platform.led_ops sfp.rx_power leds l)

  with_leds-HasBegun :
      (serial : Bytes) (leds : ℕ) (cal : Calibration F) (t : S) (g : Gpio) (l : Option Leds)
      → HasBegun (with_leds (host m around) serial leds cal t g l)
  with_leds-HasBegun serial leds cal t g none = tt
  with_leds-HasBegun serial leds cal t g (some l) = read-HasBegun serial leds cal t g l _

  start-HasBegun : (s : S) (g : Gpio) → HasBegun (start_unit (host m around) s g)
  unfolding start_unit
  start-HasBegun s g = with_leds-HasBegun _ _ _ _ _ _

  -- A parser with a handler is as well formed as without.
  handler-IsParser : (p : Parser) → IsParser p → IsParser (record p { has_handler = true })
  handler-IsParser p h = record {
    fits = h.fits;
    bounded = h.bounded;
    grown = h.grown;
    limited = h.limited;
    idle = h.idle;
  }

  set_handler-HasParsers :
      (id : DeviceId) (d : Devices) → HasParsers d → HasParsers (serial_set_message_handler id d)
  unfolding serial_set_message_handler
  set_handler-HasParsers id d h =
      put-HasParsers id _ d h
        (handler-IsParser (serial_get_device id d).parser (get-IsParser id d h))

  -- From the start, with the ranges that the start leaves.
  abbrev pub BootsSound : Ran F S → Type 0
  BootsSound none = Unit
  BootsSound (some (w, os)) =
      (rx : ℕ) × (ry : ℕ) × (IsRange rx × IsRange ry) × IsSound rx ry w × All (IsInRange rx ry) os

  boots : (rx ry : ℕ) (r : Ran F S) → IsRange rx × IsRange ry → StaysSound rx ry r → BootsSound r
  boots rx ry none i h = tt
  boots rx ry (some (w, os)) i h = (rx, ry, i, h.0, h.1)

  first_requests-BootsSound :
      (d : Devices) (u : Option (Start.Started F S))
      → HasParsers d
      → HasBegun u
      → BootsSound (first_requests m around d u)
  unfolding started_world
  first_requests-BootsSound d none h b = tt
  first_requests-BootsSound d (some u) h b =
      let c = u.controller.motors in
      let axis =
        All-replicate IsItem 4 (zero_item m.platform.floats) (zero-IsItem m.platform.floats) in
      boots c.range_x c.range_y _ b.0 (
        perform_all-StaysSound m c.range_x c.range_y u.effects (started_world m around d u) b.3 (
          ((refl, refl), b.1, length-replicate alignment_variable_count 0, (axis, axis, axis), b.2),
          h,
        ))

  after_serial_init-BootsSound :
      (s : S) (st : Option Serial.Started)
      → StaysStarted st
      → BootsSound (after_serial_init m around s st)
  after_serial_init-BootsSound s none h = tt
  after_serial_init-BootsSound s (some st) h = elim (Bool-cases st.ok) [
    | inl y ↦ rw y (
        first_requests-BootsSound (with_handlers m around st.devices)
          (start_unit (host m around) s around.gpio)
          (set_handler-HasParsers device_accelerometer _
            (set_handler-HasParsers device_motors st.devices (h y)))
          (start-HasBegun s around.gpio))
    | inr n ↦ rw n tt
  ]

  pub boot-BootsSound : (s : S) → BootsSound (boot m around s)
  unfolding boot
  boot-BootsSound s =
      after_serial_init-BootsSound s
        (serial_init (heap m) around.motors_line around.accelerometer_line around.devices)
        (serial_init-StaysStarted (heap m) around.motors_line around.accelerometer_line
          around.devices)
