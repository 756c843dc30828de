-- ===== src/Loop/Boot.antt =====
-- The start of the daemon, up to the event loop: `serial_init` and `koruza_init` in the order of
-- main.c, with the first status requests on the line.
--
-- What `network_init` leaves of its status is a field of `Surroundings`, since no event depends on more.
pub mod Begun
use mathlib.Core.Option
use koruza_driver.Prelude.{
  ℕ, ◌^◌, ◌<◌, refl, List, Bool, true, not, Option, some, none, if◌then◌else◌, ℤ, replicate,
  length-replicate, All, All-replicate, Bytes, pattern32, arith, Bool-cases, pos, negsuc, inl, inr,
}
use koruza_driver.Frame.{Parser}
use koruza_driver.Frame.Invariant.{IsParser}
use koruza_driver.Serial.{
  DeviceId, device_motors, device_accelerometer, Devices, Line, serial_get_device, put_device,
  serial_set_message_handler, serial_init,
}
use koruza_driver.Serial.Parsers.{
  HasParsers, get-IsParser, put-HasParsers, StaysStarted, serial_init-StaysStarted,
}
use koruza_driver.Gpio.{Gpio, Answer}
use koruza_driver.Koruza.Motors.{IsSafe}
use koruza_driver.Koruza.Connection.{IsRange, initial_range-IsRange}
use koruza_driver.Koruza.Store.{read_motors}
use koruza_driver.Koruza.Timers.{update_connections, status_requests, initial_motors}
use koruza_driver.Koruza.Survey.{IsSurvey, reset-IsSurvey}
use koruza_driver.Koruza.Window.{zero_item}
use koruza_driver.Koruza.Window.Shape.{IsItem, zero-IsItem}
use koruza_driver.Koruza.Calibration.{Calibration}
use koruza_driver.Koruza.Sfp.{Service, Sfp}
use koruza_driver.Koruza.Sfp.Refresh.{then_leds}
use koruza_driver.Koruza.Leds.{Leds}
use koruza_driver.Koruza.Start.{
  Host, settled, first_status, with_leds, initial_leds, initial_sfp, start_unit,
}
use koruza_driver.Koruza.Start
use koruza_driver.Serial
use koruza_driver.Network.{NetworkStatus}
use koruza_driver.Ubus.State.{alignment_variable_count}
use koruza_driver.Ubus.Keeps.{HasLeds, StaysLeds, update_leds-StaysLeds}
use koruza_driver.Loop.{Machine, World, Ran, heap, perform_all}
use koruza_driver.Loop.Sound.{IsSound, IsInRange, StaysSound, perform_all-StaysSound}

-- What the start meets.
pub record Surroundings : Type 0 where
  pub service : Service
  pub ws2811_init : Option (List ℕ)
  pub files : ℕ → Answer
  pub gpio : Gpio
  pub motors_line : Line
  pub accelerometer_line : Line
  pub devices : Devices
  pub network : NetworkStatus

module _ {B F D S : Type 0} (m : Machine B F D S) (around : Surroundings) where
  -- Both devices count as disconnected at the start, so it makes no difference whether the two
  -- requests can be sent.
  abbrev pub host : Host F D S
  host = record {
    floats = m.platform.floats;
    casts = m.platform.casts;
    sfp_casts = m.sfp_casts;
    doubles = m.platform.doubles;
    led_ops = m.platform.led_ops;
    uci = m.platform.uci;
    memory = m.platform.memory;
    before = m.before 0;
    service = around.service;
    ws2811_init = around.ws2811_init;
    files = around.files;
    motors_sent = true;
    accelerometer_sent = true;
  }

  -- `koruza_init` sets the handlers of both devices.
  abbrev pub with_handlers : Devices → Devices
  with_handlers d =
      serial_set_message_handler device_accelerometer (serial_set_message_handler device_motors d)

  -- The windows and the alignment are what `memset` leaves.
  unfoldable pub started_world : Devices → Start.Started F S → World F S
  started_world d u = record {
    daemon = record {
      serial_number = u.serial_number;
      leds = u.leds;
      controller = u.controller;
      accelerometer = record {
        connected = u.controller.accelerometer_connected;
        x = replicate 4 (zero_item m.platform.floats);
        y = replicate 4 (zero_item m.platform.floats);
        z = replicate 4 (zero_item m.platform.floats);
      };
      calibration = u.calibration;
      tx_power = u.sfp.tx_power;
      alignment = record { state = 0; variables = replicate alignment_variable_count 0 };
      survey = u.survey;
      led_config = u.led_config;
      network = around.network;
      store = u.store;
    };
    devices = d;
    sends = 0;
  }

  -- The unit behind `koruza_init`, and its first requests.
  abbrev pub first_requests : Devices → Option (Start.Started F S) → Ran F S
  first_requests d none = none
  first_requests d (some u) = perform_all m u.effects (started_world d u)

  -- `main` ends if `serial_init` does not succeed.
  abbrev pub after_serial_init : S → Option Serial.Started → Ran F S
  after_serial_init s none = none
  after_serial_init s (some st) =
      if not st.ok
      then none
      else first_requests (with_handlers st.devices) (start_unit host s around.gpio)

  -- `none` is an abort, a crash, or an early end.
  unfoldable pub boot : S → Ran F S
  boot s =
      after_serial_init s
        (serial_init (heap m) around.motors_line around.accelerometer_line around.devices)
