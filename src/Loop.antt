-- ===== src/Loop.antt =====
-- The event loop of the daemon (`uloop_run` in main.c), with the callbacks of koruza.c, serial.c,
-- network.c and ubus.c put together: one function for one event.
--
-- What a callback sends goes over its serial device at once, and a failed write reopens it; what it
-- writes to the configuration is written. `Machine` has all parameters; what the system answers to
-- the sending of a message is counted from the start of the program. The handler of a message runs
-- after the buffer is pushed rather than during it, which is the same since no handler touches a
-- parser.
pub mod Sound
pub mod Reach
pub mod Boot
pub mod Answer
pub mod Report
pub mod Move
pub mod Quiet
pub mod Silence
pub mod Tests
mod Runs
use mathlib.Core.Option
use koruza_driver.Prelude.{
  ℕ, suc, ◌+◌, List, [], ◌∷◌, ◌++◌, Bool, true, false, not, Option, some, none, if◌then◌else◌,
  Bytes, ℤ,
}
use koruza_driver.Message.{Message, Memory}
use koruza_driver.Frame.{Heap, frame_max_length}
use koruza_driver.Serial.{
  DeviceId, device_motors, device_accelerometer, SerialDevice, Devices, Call, Line,
  serial_get_device, put_device, serial_get_device_fd, Sent, sent_ok, failed, send_refused,
  send_aborted, endless, serial_send_message, serial_fd_handler,
}
use koruza_driver.Configuration.{uci_set_int}
use koruza_driver.Koruza.{
  Controller, Key, Effect, sent, set_int, commit, status_message,
  koruza_serial_motors_message_handler,
}
use koruza_driver.Koruza.Store.{key_location, koruza_uci_commit}
use koruza_driver.Koruza.Timers.{start_wait, update_connections, koruza_timer_wait_reply_handler}
use koruza_driver.Koruza.Survey.{koruza_timer_survey_handler}
use koruza_driver.Koruza.Window.{Accelerometer, koruza_serial_accelerometer_message_handler}
use koruza_driver.Koruza.Sfp.{SfpCasts, Service, Sfp}
use koruza_driver.Koruza.Sfp.Refresh.{koruza_timer_sfp_status_handler}
use koruza_driver.Koruza.Leds.{Leds}
use koruza_driver.Network.{
  NetworkStatus, NetworkEffect, InterfaceAddress, network_announce_ourselves,
  network_update_local_address,
}
use koruza_driver.Ubus.State.{Daemon}
use koruza_driver.Ubus.Reply.{Add}
use koruza_driver.Ubus.{Platform, UbusStatus, Outcome, Method, call}

-- What the system answers to the sending of one message: the calls of `write`, and the reopening.
pub record Link : Type 0 where
  pub write : ℕ → ℕ → Option ℕ
  pub line : Line

-- `before` is what uninitialised locals hold, by the type of the TLV that is read into them.
pub record Machine (B F D S : Type 0) : Type 0 where
  pub platform : Platform B F D S
  pub sfp_casts : SfpCasts F
  pub realloc : ℕ → Bool
  pub malloc : ℕ → Bool
  pub links : ℕ → Link
  pub before : ℕ → Bytes

-- All the state of the loop, and how many messages have been sent.
pub record World (F S : Type 0) : Type 0 where
  pub daemon : Daemon F S
  pub devices : Devices
  pub sends : ℕ

-- What is seen from outside: bytes on a line, coordinates saved, what the network is given, and
-- the answer of a method.
pub data Output : Type 0 where
  on_line : DeviceId → Bytes → Output
  saved : Key → ℤ → Output
  on_network : List NetworkEffect → Output
  answered : UbusStatus → List Add → Output

-- `none` is an abort or a crash.
abbrev pub Ran : Type 0 → Type 0 → Type 0
Ran F S = Option (World F S × List Output)

abbrev pub output_before : {F S : Type 0} → List Output → Ran F S → Ran F S
output_before os none = none
output_before os (some (w, ps)) = some (w, os ++ ps)

abbrev pub and_run : {F S : Type 0} → Ran F S → (World F S → Ran F S) → Ran F S
and_run none k = none
and_run (some (w, os)) k = output_before os (k w)

-- The events: a descriptor that is readable, with what `read` returns and what a reopening meets; the
-- timers; and the call of a method.
pub data Event (B : Type 0) : Type 0 where
  readable : Option ℕ → Line → Option Bytes → Event B
  status_timer sfp_timer : Service → Event B
  wait_timer survey_timer announce_timer : Event B
  address_timer : Option (List InterfaceAddress) → Event B
  method : Method → B → Event B

module _ {B F D S : Type 0} (m : Machine B F D S) where
  abbrev pub memory : Memory
  memory = m.platform.memory

  abbrev pub heap : Heap
  heap = record { memory = m.platform.memory; realloc = m.realloc }

  -- ---- sending

  -- Whether `serial_send_message` returns 0, and what follows for the device.
  abbrev pub transmitted : DeviceId → World F S → Sent → Option (Bool × World F S × List Output)
  transmitted id w (sent_ok bytes) =
      some (true, record w { sends = suc w.sends }, on_line id bytes ∷ [])
  transmitted id w (failed bytes o) = some (
    false,
    record w { sends = suc w.sends; devices = put_device id o.cfg w.devices },
    on_line id bytes ∷ [],
  )
  transmitted id w send_refused = some (false, record w { sends = suc w.sends }, [])
  transmitted id w send_aborted = none
  transmitted id w endless = none

  unfoldable pub transmit : DeviceId → Message → World F S → Option (Bool × World F S × List Output)
  transmit id message w =
      let link = m.links w.sends in
      transmitted id w (
        serial_send_message frame_max_length link.write m.malloc link.line
          (serial_get_device id w.devices) message)

  -- For callers that do not look at the result.
  abbrev pub ignore_result : Option (Bool × World F S × List Output) → Ran F S
  ignore_result none = none
  ignore_result (some (ok, w, os)) = some (w, os)

  abbrev pub with_store : S → World F S → World F S
  with_store s w = record w { daemon = record (w.daemon) { store = s } }

  -- The effects of a callback, in order.
  unfoldable pub perform_all : List Effect → World F S → Ran F S
  perform_all [] w = some (w, [])
  perform_all (sent id message ∷ es) w =
      and_run (ignore_result (transmit id message w)) (perform_all es)
  perform_all (set_int k v ∷ es) w =
      output_before (saved k v ∷ []) (
        perform_all es
          (with_store (uci_set_int m.platform.uci w.daemon.store (key_location k) v) w))
  perform_all (commit ∷ es) w =
      perform_all es (with_store (koruza_uci_commit m.platform.uci w.daemon.store).1 w)

  -- ---- messages

  abbrev pub with_controller : World F S → Controller → World F S
  with_controller w c = record w {
    daemon = record (w.daemon) {
      controller = c;
      accelerometer = record (w.daemon.accelerometer) { connected = c.accelerometer_connected };
    };
  }

  abbrev pub controlled : World F S → Option (Controller × List Effect) → Ran F S
  controlled w none = none
  controlled w (some (c, es)) = perform_all es (with_controller w c)

  abbrev pub sampled : World F S → Option (Accelerometer F) → Ran F S
  sampled w none = none
  sampled w (some a) = some (
    record w {
      daemon = record (w.daemon) {
        accelerometer = a;
        controller = record (w.daemon.controller) { accelerometer_connected = a.connected };
      };
    },
    [],
  )

  -- The handler of a device.
  unfoldable pub handle_message : DeviceId → Message → World F S → Ran F S
  handle_message device_motors message w =
      controlled w
        (koruza_serial_motors_message_handler memory m.before message w.daemon.controller)
  handle_message device_accelerometer message w = sampled w (
      koruza_serial_accelerometer_message_handler m.platform.floats m.before message
        w.daemon.accelerometer)

  unfoldable pub handle_messages : DeviceId → List Message → World F S → Ran F S
  handle_messages id [] w = some (w, [])
  handle_messages id (message ∷ ms) w =
      and_run (handle_message id message w) (handle_messages id ms)

  -- The messages of a read go to the handler of the device that the descriptor belongs to.
  abbrev pub delivered :
      Option DeviceId → World F S → Option (Devices × List Message × List Call) → Ran F S
  delivered id w none = none
  delivered none w (some (d, ms, calls)) = some (record w { devices = d }, [])
  delivered (some id) w (some (d, ms, calls)) = handle_messages id ms (record w { devices = d })

  -- ---- timers

  abbrev pub sfp_of : Daemon F S → Sfp
  sfp_of d = record {
    tx_power = d.tx_power;
    rx_power = d.controller.rx_power;
    offset_x = d.calibration.offset_x;
    offset_y = d.calibration.offset_y;
  }

  abbrev pub put_sfp : World F S → Sfp × Leds → World F S
  put_sfp w (sfp, l) = record w {
    daemon = record (w.daemon) {
      tx_power = sfp.tx_power;
      controller = record (w.daemon.controller) { rx_power = sfp.rx_power };
      calibration = record (w.daemon.calibration) {
        offset_x = sfp.offset_x;
        offset_y = sfp.offset_y;
      };
      led_config = l;
    };
  }

  -- `koruza_update_sfp` and `koruza_update_sfp_leds`.
  unfoldable pub refresh_sfp : Service → World F S → Option (World F S)
  refresh_sfp service w = Option.map (put_sfp w) (
      koruza_timer_sfp_status_handler m.platform.floats m.sfp_casts m.platform.doubles
        m.platform.led_ops memory (m.before 0) service w.daemon.leds (sfp_of w.daemon)
        w.daemon.led_config)

  -- The end of the timer's handler, with what came of the two requests. The second request does not
  -- depend on the connections, so both are updated here.
  abbrev pub both_requested : Bool → List Output → Option (Bool × World F S × List Output) → Ran F S
  both_requested motors_sent os none = none
  both_requested motors_sent os (some (accelerometer_sent, w, ps)) = some (
    with_controller w
        (start_wait (update_connections motors_sent accelerometer_sent w.daemon.controller)),
    os ++ ps,
  )

  -- The status request to the second device.
  abbrev pub second_request : Option (Bool × World F S × List Output) → Ran F S
  second_request none = none
  second_request (some (motors_sent, w, os)) =
      both_requested motors_sent os
        (transmit device_accelerometer (status_message memory w.daemon.controller.rx_power) w)

  abbrev pub request_status : Option (World F S) → Ran F S
  request_status none = none
  request_status (some w) =
      second_request (transmit device_motors (status_message memory w.daemon.controller.rx_power) w)

  abbrev pub quiet : Option (World F S) → Ran F S
  quiet none = none
  quiet (some w) = some (w, [])

  abbrev pub updated_address : World F S → Option (NetworkStatus × List NetworkEffect) → Ran F S
  updated_address w none = none
  updated_address w (some (s, es)) =
      some (record w { daemon = record (w.daemon) { network = s } }, on_network es ∷ [])

  -- ---- methods

  abbrev pub replied : World F S → Option (Outcome F S) → Ran F S
  replied w none = none
  replied w (some r) =
      and_run (perform_all r.effects (record w { daemon = r.daemon }))
        (λ v. some (v, answered r.status r.reply ∷ []))

  -- One event. A timer that is not pending does not fire.
  unfoldable pub step : Event B → World F S → Ran F S
  step (readable fd line input) w =
      delivered (serial_get_device_fd fd w.devices) w
        (serial_fd_handler heap line w.devices fd input)
  step (status_timer service) w = request_status (refresh_sfp service w)
  step (sfp_timer service) w = quiet (refresh_sfp service w)
  step wait_timer w =
      if w.daemon.controller.wait_pending
      then some (
        with_controller w (
            koruza_timer_wait_reply_handler
              (record (w.daemon.controller) { wait_pending = false })),
        [],
      )
      else some (w, [])
  step survey_timer w = some (
    record w {
      daemon = record (w.daemon) {
        survey = koruza_timer_survey_handler w.daemon.controller w.daemon.survey;
      };
    },
    [],
  )
  step announce_timer w =
      some (w, on_network (network_announce_ourselves memory m.malloc w.daemon.network) ∷ [])
  step (address_timer entries) w =
      updated_address w (network_update_local_address entries w.daemon.network)
  step (method name msg) w = replied w (call m.platform name w.daemon msg)

  unfoldable pub run : List (Event B) → World F S → Ran F S
  run [] w = some (w, [])
  run (e ∷ events) w = and_run (step e w) (run events)
