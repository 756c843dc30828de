-- ===== src/Loop/Sound.antt =====
-- What sendings, writes and messages keep: the ranges, the shapes of all arrays of the state, and the
-- parsers. The timers, the methods and the events as a whole are in Loop/Sound/Events.
pub mod Events
use mathlib.Core.Option
use koruza_driver.Prelude.{
  ℕ, List, [], ◌∷◌, Bool, false, Option, some, none, ℤ, All, All-append, if_holds,
}
use koruza_driver.Message.{Message}
use koruza_driver.Frame.{frame_max_length}
use koruza_driver.Serial.{
  DeviceId, device_motors, device_accelerometer, Devices, Call, serial_get_device,
  serial_get_device_fd, Sent, sent_ok, failed, send_refused, send_aborted, endless,
}
use koruza_driver.Serial.Parsers.{
  HasParsers, put-HasParsers, get-IsParser, StaysSent, send_message-StaysSent, StaysHandled,
  fd_handler-StaysHandled,
}
use koruza_driver.Koruza.{
  Controller, Key, last_x, last_y, Effect, sent, set_int, commit, status_message,
}
use koruza_driver.Koruza.Motors.{IsBetween, IsSafe, HasRanges}
use koruza_driver.Koruza.Ranges.{StaysSafe, handler-StaysSafe}
use koruza_driver.Koruza.Connection.{timer-HasRanges}
use koruza_driver.Koruza.Survey.{timer-IsSurvey}
use koruza_driver.Koruza.Timers.{koruza_timer_wait_reply_handler}
use koruza_driver.Koruza.Window.{Accelerometer}
use koruza_driver.Koruza.Window.Shape.{StaysWindow, handler-StaysWindow}
use koruza_driver.Koruza.Sfp.{Sfp, Service}
use koruza_driver.Koruza.Sfp.Refresh.{then_leds, koruza_timer_sfp_status_handler}
use koruza_driver.Koruza.Leds.{Leds}
use koruza_driver.Network.{NetworkStatus, NetworkEffect, network_update_local_address}
use koruza_driver.Ubus.{Outcome}
use koruza_driver.Ubus.Keeps.{
  IsDaemon, StaysOutcome, StaysLeds, update_leds-StaysLeds, call-StaysOutcome,
}
use koruza_driver.Loop.{
  Machine, World, Output, on_line, saved, on_network, answered, Ran, output_before, and_run, Event,
  readable, status_timer, sfp_timer, wait_timer, survey_timer, announce_timer, address_timer,
  method, memory, heap, transmitted, transmit, ignore_result, perform_all, with_controller,
  controlled, sampled, handle_message, handle_messages, delivered, put_sfp, refresh_sfp,
  both_requested, second_request, request_status, quiet, updated_address, replied, step, run,
}

abbrev pub IsSound : {F S : Type 0} → ℕ → ℕ → World F S → Type 0
IsSound rx ry w = IsDaemon rx ry w.daemon × HasParsers w.devices

-- A coordinate that is saved is between minus and plus its range.
abbrev pub IsInRange : ℕ → ℕ → Output → Type 0
IsInRange rx ry (on_line id bytes) = Unit
IsInRange rx ry (saved last_x v) = IsBetween v rx
IsInRange rx ry (saved last_y v) = IsBetween v ry
IsInRange rx ry (on_network es) = Unit
IsInRange rx ry (answered result reply) = Unit

-- Of a run that does not abort.
abbrev pub StaysSound : {F S : Type 0} → ℕ → ℕ → Ran F S → Type 0
StaysSound rx ry none = Unit
StaysSound rx ry (some (w, os)) = IsSound rx ry w × All (IsInRange rx ry) os

module _ {B F D S : Type 0} (m : Machine B F D S) (rx ry : ℕ) where
  output_before-StaysSound :
      (os : List Output) (r : Ran F S)
      → All (IsInRange rx ry) os
      → StaysSound rx ry r
      → StaysSound rx ry (output_before os r)
  output_before-StaysSound os none h k = tt
  output_before-StaysSound os (some (w, ps)) h k = (k.0, All-append (IsInRange rx ry) os ps h k.1)

  pub and_run-StaysSound :
      (r : Ran F S) (k : World F S → Ran F S)
      → StaysSound rx ry r
      → ((w : World F S) → IsSound rx ry w → StaysSound rx ry (k w))
      → StaysSound rx ry (and_run r k)
  and_run-StaysSound none k h l = tt
  and_run-StaysSound (some (w, os)) k h l = output_before-StaysSound os (k w) h.1 (l w h.0)

  -- ---- sending

  abbrev pub StaysTransmitted : Option (Bool × World F S × List Output) → Type 0
  StaysTransmitted none = Unit
  StaysTransmitted (some (ok, w, os)) = IsSound rx ry w × All (IsInRange rx ry) os

  transmitted-Stays :
      (id : DeviceId) (w : World F S) (s : Sent)
      → IsSound rx ry w
      → StaysSent s
      → StaysTransmitted (transmitted m id w s)
  transmitted-Stays id w (sent_ok bytes) h k = (h, (tt, tt))
  transmitted-Stays id w (failed bytes o) h k =
      ((h.0, put-HasParsers id o.cfg w.devices h.1 k), (tt, tt))
  transmitted-Stays id w send_refused h k = (h, tt)
  transmitted-Stays id w send_aborted h k = tt
  transmitted-Stays id w endless h k = tt

  pub transmit-Stays :
      (id : DeviceId) (message : Message) (w : World F S)
      → IsSound rx ry w
      → StaysTransmitted (transmit m id message w)
  unfolding transmit
  transmit-Stays id message w h =
      let link = m.links w.sends in
      transmitted-Stays id w _ h (
        send_message-StaysSent frame_max_length link.write m.malloc link.line
          (serial_get_device id w.devices) message (get-IsParser id w.devices h.1))

  ignore-StaysSound :
      (r : Option (Bool × World F S × List Output))
      → StaysTransmitted r
      → StaysSound rx ry (ignore_result m r)
  ignore-StaysSound none h = tt
  ignore-StaysSound (some (ok, w, os)) h = h

  saved-IsInRange : (k : Key) (v : ℤ) → IsSafe rx ry (set_int k v) → IsInRange rx ry (saved k v)
  saved-IsInRange last_x v h = h
  saved-IsInRange last_y v h = h

  pub perform_all-StaysSound :
      (es : List Effect) (w : World F S)
      → All (IsSafe rx ry) es
      → IsSound rx ry w
      → StaysSound rx ry (perform_all m es w)
  unfolding perform_all
  perform_all-StaysSound [] w s h = (h, tt)
  perform_all-StaysSound (sent id message ∷ es) w s h =
      and_run-StaysSound _ (perform_all m es)
        (ignore-StaysSound (transmit m id message w) (transmit-Stays id message w h))
        (λ v i. perform_all-StaysSound es v s.1 i)
  perform_all-StaysSound (set_int k v ∷ es) w s h =
      output_before-StaysSound (saved k v ∷ []) _ (saved-IsInRange k v s.0, tt)
        (perform_all-StaysSound es _ s.1 h)
  perform_all-StaysSound (commit ∷ es) w s h = perform_all-StaysSound es _ s.1 h

  -- ---- messages

  pub with_controller-IsSound :
      (w : World F S) (c : Controller)
      → HasRanges rx ry c
      → IsSound rx ry w
      → IsSound rx ry (with_controller m w c)
  with_controller-IsSound w c r h = ((r, h.0.1, h.0.2, h.0.3, h.0.4), h.1)

  controlled-StaysSound :
      (w : World F S) (r : Option (Controller × List Effect))
      → IsSound rx ry w
      → StaysSafe rx ry r
      → StaysSound rx ry (controlled m w r)
  controlled-StaysSound w none h s = tt
  controlled-StaysSound w (some (c, es)) h s =
      perform_all-StaysSound es (with_controller m w c) s.1 (with_controller-IsSound w c s.0 h)

  sampled-StaysSound :
      (w : World F S) (r : Option (Accelerometer F))
      → IsSound rx ry w
      → StaysWindow m.platform.floats r
      → StaysSound rx ry (sampled m w r)
  sampled-StaysSound w none h k = tt
  sampled-StaysSound w (some a) h k = (((h.0.0, h.0.1, h.0.2, k, h.0.4), h.1), tt)

  handle_message-StaysSound :
      (id : DeviceId) (message : Message) (w : World F S)
      → IsSound rx ry w
      → StaysSound rx ry (handle_message m id message w)
  unfolding handle_message
  handle_message-StaysSound device_motors message w h =
      controlled-StaysSound w _ h
        (handler-StaysSafe (memory m) m.before message rx ry w.daemon.controller h.0.0)
  handle_message-StaysSound device_accelerometer message w h =
      sampled-StaysSound w _ h
        (handler-StaysWindow m.platform.floats m.before message w.daemon.accelerometer h.0.3)

  handle_messages-StaysSound :
      (id : DeviceId) (ms : List Message) (w : World F S)
      → IsSound rx ry w
      → StaysSound rx ry (handle_messages m id ms w)
  unfolding handle_messages
  handle_messages-StaysSound id [] w h = (h, tt)
  handle_messages-StaysSound id (message ∷ ms) w h =
      and_run-StaysSound _ (handle_messages m id ms) (handle_message-StaysSound id message w h)
        (handle_messages-StaysSound id ms)

  pub delivered-StaysSound :
      (id : Option DeviceId) (w : World F S) (r : Option (Devices × List Message × List Call))
      → IsSound rx ry w
      → StaysHandled r
      → StaysSound rx ry (delivered m id w r)
  delivered-StaysSound none w none h k = tt
  delivered-StaysSound (some id) w none h k = tt
  delivered-StaysSound none w (some (d, ms, calls)) h k = ((h.0, k), tt)
  delivered-StaysSound (some id) w (some (d, ms, calls)) h k =
      handle_messages-StaysSound id ms (record w { devices = d }) (h.0, k)
