-- ===== src/Loop/Quiet.antt =====
-- A unit whose motor controller falls silent: what the loop makes of it, and what the bus is told.
use mathlib.Core.Option
use koruza_driver.Prelude.{
  ℕ, ◌≡◌, ◌≢◌, inl, inr, refl, List, [], ◌∷◌, Bool, not, Option, some, none, Option-cases, if_holds,
}
use koruza_driver.Message.{Message}
use koruza_driver.Frame.{Heap}
use koruza_driver.Serial.{
  DeviceId, device_motors, device_accelerometer, Devices, Call, Line, serial_get_device,
  serial_get_device_fd, Sent, sent_ok, failed, send_refused, send_aborted, endless,
  serial_fd_handler, handle_device, read_device, put_received, Received,
}
use koruza_driver.Koruza.{Effect, sent, set_int, commit}
use koruza_driver.Koruza.Window.{Accelerometer}
use koruza_driver.Koruza.Sfp.{Sfp, Service}
use koruza_driver.Koruza.Leds.{Leds}
use koruza_driver.Network.{NetworkStatus, NetworkEffect}
use koruza_driver.Ubus.{Outcome}
use koruza_driver.Ubus.Untouched.{KeepsController}
use koruza_driver.Loop.{
  Machine, World, Output, saved, Ran, output_before, and_run, Event, readable, status_timer,
  sfp_timer, wait_timer, survey_timer, announce_timer, address_timer, method, transmitted, transmit,
  ignore_result, perform_all, sampled, handle_message, handle_messages, delivered, put_sfp,
  refresh_sfp, quiet, updated_address, replied,
}

-- No bytes of the motors arrive.
abbrev pub IsQuiet : {B F S : Type 0} → World F S → Event B → Type 0
IsQuiet w (readable fd line (some bytes)) = serial_get_device_fd fd w.devices ≢ some device_motors
IsQuiet w (readable fd line none) = Unit
IsQuiet w (status_timer service) = Unit
IsQuiet w (sfp_timer service) = Unit
IsQuiet w wait_timer = Unit
IsQuiet w survey_timer = Unit
IsQuiet w announce_timer = Unit
IsQuiet w (address_timer entries) = Unit
IsQuiet w (method name msg) = Unit

-- Nothing is handed to a handler.
abbrev pub HandsNothing : Option (Devices × List Message × List Call) → Type 0
HandsNothing none = Unit
HandsNothing (some (d, ms, calls)) = ms ≡ []

pub error_handed :
    (h : Heap) (line : Line) (d : Devices) (fd : Option ℕ)
    → HandsNothing (serial_fd_handler h line d fd none)
unfolding serial_fd_handler handle_device read_device
error_handed h line d fd = elim (Option-cases (serial_get_device_fd fd d)) [
  | inl e ↦ rw (e, serial_fd_handler) refl
  | inr (id, e) ↦
      rw (e, serial_fd_handler)
        (if_holds (λ (r : Received). HandsNothing (put_received id d r))
          (not (serial_get_device id d).ready) _ _ refl refl)
]

-- What is kept of the connection of the motors and of the wait for a reply.
module _ {B F D S : Type 0} (m : Machine B F D S) (Q : Bool → Bool → Type 0) where
  abbrev pub On : World F S → Type 0
  On w = Q w.daemon.controller.motors.connected w.daemon.controller.wait_pending

  abbrev pub StaysOn : Ran F S → Type 0
  StaysOn none = Unit
  StaysOn (some (w, os)) = On w

  output_before-StaysOn :
      (os : List Output) (r : Ran F S) → StaysOn r → StaysOn (output_before os r)
  output_before-StaysOn os none h = tt
  output_before-StaysOn os (some (w, ps)) h = h

  and_run-StaysOn :
      (r : Ran F S) (k : World F S → Ran F S)
      → StaysOn r
      → ((w : World F S) → On w → StaysOn (k w))
      → StaysOn (and_run r k)
  and_run-StaysOn none k h l = tt
  and_run-StaysOn (some (w, os)) k h l = output_before-StaysOn os (k w) (l w h)

  -- ---- sending

  abbrev pub SentOn : Option (Bool × World F S × List Output) → Type 0
  SentOn none = Unit
  SentOn (some (ok, w, os)) = On w

  transmitted-On : (id : DeviceId) (w : World F S) (s : Sent) → On w → SentOn (transmitted m id w s)
  transmitted-On id w (sent_ok bytes) h = h
  transmitted-On id w (failed bytes o) h = h
  transmitted-On id w send_refused h = h
  transmitted-On id w send_aborted h = tt
  transmitted-On id w endless h = tt

  pub transmit-On :
      (id : DeviceId) (message : Message) (w : World F S) → On w → SentOn (transmit m id message w)
  unfolding transmit
  transmit-On id message w h = transmitted-On id w _ h

  ignore-StaysOn :
      (r : Option (Bool × World F S × List Output)) → SentOn r → StaysOn (ignore_result m r)
  ignore-StaysOn none h = tt
  ignore-StaysOn (some (ok, w, os)) h = h

  perform_all-StaysOn : (es : List Effect) (w : World F S) → On w → StaysOn (perform_all m es w)
  unfolding perform_all
  perform_all-StaysOn [] w h = h
  perform_all-StaysOn (sent id message ∷ es) w h =
      and_run-StaysOn _ (perform_all m es)
        (ignore-StaysOn (transmit m id message w) (transmit-On id message w h))
        (perform_all-StaysOn es)
  perform_all-StaysOn (set_int k v ∷ es) w h =
      output_before-StaysOn (saved k v ∷ []) _ (perform_all-StaysOn es _ h)
  perform_all-StaysOn (commit ∷ es) w h = perform_all-StaysOn es _ h

  -- ---- messages

  sampled-StaysOn : (w : World F S) (r : Option (Accelerometer F)) → On w → StaysOn (sampled m w r)
  sampled-StaysOn w none h = tt
  sampled-StaysOn w (some a) h = h

  accelerometer-StaysOn :
      (ms : List Message) (w : World F S)
      → On w
      → StaysOn (handle_messages m device_accelerometer ms w)
  unfolding handle_messages handle_message
  accelerometer-StaysOn [] w h = h
  accelerometer-StaysOn (message ∷ ms) w h =
      and_run-StaysOn _ (handle_messages m device_accelerometer ms) (sampled-StaysOn w _ h)
        (accelerometer-StaysOn ms)

  pub nothing-StaysOn :
      (id : Option DeviceId) (w : World F S) (r : Option (Devices × List Message × List Call))
      → HandsNothing r
      → On w
      → StaysOn (delivered m id w r)
  unfolding handle_messages
  nothing-StaysOn none w none e h = tt
  nothing-StaysOn (some id) w none e h = tt
  nothing-StaysOn none w (some (d, ms, calls)) e h = h
  nothing-StaysOn (some id) w (some (d, ms, calls)) e h = rw e h

  pub other-StaysOn :
      (id : Option DeviceId) (w : World F S) (r : Option (Devices × List Message × List Call))
      → id ≢ some device_motors
      → On w
      → StaysOn (delivered m id w r)
  other-StaysOn none w none n h = tt
  other-StaysOn none w (some (d, ms, calls)) n h = h
  other-StaysOn (some id) w none n h = tt
  other-StaysOn (some device_motors) w (some (d, ms, calls)) n h = absurd (n refl)
  other-StaysOn (some device_accelerometer) w (some (d, ms, calls)) n h =
      accelerometer-StaysOn ms (record w { devices = d }) h

  -- ---- timers

  abbrev pub WorldOn : Option (World F S) → Type 0
  WorldOn none = Unit
  WorldOn (some w) = On w

  put_sfp-WorldOn :
      (w : World F S) (r : Option (Sfp × Leds)) → On w → WorldOn (Option.map (put_sfp m w) r)
  put_sfp-WorldOn w none h = tt
  put_sfp-WorldOn w (some (s, l)) h = h

  pub refresh-WorldOn :
      (service : Service) (w : World F S) → On w → WorldOn (refresh_sfp m service w)
  unfolding refresh_sfp
  refresh-WorldOn service w h = put_sfp-WorldOn w _ h

  pub quiet-StaysOn : (w : Option (World F S)) → WorldOn w → StaysOn (quiet m w)
  quiet-StaysOn none h = tt
  quiet-StaysOn (some w) h = h

  pub address-StaysOn :
      (w : World F S) (r : Option (NetworkStatus × List NetworkEffect))
      → On w
      → StaysOn (updated_address m w r)
  address-StaysOn w none h = tt
  address-StaysOn w (some (s, es)) h = h

  pub replied-StaysOn :
      (w : World F S) (r : Option (Outcome F S))
      → KeepsController w.daemon r
      → On w
      → StaysOn (replied m w r)
  replied-StaysOn w none k h = tt
  replied-StaysOn w (some r) k h =
      and_run-StaysOn _ _ (perform_all-StaysOn r.effects (record w { daemon = r.daemon }) (rw k h))
        (λ v i. i)
