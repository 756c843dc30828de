-- ===== src/Loop/Sound/Events.antt =====
-- What every event keeps: the ranges, the shapes of all arrays of the state, and the parsers.
use mathlib.Core.Option
use koruza_driver.Prelude.{
  ℕ, List, [], ◌∷◌, Bool, false, Option, some, none, All, All-append, if_holds,
}
use koruza_driver.Serial.{device_motors, device_accelerometer, serial_get_device_fd}
use koruza_driver.Serial.Parsers.{fd_handler-StaysHandled}
use koruza_driver.Koruza.{status_message}
use koruza_driver.Koruza.Connection.{request-HasRanges, timer-HasRanges}
use koruza_driver.Koruza.Survey.{timer-IsSurvey}
use koruza_driver.Koruza.Timers.{start_wait, update_connections, koruza_timer_wait_reply_handler}
use koruza_driver.Koruza.Sfp.{Sfp, Service}
use koruza_driver.Koruza.Sfp.Refresh.{then_leds, koruza_timer_sfp_status_handler}
use koruza_driver.Koruza.Leds.{Leds}
use koruza_driver.Network.{NetworkStatus, NetworkEffect, network_update_local_address}
use koruza_driver.Ubus.{Outcome}
use koruza_driver.Ubus.Keeps.{StaysOutcome, StaysLeds, update_leds-StaysLeds, call-StaysOutcome}
use koruza_driver.Loop.{
  Machine, World, Output, Event, readable, status_timer, sfp_timer, wait_timer, survey_timer,
  announce_timer, address_timer, method, memory, heap, put_sfp, refresh_sfp, both_requested,
  second_request, request_status, quiet, updated_address, replied, step, run,
}
use koruza_driver.Loop.Sound.{
  IsSound, IsInRange, StaysSound, StaysTransmitted, and_run-StaysSound, transmit-Stays,
  perform_all-StaysSound, with_controller-IsSound, delivered-StaysSound,
}

module _ {B F D S : Type 0} (m : Machine B F D S) (rx ry : ℕ) where
  -- ---- timers

  abbrev StaysWorld : Option (World F S) → Type 0
  StaysWorld none = Unit
  StaysWorld (some w) = IsSound rx ry w

  put_sfp-StaysWorld :
      (w : World F S) (s : Sfp) (l : Option Leds)
      → IsSound rx ry w
      → StaysLeds l
      → StaysWorld (Option.map (put_sfp m w) (Option.map (λ (k : Leds). (s, k)) l))
  put_sfp-StaysWorld w s none h k = tt
  put_sfp-StaysWorld w s (some l) h k = ((h.0.0, h.0.1, h.0.2, h.0.3, k), h.1)

  refreshed :
      (w : World F S) (r : Option (Bool × Sfp))
      → IsSound rx ry w
      → StaysWorld (
          Option.map (put_sfp m w) (
            then_leds m.platform.floats m.sfp_casts m.platform.doubles m.platform.led_ops
              w.daemon.leds w.daemon.led_config r))
  refreshed w none h = tt
  refreshed w (some (ok, s)) h = put_sfp-StaysWorld w s _ h (
      update_leds-StaysLeds m.platform.doubles m.platform.led_ops s.rx_power w.daemon.leds
        w.daemon.led_config)

  refresh-StaysWorld :
      (service : Service) (w : World F S) → IsSound rx ry w → StaysWorld (refresh_sfp m service w)
  unfolding refresh_sfp koruza_timer_sfp_status_handler
  refresh-StaysWorld service w h = refreshed w _ h

  quiet-StaysSound : (w : Option (World F S)) → StaysWorld w → StaysSound rx ry (quiet m w)
  quiet-StaysSound none h = tt
  quiet-StaysSound (some w) h = (h, tt)

  both-StaysSound :
      (a : Bool) (os : List Output) (r : Option (Bool × World F S × List Output))
      → All (IsInRange rx ry) os
      → StaysTransmitted m rx ry r
      → StaysSound rx ry (both_requested m a os r)
  both-StaysSound a os none h k = tt
  both-StaysSound a os (some (b, w, ps)) h k = (
    with_controller-IsSound m rx ry w (start_wait (update_connections a b w.daemon.controller))
        (request-HasRanges a b rx ry w.daemon.controller k.0.0.0) k.0,
    All-append (IsInRange rx ry) os ps h k.1,
  )

  second_request-StaysSound :
      (r : Option (Bool × World F S × List Output))
      → StaysTransmitted m rx ry r
      → StaysSound rx ry (second_request m r)
  second_request-StaysSound none h = tt
  second_request-StaysSound (some (a, w, os)) h = both-StaysSound a os _ h.1 (
      transmit-Stays m rx ry device_accelerometer
        (status_message (memory m) w.daemon.controller.rx_power) w h.0)

  request-StaysSound :
      (w : Option (World F S)) → StaysWorld w → StaysSound rx ry (request_status m w)
  request-StaysSound none h = tt
  request-StaysSound (some w) h = second_request-StaysSound _ (
      transmit-Stays m rx ry device_motors (status_message (memory m) w.daemon.controller.rx_power)
        w h)

  address-StaysSound :
      (w : World F S) (r : Option (NetworkStatus × List NetworkEffect))
      → IsSound rx ry w
      → StaysSound rx ry (updated_address m w r)
  address-StaysSound w none h = tt
  address-StaysSound w (some (s, es)) h = (h, (tt, tt))

  -- ---- methods

  replied-StaysSound :
      (w : World F S) (r : Option (Outcome F S))
      → IsSound rx ry w
      → StaysOutcome rx ry r
      → StaysSound rx ry (replied m w r)
  replied-StaysSound w none h k = tt
  replied-StaysSound w (some r) h k =
      and_run-StaysSound m rx ry _ _
        (perform_all-StaysSound m rx ry r.effects (record w { daemon = r.daemon }) k.1 (k.0, h.1))
        (λ v i. (i, (tt, tt)))

  -- ---- events

  pub step-StaysSound :
      (e : Event B) (w : World F S) → IsSound rx ry w → StaysSound rx ry (step m e w)
  unfolding step
  step-StaysSound (readable fd line input) w h =
      delivered-StaysSound m rx ry (serial_get_device_fd fd w.devices) w _ h
        (fd_handler-StaysHandled (heap m) line w.devices fd input h.1)
  step-StaysSound (status_timer service) w h =
      request-StaysSound (refresh_sfp m service w) (refresh-StaysWorld service w h)
  step-StaysSound (sfp_timer service) w h =
      quiet-StaysSound (refresh_sfp m service w) (refresh-StaysWorld service w h)
  step-StaysSound wait_timer w h =
      if_holds (StaysSound rx ry) w.daemon.controller.wait_pending _ _
        (
          with_controller-IsSound m rx ry w
              (koruza_timer_wait_reply_handler
                (record (w.daemon.controller) { wait_pending = false }))
              (timer-HasRanges rx ry (record (w.daemon.controller) { wait_pending = false }) h.0.0)
              h,
          tt,
        )
        (h, tt)
  step-StaysSound survey_timer w h = (
    ((h.0.0, timer-IsSurvey w.daemon.controller w.daemon.survey h.0.1, h.0.2, h.0.3, h.0.4), h.1),
    tt,
  )
  step-StaysSound announce_timer w h = (h, (tt, tt))
  step-StaysSound (address_timer entries) w h =
      address-StaysSound w (network_update_local_address entries w.daemon.network) h
  step-StaysSound (method name msg) w h =
      replied-StaysSound w _ h (call-StaysOutcome m.platform rx ry w.daemon h.0 name msg)

  -- The events one after the other: if the state is sound, so is the state at the end of a run that
  -- does not abort, and every coordinate that it saves is in its range.
  pub run-StaysSound :
      (events : List (Event B)) (w : World F S)
      → IsSound rx ry w
      → StaysSound rx ry (run m events w)
  unfolding run
  run-StaysSound [] w h = (h, tt)
  run-StaysSound (e ∷ events) w h =
      and_run-StaysSound m rx ry (step m e w) (run m events) (step-StaysSound e w h)
        (run-StaysSound events)
