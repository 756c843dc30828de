-- ===== src/Loop/Silence.antt =====
-- The wait for a reply in the loop: events without a message from the motors, and what follows when
-- the wait ends.
use koruza_driver.Prelude.{
  ◌≡◌, ◌⊎◌, inl, inr, ap, ◌∙◌, List, [], ◌∷◌, Bool, true, false, Option, some, none, if_holds,
}
use koruza_driver.Serial.{device_motors, device_accelerometer, serial_get_device_fd}
use koruza_driver.Koruza.{Controller, status_message}
use koruza_driver.Koruza.Timers.{start_wait, update_connections, koruza_timer_wait_reply_handler}
use koruza_driver.Koruza.Silence.{wait_disconnects, request_waits, request-IsDisconnected}
use koruza_driver.Koruza.Sfp.{Service}
use koruza_driver.Network.{network_update_local_address}
use koruza_driver.Ubus.Reply.{Add, u8_field}
use koruza_driver.Ubus.Status.{status_adds, bit}
use koruza_driver.Ubus.{get_status, status_ok}
use koruza_driver.Ubus.Untouched.{call-KeepsController}
use koruza_driver.Loop.{
  Machine, World, Output, answered, Event, readable, status_timer, sfp_timer, wait_timer,
  survey_timer, announce_timer, address_timer, method, memory, heap, both_requested, second_request,
  request_status, refresh_sfp, step,
}
use koruza_driver.Loop.Quiet.{
  IsQuiet, error_handed, On, StaysOn, SentOn, WorldOn, transmit-On, quiet-StaysOn, refresh-WorldOn,
  nothing-StaysOn, other-StaysOn, address-StaysOn, replied-StaysOn,
}
use koruza_driver.Loop.Answer.{of_motors, CanAnswer, status_answered}

-- Events without bytes of the motors, one after the other.
pub data QuietSteps {B F D S : Type 0} (m : Machine B F D S) (w : World F S)
    : World F S → Type 0 where
  here : QuietSteps m w w
  next :
      {v u : World F S} {os : List Output}
      → QuietSteps m w v
      → (e : Event B) → IsQuiet v e
      → step m e v ≡ some (u, os)
      → QuietSteps m w u

module _ {B F D S : Type 0} (m : Machine B F D S) where
  -- From `P` before the handler of the status timer ends to `Q` behind it.
  module _ (P Q : Bool → Bool → Type 0)
      (turns : (a b : Bool) (c : Controller)
        → P c.motors.connected c.wait_pending
        → let d = start_wait (update_connections a b c) in
          Q d.motors.connected d.wait_pending) where
    both-StaysOn :
        (a : Bool) (os : List Output) (r : Option (Bool × World F S × List Output))
        → SentOn m P r
        → StaysOn m Q (both_requested m a os r)
    both-StaysOn a os none h = tt
    both-StaysOn a os (some (b, w, ps)) h = turns a b w.daemon.controller h

    second-StaysOn :
        (r : Option (Bool × World F S × List Output))
        → SentOn m P r
        → StaysOn m Q (second_request m r)
    second-StaysOn none h = tt
    second-StaysOn (some (a, w, os)) h = both-StaysOn a os _ (
        transmit-On m P device_accelerometer
          (status_message (memory m) w.daemon.controller.rx_power) w h)

    request-StaysOn : (w : Option (World F S)) → WorldOn m P w → StaysOn m Q (request_status m w)
    request-StaysOn none h = tt
    request-StaysOn (some w) h =
        second-StaysOn _ (
          transmit-On m P device_motors (status_message (memory m) w.daemon.controller.rx_power) w
            h)

  -- What both timers keep, all quiet events keep.
  module _ (Q : Bool → Bool → Type 0)
      (status_keeps : (a b : Bool) (c : Controller)
        → Q c.motors.connected c.wait_pending
        → let d = start_wait (update_connections a b c) in Q d.motors.connected d.wait_pending)
      (wait_keeps : (c : Controller)
        → let d = koruza_timer_wait_reply_handler (record c { wait_pending = false }) in
          Q d.motors.connected d.wait_pending) where
    step-StaysOn : (e : Event B) (w : World F S) → IsQuiet w e → On m Q w → StaysOn m Q (step m e w)
    unfolding step
    step-StaysOn (readable fd line (some bytes)) w q h =
        other-StaysOn m Q (serial_get_device_fd fd w.devices) w _ q h
    step-StaysOn (readable fd line none) w q h =
        nothing-StaysOn m Q (serial_get_device_fd fd w.devices) w _
          (error_handed (heap m) line w.devices fd) h
    step-StaysOn (status_timer service) w q h =
        request-StaysOn Q Q status_keeps (refresh_sfp m service w) (refresh-WorldOn m Q service w h)
    step-StaysOn (sfp_timer service) w q h =
        quiet-StaysOn m Q (refresh_sfp m service w) (refresh-WorldOn m Q service w h)
    step-StaysOn wait_timer w q h =
        if_holds (StaysOn m Q) w.daemon.controller.wait_pending _ _ (wait_keeps w.daemon.controller)
          h
    step-StaysOn survey_timer w q h = h
    step-StaysOn announce_timer w q h = h
    step-StaysOn (address_timer entries) w q h =
        address-StaysOn m Q w (network_update_local_address entries w.daemon.network) h
    step-StaysOn (method name msg) w q h =
        replied-StaysOn m Q w _ (call-KeepsController m.platform w.daemon name msg) h

    Steps-On : {w v : World F S} → QuietSteps m w v → On m Q w → On m Q v
    Steps-On here h = h
    Steps-On (next {v = v} before e q s) h =
        let k = step-StaysOn e v q (Steps-On before h) in rw s at k

  -- The wait for a reply runs, or the motors count as disconnected.
  abbrev Watched : Bool → Bool → Type 0
  Watched connected waiting = (waiting ≡ true) ⊎ (connected ≡ false)

  abbrev Disconnected : Bool → Bool → Type 0
  Disconnected connected waiting = connected ≡ false

  expired : (w : World F S) → On m Watched w → StaysOn m Disconnected (step m wait_timer w)
  unfolding step
  expired w (inl e) =
      rw e (wait_disconnects (record (w.daemon.controller) { wait_pending = false }))
  expired w (inr e) =
      if_holds (StaysOn m Disconnected) w.daemon.controller.wait_pending _ _
        (wait_disconnects (record (w.daemon.controller) { wait_pending = false })) e

  watches :
      (a b : Bool) (c : Controller) → (start_wait (update_connections a b c)).wait_pending ≡ true
  watches a b c = request_waits a b c

  status_watches :
      (service : Service) (w : World F S) → StaysOn m Watched (step m (status_timer service) w)
  unfolding step
  status_watches service w =
      request-StaysOn (λ a b. Unit) Watched (λ a b c h. inl (watches a b c))
        (refresh_sfp m service w) (refresh-WorldOn m (λ a b. Unit) service w tt)

  quiet-Watched : {w v : World F S} → QuietSteps m w v → On m Watched w → On m Watched v
  quiet-Watched steps h =
      Steps-On Watched (λ a b c i. inl (watches a b c))
        (λ c. inr (wait_disconnects (record c { wait_pending = false }))) steps h

  quiet-Disconnected :
      {w v : World F S} → QuietSteps m w v → On m Disconnected w → On m Disconnected v
  quiet-Disconnected steps h =
      Steps-On Disconnected (λ a b c i. request-IsDisconnected a b c i)
        (λ c. wait_disconnects (record c { wait_pending = false })) steps h

  behind_step :
      (Q : Bool → Bool → Type 0) {w : World F S} {os : List Output}
      {r : Option (World F S × List Output)}
      → StaysOn m Q r
      → r ≡ some (w, os)
      → On m Q w
  behind_step Q h e = rw e at h

  -- From any state of the daemon, over events of which none aborts or crashes: if the status timer
  -- is followed by events without bytes of the motors, then by the end of the wait for a reply, and
  -- then by more events without bytes of the motors, in any order with all other events and methods,
  -- the motors count as disconnected at the end. If the path of the webcam and the interface and the
  -- address of the network are there at the end, a call of `get_status` then does not crash and
  -- answers that the motors are disconnected.
  pub silence_answered :
      (service : Service) (b : B) (w first second third last : World F S) (os ps : List Output)
      → step m (status_timer service) w ≡ some (first, os)
      → QuietSteps m first second
      → step m wait_timer second ≡ some (third, ps)
      → QuietSteps m third last
      → CanAnswer last
      → (last.daemon.controller.motors.connected ≡ false)
        × (u : World F S) × (answer : List Add) × (step m (method get_status b) last
            ≡ some (u, answered status_ok answer ∷ []))
        × (of_motors "connected" answer ≡ some (u8_field 0))
  unfolding status_adds
  silence_answered service b w first second third last os ps request before wait behind strings =
      let watched = quiet-Watched before (behind_step Watched (status_watches service w) request) in
      let gone =
        quiet-Disconnected behind (behind_step Disconnected (expired second watched) wait) in
      let (u, d, path, interface, ip_address, o, same) = status_answered m b last strings in
      (
        gone,
        u,
        status_adds m.platform.print_float d path interface ip_address,
        o,
        ap (λ (c : Controller). some (u8_field (bit c.motors.connected))) same
            ∙ ap (λ k. some (u8_field (bit k))) gone,
      )
