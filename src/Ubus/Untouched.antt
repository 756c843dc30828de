-- ===== src/Ubus/Untouched.antt =====
-- The methods leave the state of the motors as it is.
use mathlib.Core.Option
use koruza_driver.Prelude.{
  ℕ, ◌≡◌, refl, ◌==◌, ◌%◌, ◌^◌, List, [], Option, some, none, length, if_holds,
}
use koruza_driver.Koruza.Leds.{Leds, store_leds}
use koruza_driver.Upgrade.{UpgradeResult, returned, exited, executed}
use koruza_driver.Ubus.State.{Daemon, alignment_variable_count}
use koruza_driver.Ubus.Reply.{Add}
use koruza_driver.Ubus.Status.{status_reply}
use koruza_driver.Ubus.{
  answer_with, Platform, Outcome, Method, call, outcome, status_ok, move_to, ubus_move_motor,
  ubus_homing, ubus_reboot, ubus_firmware_upgrade, ubus_get_status, calibrate_to,
  ubus_set_webcam_calibration, distance_to, ubus_set_distance, ubus_get_survey, ubus_reset_survey,
  koruza_set_leds, leds_to, ubus_set_leds, upgraded, ubus_upgrade, alignment_loop, finish_alignment,
  align_to, ubus_set_alignment, move_motor, homing, reboot, firmware_upgrade, get_status,
  set_webcam_calibration, set_distance, get_survey, reset_survey, set_leds, upgrade, set_alignment,
}

abbrev pub KeepsController : {F S : Type 0} → Daemon F S → Option (Outcome F S) → Type 0
KeepsController d none = Unit
KeepsController d (some r) = r.daemon.controller ≡ d.controller

module _ {B F D S : Type 0} (p : Platform B F D S) (d : Daemon F S) where
  move_to-Keeps : (x y z : Option B) → KeepsController d (some (move_to p d x y z))
  move_to-Keeps (some x) (some y) (some z) = refl
  move_to-Keeps (some x) (some y) none = refl
  move_to-Keeps (some x) none z = refl
  move_to-Keeps none y z = refl

  calibrate_to-Keeps : (x y : Option B) → KeepsController d (some (calibrate_to p d x y))
  calibrate_to-Keeps (some x) (some y) = refl
  calibrate_to-Keeps (some x) none = refl
  calibrate_to-Keeps none y = refl

  distance_to-Keeps : (distance : Option B) → KeepsController d (some (distance_to p d distance))
  distance_to-Keeps (some distance) = refl
  distance_to-Keeps none = refl

  set_leds_kept :
      (leds : ℕ) (r : Option Leds)
      → KeepsController d (
          Option.map (outcome status_ok) (
            Option.map
              (λ (l : Leds). record d {
                leds = leds;
                store = store_leds p.uci leds d.store;
                led_config = l;
              })
              r))
  set_leds_kept leds none = tt
  set_leds_kept leds (some l) = refl

  leds_to-Keeps : (state : Option B) → KeepsController d (leds_to p d state)
  unfolding koruza_set_leds
  leds_to-Keeps (some state) = set_leds_kept (p.blob.blobmsg_get_u8 state % 2 ^ 8) _
  leds_to-Keeps none = refl

  upgraded-Keeps : (r : UpgradeResult) → KeepsController d (upgraded p d r)
  upgraded-Keeps (returned result) = refl
  upgraded-Keeps exited = tt
  upgraded-Keeps executed = tt

  finish-Keeps :
      (state : ℕ) (vs : Option (List ℕ)) → KeepsController d (some (finish_alignment d state vs))
  finish-Keeps state none = refl
  finish-Keeps state (some vs) =
      if_holds (λ (o : Outcome F S). KeepsController d (some o))
        (length vs == alignment_variable_count) _ _ refl refl

  align_to-Keeps :
      (state variables : Option B) → KeepsController d (some (align_to p d state variables))
  align_to-Keeps (some state) (some variables) =
      finish-Keeps (p.blob.blobmsg_get_u32 state)
        (alignment_loop p.blob (p.blob.elements variables) [])
  align_to-Keeps (some state) none = refl
  align_to-Keeps none variables = refl

  answered-Keeps :
      (e : Daemon F S)
      → e.controller ≡ d.controller
      → (r : Option (List Add)) → KeepsController d (Option.map (answer_with p e) r)
  answered-Keeps e h none = tt
  answered-Keeps e h (some reply) = h

  pub call-KeepsController : (name : Method) (msg : B) → KeepsController d (call p name d msg)
  unfolding call ubus_move_motor ubus_homing ubus_reboot ubus_firmware_upgrade ubus_get_status
      ubus_set_webcam_calibration ubus_set_distance ubus_get_survey ubus_reset_survey ubus_set_leds
      ubus_upgrade ubus_set_alignment
  call-KeepsController move_motor msg = move_to-Keeps _ _ _
  call-KeepsController homing msg = refl
  call-KeepsController reboot msg = refl
  call-KeepsController firmware_upgrade msg = refl
  call-KeepsController get_status msg = answered-Keeps _ refl (status_reply p.print_float _)
  call-KeepsController set_webcam_calibration msg = calibrate_to-Keeps _ _
  call-KeepsController set_distance msg = distance_to-Keeps _
  call-KeepsController get_survey msg = refl
  call-KeepsController reset_survey msg = refl
  call-KeepsController set_leds msg = leds_to-Keeps _
  call-KeepsController upgrade msg = upgraded-Keeps _
  call-KeepsController set_alignment msg = align_to-Keeps _ _
