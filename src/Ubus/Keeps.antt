-- ===== src/Ubus/Keeps.antt =====
-- What the methods keep: the ranges of the motors, and the shapes of the arrays of the state.
use mathlib.Core.Option
use koruza_driver.Prelude.{
  ℕ, ◌≡◌, ◌==◌, List, [], Bool, not, Option, some, none, length, length-replicate, Option-cases,
  if_holds, take, ◌%◌, ◌^◌, eqb→eq, Bool-cases, inl, inr, All,
}
use koruza_driver.Koruza.{
  Effect, koruza_move_motor, koruza_homing, koruza_reboot, koruza_firmware_upgrade,
}
use koruza_driver.Koruza.Motors.{IsSafe, HasRanges}
use koruza_driver.Koruza.Survey.{IsSurvey, reset-IsSurvey}
use koruza_driver.Koruza.Window.{FloatOps}
use koruza_driver.Koruza.Window.Shape.{IsWindow, compute-IsWindow}
use koruza_driver.Koruza.Leds.{
  LedOps, Leds, led_count, led_color, koruza_update_sfp_leds, store_leds,
}
use koruza_driver.Upgrade.{UpgradeResult, returned, exited, executed, upgrade_start}
use koruza_driver.Ubus.State.{Daemon, alignment_variable_count}
use koruza_driver.Ubus.Reply.{Add}
use koruza_driver.Ubus.Status.{status_reply}
use koruza_driver.Ubus.{
  answer_with, Platform, Outcome, Method, call, outcome, status_ok, parsed, move_to,
  ubus_move_motor, ubus_homing, ubus_reboot, ubus_firmware_upgrade, ubus_get_status, calibrate_to,
  ubus_set_webcam_calibration, distance_to, ubus_set_distance, ubus_get_survey, ubus_reset_survey,
  koruza_set_leds, leds_to, ubus_set_leds, upgraded, ubus_upgrade, alignment_loop, finish_alignment,
  align_to, ubus_set_alignment, koruza_leds_policy, koruza_motor_policy, koruza_distance_policy,
  koruza_alignment_policy, move_motor, homing, reboot, firmware_upgrade, get_status,
  set_webcam_calibration, set_distance, get_survey, reset_survey, set_leds, upgrade, set_alignment,
}

-- The colours of channel 0, if the LED library was initialised.
abbrev ColorsFit : Option (List ℕ) → Type 0
ColorsFit none = Unit
ColorsFit (some colors) = length colors ≡ led_count

abbrev pub HasLeds : Leds → Type 0
HasLeds l = ColorsFit l.colors

abbrev pub IsDaemon : {F S : Type 0} → ℕ → ℕ → Daemon F S → Type 0
IsDaemon rx ry d =
    HasRanges rx ry d.controller
    × IsSurvey d.survey
    × (length d.alignment.variables ≡ alignment_variable_count)
    × IsWindow d.accelerometer
    × HasLeds d.led_config

abbrev pub StaysOutcome : {F S : Type 0} → ℕ → ℕ → Option (Outcome F S) → Type 0
StaysOutcome rx ry none = Unit
StaysOutcome rx ry (some r) = IsDaemon rx ry r.daemon × All (IsSafe rx ry) r.effects

-- ---- LEDs

abbrev pub StaysLeds : Option Leds → Type 0
StaysLeds none = Unit
StaysLeds (some l) = HasLeds l

pub update_leds-StaysLeds :
    {D : Type 0} (o : FloatOps D) (k : LedOps D) (power leds : ℕ) (l : Leds)
    → StaysLeds (koruza_update_sfp_leds o k power leds l)
unfolding koruza_update_sfp_leds
update_leds-StaysLeds o k power leds l = elim (Option-cases l.colors) [
  | inl e ↦ rw (e, koruza_update_sfp_leds) tt
  | inr (colors, e) ↦
      rw (e, koruza_update_sfp_leds) (length-replicate led_count (led_color o k power))
]

-- ---- commands

abbrev AllSafe : ℕ → ℕ → Bool × List Effect → Type 0
AllSafe rx ry r = All (IsSafe rx ry) r.1

module _ {B F D S : Type 0} (p : Platform B F D S) (rx ry : ℕ) (d : Daemon F S)
    (h : IsDaemon rx ry d) where
  move_to-StaysOutcome : (x y z : Option B) → StaysOutcome rx ry (some (move_to p d x y z))
  unfolding koruza_move_motor
  move_to-StaysOutcome (some x) (some y) (some z) =
      (h, if_holds (AllSafe rx ry) (not d.controller.motors.connected) _ _ tt (tt, tt))
  move_to-StaysOutcome (some x) (some y) none = (h, tt)
  move_to-StaysOutcome (some x) none z = (h, tt)
  move_to-StaysOutcome none y z = (h, tt)

  homing-StaysOutcome : StaysOutcome rx ry (some (ubus_homing p d))
  unfolding ubus_homing koruza_homing
  homing-StaysOutcome =
      (h, if_holds (AllSafe rx ry) (not d.controller.motors.connected) _ _ tt (tt, tt))

  -- ---- setters

  calibrate_to-StaysOutcome : (x y : Option B) → StaysOutcome rx ry (some (calibrate_to p d x y))
  calibrate_to-StaysOutcome (some x) (some y) = (h, tt)
  calibrate_to-StaysOutcome (some x) none = (h, tt)
  calibrate_to-StaysOutcome none y = (h, tt)

  distance_to-StaysOutcome :
      (distance : Option B) → StaysOutcome rx ry (some (distance_to p d distance))
  distance_to-StaysOutcome (some distance) = (h, tt)
  distance_to-StaysOutcome none = (h, tt)

  set_leds_result :
      (leds : ℕ) (r : Option Leds)
      → StaysLeds r
      → StaysOutcome rx ry (
          Option.map (outcome status_ok) (
            Option.map
              (λ (l : Leds). record d {
                leds = leds;
                store = store_leds p.uci leds d.store;
                led_config = l;
              })
              r))
  set_leds_result leds none k = tt
  set_leds_result leds (some l) k = ((h.0, h.1, h.2, h.3, k), tt)

  leds_to-StaysOutcome : (state : Option B) → StaysOutcome rx ry (leds_to p d state)
  unfolding koruza_set_leds
  leds_to-StaysOutcome (some state) = set_leds_result (p.blob.blobmsg_get_u8 state % 2 ^ 8) _ (
      update_leds-StaysLeds p.doubles p.led_ops d.controller.rx_power
        (p.blob.blobmsg_get_u8 state % 2 ^ 8) d.led_config)
  leds_to-StaysOutcome none = (h, tt)

  upgraded-StaysOutcome : (r : UpgradeResult) → StaysOutcome rx ry (upgraded p d r)
  upgraded-StaysOutcome (returned result) = (h, tt)
  upgraded-StaysOutcome exited = tt
  upgraded-StaysOutcome executed = tt

  finish-StaysOutcome :
      (state : ℕ) (vs : Option (List ℕ)) → StaysOutcome rx ry (some (finish_alignment d state vs))
  finish-StaysOutcome state none = (h, tt)
  finish-StaysOutcome state (some vs) = elim (Bool-cases (length vs == alignment_variable_count)) [
    | inl all ↦ rw all ((h.0, h.1, eqb→eq (length vs) alignment_variable_count all, h.3, h.4), tt)
    | inr other ↦ rw other (h, tt)
  ]

  align_to-StaysOutcome :
      (state variables : Option B) → StaysOutcome rx ry (some (align_to p d state variables))
  align_to-StaysOutcome (some state) (some variables) =
      finish-StaysOutcome (p.blob.blobmsg_get_u32 state)
        (alignment_loop p.blob (p.blob.elements variables) [])
  align_to-StaysOutcome (some state) none = (h, tt)
  align_to-StaysOutcome none variables = (h, tt)

  answered-StaysOutcome :
      (e : Daemon F S)
      → IsDaemon rx ry e
      → (r : Option (List Add)) → StaysOutcome rx ry (Option.map (answer_with p e) r)
  answered-StaysOutcome e k none = tt
  answered-StaysOutcome e k (some reply) = (k, tt)

  -- ---- all methods

  pub call-StaysOutcome : (name : Method) (msg : B) → StaysOutcome rx ry (call p name d msg)
  unfolding call ubus_move_motor ubus_reboot koruza_reboot ubus_firmware_upgrade
      koruza_firmware_upgrade ubus_get_status ubus_set_webcam_calibration ubus_set_distance
      ubus_get_survey ubus_reset_survey ubus_set_leds ubus_upgrade ubus_set_alignment
  call-StaysOutcome move_motor msg =
      move_to-StaysOutcome (parsed p koruza_motor_policy msg 0) (parsed p koruza_motor_policy msg 1)
        (parsed p koruza_motor_policy msg 2)
  call-StaysOutcome homing msg = homing-StaysOutcome
  call-StaysOutcome reboot msg = (h, (tt, tt))
  call-StaysOutcome firmware_upgrade msg = (h, (tt, tt))
  call-StaysOutcome get_status msg =
      answered-StaysOutcome _ (h.0, h.1, h.2, compute-IsWindow p.floats d.accelerometer h.3, h.4)
        (status_reply p.print_float _)
  call-StaysOutcome set_webcam_calibration msg =
      calibrate_to-StaysOutcome (parsed p (take 2 koruza_motor_policy) msg 0)
        (parsed p (take 2 koruza_motor_policy) msg 1)
  call-StaysOutcome set_distance msg =
      distance_to-StaysOutcome (parsed p koruza_distance_policy msg 0)
  call-StaysOutcome get_survey msg = (h, tt)
  call-StaysOutcome reset_survey msg = ((h.0, reset-IsSurvey, h.2, h.3, h.4), tt)
  call-StaysOutcome set_leds msg = leds_to-StaysOutcome (parsed p koruza_leds_policy msg 0)
  call-StaysOutcome upgrade msg = upgraded-StaysOutcome (upgrade_start p.upgrading).0
  call-StaysOutcome set_alignment msg =
      align_to-StaysOutcome (parsed p koruza_alignment_policy msg 0)
        (parsed p koruza_alignment_policy msg 1)
