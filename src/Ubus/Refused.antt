-- ===== src/Ubus/Refused.antt =====
-- What the methods of ubus.c do with a call that they refuse, and which settings of the alignment
-- they take.
use mathlib.Core.Path.{subst}
use mathlib.Core.Option
use koruza_driver.Prelude.{
  ℕ, ◌≡◌, ◌≢◌, refl, inl, inr, List, [], Bool, true, false, ◌==◌, Option, some, none, length,
  Bool-cases,
}
use koruza_driver.Message.{Memory}
use koruza_driver.Koruza.{
  Controller, Effect, koruza_move_motor, koruza_homing, koruza_reboot, koruza_firmware_upgrade,
}
use koruza_driver.Koruza.Calibration.{Calibration}
use koruza_driver.Upgrade.{UpgradeResult, returned, exited, executed, upgrade_start}
use koruza_driver.Ubus.State.{Daemon, alignment_variable_count}
use koruza_driver.Ubus.Reply.{Add}
use koruza_driver.Ubus.Status.{status_reply}
use koruza_driver.Ubus.{
  answer_with, status_ok, Outcome, outcome, commanded, commit_result, status_of, alignment_loop,
  finish_alignment, Platform, ubus_move_motor, ubus_homing, ubus_reboot, ubus_firmware_upgrade,
  ubus_get_status, stored, ubus_set_webcam_calibration, ubus_set_distance, ubus_get_survey,
  ubus_reset_survey, koruza_set_leds, leds_to, ubus_set_leds, ubus_upgrade, upgraded, align_to,
  move_to, calibrate_to, distance_to, ubus_set_alignment, Method, move_motor, homing, reboot,
  firmware_upgrade, get_status, set_webcam_calibration, set_distance, get_survey, reset_survey,
  set_leds, upgrade, set_alignment, call,
}

-- A result that is not `UBUS_STATUS_OK` comes with the daemon as it was, and nothing sent.
abbrev pub IsAtomic : {F S : Type 0} → Daemon F S → Outcome F S → Type 0
IsAtomic d r = r.status ≢ status_ok → (r.daemon ≡ d) × (r.effects ≡ [])

abbrev pub IsAtomicCall : {F S : Type 0} → Daemon F S → Option (Outcome F S) → Type 0
IsAtomicCall d none = Unit
IsAtomicCall d (some r) = IsAtomic d r

commanded-IsAtomic :
    {F S : Type 0} (d : Daemon F S) (r : Bool × List Effect)
    → (r.0 ≡ false → r.1 ≡ [])
    → IsAtomic d (commanded d r)
commanded-IsAtomic d (true, es) h n = absurd (n refl)
commanded-IsAtomic d (false, es) h n = (refl, h refl)

move_silent :
    (mem : Memory) (c : Controller) (x y z : ℕ)
    → (koruza_move_motor mem c x y z).0 ≡ false
    → (koruza_move_motor mem c x y z).1 ≡ []
unfolding koruza_move_motor
move_silent mem c x y z = elim (Bool-cases c.motors.connected) [
  | inl y ↦ rw y (λ e. cc)
  | inr n ↦ rw n (λ e. refl)
]

homing_silent :
    (mem : Memory) (c : Controller) → (koruza_homing mem c).0 ≡ false → (koruza_homing mem c).1 ≡ []
unfolding koruza_homing
homing_silent mem c = elim (Bool-cases c.motors.connected) [
  | inl y ↦ rw y (λ e. cc)
  | inr n ↦ rw n (λ e. refl)
]

-- A setter's result is never taken for a failure, whether the commit succeeded or not.
commit_hidden : (ok : Bool) → status_of (commit_result ok) ≡ status_ok
commit_hidden true = refl
commit_hidden false = refl

module _ {B F D S : Type 0} (p : Platform B F D S) where
  move_to-IsAtomic : (d : Daemon F S) (x y z : Option B) → IsAtomic d (move_to p d x y z)
  move_to-IsAtomic d (some x) (some y) (some z) =
      commanded-IsAtomic d
        (koruza_move_motor p.memory d.controller (p.blob.blobmsg_get_u32 x)
          (p.blob.blobmsg_get_u32 y) (p.blob.blobmsg_get_u32 z))
        (move_silent p.memory d.controller _ _ _)
  move_to-IsAtomic d none y z = λ n. (refl, refl)
  move_to-IsAtomic d (some x) none z = λ n. (refl, refl)
  move_to-IsAtomic d (some x) (some y) none = λ n. (refl, refl)

  stored-IsAtomic : (d : Daemon F S) (r : Bool × Calibration F × S) → IsAtomic d (stored p d r)
  stored-IsAtomic d (ok, cal, s) n = absurd (n (commit_hidden ok))

  calibrate_to-IsAtomic : (d : Daemon F S) (x y : Option B) → IsAtomic d (calibrate_to p d x y)
  calibrate_to-IsAtomic d (some x) (some y) = stored-IsAtomic d _
  calibrate_to-IsAtomic d none y = λ n. (refl, refl)
  calibrate_to-IsAtomic d (some x) none = λ n. (refl, refl)

  distance_to-IsAtomic : (d : Daemon F S) (x : Option B) → IsAtomic d (distance_to p d x)
  distance_to-IsAtomic d (some x) = stored-IsAtomic d _
  distance_to-IsAtomic d none = λ n. (refl, refl)

  leds_to-IsAtomic : (d : Daemon F S) (x : Option B) → IsAtomicCall d (leds_to p d x)
  leds_to-IsAtomic d none = λ n. (refl, refl)
  leds_to-IsAtomic d (some x) = set (koruza_set_leds p d _)
    where
      set : (r : Option (Daemon F S)) → IsAtomicCall d (Option.map (outcome status_ok) r)
      set none = tt
      set (some e) = λ n. absurd (n refl)

  finish-IsAtomic :
      (d : Daemon F S) (state : ℕ) (r : Option (List ℕ)) → IsAtomic d (finish_alignment d state r)
  finish-IsAtomic d state none = λ n. (refl, refl)
  finish-IsAtomic d state (some vs) = elim (Bool-cases (length vs == alignment_variable_count)) [
    | inl y ↦ rw y (λ n. absurd (n refl))
    | inr n ↦ rw n (λ m. (refl, refl))
  ]

  align_to-IsAtomic : (d : Daemon F S) (x y : Option B) → IsAtomic d (align_to p d x y)
  align_to-IsAtomic d (some x) (some y) =
      finish-IsAtomic d (p.blob.blobmsg_get_u32 x) (alignment_loop p.blob (p.blob.elements y) [])
  align_to-IsAtomic d none y = λ n. (refl, refl)
  align_to-IsAtomic d (some x) none = λ n. (refl, refl)

  upgraded-IsAtomic : (d : Daemon F S) (r : UpgradeResult) → IsAtomicCall d (upgraded p d r)
  upgraded-IsAtomic d (returned n) = λ m. (refl, refl)
  upgraded-IsAtomic d exited = tt
  upgraded-IsAtomic d executed = tt

  -- The result of an answer is always `UBUS_STATUS_OK`.
  answered-IsAtomic :
      (d e : Daemon F S) (r : Option (List Add)) → IsAtomicCall d (Option.map (answer_with p e) r)
  answered-IsAtomic d e none = tt
  answered-IsAtomic d e (some reply) = λ n. absurd (n refl)

  call-IsAtomic : (m : Method) (d : Daemon F S) (msg : B) → IsAtomicCall d (call p m d msg)
  unfolding call ubus_move_motor ubus_homing ubus_reboot ubus_firmware_upgrade ubus_get_status
      ubus_set_webcam_calibration ubus_set_distance ubus_get_survey ubus_reset_survey ubus_set_leds
      ubus_upgrade ubus_set_alignment koruza_reboot koruza_firmware_upgrade
  call-IsAtomic move_motor d msg = move_to-IsAtomic d _ _ _
  call-IsAtomic homing d msg =
      commanded-IsAtomic d (koruza_homing p.memory d.controller)
        (homing_silent p.memory d.controller)
  call-IsAtomic reboot d msg = λ n. absurd (n refl)
  call-IsAtomic firmware_upgrade d msg = λ n. absurd (n refl)
  call-IsAtomic get_status d msg = answered-IsAtomic _ _ (status_reply p.print_float _)
  call-IsAtomic set_webcam_calibration d msg = calibrate_to-IsAtomic d _ _
  call-IsAtomic set_distance d msg = distance_to-IsAtomic d _
  call-IsAtomic get_survey d msg = λ n. absurd (n refl)
  call-IsAtomic reset_survey d msg = λ n. absurd (n refl)
  call-IsAtomic set_leds d msg = leds_to-IsAtomic d _
  call-IsAtomic upgrade d msg = upgraded-IsAtomic d (upgrade_start p.upgrading).0
  call-IsAtomic set_alignment d msg = align_to-IsAtomic d _ _

  -- Whatever method is called with whatever message: a result that is not `UBUS_STATUS_OK` comes
  -- with the daemon as it was and nothing sent to the motors.
  pub call_refused :
      (m : Method) (d : Daemon F S) (msg : B) (r : Outcome F S)
      → call p m d msg ≡ some r
      → r.status ≢ status_ok
      → (r.daemon ≡ d) × (r.effects ≡ [])
  call_refused m d msg r e = subst (IsAtomicCall d) e (call-IsAtomic m d msg)
