-- ===== src/Ubus.antt =====
-- ubus.c: the methods of the uBus object, with the checks of their arguments, what they change and
-- the replies they build.
--
-- libubox is a parameter: `Blob` has what is called of it to read a message. Replies are in
-- Ubus/Reply.
pub mod Reply
pub mod State
pub mod Status
pub mod Refused
pub mod Tree
pub mod Nested
pub mod Variables
pub mod Keeps
pub mod Untouched
pub mod Tests
use koruza_driver.Prelude.{
  ℕ, zero, suc, ◌+◌, ◌%◌, ◌^◌, List, [], ◌∷◌, ◌++◌, Bool, true, false, Option, some, none,
  if◌then◌else◌, Bytes, String, ℤ, pos, negsuc, take, get_or, length, leb, ◌==◌,
}
use mathlib.Core.Option
use koruza_driver.Message.{Memory}
use koruza_driver.Koruza.{
  Controller, Effect, koruza_move_motor, koruza_homing, koruza_reboot, koruza_firmware_upgrade,
}
use koruza_driver.Koruza.Survey.{Survey, koruza_survey_reset}
use koruza_driver.Koruza.Window.{FloatOps, Accelerometer, koruza_compute_accelerometer_statistics}
use koruza_driver.Koruza.Calibration.{
  Casts, Calibration, koruza_set_webcam_calibration, koruza_set_distance,
}
use koruza_driver.Koruza.Leds.{LedOps, Leds, koruza_update_sfp_leds, store_leds}
use koruza_driver.Configuration.{Uci}
use koruza_driver.Upgrade.{Upgrading, UpgradeResult, returned, exited, executed, upgrade_start}
use koruza_driver.Ubus.Reply.{Add}
use koruza_driver.Ubus.State.{Daemon, Alignment, alignment_variable_count}
use koruza_driver.Ubus.Status.{status_reply, survey_reply}

-- The types of attributes that the policies name.
pub data BlobType : Type 0 where
  int8 int32 array : BlobType

-- The reading of messages: `blobmsg_parse` has an attribute or `none` for each entry of the policy.
pub record Blob (B : Type 0) : Type 0 where
  pub blobmsg_parse : List (String × BlobType) → B → List (Option B)
  pub blobmsg_get_u8 : B → ℕ
  pub blobmsg_get_u32 : B → ℕ
  pub is_int32 : B → Bool
  pub elements : B → List B

abbrev pub koruza_motor_policy : List (String × BlobType)
koruza_motor_policy = ("x", int32) ∷ ("y", int32) ∷ ("z", int32) ∷ []

abbrev pub koruza_calibration_policy : List (String × BlobType)
koruza_calibration_policy = ("x", int32) ∷ ("y", int32) ∷ []

abbrev pub koruza_distance_policy : List (String × BlobType)
koruza_distance_policy = ("distance", int32) ∷ []

abbrev pub koruza_leds_policy : List (String × BlobType)
koruza_leds_policy = ("state", int8) ∷ []

abbrev pub koruza_alignment_policy : List (String × BlobType)
koruza_alignment_policy = ("state", int32) ∷ ("variables", array) ∷ []

-- The results that the methods return.
pub data UbusStatus : Type 0 where
  status_ok status_invalid_argument status_unknown_error : UbusStatus

-- A method's result, the daemon afterwards, what was sent, and the reply.
pub record Outcome (F S : Type 0) : Type 0 where
  pub status : UbusStatus
  pub daemon : Daemon F S
  pub effects : List Effect
  pub reply : List Add

abbrev pub outcome : {F S : Type 0} → UbusStatus → Daemon F S → Outcome F S
outcome status d = record { status = status; daemon = d; effects = []; reply = [] }

-- The methods whose result is that of a command of koruza.c.
abbrev pub commanded : {F S : Type 0} → Daemon F S → Bool × List Effect → Outcome F S
commanded d (ok, es) = record {
  status = if ok then status_ok else status_unknown_error;
  daemon = d;
  effects = es;
  reply = [];
}

-- The result of a setter is that of `koruza_uci_commit`, which is 0 or 1.
abbrev pub commit_result : Bool → ℤ
commit_result ok = if ok then pos 0 else pos 1

abbrev pub is_negative : ℤ → Bool
is_negative (pos n) = false
is_negative (negsuc n) = true

-- `result < 0 ? UBUS_STATUS_UNKNOWN_ERROR : UBUS_STATUS_OK`.
abbrev pub status_of : ℤ → UbusStatus
status_of result = if is_negative result then status_unknown_error else status_ok

-- The loop on the elements of `variables`, with the ones taken so far; `none` is an early return.
unfoldable pub alignment_loop : {B : Type 0} → Blob B → List B → List ℕ → Option (List ℕ)
alignment_loop blob [] taken = some taken
alignment_loop blob (v ∷ vs) taken =
    let rest = alignment_loop blob vs (taken ++ blob.blobmsg_get_u32 v ∷ []) in
    if leb alignment_variable_count (length taken)
    then none
    else if blob.is_int32 v
    then rest
    else none

abbrev pub koruza_set_alignment : {F S : Type 0} → Daemon F S → Alignment → Daemon F S
koruza_set_alignment d a = record d { alignment = a }

abbrev pub finish_alignment : {F S : Type 0} → Daemon F S → ℕ → Option (List ℕ) → Outcome F S
finish_alignment d state none = outcome status_invalid_argument d
finish_alignment d state (some vs) =
    if length vs == alignment_variable_count
    then outcome status_ok (koruza_set_alignment d (record { state = state; variables = vs }))
    else outcome status_invalid_argument d

-- What the methods need: the reading of messages, memory, floats, the configuration, and the calls
-- of `upgrade_start`.
pub record Platform (B F D S : Type 0) : Type 0 where
  pub blob : Blob B
  pub memory : Memory
  pub floats : FloatOps F
  pub casts : Casts F
  pub print_float : F → Bytes
  pub doubles : FloatOps D
  pub led_ops : LedOps D
  pub uci : Uci S
  pub upgrading : Upgrading

module _ {B F D S : Type 0} (p : Platform B F D S) where
  abbrev pub parsed : List (String × BlobType) → B → ℕ → Option B
  parsed policy msg i = get_or (p.blob.blobmsg_parse policy msg) i none

  abbrev pub move_to : Daemon F S → Option B → Option B → Option B → Outcome F S
  move_to d (some x) (some y) (some z) = commanded d (
      koruza_move_motor p.memory d.controller (p.blob.blobmsg_get_u32 x) (p.blob.blobmsg_get_u32 y)
        (p.blob.blobmsg_get_u32 z))
  move_to d _ _ _ = outcome status_invalid_argument d

  unfoldable pub ubus_move_motor : Daemon F S → B → Outcome F S
  ubus_move_motor d msg =
      move_to d (parsed koruza_motor_policy msg 0) (parsed koruza_motor_policy msg 1)
        (parsed koruza_motor_policy msg 2)

  unfoldable pub ubus_homing : Daemon F S → Outcome F S
  ubus_homing d = commanded d (koruza_homing p.memory d.controller)

  unfoldable pub ubus_reboot : Daemon F S → Outcome F S
  ubus_reboot d = commanded d (koruza_reboot p.memory)

  unfoldable pub ubus_firmware_upgrade : Daemon F S → Outcome F S
  ubus_firmware_upgrade d = commanded d (koruza_firmware_upgrade p.memory)

  abbrev pub answer_with : Daemon F S → List Add → Outcome F S
  answer_with d reply = record { status = status_ok; daemon = d; effects = []; reply = reply }

  -- The statistics are computed in place before they are added to the reply. `none` is a crash.
  unfoldable pub ubus_get_status : Daemon F S → Option (Outcome F S)
  ubus_get_status d =
      let e = record d {
        accelerometer = koruza_compute_accelerometer_statistics p.floats d.accelerometer;
      } in
      Option.map (answer_with e) (status_reply p.print_float e)

  abbrev pub stored : Daemon F S → Bool × Calibration F × S → Outcome F S
  stored d (ok, cal, s) =
      outcome (status_of (commit_result ok)) (record d { calibration = cal; store = s })

  abbrev pub calibrate_to : Daemon F S → Option B → Option B → Outcome F S
  calibrate_to d (some x) (some y) = stored d (
      koruza_set_webcam_calibration p.floats p.casts p.uci d.store d.calibration
        (p.blob.blobmsg_get_u32 x) (p.blob.blobmsg_get_u32 y))
  calibrate_to d _ _ = outcome status_invalid_argument d

  -- The source parses with the first two entries of `koruza_motor_policy`.
  unfoldable pub ubus_set_webcam_calibration : Daemon F S → B → Outcome F S
  ubus_set_webcam_calibration d msg =
      calibrate_to d (parsed (take 2 koruza_motor_policy) msg 0)
        (parsed (take 2 koruza_motor_policy) msg 1)

  abbrev pub distance_to : Daemon F S → Option B → Outcome F S
  distance_to d (some distance) = stored d (
      koruza_set_distance p.floats p.casts p.uci d.store d.calibration
        (p.blob.blobmsg_get_u32 distance))
  distance_to d none = outcome status_invalid_argument d

  unfoldable pub ubus_set_distance : Daemon F S → B → Outcome F S
  ubus_set_distance d msg = distance_to d (parsed koruza_distance_policy msg 0)

  unfoldable pub ubus_get_survey : Daemon F S → Outcome F S
  ubus_get_survey d = record {
    status = status_ok;
    daemon = d;
    effects = [];
    reply = survey_reply d.survey;
  }

  unfoldable pub ubus_reset_survey : Daemon F S → Outcome F S
  ubus_reset_survey d = outcome status_ok (record d { survey = koruza_survey_reset })

  -- `koruza_set_leds`; `none` is a write through a null pointer.
  unfoldable pub koruza_set_leds : Daemon F S → ℕ → Option (Daemon F S)
  koruza_set_leds d leds =
      Option.map
        (λ (l : Leds). record d {
          leds = leds;
          store = store_leds p.uci leds d.store;
          led_config = l;
        })
        (koruza_update_sfp_leds p.doubles p.led_ops d.controller.rx_power leds d.led_config)

  abbrev pub leds_to : Daemon F S → Option B → Option (Outcome F S)
  leds_to d (some state) =
      Option.map (outcome status_ok) (koruza_set_leds d (p.blob.blobmsg_get_u8 state % 2 ^ 8))
  leds_to d none = some (outcome status_invalid_argument d)

  unfoldable pub ubus_set_leds : Daemon F S → B → Option (Outcome F S)
  ubus_set_leds d msg = leds_to d (parsed koruza_leds_policy msg 0)

  abbrev pub upgraded : Daemon F S → UpgradeResult → Option (Outcome F S)
  upgraded d (returned result) = some (outcome (status_of result) d)
  upgraded d exited = none
  upgraded d executed = none

  -- `none` is the child.
  unfoldable pub ubus_upgrade : Daemon F S → Option (Outcome F S)
  ubus_upgrade d = upgraded d (upgrade_start p.upgrading).0

  abbrev pub align_to : Daemon F S → Option B → Option B → Outcome F S
  align_to d (some state) (some variables) =
      finish_alignment d (p.blob.blobmsg_get_u32 state)
        (alignment_loop p.blob (p.blob.elements variables) [])
  align_to d _ _ = outcome status_invalid_argument d

  unfoldable pub ubus_set_alignment : Daemon F S → B → Outcome F S
  ubus_set_alignment d msg =
      align_to d (parsed koruza_alignment_policy msg 0) (parsed koruza_alignment_policy msg 1)

-- `koruza_methods`.
pub data Method : Type 0 where
  move_motor homing reboot firmware_upgrade get_status set_webcam_calibration : Method
  set_distance get_survey reset_survey set_leds upgrade set_alignment : Method

-- The call of a method. `none` is a crash, or the child of `upgrade_start`.
unfoldable pub call :
    {B F D S : Type 0} → Platform B F D S → Method → Daemon F S → B → Option (Outcome F S)
call p move_motor d msg = some (ubus_move_motor p d msg)
call p homing d msg = some (ubus_homing p d)
call p reboot d msg = some (ubus_reboot p d)
call p firmware_upgrade d msg = some (ubus_firmware_upgrade p d)
call p get_status d msg = ubus_get_status p d
call p set_webcam_calibration d msg = some (ubus_set_webcam_calibration p d msg)
call p set_distance d msg = some (ubus_set_distance p d msg)
call p get_survey d msg = some (ubus_get_survey p d)
call p reset_survey d msg = some (ubus_reset_survey p d)
call p set_leds d msg = ubus_set_leds p d msg
call p upgrade d msg = ubus_upgrade p d
call p set_alignment d msg = some (ubus_set_alignment p d msg)
