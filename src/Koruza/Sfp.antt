-- ===== src/Koruza/Sfp.antt =====
-- koruza.c: what is read of the SFP module over the bus: its diagnostics, and the calibration that
-- stands as TLVs in its vendor data.
--
-- The bus and the reading of its messages are parameters: an answer is what the callback of
-- `ubus_invoke` gets, if it is called, and whether the call returns `UBUS_STATUS_OK`.
pub mod Calibrated
pub mod Refresh
use text.Mathlib.Text.{◌==◌}
use koruza_driver.Prelude.{
  ℕ, List, [], ◌∷◌, Bool, true, false, not, Option, some, none, if◌then◌else◌, Bytes, String, ltb,
  length, take, pos, zero,
}
use koruza_driver.Message.{
  Message, MessageResult, success, Memory, Get, found, not_found, assert_failed, message_parse,
}
use koruza_driver.Message.Typed.{SfpCalibration, message_tlv_get_sfp_calibration}
use koruza_driver.Koruza.Window.{FloatOps}

-- `%f` of `scanf`, and the conversion of a `float` to `uint16_t`.
pub record SfpCasts (F : Type 0) : Type 0 where
  pub scan_float : Bytes → Option F
  pub to_half : F → ℕ

pub record Answer (A : Type 0) : Type 0 where
  pub received : Option A
  pub ok : Bool

-- The module's name, and its `bus` if it has one.
pub record Module : Type 0 where
  pub name : Bytes
  pub bus : Option String

-- The two strings of a `value` table.
pub record Diagnostics : Type 0 where
  pub tx_power : Option Bytes
  pub rx_power : Option Bytes

-- The `sfp` service. A module's entry of the diagnostics has a `value` or not.
pub record Service : Type 0 where
  pub found : Bool
  pub get_modules : Answer (List Module)
  pub get_diagnostics : Bytes → Answer (List (Option Diagnostics))
  pub get_vendor_specific_data : Bytes → Answer (Option Bytes)

-- `status.sfp` and the two offsets of `status.camera_calibration`.
pub record Sfp : Type 0 where
  pub tx_power : ℕ
  pub rx_power : ℕ
  pub offset_x : ℕ
  pub offset_y : ℕ

abbrev pub max_sfp_module_id_length : ℕ
max_sfp_module_id_length = 64

-- The first module of the primary bus. `strncpy` copies 64 bytes at most.
unfoldable pub koruza_sfp_get_module : List Module → Bytes
koruza_sfp_get_module [] = []
koruza_sfp_get_module (m ∷ ms) =
    let rest = koruza_sfp_get_module ms in
    elim m.bus [
      | none ↦ rest
      | some bus ↦ if bus == "/dev/i2c-1" then take max_sfp_module_id_length m.name else rest
    ]

module _ {F : Type 0} (o : FloatOps F) (k : SfpCasts F) where
  -- A text that is no number leaves 0.
  abbrev pub power_of : Bytes → ℕ
  power_of s =
      k.to_half
        (o.mul (elim (k.scan_float s) [ none ↦ o.zero_float | some f ↦ f ]) (o.of_int (pos 10000)))

  abbrev pub power_or : ℕ → Option Bytes → ℕ
  power_or old none = old
  power_or old (some s) = power_of s

  -- Only the first module that has a value is processed.
  unfoldable pub koruza_sfp_get_diagnostics : List (Option Diagnostics) → Sfp → Sfp
  koruza_sfp_get_diagnostics [] s = s
  koruza_sfp_get_diagnostics (none ∷ ms) s = koruza_sfp_get_diagnostics ms s
  koruza_sfp_get_diagnostics (some d ∷ ms) s = record s {
    tx_power = power_or s.tx_power d.tx_power;
    rx_power = power_or s.rx_power d.rx_power;
  }

  abbrev pub take_calibration : Get SfpCalibration → Sfp → Option Sfp
  take_calibration (found c) s = some (record s { offset_x = c.offset_x; offset_y = c.offset_y })
  take_calibration not_found s = some s
  take_calibration assert_failed s = none

  abbrev pub read_parsed : Bytes → MessageResult × Message → Sfp → Option Sfp
  read_parsed before (success, m) s = take_calibration (message_tlv_get_sfp_calibration m before) s
  read_parsed before (_, m) s = some s

  -- `none` is the abort of a failed assertion; `before` is what the local `calibration` holds.
  unfoldable pub koruza_sfp_get_calibration_data : Memory → Bytes → Option Bytes → Sfp → Option Sfp
  koruza_sfp_get_calibration_data mem before none s = some s
  koruza_sfp_get_calibration_data mem before (some bytes) s =
      read_parsed before (message_parse mem bytes) s

  abbrev pub vendor_callback : Memory → Bytes → Option (Option Bytes) → Sfp → Option Sfp
  vendor_callback mem before none s = some s
  vendor_callback mem before (some v) s = koruza_sfp_get_calibration_data mem before v s

  abbrev pub diagnostics_callback : Option (List (Option Diagnostics)) → Sfp → Sfp
  diagnostics_callback none s = s
  diagnostics_callback (some ms) s = koruza_sfp_get_diagnostics ms s

  abbrev pub module_callback : Option (List Module) → Bytes
  module_callback none = []
  module_callback (some ms) = koruza_sfp_get_module ms

  abbrev pub with_result : Bool → Option Sfp → Option (Bool × Sfp)
  with_result ok none = none
  with_result ok (some s) = some (ok, s)

  -- Whether the result is 0, and the new state; `none` is an abort, or a read past the end of a
  -- module's name that fills its buffer.
  unfoldable pub koruza_update_sfp : Memory → Bytes → Service → Sfp → Option (Bool × Sfp)
  koruza_update_sfp mem before service s =
      let id = module_callback service.get_modules.received in
      let diagnostics = service.get_diagnostics id in
      let d = diagnostics_callback diagnostics.received s in
      let vendor = service.get_vendor_specific_data id in
      if not service.found
      then some (false, s)
      else if not service.get_modules.ok
      then some (false, s)
      else if not (ltb (length id) max_sfp_module_id_length)
      then none
      else if not diagnostics.ok
      then some (false, d)
      else with_result vendor.ok (vendor_callback mem before vendor.received d)
