-- ===== src/Koruza/Sfp/Refresh.antt =====
-- koruza.c: the timer that reads the SFP module and shows its power on the LEDs.
use mathlib.Core.Option
use text.Mathlib.Text.{◌==◌ as same_text}
use koruza_driver.Prelude.{
  ℕ, ◌≡◌, ◌≢◌, ◌++◌, [], zero, suc, All, List, ◌∷◌, Bool, true, ◌==◌, Option, some, none, Bytes,
}
use koruza_driver.Message.{Memory}
use koruza_driver.Message.Typed.{SfpCalibration}
use koruza_driver.Koruza.Window.{FloatOps}
use koruza_driver.Koruza.Sfp.{
  SfpCasts, Module, Diagnostics, Service, Sfp, power_of, koruza_update_sfp,
}
use koruza_driver.Koruza.Leds.{LedOps, Leds, koruza_update_sfp_leds}

module _ {F D : Type 0} (o : FloatOps F) (k : SfpCasts F) (doubles : FloatOps D)
    (ops : LedOps D) where
  abbrev pub then_leds : ℕ → Leds → Option (Bool × Sfp) → Option (Sfp × Leds)
  then_leds leds l none = none
  then_leds leds l (some (ok, t)) =
      Option.map (λ (m : Leds). (t, m)) (koruza_update_sfp_leds doubles ops t.rx_power leds l)

  -- The reading of the module and the update of the LEDs; the results of both are not looked at.
  unfoldable pub koruza_timer_sfp_status_handler :
      Memory → Bytes → Service → ℕ → Sfp → Leds → Option (Sfp × Leds)
  koruza_timer_sfp_status_handler mem before service leds s l =
      then_leds leds l (koruza_update_sfp o k mem before service s)

  -- What a module with two powers and a calibration tells.
  abbrev pub told : Bytes → Bytes → SfpCalibration → Sfp
  told tx rx c = record {
    tx_power = power_of o k tx;
    rx_power = power_of o k rx;
    offset_x = c.offset_x;
    offset_y = c.offset_y;
  }

  -- A module that is not on the bus "/dev/i2c-1".
  abbrev pub IsElsewhere : Module → Type 0
  IsElsewhere m = m.bus ≢ some "/dev/i2c-1"

  -- Entries without a value.
  abbrev pub gaps : ℕ → List (Option Diagnostics)
  gaps zero = []
  gaps (suc n) = none ∷ gaps n

  -- The service knows a module of the bus "/dev/i2c-1", behind whatever modules of other buses. For
  -- its name it tells two powers, behind whatever entries without a value, and vendor data.
  pub record Answers (service : Service) (name tx rx vendor_bytes : Bytes) : Type 0 where
    pub found : service.found ≡ true
    pub others : List Module
    pub elsewhere : All IsElsewhere others
    pub more : List Module
    pub modules : service.get_modules ≡ record {
      received = some (others ++ (record { name = name; bus = some "/dev/i2c-1" }) ∷ more);
      ok = true;
    }
    pub empty : ℕ
    pub further : List (Option Diagnostics)
    pub diagnostics : service.get_diagnostics name ≡ record {
      received =
          some (gaps empty ++ some (record { tx_power = some tx; rx_power = some rx }) ∷ further);
      ok = true;
    }
    pub vendor :
        service.get_vendor_specific_data name
        ≡ record { received = some (some vendor_bytes); ok = true }
