-- ===== src/Gpio/Reset.antt =====
-- The hard reset against a plan of four accesses that stops at the first failure.
use koruza_driver.Prelude.{ℕ, ◌≡◌, refl, List, [], ◌∷◌, Bool, true, false, if◌then◌else◌, Bytes}
use koruza_driver.Gpio.{
  Interface, gpio_sysfs_export, gpio_sysfs_direction, gpio_sysfs_value, Answer, Gpio, write_file,
  pin_text, gpio_configure, gpio_raw_write_pin, gpio_export, gpio_unexport, gpio_direction,
  gpio_write, koruza_hard_reset, text_out, or_fail, or_unexport,
}

-- Accesses in turn, up to the first that fails.
abbrev pub perform : (ℕ → Answer) → List (Interface × Bytes) → Gpio → Bool × Gpio
perform system [] g = (true, g)
perform system ((interface, bytes) ∷ plan) g =
    or_fail (write_file system interface bytes g) (perform system plan)

-- Export the pin, make it an output, raise it and lower it.
abbrev pub reset_plan : ℕ → List (Interface × Bytes)
reset_plan pin =
    (gpio_sysfs_export, pin_text pin)
    ∷ (gpio_sysfs_direction pin, text_out)
    ∷ (gpio_sysfs_value pin, 49 ∷ [])
    ∷ (gpio_sysfs_value pin, 48 ∷ [])
    ∷ []

-- Accesses in turn; a pin is unexported at the end, or at the first that fails.
abbrev guarded : (ℕ → Answer) → ℕ → List (Interface × Bytes) → Gpio → Bool × Gpio
guarded system pin [] g = (true, (gpio_unexport system pin g).1)
guarded system pin ((interface, bytes) ∷ plan) g =
    or_unexport system pin (write_file system interface bytes g) (guarded system pin plan)

-- A result after which the pin is unexported.
abbrev unexported : (ℕ → Answer) → ℕ → Bool × Gpio → Bool × Gpio
unexported system pin r = (r.0, (gpio_unexport system pin r.1).1)

guarded_step :
    (system : ℕ → Answer) (pin : ℕ) (plan : List (Interface × Bytes)) (r : Bool × Gpio)
    → ((g : Gpio) → guarded system pin plan g ≡ unexported system pin (perform system plan g))
    → or_unexport system pin r (guarded system pin plan)
      ≡ unexported system pin (or_fail r (perform system plan))
guarded_step system pin plan (true, g) h = h g
guarded_step system pin plan (false, g) h = refl

guarded-perform :
    (system : ℕ → Answer) (pin : ℕ) (plan : List (Interface × Bytes)) (g : Gpio)
    → guarded system pin plan g ≡ unexported system pin (perform system plan g)
guarded-perform system pin [] g = refl
guarded-perform system pin ((interface, bytes) ∷ plan) g =
    guarded_step system pin plan (write_file system interface bytes g)
      (guarded-perform system pin plan)

export_step :
    (system : ℕ → Answer) (pin : ℕ) (plan : List (Interface × Bytes)) (r : Bool × Gpio)
    → or_fail r (guarded system pin plan) ≡ (
        if r.0
        then unexported system pin (or_fail r (perform system plan))
        else or_fail r (perform system plan))
export_step system pin plan (true, g) = guarded-perform system pin plan g
export_step system pin plan (false, g) = refl

-- The hard reset makes the accesses of the plan up to the first that fails, with its result, and
-- then unexports the pin if and only if exporting it succeeded.
pub koruza_hard_reset-perform :
    (system : ℕ → Answer) (pin : ℕ) (g : Gpio)
    → koruza_hard_reset system pin g ≡ (
        if (gpio_export system pin g).0
        then (
          (perform system (reset_plan pin) g).0,
          (gpio_unexport system pin (perform system (reset_plan pin) g).1).1,
        )
        else perform system (reset_plan pin) g)
unfolding koruza_hard_reset gpio_export gpio_direction gpio_write gpio_configure gpio_raw_write_pin
koruza_hard_reset-perform system pin g =
    export_step system pin
      ((gpio_sysfs_direction pin, text_out)
        ∷ (gpio_sysfs_value pin, 49 ∷ [])
        ∷ (gpio_sysfs_value pin, 48 ∷ [])
        ∷ [])
      (write_file system gpio_sysfs_export (pin_text pin) g)
