-- ===== src/Gpio.antt =====
-- gpio.c and the hard reset of koruza.c: the files of the GPIO interface that are written.
--
-- Every access opens one file, writes to it and closes it. What the system answers to an access is
-- a parameter, counted from 0; the accesses made are kept in order. The delay of the reset is left
-- out.
pub mod Reset
mod Tests
use koruza_driver.Prelude.{
  ℕ, suc, ◌+◌, ◌-◌, ◌*◌, ◌/◌, ◌%◌, List, [], ◌∷◌, ◌++◌, Bool, true, false, not, ◌==◌, if◌then◌else◌,
  Bytes, ltb, take, length,
}

-- The files, by the macros of their paths; the last two are those of the pin.
pub data Interface : Type 0 where
  gpio_sysfs_export gpio_sysfs_unexport : Interface
  gpio_sysfs_direction gpio_sysfs_value : ℕ → Interface

-- How an access ends: `open` fails, `write` writes less than it was given, or all is written.
pub data Answer : Type 0 where
  not_opened not_written written : Answer

pub record Access : Type 0 where
  pub interface : Interface
  pub bytes : Bytes
  pub answer : Answer

pub record Gpio : Type 0 where
  pub next : ℕ
  pub log : List Access

abbrev pub is_written : Answer → Bool
is_written not_opened = false
is_written not_written = false
is_written written = true

-- Whether the result is 0.
unfoldable pub write_file : (ℕ → Answer) → Interface → Bytes → Gpio → Bool × Gpio
write_file system interface bytes g = (
  is_written (system g.next),
  record {
    next = suc g.next;
    log = g.log ++ (record { interface = interface; bytes = bytes; answer = system g.next }) ∷ [];
  },
)

-- The digits of a pin below 1000.
abbrev pub decimal : ℕ → Bytes
decimal pin =
    if ltb pin 10
    then (48 + pin) ∷ []
    else if ltb pin 100
    then (48 + pin / 10) ∷ (48 + pin % 10) ∷ []
    else (48 + pin / 100) ∷ (48 + pin / 10 % 10) ∷ (48 + pin % 10) ∷ []

-- `snprintf` into a buffer of three bytes keeps two digits and a zero, and returns the number of
-- digits, which is how many bytes are written.
unfoldable pub pin_text : ℕ → Bytes
pin_text pin = take (length (decimal pin)) (take 2 (decimal pin) ++ 0 ∷ [])

unfoldable pub gpio_configure : (ℕ → Answer) → Interface → ℕ → Gpio → Bool × Gpio
gpio_configure system interface pin g = write_file system interface (pin_text pin) g

unfoldable pub gpio_raw_write_pin : (ℕ → Answer) → Interface → Bytes → Gpio → Bool × Gpio
gpio_raw_write_pin system interface value g = write_file system interface value g

unfoldable pub gpio_export : (ℕ → Answer) → ℕ → Gpio → Bool × Gpio
gpio_export system pin g = gpio_configure system gpio_sysfs_export pin g

unfoldable pub gpio_unexport : (ℕ → Answer) → ℕ → Gpio → Bool × Gpio
gpio_unexport system pin g = gpio_configure system gpio_sysfs_unexport pin g

-- `GPIO_IN`, `GPIO_OUT`, `GPIO_LOW` and `GPIO_HIGH`.
abbrev pub gpio_in : ℕ
gpio_in = 0

abbrev pub gpio_out : ℕ
gpio_out = 1

abbrev pub gpio_low : ℕ
gpio_low = 0

abbrev pub gpio_high : ℕ
gpio_high = 1

abbrev pub text_in : Bytes
text_in = 105 ∷ 110 ∷ []

abbrev pub text_out : Bytes
text_out = 111 ∷ 117 ∷ 116 ∷ []

unfoldable pub gpio_direction : (ℕ → Answer) → ℕ → ℕ → Gpio → Bool × Gpio
gpio_direction system pin direction g =
    gpio_raw_write_pin system (gpio_sysfs_direction pin)
      (if direction == gpio_in then text_in else text_out) g

unfoldable pub gpio_write : (ℕ → Answer) → ℕ → ℕ → Gpio → Bool × Gpio
gpio_write system pin value g =
    gpio_raw_write_pin system (gpio_sysfs_value pin)
      (if value == gpio_low then 48 ∷ [] else 49 ∷ []) g

-- ---- the hard reset

-- Run the rest if the step succeeded; else unexport the pin and fail.
abbrev pub or_unexport : (ℕ → Answer) → ℕ → Bool × Gpio → (Gpio → Bool × Gpio) → Bool × Gpio
or_unexport system pin (true, g) rest = rest g
or_unexport system pin (false, g) rest = (false, (gpio_unexport system pin g).1)

abbrev pub or_fail : Bool × Gpio → (Gpio → Bool × Gpio) → Bool × Gpio
or_fail (true, g) rest = rest g
or_fail (false, g) rest = (false, g)

unfoldable pub koruza_hard_reset : (ℕ → Answer) → ℕ → Gpio → Bool × Gpio
koruza_hard_reset system pin g = or_fail (gpio_export system pin g) (λ a.
    or_unexport system pin (gpio_direction system pin gpio_out a) (λ b.
      or_unexport system pin (gpio_write system pin gpio_high b) (λ c.
        or_unexport system pin (gpio_write system pin gpio_low c)
          (λ d. (true, (gpio_unexport system pin d).1)))))
