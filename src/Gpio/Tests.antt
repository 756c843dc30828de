-- ===== src/Gpio/Tests.antt =====
-- The hard reset at concrete answers of the system.
use koruza_driver.Prelude.{ℕ, ◌≡◌, refl, [], ◌∷◌, false, if◌then◌else◌, ◌==◌}
use koruza_driver.Gpio.{
  Answer, written, not_written, Gpio, pin_text, koruza_hard_reset, gpio_export, gpio_unexport,
  gpio_direction, gpio_write, gpio_configure, gpio_raw_write_pin, write_file, gpio_sysfs_export,
  gpio_sysfs_unexport, gpio_sysfs_direction,
}
use koruza_driver.Gpio.Reset.{perform, reset_plan, koruza_hard_reset-perform}

abbrev start : Gpio
start = record { next = 0; log = [] }

-- The second access, of the direction, fails.
abbrev refused : ℕ → Answer
refused i = if i == 1 then not_written else written

reset_stops : koruza_hard_reset refused 18 start ≡ (
  false,
  record {
    next = 3;
    log =
        (record { interface = gpio_sysfs_export; bytes = 49 ∷ 56 ∷ []; answer = written })
        ∷ (record {
          interface = gpio_sysfs_direction 18;
          bytes = 111 ∷ 117 ∷ 116 ∷ [];
          answer = not_written;
        })
        ∷ (record { interface = gpio_sysfs_unexport; bytes = 49 ∷ 56 ∷ []; answer = written })
        ∷ [];
  },
)
unfolding koruza_hard_reset gpio_export gpio_unexport gpio_direction gpio_write gpio_configure
    gpio_raw_write_pin write_file pin_text
reset_stops = refl

-- The third digit of a pin is lost, and a zero byte is written in its place.
digit_lost : pin_text 104 ≡ 49 ∷ 48 ∷ 0 ∷ []
unfolding pin_text
digit_lost = refl

koruza_hard_reset-perform_example : koruza_hard_reset refused 18 start ≡ (
    if (gpio_export refused 18 start).0
    then (
      (perform refused (reset_plan 18) start).0,
      (gpio_unexport refused 18 (perform refused (reset_plan 18) start).1).1,
    )
    else perform refused (reset_plan 18) start)
koruza_hard_reset-perform_example = koruza_hard_reset-perform refused 18 start
