-- ===== src/Koruza/Examples.antt =====
-- koruza.c at concrete configurations, vendor data and LEDs.
use text.Mathlib.Text.{◌==◌}
use koruza_driver.Prelude.{
  Bool, Option, String, ℕ, ◌+◌, ◌-◌, ◌*◌, ◌/◌, ◌%◌, ◌^◌, ◌≡◌, refl, [], ◌∷◌, true, false, some,
  none, ltb, leb, ◌||◌, pos, pos_part, neg_part, replicate, atoi, arith,
}
use koruza_driver.Message.{Memory}
use koruza_driver.Message.Format.{wire}
use koruza_driver.Message.Typed.{SfpCalibration}
use koruza_driver.Configuration.{no_string, string, uci_get_int, uci_get_string}
use koruza_driver.Configuration.Table.{Tables, tables, tables_laws, put}
use koruza_driver.Koruza.Window.{FloatOps}
use koruza_driver.Koruza.Calibration.{
  Casts, Calibration, old_x, old_y, nonzero, initial_calibration,
}
use koruza_driver.Koruza.Migration.{IsConvertible, conversion_lasts}
use koruza_driver.Gpio.{Gpio, written}
use koruza_driver.Koruza.Store.{read_motors}
use koruza_driver.Koruza.Timers.{requested_start}
use koruza_driver.Koruza.Survey.{koruza_survey_reset}
use koruza_driver.Koruza.Start.{Host, Started, initial_sfp, start_unit, start_unit_lem}
use koruza_driver.Koruza.Sfp.{koruza_update_sfp}
use koruza_driver.Koruza.Leds.{led_color}
use koruza_driver.Koruza.Sfp.{SfpCasts, Sfp, Module, Service}
use koruza_driver.Koruza.Sfp.Calibrated.{calibration_message}
use koruza_driver.Koruza.Leds.{LedOps, Leds, led_count}

abbrev memory : Memory
memory = record { malloc = λ i n. true; stray = 0 }

-- Natural numbers from -100 upwards in place of `float` and `double`.
abbrev numbers : FloatOps ℕ
numbers = record {
  zero_float = 100;
  nan = 0;
  minus_infinity = 0;
  add = λ a b. a + b;
  sub = λ a b. a - b;
  mul = λ a b. a * b;
  div = λ a b. a / b;
  greater = λ a b. ltb b a;
  of_int = λ n. 100 + pos_part n - neg_part n;
}

abbrev casts : Casts ℕ
casts = record { to_word = λ n. n % 2 ^ 32; atof = λ s. 1; default_zoom = 1 }

-- A configuration whose sections are there, with the old horizontal offset 7 and no other option.
abbrev pub old_file : Tables
old_file = record {
  context = put (string (55 ∷ [])) old_x (λ l. no_string);
  files = put (string (55 ∷ [])) old_x (λ l. no_string);
}

old_file-read :
    (nonzero (uci_get_int tables old_file old_x (pos 0))
      || nonzero (uci_get_int tables old_file old_y (pos 0)))
    ≡ true
unfolding uci_get_int uci_get_string atoi
old_file-read = refl

old_file-IsConvertible : IsConvertible tables tables_laws old_file
old_file-IsConvertible = (refl, refl, refl, refl, (λ e. cc), λ t. refl)

conversion_lasts_example :
    (cal again : Calibration ℕ) × (t : Tables) × (initial_calibration numbers casts tables old_file
      ≡ (cal, t))
    × (initial_calibration numbers casts tables (tables.restarted t) ≡ (again, tables.restarted t))
    × (again.global_offset_x ≡ cal.global_offset_x)
    × (again.global_offset_y ≡ cal.global_offset_y)
conversion_lasts_example =
    conversion_lasts tables tables_laws numbers casts (λ f. omega arith) old_file
      old_file-IsConvertible old_file-read

abbrev pub half_casts : SfpCasts ℕ
half_casts = record { scan_float = λ s. none; to_half = λ n. n % 2 ^ 16 }

abbrev stored : SfpCalibration
stored = record { offset_x = 70000; offset_y = 3 }

abbrev dark : Sfp
dark = record { tx_power = 5; rx_power = 0; offset_x = 1; offset_y = 1 }

abbrev orders : LedOps ℕ
orders = record { log10 = λ n. n; less = ltb; at_least = λ a b. leb b a }

abbrev unlit : Leds
unlit = record { colors = some []; brightness = 0 }

abbrev other_bus : Module
other_bus = record { name = 98 ∷ []; bus = some "/dev/i2c-0" }

-- A service with a module of another bus and then the module "a" of the primary bus, for which it
-- has an entry without a value and then one with two; the texts are not read as numbers.
abbrev pub service : Service
service = record {
  found = true;
  get_modules = record {
    received = some (other_bus ∷ (record { name = 97 ∷ []; bus = some "/dev/i2c-1" }) ∷ []);
    ok = true;
  };
  get_diagnostics = λ id. record {
    received =
        some (none ∷ some (record { tx_power = some (49 ∷ []); rx_power = some (50 ∷ []) }) ∷ []);
    ok = true;
  };
  get_vendor_specific_data =
      λ id. record { received = some (some (wire (calibration_message memory stored))); ok = true };
}

abbrev on_primary : Option String → Bool
on_primary none = true
on_primary (some bus) = bus == "/dev/i2c-1"

-- A host with LEDs and without the SFP service.
abbrev host : Host ℕ ℕ Tables
host = record {
  floats = numbers;
  casts = casts;
  sfp_casts = half_casts;
  doubles = numbers;
  led_ops = orders;
  uci = tables;
  memory = memory;
  before = [];
  service = record service { found = false };
  ws2811_init = some [];
  files = λ n. written;
  motors_sent = true;
  accelerometer_sent = false;
}

abbrev pub untouched : Gpio
untouched = record { next = 0; log = [] }

abbrev started_store : Tables
started_store = (initial_calibration numbers casts tables old_file).1

abbrev started_sfp : Sfp
started_sfp = initial_sfp host (initial_calibration numbers casts tables old_file).0

no_service :
    koruza_update_sfp numbers half_casts memory [] (host.service) started_sfp
    ≡ some (false, started_sfp)
unfolding koruza_update_sfp
no_service = refl

start_unit_lem_example :
    (u : Started ℕ Tables) × (start_unit host old_file untouched ≡ some u)
    × ((u.controller, u.effects)
        ≡ requested_start memory (read_motors tables started_store) 0 true false)
    × (u.led_config.colors ≡ some (replicate led_count (led_color numbers orders 0)))
    × (u.survey ≡ koruza_survey_reset)
start_unit_lem_example =
    (start_unit_lem host old_file untouched).1 [] false started_sfp refl no_service
