-- ===== src/Ubus/Tests.antt =====
-- ubus.c at a concrete daemon and concrete messages.
use text.Mathlib.Text.{◌==◌}
use koruza_driver.Prelude.{
  ℕ, ◌+◌, ◌-◌, ◌*◌, ◌/◌, ◌%◌, ◌^◌, ◌≡◌, refl, List, [], ◌∷◌, map, Bool, true, false, Option, some,
  none, if◌then◌else◌, String, ltb, leb, pos_part,
}
use koruza_driver.Message.{Memory}
use koruza_driver.Configuration.{Found, no_string, string}
use koruza_driver.Configuration.Table.{Tables, tables, put}
use koruza_driver.Koruza.{Controller}
use koruza_driver.Koruza.Window.{FloatOps, zero_item}
use koruza_driver.Koruza.Survey.{koruza_survey_reset, reset-IsSurvey}
use koruza_driver.Upgrade.{parent}
use koruza_driver.Ubus.State.{Daemon}
use koruza_driver.Ubus.{
  answer_with, BlobType, Platform, Outcome, outcome, status_ok, status_invalid_argument, get_status,
  set_alignment, call, ubus_set_alignment, ubus_get_status, alignment_loop, koruza_set_alignment,
}
use koruza_driver.Ubus.Status.{survey_reply, status_adds, status_reply}
use koruza_driver.Koruza.Window.{koruza_compute_accelerometer_statistics}
use koruza_driver.Ubus.Tree.{render, survey_forest, survey_reply-render}
use koruza_driver.Ubus.Nested.{nested, reply_nested}
use koruza_driver.Ubus.Refused.{call_refused}
use koruza_driver.Ubus.Variables.{set_alignment_lem}

-- An attribute: a number, an array of numbers, or a message with two attributes.
pub data Attribute : Type 0 where
  number : ℕ → Attribute
  numbers : List ℕ → Attribute
  alignment : ℕ → List ℕ → Attribute

abbrev number_of : Attribute → ℕ
number_of (number n) = n
number_of (numbers ns) = 0
number_of (alignment n ns) = n

abbrev is_number : Attribute → Bool
is_number (number n) = true
is_number (numbers ns) = false
is_number (alignment n ns) = false

abbrev elements_of : Attribute → List Attribute
elements_of (number n) = []
elements_of (numbers ns) = map number ns
elements_of (alignment n ns) = []

abbrev attribute_of : Attribute → String → Option Attribute
attribute_of (number n) name = none
attribute_of (numbers ns) name = none
attribute_of (alignment n ns) name =
    if name == "state"
    then some (number n)
    else if name == "variables"
    then some (numbers ns)
    else none

abbrev memory : Memory
memory = record { malloc = λ i n. true; stray = 0 }

abbrev naturals : FloatOps ℕ
naturals = record {
  zero_float = 0;
  nan = 0;
  minus_infinity = 0;
  add = λ a b. a + b;
  sub = λ a b. a - b;
  mul = λ a b. a * b;
  div = λ a b. a / b;
  greater = λ a b. ltb b a;
  of_int = pos_part;
}

abbrev pub platform : Platform Attribute ℕ ℕ Tables
platform = record {
  blob = record {
    blobmsg_parse = λ policy msg. map (λ (e : String × BlobType). attribute_of msg e.0) policy;
    blobmsg_get_u8 = number_of;
    blobmsg_get_u32 = number_of;
    is_int32 = is_number;
    elements = elements_of;
  };
  memory = memory;
  floats = naturals;
  casts = record { to_word = λ n. n % 2 ^ 32; atof = λ s. 0; default_zoom = 1 };
  print_float = λ f. [];
  doubles = naturals;
  led_ops = record { log10 = λ n. n; less = ltb; at_least = λ a b. leb b a };
  uci = tables;
  upgrading = record { fork = parent; setsid = true; chdir = true; execl = true };
}

abbrev controller : Controller
controller = record {
  motors = record {
    connected = true;
    x = 1;
    y = 2;
    z = 3;
    range_x = 25000;
    range_y = 25000;
    encoder_x = 0;
    encoder_y = 0;
  };
  accelerometer_connected = false;
  error_code = 0;
  rx_power = 42;
  wait_pending = false;
}

-- A configuration with the path of the webcam and nothing else.
abbrev with_path : String → Found
with_path = put (string (47 ∷ [])) "koruza.@webcam[0].path" (λ l. no_string)

abbrev pub daemon : Daemon ℕ Tables
daemon = record {
  serial_number = 65 ∷ [];
  leds = 1;
  controller = controller;
  accelerometer = record {
    connected = false;
    x = zero_item naturals ∷ [];
    y = zero_item naturals ∷ [];
    z = [];
  };
  calibration = record {
    port = 8080;
    path = some (47 ∷ []);
    width = 1280;
    height = 720;
    offset_x = 0;
    offset_y = 0;
    global_offset_x = 0;
    global_offset_y = 0;
    zoom_x = 1;
    zoom_y = 1;
    zoom_w = 1;
    zoom_h = 1;
    distance = 0;
  };
  tx_power = 5;
  alignment = record { state = 0; variables = 0 ∷ 0 ∷ 0 ∷ 0 ∷ [] };
  survey = koruza_survey_reset;
  led_config = record { colors = none; brightness = 0 };
  network = record {
    interface = some (119 ∷ []);
    ip_address = some (49 ∷ []);
    ready = false;
    peer = some (record { version = 0; id = []; ip_address = 49 ∷ [] });
  };
  store = record { context = with_path; files = with_path };
}

-- An alignment with three variables, and one with four.
abbrev short : Attribute
short = alignment 7 (1 ∷ 2 ∷ 3 ∷ [])

abbrev full : Attribute
full = alignment 7 (1 ∷ 2 ∷ 3 ∷ 4 ∷ [])

abbrev invalid_outcome : Outcome ℕ Tables
invalid_outcome = outcome status_invalid_argument daemon

short_refused : call platform set_alignment daemon short ≡ some invalid_outcome
unfolding call ubus_set_alignment alignment_loop
short_refused = refl

call_refused_example : (invalid_outcome.daemon ≡ daemon) × (invalid_outcome.effects ≡ [])
call_refused_example =
    call_refused platform set_alignment daemon short invalid_outcome short_refused (λ e. cc)

set_alignment_lem_example :
    ubus_set_alignment platform daemon full
    ≡ outcome status_ok
        (koruza_set_alignment daemon (record { state = 7; variables = 1 ∷ 2 ∷ 3 ∷ 4 ∷ [] }))
set_alignment_lem_example = set_alignment_lem platform daemon full

survey_reply-render_example :
    survey_reply koruza_survey_reset ≡ render (survey_forest koruza_survey_reset) []
survey_reply-render_example = survey_reply-render koruza_survey_reset reset-IsSurvey

-- The daemon with the statistics computed, and its answer.
abbrev computed : Daemon ℕ Tables
computed = record daemon {
  accelerometer = koruza_compute_accelerometer_statistics naturals (daemon.accelerometer);
}

abbrev status_outcome : Outcome ℕ Tables
status_outcome =
    answer_with platform computed
      (status_adds platform.print_float computed (47 ∷ []) (119 ∷ []) (49 ∷ []))

status_called : call platform get_status daemon short ≡ some status_outcome
unfolding call ubus_get_status status_reply
status_called = refl

-- Without an address the strings of the answer are not all there.
status_crashes :
    call platform get_status
      (record daemon { network = record (daemon.network) { ip_address = none } })
      short
    ≡ none
unfolding call ubus_get_status status_reply
status_crashes = refl

reply_nested_example : nested status_outcome.reply true [] ≡ true
reply_nested_example = reply_nested platform get_status daemon short status_outcome status_called
