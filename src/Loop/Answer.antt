-- ===== src/Loop/Answer.antt =====
-- The answer of `get_status` in the loop, and how it is read.
use mathlib.Core.Option
use koruza_driver.Prelude.{Bytes}
use text.Mathlib.Text.{◌==◌}
use koruza_driver.Prelude.{
  ◌≡◌, refl, ap, ◌∙◌, List, [], ◌∷◌, Option, some, none, if◌then◌else◌, String,
}
use koruza_driver.Ubus.State.{Daemon}
use koruza_driver.Ubus.Reply.{
  Field, Add, add_field, open_table, open_array, close_table, close_array,
}
use koruza_driver.Koruza.Window.{koruza_compute_accelerometer_statistics}
use koruza_driver.Loop.{replied, Ran}
use koruza_driver.Ubus.{answer_with}
use koruza_driver.Ubus.Status.{status_reply, status_adds, given}
use koruza_driver.Ubus.{call, get_status, ubus_get_status, status_ok}
use koruza_driver.Loop.{Machine, World, answered, method, perform_all, step}

-- The calls behind the opening of the first table of a name.
abbrev pub inside : String → List Add → List Add
inside name [] = []
inside name (open_table (some n) ∷ rest) = if n == name then rest else inside name rest
inside name (open_table none ∷ rest) = inside name rest
inside name (open_array n ∷ rest) = inside name rest
inside name (add_field n f ∷ rest) = inside name rest
inside name (close_table ∷ rest) = inside name rest
inside name (close_array ∷ rest) = inside name rest

-- The first field of a name before anything is opened or closed.
abbrev pub field_of : String → List Add → Option Field
field_of name [] = none
field_of name (add_field (some n) f ∷ rest) = if n == name then some f else field_of name rest
field_of name (add_field none f ∷ rest) = field_of name rest
field_of name (open_table n ∷ rest) = none
field_of name (open_array n ∷ rest) = none
field_of name (close_table ∷ rest) = none
field_of name (close_array ∷ rest) = none

-- What a status reply says of the motors.
abbrev pub of_motors : String → List Add → Option Field
of_motors name reply = field_of name (inside "motors" reply)

-- The three strings of a status reply that may be null.
pub record HasStrings (webcam_path network_interface address : Option Bytes) : Type 0 where
  pub path : Bytes
  pub interface : Bytes
  pub ip_address : Bytes
  pub has_path : webcam_path ≡ some path
  pub has_interface : network_interface ≡ some interface
  pub has_ip_address : address ≡ some ip_address

-- The path of the webcam and the interface and the address of the network are there.
abbrev pub CanAnswer : {F S : Type 0} → World F S → Type 0
CanAnswer w =
    HasStrings w.daemon.calibration.path w.daemon.network.interface w.daemon.network.ip_address

module _ {B F D S : Type 0} (m : Machine B F D S) where
  -- The answer of `get_status`, where no string of it is null.
  pub status_answered :
      (b : B) (w : World F S)
      → CanAnswer w
      → (u : World F S) × (d : Daemon F S) × (path interface ip_address : Bytes) × (step m
            (method get_status b)
            w
          ≡ some (
            u,
            answered status_ok (status_adds m.platform.print_float d path interface ip_address)
                ∷ [],
          ))
        × (d.controller ≡ w.daemon.controller)
  unfolding step call ubus_get_status status_reply perform_all
  status_answered b w h =
      let d : Daemon F S = record (w.daemon) {
        accelerometer =
            koruza_compute_accelerometer_statistics m.platform.floats w.daemon.accelerometer;
      } in
      let with_strings : Option Bytes → Option Bytes → Option Bytes → Ran F S =
        λ path interface ip_address. replied m w (
          Option.map (answer_with m.platform d)
            (given m.platform.print_float d path interface ip_address)) in
      (
        record w { daemon = d },
        d,
        h.path,
        h.interface,
        h.ip_address,
        ap (λ x. with_strings x w.daemon.network.interface w.daemon.network.ip_address) h.has_path
            ∙ ap (λ x. with_strings (some h.path) x w.daemon.network.ip_address) h.has_interface
            ∙ ap (with_strings (some h.path) (some h.interface)) h.has_ip_address,
        refl,
      )
