-- ===== src/Main.antt =====
-- main.c: the options, the connection to the bus, and the start-up of the parts in order.
--
-- What `getopt` returns is a list; which attempts to connect succeed, and whether each part could
-- be started, are parameters.
pub mod Order
pub mod Connect
mod Tests
use koruza_driver.Prelude.{
  ℕ, zero, suc, ◌+◌, List, [], ◌∷◌, Bool, true, false, not, ◌==◌, Option, some, none, if◌then◌else◌,
  Bytes,
}

-- `ubus_socket`, and whether `LOG_PERROR` is set in `log_option`.
pub record Options : Type 0 where
  pub ubus_socket : Option Bytes
  pub log_perror : Bool

-- The letters are 's' and 'f'.
abbrev pub take_option : ℕ → Option Bytes → Options → Options
take_option c optarg o =
    if c == 115
    then record o { ubus_socket = optarg }
    else if c == 102
    then record o { log_perror = true }
    else o

unfoldable pub parse_options : List (ℕ × Option Bytes) → Options → Options
parse_options [] o = o
parse_options ((c, optarg) ∷ rest) o = parse_options rest (take_option c optarg o)

-- The attempts to connect, from attempt `i` on: how often it slept, `none` without fuel.
unfoldable pub connect_loop : (ℕ → Bool) → ℕ → ℕ → Option ℕ
connect_loop connects zero i = none
connect_loop connects (suc fuel) i =
    let rest = connect_loop connects fuel (i + 1) in if not (connects i) then rest else some i

-- The calls of libubox, libubus and libuci, and of the functions that start the parts.
pub data Call : Type 0 where
  openlog : Bool → Call
  make_run_directory set_umask ignore_sigpipe init_loop : Call
  add_ubus_to_loop start_uci start_serial start_koruza start_ubus start_network start_upgrade : Call
  run_loop free_ubus free_uci end_loop : Call

-- Whether the directory is there, and whether each call of the start-up succeeds.
pub record Startup : Type 0 where
  pub has_directory : Bool
  pub uci : Bool
  pub serial : Bool
  pub koruza : Bool
  pub ubus : Bool
  pub network : Bool
  pub upgrade : Bool

-- The calls before the connection.
abbrev pub prepare : Options → Startup → List Call
prepare o s =
    let rest = set_umask ∷ ignore_sigpipe ∷ init_loop ∷ [] in
    openlog o.log_perror ∷ (if not s.has_directory then make_run_directory ∷ rest else rest)

-- A call that fails ends the program with -1.
abbrev pub checked : Call → Bool → Bool × List Call → Bool × List Call
checked call ok (result, calls) = if not ok then (false, call ∷ []) else (result, call ∷ calls)

-- From the connection on: whether the result is 0, and the calls in order.
unfoldable pub connected_main : Startup → Bool × List Call
connected_main s =
    let run = run_loop ∷ free_ubus ∷ free_uci ∷ end_loop ∷ [] in
    let (result, calls) = checked start_uci s.uci (
      checked start_serial s.serial (
        checked start_koruza s.koruza (
          checked start_ubus s.ubus
            (checked start_network s.network (checked start_upgrade s.upgrade (true, run)))))) in
    (result, add_ubus_to_loop ∷ calls)
