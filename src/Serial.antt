-- ===== src/Serial.antt =====
-- serial.c and serial.h: the two serial devices, opening and reopening them, sending a message and
-- handling what arrives.
--
-- What the operating system answers is a parameter; the calls made of it are returned in order.
-- `syslog` is left out. A negative `fd` is `none`.
pub mod Send
pub mod Descriptors
pub mod Chunks
pub mod Parsers
mod Tests
use koruza_driver.Prelude.{
  ℕ, zero, suc, ◌+◌, ◌-◌, List, [], ◌∷◌, ◌++◌, Bool, true, false, not, ◌||◌, ◌==◌, ltb, Option,
  some, none, if◌then◌else◌, Bytes, length, drop, take,
}
use koruza_driver.Message.{Message, message_serialized_size}
use koruza_driver.Frame.{
  Parser, Heap, frame_parser_init, frame_parser_push_buffer, Framed, framed, refused, aborted,
  frame_message, frame_max_length,
}

pub data DeviceId : Type 0 where
  device_motors device_accelerometer : DeviceId

-- `struct serial_device`. `device` is the path, which is `NULL` for `false`.
pub record SerialDevice : Type 0 where
  pub ready : Bool
  pub device : Bool
  pub fd : Option ℕ
  pub parser : Parser

-- The static variables `device_motors` and `device_accelerometer`.
pub record Devices : Type 0 where
  pub motors : SerialDevice
  pub accelerometer : SerialDevice

-- The calls that matter, by their descriptor: `uloop_fd_add` watches and `uloop_fd_delete` stops.
pub data Call : Type 0 where
  opened closed watched unwatched : ℕ → Call

-- What the system answers to one opening: the descriptor, and whether `tcgetattr` and
-- `tcsetattr` succeed.
pub record Line : Type 0 where
  pub open_fd : Option ℕ
  pub tcgetattr : Bool
  pub tcsetattr : Bool

unfoldable pub serial_get_device : DeviceId → Devices → SerialDevice
serial_get_device device_motors d = d.motors
serial_get_device device_accelerometer d = d.accelerometer

unfoldable pub put_device : DeviceId → SerialDevice → Devices → Devices
put_device device_motors cfg d = record d { motors = cfg }
put_device device_accelerometer cfg d = record d { accelerometer = cfg }

abbrev pub same_fd : Option ℕ → Option ℕ → Bool
same_fd none none = true
same_fd (some a) (some b) = a == b
same_fd _ _ = false

unfoldable pub serial_get_device_fd : Option ℕ → Devices → Option DeviceId
serial_get_device_fd fd d =
    if same_fd fd d.motors.fd
    then some device_motors
    else if same_fd fd d.accelerometer.fd
    then some device_accelerometer
    else none

unfoldable pub serial_set_message_handler : DeviceId → Devices → Devices
serial_set_message_handler id d =
    let cfg = serial_get_device id d in
    put_device id (record cfg { parser = record (cfg.parser) { has_handler = true } }) d

-- A device after a call, the calls made of the system, and whether the result is 0.
pub record Opened : Type 0 where
  pub cfg : SerialDevice
  pub calls : List Call
  pub ok : Bool

-- What follows a successful `open`.
unfoldable pub configure_fd : Line → SerialDevice → ℕ → Opened
configure_fd line cfg n =
    if not line.tcgetattr
    then record { cfg = cfg; calls = opened n ∷ closed n ∷ []; ok = false }
    else if not line.tcsetattr
    then record { cfg = cfg; calls = opened n ∷ closed n ∷ []; ok = false }
    else record { cfg = record cfg { ready = true }; calls = opened n ∷ watched n ∷ []; ok = true }

unfoldable pub open_fd : Line → SerialDevice → Option ℕ → Opened
open_fd line cfg none = record { cfg = record cfg { fd = none }; calls = []; ok = false }
open_fd line cfg (some n) = configure_fd line (record cfg { fd = some n }) n

unfoldable pub serial_init_device : Line → SerialDevice → Opened
serial_init_device line cfg =
    if cfg.ready || not cfg.device
    then record { cfg = cfg; calls = []; ok = false }
    else open_fd line cfg line.open_fd

-- `none` is the abort of `frame_parser_init`.
unfoldable pub serial_start_device : Heap → Line → SerialDevice → Option Opened
serial_start_device heap line cfg = elim (frame_parser_init heap) [
  | none ↦ none
  | some p ↦ some (serial_init_device line (record cfg { parser = p }))
]

-- `uloop_fd_delete` and `close` of the descriptor; `close(-1)` does nothing.
abbrev pub release : Option ℕ → List Call
release none = []
release (some n) = unwatched n ∷ closed n ∷ []

unfoldable pub serial_reinit_device : Line → SerialDevice → Opened
serial_reinit_device line cfg =
    let again = serial_init_device line (record cfg { ready = false }) in
    record again { calls = release cfg.fd ++ again.calls }

-- ---- sending

-- The `write` loop on the bytes from `offset` on. `write i n` is what the system answers to call
-- `i` for `n` bytes: `none` is an error, else the number written. The result is `none` if the
-- fuel runs out; else whether all was written, and the bytes that were.
unfoldable pub write_loop : ℕ → (ℕ → ℕ → Option ℕ) → ℕ → Bytes → Bytes → Option (Bool × Bytes)
write_loop fuel write i sent [] = some (true, sent)
write_loop zero write i sent (b ∷ bytes) = none
write_loop (suc fuel) write i sent (b ∷ bytes) = elim (write i (length (b ∷ bytes))) [
  | none ↦ some (false, sent)
  | some n ↦ write_loop fuel write (suc i) (sent ++ take n (b ∷ bytes)) (drop n (b ∷ bytes))
]

-- What `serial_send_message` does: `sent` are the bytes that reached the line.
pub data Sent : Type 0 where
  sent_ok : Bytes → Sent
  -- -1, with the bytes written before and the reopening of the device, if there was one
  failed : Bytes → Opened → Sent
  send_refused send_aborted endless : Sent

unfoldable pub send_frame : ℕ → (ℕ → ℕ → Option ℕ) → Line → SerialDevice → Framed → Sent
send_frame fuel write line cfg refused = send_refused
send_frame fuel write line cfg aborted = send_aborted
send_frame fuel write line cfg (framed frame) = elim (write_loop fuel write 0 [] frame) [
  | none ↦ endless
  | some (true, sent) ↦ sent_ok sent
  | some (false, sent) ↦ failed sent (serial_reinit_device line cfg)
]

abbrev pub is_open : Option ℕ → Bool
is_open none = false
is_open (some n) = true

unfoldable pub serial_send_message :
    ℕ → (ℕ → ℕ → Option ℕ) → (ℕ → Bool) → Line → SerialDevice → Message → Sent
serial_send_message fuel write malloc line cfg m =
    if not cfg.ready
    then failed [] (serial_reinit_device line cfg)
    else if not (is_open cfg.fd)
    then failed [] (serial_reinit_device line cfg)
    else send_frame fuel write line cfg (frame_message malloc frame_max_length m)

-- ---- receiving

-- A handled event of the event loop: the device afterwards, the messages handed to the handler
-- and the calls made; `none` is an abort.
abbrev pub Received : Type 0
Received = Option (SerialDevice × List Message × List Call)

abbrev pub pushed_device : SerialDevice → Option (Parser × List Message) → Received
pushed_device cfg none = none
pushed_device cfg (some (p, ms)) = some (record cfg { parser = p }, ms, [])

unfoldable pub read_device : Heap → Line → SerialDevice → Option Bytes → Received
read_device heap line cfg none = let o = serial_reinit_device line cfg in some (o.cfg, [], o.calls)
read_device heap line cfg (some bytes) =
    pushed_device cfg (frame_parser_push_buffer heap cfg.parser bytes)

-- `input` is what `read` returns, at most 1024 bytes; `none` is an error.
unfoldable pub handle_device : Heap → Line → SerialDevice → Option Bytes → Received
handle_device heap line cfg input =
    if not cfg.ready then some (cfg, [], []) else read_device heap line cfg input

abbrev pub put_received :
    DeviceId → Devices → Received → Option (Devices × List Message × List Call)
put_received id d none = none
put_received id d (some (cfg, ms, calls)) = some (put_device id cfg d, ms, calls)

-- The event loop reports descriptor `fd`; a descriptor of no device is ignored.
unfoldable pub serial_fd_handler :
    Heap → Line → Devices → Option ℕ → Option Bytes → Option (Devices × List Message × List Call)
serial_fd_handler heap line d fd input = elim (serial_get_device_fd fd d) [
  | none ↦ some (d, [], [])
  | some id ↦ put_received id d (handle_device heap line (serial_get_device id d) input)
]

-- ---- start-up

-- The two devices after `serial_init`, the calls made, and whether the result is 0.
pub record Started : Type 0 where
  pub devices : Devices
  pub calls : List Call
  pub ok : Bool

-- Both paths have defaults, so no path is `NULL`.
abbrev pub with_path : SerialDevice → SerialDevice
with_path cfg = record cfg { ready = false; device = true }

abbrev pub started_accelerometer : Devices → List Call → Option Opened → Option Started
started_accelerometer d calls none = none
started_accelerometer d calls (some o) =
    some
      (record { devices = record d { accelerometer = o.cfg }; calls = calls ++ o.calls; ok = true })

abbrev pub started_motors : Heap → Line → Devices → Option Opened → Option Started
started_motors heap line d none = none
started_motors heap line d (some o) =
    if not o.ok
    then some (record { devices = record d { motors = o.cfg }; calls = o.calls; ok = false })
    else started_accelerometer (record d { motors = o.cfg }) o.calls
        (serial_start_device heap line (with_path d.accelerometer))

-- The accelerometer may be missing: its result is ignored.
unfoldable pub serial_init : Heap → Line → Line → Devices → Option Started
serial_init heap motors_line accelerometer_line d =
    started_motors heap accelerometer_line d
      (serial_start_device heap motors_line (with_path d.motors))
