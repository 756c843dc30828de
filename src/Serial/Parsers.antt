-- ===== src/Serial/Parsers.antt =====
-- The parsers of the two devices over what serial.c does to them.
use koruza_driver.Prelude.{
  ℕ, ◌||◌, ◌≡◌, refl, List, Bool, true, false, not, Option, some, none, Bytes, Bool-cases,
  Option-cases, if_holds, inl, inr, [],
}
use koruza_driver.Message.{Message}
use koruza_driver.Frame.{
  Parser, Heap, Framed, framed, refused, aborted, frame_parser_init, frame_parser_push_buffer,
  frame_message, frame_max_length,
}
use koruza_driver.Frame.Invariant.{
  IsParser, Holds, PushedHolds, frame_parser_init-IsParser, push_buffer-IsParser,
}
use koruza_driver.Serial.{
  DeviceId, device_motors, device_accelerometer, SerialDevice, Devices, Opened, Line, Started, Call,
  serial_get_device, put_device, serial_get_device_fd, configure_fd, open_fd, serial_init_device,
  serial_start_device, serial_reinit_device, with_path, started_motors, started_accelerometer,
  serial_init, write_loop, Sent, sent_ok, failed, send_refused, send_aborted, endless, send_frame,
  is_open, serial_send_message, Received, pushed_device, put_received, read_device, handle_device,
  serial_fd_handler,
}

-- The parsers of both devices are well formed.
abbrev pub HasParsers : Devices → Type 0
HasParsers d = IsParser d.motors.parser × IsParser d.accelerometer.parser

pub get-IsParser :
    (id : DeviceId) (d : Devices) → HasParsers d → IsParser (serial_get_device id d).parser
unfolding serial_get_device
get-IsParser device_motors d h = h.0
get-IsParser device_accelerometer d h = h.1

pub put-HasParsers :
    (id : DeviceId) (cfg : SerialDevice) (d : Devices)
    → HasParsers d
    → IsParser cfg.parser
    → HasParsers (put_device id cfg d)
unfolding put_device
put-HasParsers device_motors cfg d h k = (k, h.1)
put-HasParsers device_accelerometer cfg d h k = (h.0, k)

configure_fd_parser :
    (line : Line) (cfg : SerialDevice) (n : ℕ) → (configure_fd line cfg n).cfg.parser ≡ cfg.parser
unfolding configure_fd
configure_fd_parser line cfg n = elim (Bool-cases line.tcgetattr) [
  | inl y ↦ rw y (elim (Bool-cases line.tcsetattr) [ inl a ↦ rw a refl | inr b ↦ rw b refl ])
  | inr n ↦ rw n refl
]

open_fd_parser :
    (line : Line) (cfg : SerialDevice) (fd : Option ℕ)
    → (open_fd line cfg fd).cfg.parser ≡ cfg.parser
unfolding open_fd
open_fd_parser line cfg none = refl
open_fd_parser line cfg (some n) = configure_fd_parser line (record cfg { fd = some n }) n

init_device_parser :
    (line : Line) (cfg : SerialDevice) → (serial_init_device line cfg).cfg.parser ≡ cfg.parser
unfolding serial_init_device
init_device_parser line cfg = elim (Bool-cases (cfg.ready || not cfg.device)) [
  | inl y ↦ rw y refl
  | inr n ↦ rw n (open_fd_parser line cfg line.open_fd)
]

reinit_device-IsParser :
    (line : Line) (cfg : SerialDevice)
    → IsParser cfg.parser
    → IsParser (serial_reinit_device line cfg).cfg.parser
unfolding serial_reinit_device
reinit_device-IsParser line cfg h = rw (init_device_parser line (record cfg { ready = false })) h

-- ---- sending

-- Of the device that a failed sending leaves.
abbrev pub StaysSent : Sent → Type 0
StaysSent (sent_ok bytes) = Unit
StaysSent (failed bytes o) = IsParser o.cfg.parser
StaysSent send_refused = Unit
StaysSent send_aborted = Unit
StaysSent endless = Unit

send_frame-StaysSent :
    (fuel : ℕ) (write : ℕ → ℕ → Option ℕ) (line : Line) (cfg : SerialDevice) (f : Framed)
    → IsParser cfg.parser
    → StaysSent (send_frame fuel write line cfg f)
unfolding send_frame
send_frame-StaysSent fuel write line cfg refused h = tt
send_frame-StaysSent fuel write line cfg aborted h = tt
send_frame-StaysSent fuel write line cfg (framed frame) h =
    elim (Option-cases (write_loop fuel write 0 [] frame)) [
      | inl e ↦ rw (e, send_frame) tt
      | inr ((true, sent), e) ↦ rw (e, send_frame) tt
      | inr ((false, sent), e) ↦ rw (e, send_frame) (reinit_device-IsParser line cfg h)
    ]

pub send_message-StaysSent :
    (fuel : ℕ) (write : ℕ → ℕ → Option ℕ) (malloc : ℕ → Bool) (line : Line) (cfg : SerialDevice)
    (m : Message)
    → IsParser cfg.parser
    → StaysSent (serial_send_message fuel write malloc line cfg m)
unfolding serial_send_message
send_message-StaysSent fuel write malloc line cfg m h =
    if_holds StaysSent (not cfg.ready) _ _ (reinit_device-IsParser line cfg h) (
      if_holds StaysSent (not (is_open cfg.fd)) _ _ (reinit_device-IsParser line cfg h)
        (send_frame-StaysSent fuel write line cfg (frame_message malloc frame_max_length m) h))

-- ---- receiving

abbrev StaysReceived : Received → Type 0
StaysReceived none = Unit
StaysReceived (some (cfg, ms, calls)) = IsParser cfg.parser

abbrev pub StaysHandled : Option (Devices × List Message × List Call) → Type 0
StaysHandled none = Unit
StaysHandled (some (d, ms, calls)) = HasParsers d

pushed-StaysReceived :
    (cfg : SerialDevice) (r : Option (Parser × List Message))
    → PushedHolds IsParser r
    → StaysReceived (pushed_device cfg r)
pushed-StaysReceived cfg none h = tt
pushed-StaysReceived cfg (some (p, ms)) h = h

put-StaysHandled :
    (id : DeviceId) (d : Devices) (r : Received)
    → HasParsers d
    → StaysReceived r
    → StaysHandled (put_received id d r)
put-StaysHandled id d none h k = tt
put-StaysHandled id d (some (cfg, ms, calls)) h k = put-HasParsers id cfg d h k

read-StaysReceived :
    (heap : Heap) (line : Line) (cfg : SerialDevice) (input : Option Bytes)
    → IsParser cfg.parser
    → StaysReceived (read_device heap line cfg input)
unfolding read_device
read-StaysReceived heap line cfg none h = reinit_device-IsParser line cfg h
read-StaysReceived heap line cfg (some bytes) h =
    pushed-StaysReceived cfg (frame_parser_push_buffer heap cfg.parser bytes)
      (push_buffer-IsParser heap cfg.parser bytes h)

handle-StaysReceived :
    (heap : Heap) (line : Line) (cfg : SerialDevice) (input : Option Bytes)
    → IsParser cfg.parser
    → StaysReceived (handle_device heap line cfg input)
unfolding handle_device
handle-StaysReceived heap line cfg input h =
    if_holds StaysReceived (not cfg.ready) _ _ h (read-StaysReceived heap line cfg input h)

pub fd_handler-StaysHandled :
    (heap : Heap) (line : Line) (d : Devices) (fd : Option ℕ) (input : Option Bytes)
    → HasParsers d
    → StaysHandled (serial_fd_handler heap line d fd input)
unfolding serial_fd_handler
fd_handler-StaysHandled heap line d fd input h = elim (Option-cases (serial_get_device_fd fd d)) [
  | inl e ↦ rw (e, serial_fd_handler) h
  | inr (id, e) ↦
      rw (e, serial_fd_handler)
        (put-StaysHandled id d (handle_device heap line (serial_get_device id d) input) h
          (handle-StaysReceived heap line (serial_get_device id d) input (get-IsParser id d h)))
]

-- ---- start-up

abbrev StaysOpened : Option Opened → Type 0
StaysOpened none = Unit
StaysOpened (some o) = IsParser o.cfg.parser

abbrev pub StaysStarted : Option Started → Type 0
StaysStarted none = Unit
StaysStarted (some s) = s.ok ≡ true → HasParsers s.devices

opened-StaysOpened :
    (line : Line) (cfg : SerialDevice) (p : Option Parser)
    → Holds IsParser p
    → StaysOpened (elim p [
      | none ↦ none
      | some q ↦ some (serial_init_device line (record cfg { parser = q }))
    ])
opened-StaysOpened line cfg none h = tt
opened-StaysOpened line cfg (some q) h = rw (init_device_parser line (record cfg { parser = q })) h

start-StaysOpened :
    (heap : Heap) (line : Line) (cfg : SerialDevice)
    → StaysOpened (serial_start_device heap line cfg)
unfolding serial_start_device
start-StaysOpened heap line cfg =
    opened-StaysOpened line cfg (frame_parser_init heap) (frame_parser_init-IsParser heap)

started_accelerometer-StaysStarted :
    (d : Devices) (calls : List Call) (o : Option Opened)
    → IsParser d.motors.parser
    → StaysOpened o
    → StaysStarted (started_accelerometer d calls o)
started_accelerometer-StaysStarted d calls none h k = tt
started_accelerometer-StaysStarted d calls (some o) h k = λ e. (h, k)

started_motors-StaysStarted :
    (heap : Heap) (line : Line) (d : Devices) (o : Option Opened)
    → StaysOpened o
    → StaysStarted (started_motors heap line d o)
started_motors-StaysStarted heap line d none h = tt
started_motors-StaysStarted heap line d (some o) h = elim (Bool-cases o.ok) [
  | inl y ↦ rw y (
      started_accelerometer-StaysStarted (record d { motors = o.cfg }) o.calls _ h
        (start-StaysOpened heap line (with_path d.accelerometer)))
  | inr n ↦ rw n (λ e. absurd cc)
]

-- After a successful `serial_init` the parsers of both devices are well formed.
pub serial_init-StaysStarted :
    (heap : Heap) (motors_line accelerometer_line : Line) (d : Devices)
    → StaysStarted (serial_init heap motors_line accelerometer_line d)
unfolding serial_init
serial_init-StaysStarted heap motors_line accelerometer_line d =
    started_motors-StaysStarted heap accelerometer_line d
      (serial_start_device heap motors_line (with_path d.motors))
      (start-StaysOpened heap motors_line (with_path d.motors))
