-- ===== src/Loop/Runs.antt =====
-- Whole runs of the daemon at a concrete machine.
use koruza_driver.Prelude.{ℕ, if_holds, ◌≡◌, refl, List, [], ◌∷◌, Bool, true, false, some, none}
use koruza_driver.Frame.Escape.{frame_of}
use koruza_driver.Message.Typed.{
  message_tlv_get_reply, message_tlv_get_command, message_tlv_get_motor_position,
  message_tlv_get_encoder_value,
}
use koruza_driver.Message.{message_tlv_get}
use koruza_driver.Serial.{serial_get_device_fd}
use koruza_driver.Serial.{
  serial_init, serial_start_device, serial_init_device, open_fd, configure_fd, serial_send_message,
  serial_get_device, serial_set_message_handler, put_device, send_frame, write_loop,
}
use koruza_driver.Frame.{
  frame_parser_init, frame_message, frame_serialized, frame_loop, escape_byte,
}
use koruza_driver.Message.{message_serialize, message_serialized_size, message_tlv_add}
use koruza_driver.Message.Typed.{
  message_tlv_add_command, message_tlv_add_power_reading, message_tlv_add_checksum,
}
use koruza_driver.Koruza.Start.{start_unit}
use koruza_driver.Koruza.Leds.{koruza_update_sfp_leds}
use koruza_driver.Koruza.Sfp.{koruza_update_sfp}
use koruza_driver.Koruza.Timers.{update_connections, status_requests}
use koruza_driver.Loop.{perform_all, transmit}
use koruza_driver.Loop.Boot.{started_world}
use koruza_driver.Message.{
  message_checksum, checksum_loop, message_parse, parse_loop, entry_error, proceed, message_tlv_get,
}
use koruza_driver.Frame.{end_of_frame}
use koruza_driver.Koruza.Timers.{initial_motors, initial_coordinate, initial_range}
use koruza_driver.Message.Typed.{message_tlv_add_motor_position}
use koruza_driver.Koruza.Store.{read_motors, koruza_uci_commit}
use koruza_driver.Configuration.{uci_get_int, uci_get_string, uci_set_int, uci_set_string}
use koruza_driver.Koruza.Calibration.{
  initial_calibration, read_calibration, read_global, koruza_calibration_forward_transform,
}
use koruza_driver.Crc.{crc32, crc32_loop, crc32_step, crc32_tab}
use koruza_driver.Message.Typed.{
  message_tlv_get_reply, message_tlv_get_command, message_tlv_get_motor_position,
  message_tlv_get_encoder_value,
}
use koruza_driver.Frame.{
  frame_parser_push_buffer, frame_parser_push_byte, push_in, frame_parser_add_to_frame,
}
use koruza_driver.Serial.{serial_get_device_fd, serial_fd_handler, handle_device, read_device}
use koruza_driver.Koruza.{
  koruza_serial_motors_message_handler, handle_reply, status_report, detect_motors,
  koruza_restore_motor, take_position, save_position, take_encoder, handle_command,
}
use koruza_driver.Koruza.Sfp.Refresh.{koruza_timer_sfp_status_handler}
use koruza_driver.Koruza.Timers.{start_wait}
use koruza_driver.Loop.{step, handle_messages, handle_message, refresh_sfp, run}
use koruza_driver.Ubus.{call, ubus_get_status}
use koruza_driver.Configuration.Table.{Tables}
use koruza_driver.Gpio.{written}
use koruza_driver.Loop.Silence.{QuietSteps, here, next, silence_answered}
use koruza_driver.Koruza.Tests.{report, device, line}
use koruza_driver.Koruza.Examples.{service, untouched}
use koruza_driver.Ubus.Reply.{Add, u8_field}
use koruza_driver.Ubus.Tests.{Attribute, daemon}
use koruza_driver.Ubus.Status.{status_reply}
use koruza_driver.Ubus.{status_ok, get_status}
use koruza_driver.Loop.{
  World, Output, answered, Event, readable, status_timer, wait_timer, survey_timer, method, Ran,
  run,
}
use koruza_driver.Loop.Boot.{Surroundings, boot}
use koruza_driver.Loop.Answer.{of_motors, CanAnswer}
use koruza_driver.Loop.Tests.{machine, world}

abbrev around : Surroundings
around = record {
  service = record service { found = false };
  ws2811_init = some [];
  files = λ n. written;
  gpio = untouched;
  motors_line = record line { open_fd = some 5 };
  accelerometer_line = record line { open_fd = some 7 };
  devices = record {
    motors = record device { ready = false };
    accelerometer = record device { ready = false };
  };
  network = daemon.network;
}

-- A frame of the motors, the timers, and a method.
abbrev events : List (Event Attribute)
events =
    readable (some 5) line (some (frame_of report))
    ∷ survey_timer
    ∷ status_timer (record service { found = false })
    ∷ wait_timer
    ∷ method get_status (Attribute.number 0)
    ∷ []

abbrev returns : Ran ℕ Tables → Bool
returns none = false
returns (some r) = true

not_returned : ¬ (false ≡ true)
not_returned h = cc

abbrev returned :
    (r : Ran ℕ Tables) → returns r ≡ true → (a : World ℕ Tables × List Output) × (r ≡ some a)
returned none h = absurd (not_returned h)
returned (some a) h = (a, refl)

boot-returns : returns (boot machine around daemon.store) ≡ true
unfolding boot serial_init serial_start_device serial_init_device open_fd configure_fd
    serial_send_message serial_get_device serial_set_message_handler put_device send_frame
    write_loop frame_parser_init frame_message frame_serialized frame_loop escape_byte
    message_serialize message_serialized_size message_tlv_add message_tlv_add_command
    message_tlv_add_power_reading message_tlv_add_checksum message_checksum checksum_loop crc32
    crc32_loop crc32_step crc32_tab start_unit koruza_update_sfp_leds koruza_update_sfp
    update_connections status_requests perform_all transmit started_world
boot-returns = refl

abbrev booted : (a : World ℕ Tables × List Output) × (boot machine around (daemon.store) ≡ some a)
booted = returned (boot machine around daemon.store) boot-returns

abbrev first : World ℕ Tables
first = booted.0.0

events_return : returns (run machine events first) ≡ true
unfolding boot serial_init serial_start_device serial_init_device open_fd configure_fd
    serial_send_message serial_get_device serial_set_message_handler put_device send_frame
    write_loop frame_parser_init frame_message frame_serialized frame_loop escape_byte
    message_serialize message_serialized_size message_tlv_add message_tlv_add_command
    message_tlv_add_power_reading message_tlv_add_checksum message_checksum checksum_loop crc32
    crc32_loop crc32_step crc32_tab start_unit koruza_update_sfp_leds koruza_update_sfp
    update_connections status_requests perform_all transmit started_world message_parse parse_loop
    entry_error proceed message_tlv_get message_tlv_get_reply message_tlv_get_command
    message_tlv_get_motor_position message_tlv_get_encoder_value frame_parser_push_buffer
    frame_parser_push_byte push_in frame_parser_add_to_frame serial_get_device_fd serial_fd_handler
    handle_device read_device koruza_serial_motors_message_handler handle_reply status_report
    detect_motors koruza_restore_motor take_position save_position take_encoder handle_command
    koruza_timer_sfp_status_handler start_wait step handle_messages handle_message refresh_sfp run
    call ubus_get_status status_reply end_of_frame initial_motors message_tlv_add_motor_position
    initial_coordinate initial_range read_motors uci_get_int uci_get_string initial_calibration
    koruza_uci_commit uci_set_int uci_set_string read_calibration read_global
    koruza_calibration_forward_transform
events_return = refl

abbrev ran : (a : World ℕ Tables × List Output) × (run machine events first ≡ some a)
ran = returned (run machine events first) events_return

-- ---- silence

abbrev lit : World ℕ Tables
lit = record world {
  daemon = record daemon { led_config = record { colors = some []; brightness = 0 } };
}

step-returns : returns (step machine (status_timer (record service { found = false })) lit) ≡ true
unfolding serial_init serial_start_device serial_init_device open_fd configure_fd
    serial_send_message serial_get_device serial_set_message_handler put_device send_frame
    write_loop frame_parser_init frame_message frame_serialized frame_loop escape_byte
    message_serialize message_serialized_size message_tlv_add message_tlv_add_command
    message_tlv_add_power_reading message_tlv_add_checksum message_checksum checksum_loop crc32
    crc32_loop crc32_step crc32_tab koruza_update_sfp_leds koruza_update_sfp update_connections
    status_requests perform_all transmit step refresh_sfp koruza_timer_sfp_status_handler start_wait
step-returns = refl

abbrev requested :
    (a : World ℕ Tables × List Output) × (step machine
        (status_timer (record service { found = false }))
        lit
      ≡ some a)
requested =
    returned (step machine (status_timer (record service { found = false })) lit) step-returns

wait-returns : (w : World ℕ Tables) → returns (step machine wait_timer w) ≡ true
unfolding step
wait-returns w = if_holds (λ r. returns r ≡ true) w.daemon.controller.wait_pending _ _ refl refl

-- The survey timer fires while the reply is waited for.
abbrev surveyed : (v : World ℕ Tables) × QuietSteps machine requested.0.0 v
unfolding step
surveyed = (_, next here survey_timer tt refl)

abbrev waited : (a : World ℕ Tables × List Output) × (step machine wait_timer surveyed.0 ≡ some a)
waited = returned (step machine wait_timer surveyed.0) (wait-returns surveyed.0)

-- And again behind it.
abbrev quiet_afterwards : (v : World ℕ Tables) × QuietSteps machine waited.0.0 v
unfolding step
quiet_afterwards = (_, next here survey_timer tt refl)

afterwards-CanAnswer : CanAnswer quiet_afterwards.0
unfolding serial_init serial_start_device serial_init_device open_fd configure_fd
    serial_send_message serial_get_device serial_set_message_handler put_device send_frame
    write_loop frame_parser_init frame_message frame_serialized frame_loop escape_byte
    message_serialize message_serialized_size message_tlv_add message_tlv_add_command
    message_tlv_add_power_reading message_tlv_add_checksum message_checksum checksum_loop crc32
    crc32_loop crc32_step crc32_tab koruza_update_sfp_leds koruza_update_sfp update_connections
    status_requests perform_all transmit step refresh_sfp koruza_timer_sfp_status_handler start_wait
afterwards-CanAnswer = record {
  path = 47 ∷ [];
  interface = 119 ∷ [];
  ip_address = 49 ∷ [];
  has_path = refl;
  has_interface = refl;
  has_ip_address = refl;
}

silence_answered_example :
    (quiet_afterwards.0.daemon.controller.motors.connected ≡ false)
    × (u : World ℕ Tables) × (answer : List Add) × (step machine
          (method get_status (Attribute.number 0))
          quiet_afterwards.0
        ≡ some (u, answered status_ok answer ∷ []))
    × (of_motors "connected" answer ≡ some (u8_field 0))
silence_answered_example =
    silence_answered machine (record service { found = false }) (Attribute.number 0) lit
      requested.0.0 surveyed.0 waited.0.0 quiet_afterwards.0 requested.0.1 waited.0.1 requested.1
      surveyed.1 waited.1 quiet_afterwards.1 afterwards-CanAnswer
