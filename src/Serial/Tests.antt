-- ===== src/Serial/Tests.antt =====
-- serial.c at concrete devices.
use koruza_driver.Prelude.{
  ℕ, zero, suc, ◌≡◌, refl, List, [], ◌∷◌, ◌++◌, Bytes, true, false, Option, some, none, inl, min,
  arith,
}
use koruza_driver.Message.{Message, message_serialize, message_serialized_size}
use koruza_driver.Frame.{
  wait_start, frame_max_length, frame_message, frame_loop, frame_serialized, escape_byte,
}
use koruza_driver.Frame.Escape.{frame_of}
use koruza_driver.Serial.{
  SerialDevice, Line, device_accelerometer, serial_get_device, serial_get_device_fd, opened, closed,
  watched, unwatched, serial_init_device, open_fd, configure_fd, serial_reinit_device, write_loop,
  send_frame, sent_ok, failed, serial_send_message,
}
use koruza_driver.Serial.Send.{WriteAdvances, serial_send_message-sent, serial_send_message_failed}
use koruza_driver.Frame.{Heap}
use koruza_driver.Frame.Decode.{tokens, contents, messages}
use koruza_driver.Serial.{Devices}
use koruza_driver.Serial.Chunks.{reads, concat, reads-decode}
use koruza_driver.Serial.Descriptors.{replay, owned, reinit_closes_twice}

abbrev device : SerialDevice
device = record {
  ready = true;
  device = true;
  fd = some 5;
  parser = record { has_handler = true; state = wait_start; buffer = []; buffer_size = 1024 };
}

abbrev good_line : Line
good_line = record { open_fd = some 6; tcgetattr = true; tcsetattr = true }

-- The descriptor opens, and is no terminal.
abbrev bad_line : Line
bad_line = record { open_fd = some 6; tcgetattr = false; tcsetattr = true }

abbrev homing : Message
homing = (record { type = 1; length = 1; value = 6 ∷ [] }) ∷ []

-- Two bytes at a time.
abbrev by_two : ℕ → ℕ → Option ℕ
by_two i n = some (min 2 n)

by_two_advances : WriteAdvances by_two
by_two_advances i n = (min 2 (suc n), refl, omega arith, omega arith)

-- The first write takes three bytes, the second fails.
abbrev broken : ℕ → ℕ → Option ℕ
broken i n = elim i [ zero ↦ some 3 | suc j ↦ none ]

serial_send_message-sent_example :
    serial_send_message frame_max_length by_two (λ n. true) good_line device homing
    ≡ sent_ok (frame_of homing)
serial_send_message-sent_example =
    serial_send_message-sent by_two (λ n. true) good_line device 5 homing refl refl refl
      (omega arith) (unfold message_serialized_size in omega arith) by_two_advances

homing-broken :
    serial_send_message 10 broken (λ n. true) good_line device homing
    ≡ failed (0xf1 ∷ 1 ∷ 0 ∷ []) (serial_reinit_device good_line device)
unfolding serial_send_message send_frame write_loop frame_message frame_serialized frame_loop
    escape_byte message_serialize message_serialized_size
homing-broken = refl

serial_send_message_failed_example :
    (serial_reinit_device good_line device ≡ serial_reinit_device good_line device)
    × ((rest : Bytes) × ((0xf1 ∷ 1 ∷ 0 ∷ []) ++ rest ≡ frame_of homing))
serial_send_message_failed_example =
    serial_send_message_failed 10 broken (λ n. true) good_line device 5 homing refl refl
      (omega arith) homing-broken

reopened :
    (serial_reinit_device good_line device).calls
    ≡ unwatched 5 ∷ closed 5 ∷ opened 6 ∷ watched 6 ∷ []
unfolding serial_reinit_device serial_init_device open_fd configure_fd
reopened = refl

reinit_closes_twice_example :
    replay (owned device) (
      (serial_reinit_device bad_line device).calls
      ++ (serial_reinit_device good_line (serial_reinit_device bad_line device).cfg).calls)
    ≡ none
reinit_closes_twice_example =
    reinit_closes_twice bad_line good_line device 6 (inl refl) refl refl (inl refl)

abbrev heap : Heap
heap = record { memory = record { malloc = λ i n. true; stray = 0 }; realloc = λ n. true }

abbrev both : Devices
both = record { motors = device; accelerometer = record device { fd = some 7 } }

-- A frame in two buffers.
abbrev buffers : List Bytes
buffers = (0xf1 ∷ 1 ∷ 0 ∷ []) ∷ (1 ∷ 6 ∷ 0xf2 ∷ []) ∷ []

reads-decode_example :
    (e : Devices) × (reads heap good_line (some 7) buffers both
      ≡ some (e, messages heap (contents none (tokens false (concat buffers)))))
unfolding serial_get_device serial_get_device_fd
reads-decode_example =
    reads-decode heap good_line (some 7) device_accelerometer buffers both refl refl (λ n. refl)
      refl refl (omega arith, (omega arith, (omega arith, (omega arith, tt))))
