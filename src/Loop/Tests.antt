-- ===== src/Loop/Tests.antt =====
-- The event loop at a concrete machine.
use koruza_driver.Prelude.{ℕ, suc, ◌≡◌, refl, List, [], ◌∷◌, ◌++◌, true, some, none, inl, arith}
use koruza_driver.Frame.Escape.{frame_of}
use koruza_driver.Frame.Delivery.{IsDeliverable}
use koruza_driver.Message.Typed.{message_tlv_get_command, message_tlv_get_motor_position}
use koruza_driver.Serial.{serial_get_device_fd}
use koruza_driver.Message.Typed.{message_tlv_get_command, message_tlv_get_motor_position}
use koruza_driver.Frame.{frame_parser_push_buffer}
use koruza_driver.Serial.{serial_get_device_fd}
use koruza_driver.Loop.{step, run}
use koruza_driver.Configuration.Table.{Tables}
use koruza_driver.Koruza.Report.{reported}
use koruza_driver.Koruza.{command_move_motor}
use koruza_driver.Message.{Message, found}
use koruza_driver.Message.Format.{wire}
use koruza_driver.Message.Typed.{MotorPosition}
use koruza_driver.Frame.RoundTrip.{behind}
use koruza_driver.Serial.{device_motors}
use koruza_driver.Ubus.{Blob, move_motor}
use koruza_driver.Loop.{on_line}
use koruza_driver.Loop.Move.{move_motor-received}
use koruza_driver.Koruza.Tests.{listener, report, told, encoder, report-read, device, line}
use koruza_driver.Koruza.Examples.{half_casts}
use koruza_driver.Ubus.Reply.{Add, u32_field}
use koruza_driver.Ubus.Tests.{Attribute, platform, daemon}
use koruza_driver.Ubus.{status_ok, get_status}
use koruza_driver.Loop.{Machine, World, answered, readable, method, heap, run}
use koruza_driver.Loop.Answer.{of_motors, CanAnswer}
use koruza_driver.Loop.Report.{coordinates_saved, IsListening, IsReport, report_shown}

-- All is written at once, and a reopening succeeds.
abbrev pub machine : Machine Attribute ℕ ℕ Tables
machine = record {
  platform = platform;
  sfp_casts = half_casts;
  realloc = λ n. true;
  malloc = λ n. true;
  links = λ i. record { write = λ j n. some n; line = line };
  before = λ type. [];
}

abbrev pub world : World ℕ Tables
world = record {
  daemon = daemon;
  devices = record { motors = device; accelerometer = record device { fd = some 7 } };
  sends = 0;
}

report-IsDeliverable : IsDeliverable (heap machine) report
report-IsDeliverable = (
  omega arith,
  (λ e. absurd (omega arith), (λ e. absurd (omega arith), (λ e. absurd (omega arith), tt))),
  omega arith,
)

report-IsReport : IsReport machine world report told encoder
report-IsReport = record {
  reply = report-read.0;
  command = report-read.1;
  position = report-read.2;
  encoder = report-read.3;
}

world-IsListening : IsListening machine world report told encoder (some 5)
unfolding serial_get_device_fd
world-IsListening = record {
  motors = refl;
  ready = refl;
  start = inl (refl, refl);
  handler = refl;
  connected = refl;
}

world-CanAnswer : CanAnswer world
world-CanAnswer = record {
  path = 47 ∷ [];
  interface = 119 ∷ [];
  ip_address = 49 ∷ [];
  has_path = refl;
  has_interface = refl;
  has_ip_address = refl;
}

report_shown_example :
    (u : World ℕ Tables) × (answer : List Add) × (run machine
        (readable (some 5) line (some (frame_of report))
          ∷ method get_status (Attribute.number 0)
          ∷ [])
        world
      ≡ some (
        u,
        coordinates_saved (reported daemon.controller told encoder)
            ++ answered status_ok answer ∷ [],
      ))
    × (of_motors "x" answer ≡ some (u32_field 1))
    × (of_motors "y" answer ≡ some (u32_field 2))
    × (of_motors "z" answer ≡ some (u32_field 3))
    × (of_motors "encoder_x" answer ≡ some (u32_field 4))
    × (of_motors "encoder_y" answer ≡ some (u32_field 5))
report_shown_example =
    report_shown machine world report told encoder (some 5) line (Attribute.number 0)
      (λ i n. refl, λ n. refl) report-IsDeliverable world-IsListening report-IsReport
      world-CanAnswer

-- Every message has the attributes 1000, 2 and 3.
abbrev blob : Blob Attribute
blob = record {
  blobmsg_parse = λ policy msg.
      some (Attribute.number 1000) ∷ some (Attribute.number 2) ∷ some (Attribute.number 3) ∷ [];
  blobmsg_get_u8 = platform.blob.blobmsg_get_u8;
  blobmsg_get_u32 = platform.blob.blobmsg_get_u32;
  is_int32 = platform.blob.is_int32;
  elements = platform.blob.elements;
}

abbrev moving : Machine Attribute ℕ ℕ Tables
moving = record machine { platform = record platform { blob = blob } }

abbrev target : MotorPosition
target = record { x = 1000; y = 2; z = 3 }

move_motor-received_example :
    (c : Message) × (step moving (method move_motor (Attribute.number 0)) world
      ≡ some (
        record world { sends = 1 },
        on_line device_motors (frame_of c) ∷ answered status_ok [] ∷ [],
      ))
    × (frame_parser_push_buffer (heap machine) listener (frame_of c)
        ≡ some (behind listener (wire c), c ∷ []))
    × (message_tlv_get_command c [] ≡ found command_move_motor)
    × (message_tlv_get_motor_position c [] ≡ found target)
move_motor-received_example =
    move_motor-received moving world (Attribute.number 0) target (heap machine) listener []
      (record {
        x = Attribute.number 1000;
        y = Attribute.number 2;
        z = Attribute.number 3;
        has_x = refl;
        has_y = refl;
        has_z = refl;
        position = refl;
      })
      (omega arith, omega arith, omega arith)
      (record {
        allocates = λ i n. refl;
        frames = refl;
        connected = refl;
        ready = refl;
        descriptor = 5;
        opened = refl;
        advances = λ i n. (suc n, refl, omega arith, omega arith);
      })
      (record { allocates = (λ i n. refl, λ n. refl); start = inl (refl, refl); handler = refl })

-- The world without an address.
abbrev unaddressed : World ℕ Tables
unaddressed = record world {
  daemon = record daemon { network = record (daemon.network) { ip_address = none } };
}
