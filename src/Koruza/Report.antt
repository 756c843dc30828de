-- ===== src/Koruza/Report.antt =====
-- What a status report does, and a reply or command that is too long.
use koruza_driver.Prelude.{
  ℕ, ◌<◌, ◌≡◌, ◌≢◌, refl, ap, ◌∙◌, List, [], ◌∷◌, ◌++◌, append-nil, true, false, Option, some, none,
  if◌then◌else◌, Bytes, Bool-cases, inl, inr, ◌⊎◌, arith,
}
use koruza_driver.Message.Format.{IsTlv, wire}
use koruza_driver.Message.Entry.{MallocSucceeds}
use koruza_driver.Message.Sealed.{parse-wire}
use koruza_driver.Message.{
  tlv_checksum, Tlv, Message, Memory, found, not_found, assert_failed, tlv_reply, tlv_command,
  tlv_motor_position, tlv_encoder_value, message_tlv_get, message_parse, success,
}
use koruza_driver.Message.Typed.{
  MotorPosition, EncoderValue, message_tlv_get_reply, message_tlv_get_command,
  message_tlv_get_motor_position, message_tlv_get_encoder_value,
}
use koruza_driver.Serial.{device_motors}
use koruza_driver.Koruza.{
  Controller, Effect, sent, Run, run_then, detect_motors, save_position, position_message,
  stored_position, take_position, take_encoder, status_report, handle_reply, handle_command,
  or_zero, dispatch, koruza_restore_motor, reply_status_report, command_restore_motor,
  koruza_serial_motors_message_handler,
}

-- The controller after a status report.
abbrev pub reported : Controller → MotorPosition → EncoderValue → Controller
reported c p v = record c {
  wait_pending = false;
  motors = record (c.motors) {
    connected = true;
    x = p.x;
    y = p.y;
    z = p.z;
    encoder_x = v.x;
    encoder_y = v.y;
  };
}

-- What is sent on a status report: the position that was stored before it, if the motors were
-- not connected.
abbrev pub restoring : Memory → Controller → List Effect
restoring mem c =
    if c.motors.connected
    then []
    else sent device_motors (position_message mem command_restore_motor (stored_position c)) ∷ []

status_report_lem :
    (mem : Memory) (before : ℕ → Bytes) (m : Message) (c : Controller) (p : MotorPosition)
    (v : EncoderValue)
    → message_tlv_get_motor_position m (before tlv_motor_position) ≡ found p
    → message_tlv_get_encoder_value m (before tlv_encoder_value) ≡ found v
    → status_report mem before m c
      ≡ some (reported c p v, restoring mem c ++ save_position (reported c p v))
unfolding status_report detect_motors take_position take_encoder koruza_restore_motor save_position
status_report_lem mem before m c p v e o = elim (Bool-cases c.motors.connected) [
  | inl y ↦ rw (e, o, y, append-nil) refl
  | inr n ↦ rw (e, o, n, append-nil) refl
]

-- A status report that carries a position and an encoder value, and no command, stops the wait for
-- a reply and sets the connection, the position and the encoder value. If the motors were not
-- connected, the position that was stored before the report is sent to be restored; after that
-- comes what `save_position` does with the reported position.
pub status_report-restores :
    (mem : Memory) (before : ℕ → Bytes) (m : Message) (c : Controller) (p : MotorPosition)
    (v : EncoderValue)
    → message_tlv_get_reply m (before tlv_reply) ≡ found reply_status_report
    → message_tlv_get_command m (before tlv_command) ≡ not_found
    → message_tlv_get_motor_position m (before tlv_motor_position) ≡ found p
    → message_tlv_get_encoder_value m (before tlv_encoder_value) ≡ found v
    → koruza_serial_motors_message_handler mem before m c
      ≡ some (reported c p v, restoring mem c ++ save_position (reported c p v))
unfolding koruza_serial_motors_message_handler handle_reply handle_command
status_report-restores mem before m c p v r k e o =
    rw (r, k)
      (ap (λ (q : Run). run_then q (λ d. some (d, []))) (status_report_lem mem before m c p v e o)
        ∙ rw append-nil refl)

long_get :
    (m : Message) (t : Tlv) (type size : ℕ) (before : Bytes)
    → t.type ≡ type
    → size < t.length
    → message_tlv_get (t ∷ m) type before size ≡ assert_failed
unfolding message_tlv_get
long_get m t type size before e h = ground (arith, e, h)

dispatch_aborted :
    (mem : Memory) (before : ℕ → Bytes) (m : Message) (c : Controller) (reply : Option ℕ)
    → dispatch mem before m c reply none ≡ none
dispatch_aborted mem before m c none = refl
dispatch_aborted mem before m c (some reply) = refl

-- The reader of replies or of commands makes the handler abort.
reply_aborts :
    (mem : Memory) (before : ℕ → Bytes) (c : Controller) (t : Tlv) (m : Message)
    → t.type ≡ tlv_reply
    → 1 < t.length
    → koruza_serial_motors_message_handler mem before (t ∷ m) c ≡ none
unfolding koruza_serial_motors_message_handler message_tlv_get_reply
reply_aborts mem before c t m e h = rw (long_get m t tlv_reply 1 (before tlv_reply) e h) refl

command_aborts :
    (mem : Memory) (before : ℕ → Bytes) (c : Controller) (t : Tlv) (m : Message)
    → t.type ≡ tlv_command
    → 1 < t.length
    → koruza_serial_motors_message_handler mem before (t ∷ m) c ≡ none
unfolding koruza_serial_motors_message_handler message_tlv_get_command
command_aborts mem before c t m e h = rw (long_get m t tlv_command 1 (before tlv_command) e h) (
    dispatch_aborted mem before (t ∷ m) c
      (or_zero (message_tlv_get_reply (t ∷ m) (before tlv_reply))))

-- Neither type is that of a checksum.
type_passes : (type : ℕ) → (type ≡ tlv_reply) ⊎ (type ≡ tlv_command) → type ≢ tlv_checksum
type_passes type (inl e) c = absurd (omega (arith, e, c))
type_passes type (inr e) c = absurd (omega (arith, e, c))

-- A message that begins with a well-formed reply or command of more than one byte, of whatever
-- length, makes the handler of motor messages abort, whatever follows and whatever the state. If
-- allocations succeed, `message_parse` accepts the bytes of such an entry as a message.
pub long_reply_aborts :
    (mem : Memory) (before : ℕ → Bytes) (c : Controller) (t : Tlv)
    → (t.type ≡ tlv_reply) ⊎ (t.type ≡ tlv_command)
    → 1 < t.length
    → IsTlv t
    → MallocSucceeds mem
    → (message_parse mem (wire (t ∷ [])) ≡ (success, t ∷ []))
      × ((m : Message) → koruza_serial_motors_message_handler mem before (t ∷ m) c ≡ none)
long_reply_aborts mem before c t k h i a = (
  parse-wire mem (t ∷ []) a (omega arith, (i, tt)) ((λ e. absurd (type_passes t.type k e)), tt),
  λ m. elim k [
    | inl e ↦ reply_aborts mem before c t m e h
    | inr e ↦ command_aborts mem before c t m e h
  ],
)
