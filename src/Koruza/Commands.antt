-- ===== src/Koruza/Commands.antt =====
-- The messages that the driver sends to the motor controller, from the call of a command to what
-- a frame parser at the other end reads out of the line.
use koruza_driver.Prelude.{
  ℕ, ◌≡◌, refl, ap, ◌∙◌, [], ◌∷◌, ◌++◌, Bool, true, Option, some, Bytes, u8, word32-be32, length,
  arith,
}
use koruza_driver.Message.{
  Tlv, Message, Memory, found, tlv_command, tlv_checksum, tlv_motor_position, message_checksum,
  message_tlv_add, message_tlv_get, message_init,
}
use koruza_driver.Message.Typed.{
  MotorPosition, motor_position_bytes, message_tlv_add_command, message_tlv_add_motor_position,
  message_tlv_add_checksum, message_tlv_get_command, message_tlv_get_motor_position,
}
use koruza_driver.Message.Format.{IsMessage, wire, message_serialized_size-wire}
use koruza_driver.Message.Entry.{MallocSucceeds}
use koruza_driver.Message.Invariant.{new_tlv}
use koruza_driver.Message.Lookup.{IsWord}
use koruza_driver.Message.Sealed.{checksum-IsTlv, checksum-passes}
use koruza_driver.Frame.{Parser, Heap, frame_parser_push_buffer, frame_max_length}
use koruza_driver.Frame.Escape.{frame_of}
use koruza_driver.Frame.RoundTrip.{CanStart, behind}
use koruza_driver.Frame.Delivery.{HasMemory, IsDeliverable, deliver_one}
use koruza_driver.Serial.{device_motors, SerialDevice, Line, sent_ok, serial_send_message}
use koruza_driver.Serial.Send.{WriteAdvances, serial_send_message-sent}
use koruza_driver.Koruza.{Controller, sent, position_message, koruza_move_motor, command_move_motor}

-- The entries in front of the checksum.
abbrev unsealed : ℕ → MotorPosition → Message
unsealed command p =
    new_tlv tlv_command 1 (u8 command ∷ [])
    ∷ new_tlv tlv_motor_position 12 (motor_position_bytes p)
    ∷ []

unsealed_built :
    (mem : Memory) (command : ℕ) (p : MotorPosition)
    → MallocSucceeds mem
    → (message_tlv_add_motor_position mem (message_tlv_add_command mem message_init command).1 p).1
      ≡ unsealed command p
unfolding message_tlv_add_motor_position message_tlv_add_command message_tlv_add
unsealed_built mem command p a = rw (a 0 1, a 1 12) refl

abbrev checksum_entry : Message → Tlv
checksum_entry m = new_tlv tlv_checksum 4 (message_checksum m)

-- With memory, a position message is the command, the position and the checksum.
pub position_message_lem :
    (mem : Memory) (command : ℕ) (p : MotorPosition)
    → MallocSucceeds mem
    → position_message mem command p
      ≡ unsealed command p ++ checksum_entry (unsealed command p) ∷ []
position_message_lem mem command p a =
    ap (λ (m : Message). (message_tlv_add_checksum mem m).1) (unsealed_built mem command p a)
    ∙ sealed
  where
    sealed :
        (message_tlv_add_checksum mem (unsealed command p)).1
        ≡ unsealed command p ++ checksum_entry (unsealed command p) ∷ []
    sealed = unfold message_tlv_add_checksum message_tlv_add in rw (a 2 4) refl

unsealed-IsMessage : (command : ℕ) (p : MotorPosition) → IsMessage (unsealed command p)
unsealed-IsMessage command p = (omega arith, (omega arith, (omega arith, tt)))

length-wire-position :
    (command : ℕ) (p : MotorPosition)
    → length (wire (unsealed command p ++ checksum_entry (unsealed command p) ∷ [])) ≡ 26
unfolding message_checksum
length-wire-position command p = refl

length-position_message :
    (mem : Memory) (command : ℕ) (p : MotorPosition)
    → MallocSucceeds mem
    → length (wire (position_message mem command p)) ≡ 26
length-position_message mem command p a =
    ap (λ (m : Message). length (wire m)) (position_message_lem mem command p a)
    ∙ length-wire-position command p

position-IsDeliverable :
    (heap : Heap) (mem : Memory) (command : ℕ) (p : MotorPosition)
    → MallocSucceeds mem
    → IsDeliverable heap (position_message mem command p)
position-IsDeliverable heap mem command p a = rw (position_message_lem mem command p a) (
  (omega arith, (omega arith, (omega arith, (checksum-IsTlv (unsealed command p), tt)))),
  (
    (λ e. absurd (omega arith)),
    ((λ e. absurd (omega arith)), ((λ _. checksum-passes heap.memory (unsealed command p)), tt)),
  ),
  omega (arith, length-wire-position command p),
)

-- What the reader of a position message finds.
pub position_message-read :
    (mem : Memory) (command : ℕ) (p : MotorPosition) (before : Bytes)
    → MallocSucceeds mem
    → IsWord p.x × IsWord p.y × IsWord p.z
    → (message_tlv_get_command (position_message mem command p) before ≡ found (u8 command))
      × (message_tlv_get_motor_position (position_message mem command p) before ≡ found p)
unfolding message_tlv_get_command message_tlv_get_motor_position message_tlv_get message_checksum
position_message-read mem command p before a w = rw (position_message_lem mem command p a) (
  refl,
  λ i.
      found (record {
        x = word32-be32 p.x w.0 i;
        y = word32-be32 p.y w.1 i;
        z = word32-be32 p.z w.2 i;
      }),
)

-- With memory on both sides, a connected controller, a motor device that is ready and open, and a
-- line whose writes advance: moving the motors to 32-bit coordinates sends one message, its frame
-- reaches the line whole, and a frame parser that can start hands over a message in which
-- `message_tlv_get_command` finds the command to move and `message_tlv_get_motor_position` the
-- coordinates.
pub koruza_move_motor-received :
    (mem : Memory) (c : Controller) (p : MotorPosition) (write : ℕ → ℕ → Option ℕ)
    (malloc : ℕ → Bool) (line : Line) (cfg : SerialDevice) (n : ℕ) (heap : Heap) (q : Parser)
    (before : Bytes)
    → MallocSucceeds mem
    → c.motors.connected ≡ true
    → IsWord p.x × IsWord p.y × IsWord p.z
    → cfg.ready ≡ true
    → cfg.fd ≡ some n
    → malloc 26 ≡ true
    → WriteAdvances write
    → HasMemory heap
    → CanStart q
    → q.has_handler ≡ true
    → (m : Message) × (koruza_move_motor mem c p.x p.y p.z ≡ (true, sent device_motors m ∷ []))
      × (serial_send_message frame_max_length write malloc line cfg m ≡ sent_ok (frame_of m))
      × (frame_parser_push_buffer heap q (frame_of m) ≡ some (behind q (wire m), m ∷ []))
      × (message_tlv_get_command m before ≡ found command_move_motor)
      × (message_tlv_get_motor_position m before ≡ found p)
unfolding koruza_move_motor
koruza_move_motor-received mem c p write malloc line cfg n heap q before a k w r o s adv hm st hd =
    let m = position_message mem command_move_motor p in
    let (told, moved) = position_message-read mem command_move_motor p before a w in
    let d = position-IsDeliverable heap mem command_move_motor p a in
    let whole = length-position_message mem command_move_motor p a in
    (
      m,
      rw k refl,
      serial_send_message-sent write malloc line cfg n m r o (ap malloc whole ∙ s) d.0.1
          (omega (arith, message_serialized_size-wire m d.0.1, whole)) adv,
      deliver_one heap q m hm st hd d,
      told,
      moved,
    )
