-- ===== src/Loop/Move.antt =====
-- From a call of `move_motor` on the bus to the parser at the other end of the line.
use koruza_driver.Prelude.{ℕ, suc, ◌≡◌, ap, ◌∙◌, [], ◌∷◌, true, some, Bytes}
use koruza_driver.Message.{Message, found}
use koruza_driver.Message.Entry.{MallocSucceeds}
use koruza_driver.Message.Format.{wire}
use koruza_driver.Message.Lookup.{IsWord}
use koruza_driver.Message.Typed.{
  MotorPosition, message_tlv_get_command, message_tlv_get_motor_position,
}
use koruza_driver.Frame.{Parser, Heap, frame_parser_push_buffer}
use koruza_driver.Frame.Escape.{frame_of}
use koruza_driver.Frame.RoundTrip.{CanStart, behind}
use koruza_driver.Frame.Delivery.{HasMemory}
use koruza_driver.Serial.{device_motors, serial_get_device}
use koruza_driver.Serial.Send.{WriteAdvances}
use koruza_driver.Koruza.{sent, command_move_motor, koruza_move_motor}
use koruza_driver.Prelude.{sym}
use koruza_driver.Koruza.Commands.{koruza_move_motor-received}
use koruza_driver.Ubus.{
  Outcome, commanded, parsed, koruza_motor_policy, ubus_move_motor, move_motor, call, status_ok,
}
use koruza_driver.Loop.{
  Machine, World, on_line, answered, method, memory, transmitted, transmit, ignore_result,
  perform_all, and_run, replied, step,
}

module _ {B F D S : Type 0} (m : Machine B F D S) (w : World F S) where
  -- The position that a message asks for.
  pub record Asks (msg : B) (p : MotorPosition) : Type 0 where
    pub x : B
    pub y : B
    pub z : B
    pub has_x : parsed m.platform koruza_motor_policy msg 0 ≡ some x
    pub has_y : parsed m.platform koruza_motor_policy msg 1 ≡ some y
    pub has_z : parsed m.platform koruza_motor_policy msg 2 ≡ some z
    pub position : p ≡ record {
      x = m.platform.blob.blobmsg_get_u32 x;
      y = m.platform.blob.blobmsg_get_u32 y;
      z = m.platform.blob.blobmsg_get_u32 z;
    }

  -- The motors count as connected, their device is ready and open, and what the system answers to
  -- the next sending lets it succeed.
  pub record CanSend : Type 0 where
    pub allocates : MallocSucceeds (memory m)
    pub frames : m.malloc 26 ≡ true
    pub connected : w.daemon.controller.motors.connected ≡ true
    pub ready : w.devices.motors.ready ≡ true
    pub descriptor : ℕ
    pub opened : w.devices.motors.fd ≡ some descriptor
    pub advances : WriteAdvances (m.links w.sends).write

  -- The parser at the other end of the line.
  pub record CanReceive (heap : Heap) (q : Parser) : Type 0 where
    pub allocates : HasMemory heap
    pub start : CanStart q
    pub handler : q.has_handler ≡ true

  sent_replied :
      (o : Outcome F S) (c : Message)
      → o ≡ commanded w.daemon (true, sent device_motors c ∷ [])
      → transmit m device_motors c w
        ≡ some (true, record w { sends = suc w.sends }, on_line device_motors (frame_of c) ∷ [])
      → replied m w (some o)
        ≡ some (
          record w { sends = suc w.sends },
          on_line device_motors (frame_of c) ∷ answered status_ok [] ∷ [],
        )
  unfolding perform_all
  sent_replied o c e t =
      ap (λ r. replied m w (some r)) e
      ∙ ap
          (λ r.
            and_run (and_run (ignore_result m r) (perform_all m []))
              (λ v. some (v, answered status_ok [] ∷ [])))
          t

  -- Where the motors count as connected, their device is ready and open, memory suffices and each
  -- write of the next sending advances: a call of `move_motor` with three 32-bit coordinates
  -- answers that it is done and changes nothing else of the state, and puts one frame on the line
  -- of the motors. A parser that can start at the other end hands over a message from it in which
  -- `message_tlv_get_command` finds the command to move and `message_tlv_get_motor_position` the
  -- coordinates of the call.
  pub move_motor-received :
      (msg : B) (p : MotorPosition) (peer : Heap) (q : Parser) (before : Bytes)
      → Asks msg p
      → IsWord p.x × IsWord p.y × IsWord p.z
      → CanSend
      → CanReceive peer q
      → (c : Message) × (step m (method move_motor msg) w
          ≡ some (
            record w { sends = suc w.sends },
            on_line device_motors (frame_of c) ∷ answered status_ok [] ∷ [],
          ))
        × (frame_parser_push_buffer peer q (frame_of c) ≡ some (behind q (wire c), c ∷ []))
        × (message_tlv_get_command c before ≡ found command_move_motor)
        × (message_tlv_get_motor_position c before ≡ found p)
  unfolding step call ubus_move_motor transmit serial_get_device
  move_motor-received msg p peer q before a b s r =
      let link = m.links w.sends in
      let (c, e, o, pushed, told, position) =
        koruza_move_motor-received (memory m) w.daemon.controller p link.write m.malloc link.line
          w.devices.motors s.descriptor peer q before s.allocates s.connected b s.ready s.opened
          s.frames s.advances r.allocates r.start r.handler in
      (
        c,
        sent_replied (ubus_move_motor m.platform w.daemon msg) c
            (rw (a.has_x, a.has_y, a.has_z)
              (ap (commanded w.daemon) (
                ap
                  (λ (k : MotorPosition).
                    koruza_move_motor (memory m) w.daemon.controller k.x k.y k.z)
                  (sym a.position)
                ∙ e)))
            (ap (transmitted m device_motors w) o),
        pushed,
        told,
        position,
      )
