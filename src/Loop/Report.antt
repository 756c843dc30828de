-- ===== src/Loop/Report.antt =====
-- From a frame on the line of the motors to the answer of `get_status`.
use koruza_driver.Prelude.{
  ℕ, ◌≡◌, refl, ap, ◌∙◌, List, [], ◌∷◌, ◌++◌, append-nil, true, ◌&&◌, Option, some, if◌then◌else◌,
  signed32, Bool-cases, inl, inr,
}
use koruza_driver.Message.{
  Message, Memory, found, not_found, tlv_reply, tlv_command, tlv_motor_position, tlv_encoder_value,
}
use koruza_driver.Message.Typed.{
  MotorPosition, EncoderValue, message_tlv_get_reply, message_tlv_get_command,
  message_tlv_get_motor_position, message_tlv_get_encoder_value,
}
use koruza_driver.Frame.{Parser}
use koruza_driver.Frame.Delivery.{HasMemory, IsDeliverable, deliver_one}
use koruza_driver.Frame.RoundTrip.{CanStart, behind}
use koruza_driver.Message.Format.{wire}
use koruza_driver.Frame.Escape.{frame_of}
use koruza_driver.Serial.{
  Line, device_motors, serial_get_device, serial_get_device_fd, pushed_device, put_received,
  serial_fd_handler,
}
use koruza_driver.Serial.Chunks.{handler_pushes, with_parser}
use koruza_driver.Koruza.{
  Controller, Effect, last_x, last_y, reply_status_report, in_range, save_position,
  koruza_serial_motors_message_handler,
}
use koruza_driver.Koruza.Store.{key_location, koruza_uci_commit}
use koruza_driver.Configuration.{uci_set_int}
use koruza_driver.Koruza.Report.{reported, restoring, status_report-restores}
use koruza_driver.Ubus.Reply.{u32_field, Add}
use koruza_driver.Ubus.Status.{status_adds}
use koruza_driver.Ubus.{get_status, status_ok}
use koruza_driver.Loop.{
  Machine, World, Output, saved, answered, output_before, and_run, readable, method, memory, heap,
  with_store, perform_all, with_controller, controlled, handle_message, handle_messages, delivered,
  step, run,
}
use koruza_driver.Loop.Answer.{of_motors, CanAnswer, status_answered}

-- The coordinates that are saved of a position.
abbrev pub coordinates_saved : Controller → List Output
coordinates_saved c =
    if in_range c.motors.x c.motors.range_x && in_range c.motors.y c.motors.range_y
    then saved last_x (signed32 c.motors.x) ∷ saved last_y (signed32 c.motors.y) ∷ []
    else []

module _ {B F D S : Type 0} (m : Machine B F D S) where
  perform_all-save_position :
      (c : Controller) (w : World F S)
      → (s : S) × (perform_all m (save_position c) w ≡ some (with_store m s w, coordinates_saved c))
  unfolding perform_all save_position
  perform_all-save_position c w =
      elim (Bool-cases
        (in_range c.motors.x c.motors.range_x && in_range c.motors.y c.motors.range_y)) [
          | inl inside_both ↦ (
            (koruza_uci_commit m.platform.uci (
                uci_set_int m.platform.uci
                  (uci_set_int m.platform.uci w.daemon.store (key_location last_x)
                    (signed32 c.motors.x))
                  (key_location last_y) (signed32 c.motors.y))).1,
            rw inside_both refl,
          )
          | inr outside ↦ (w.daemon.store, rw outside refl)
        ]

  -- ---- the report

  restoring_nothing :
      (mem : Memory) (c : Controller) → c.motors.connected ≡ true → restoring mem c ≡ []
  restoring_nothing mem c h = rw h refl

  -- The state with the motors' report taken in, and another parser.
  abbrev taken : Parser → World F S → MotorPosition → EncoderValue → World F S
  taken q w p v =
      with_controller m (record w { devices = with_parser device_motors q w.devices })
        (reported w.daemon.controller p v)

  module _ (w : World F S) (message : Message) (p : MotorPosition) (v : EncoderValue) where
    -- The message is a status report with a position and an encoder value, and no command.
    pub record IsReport : Type 0 where
      pub reply : message_tlv_get_reply message (m.before tlv_reply) ≡ found reply_status_report
      pub command : message_tlv_get_command message (m.before tlv_command) ≡ not_found
      pub position : message_tlv_get_motor_position message (m.before tlv_motor_position) ≡ found p
      pub encoder : message_tlv_get_encoder_value message (m.before tlv_encoder_value) ≡ found v

    -- The motors count as connected, and the parser of their device, which is open, can start.
    pub record IsListening (fd : Option ℕ) : Type 0 where
      pub motors : serial_get_device_fd fd w.devices ≡ some device_motors
      pub ready : w.devices.motors.ready ≡ true
      pub start : CanStart w.devices.motors.parser
      pub handler : w.devices.motors.parser.has_handler ≡ true
      pub connected : w.daemon.controller.motors.connected ≡ true

    report_run :
        IsReport
        → w.daemon.controller.motors.connected ≡ true
        → koruza_serial_motors_message_handler (memory m) m.before message w.daemon.controller
          ≡ some
              (reported w.daemon.controller p v, save_position (reported w.daemon.controller p v))
    report_run r c =
        status_report-restores (memory m) m.before message w.daemon.controller p v r.reply r.command
          r.position r.encoder
        ∙ ap
            (λ (es : List Effect). some (
              reported w.daemon.controller p v,
              es ++ save_position (reported w.daemon.controller p v),
            ))
            (restoring_nothing (memory m) w.daemon.controller c)

    -- The frame of the report in one buffer.
    frame_read :
        (fd : Option ℕ) (line : Line)
        → HasMemory (heap m)
        → IsDeliverable (heap m) message
        → IsListening fd
        → IsReport
        → (s : S) × (step m (readable fd line (some (frame_of message))) w
            ≡ some (
              with_store m s (taken (behind w.devices.motors.parser (wire message)) w p v),
              coordinates_saved (reported w.daemon.controller p v),
            ))
    unfolding step serial_get_device handle_messages handle_message
    frame_read fd line a d l r =
        let q = behind w.devices.motors.parser (wire message) in
        let c = reported w.daemon.controller p v in
        let (s, e) = perform_all-save_position c (taken q w p v) in
        (
          s,
          ap
                (λ id.
                  delivered m id w
                    (serial_fd_handler (heap m) line w.devices fd (some (frame_of message))))
                l.motors
              ∙ ap (delivered m (some device_motors) w) (
                  handler_pushes (heap m) line fd device_motors w.devices (frame_of message)
                    l.motors l.ready
                  ∙ ap
                      (λ k. put_received device_motors w.devices (pushed_device w.devices.motors k))
                      (deliver_one (heap m) w.devices.motors.parser message a l.start l.handler d))
              ∙ ap
                  (λ k.
                    and_run
                      (controlled m (record w { devices = with_parser device_motors q w.devices })
                        k)
                      (handle_messages m device_motors []))
                  (report_run r l.connected)
              ∙ ap (λ k. and_run k (handle_messages m device_motors [])) e
              ∙ rw append-nil refl,
        )

    -- Where the motors count as connected, their device is open and ready and its parser can start
    -- and has a handler, memory suffices, the path of the webcam and the interface and the address of
    -- the network are there, and the frame of a deliverable status report with a position and an
    -- encoder value, and no command, arrives in one buffer: the daemon does not abort, it saves the
    -- two coordinates if both are in range, and a call of `get_status` after it does not crash and
    -- answers with the three coordinates and the two encoder values of that report.
    pub report_shown :
        (fd : Option ℕ) (line : Line) (b : B)
        → HasMemory (heap m)
        → IsDeliverable (heap m) message
        → IsListening fd
        → IsReport
        → CanAnswer w
        → (u : World F S) × (answer : List Add) × (run m
              (readable fd line (some (frame_of message)) ∷ method get_status b ∷ [])
              w
            ≡ some (
              u,
              coordinates_saved (reported w.daemon.controller p v)
                  ++ answered status_ok answer ∷ [],
            ))
          × (of_motors "x" answer ≡ some (u32_field p.x))
          × (of_motors "y" answer ≡ some (u32_field p.y))
          × (of_motors "z" answer ≡ some (u32_field p.z))
          × (of_motors "encoder_x" answer ≡ some (u32_field v.x))
          × (of_motors "encoder_y" answer ≡ some (u32_field v.y))
    unfolding run status_adds
    report_shown fd line b a d l r c =
        let (s, e) = frame_read fd line a d l r in
        let after = with_store m s (taken (behind w.devices.motors.parser (wire message)) w p v) in
        let (u, d, path, interface, ip_address, o, same) = status_answered m b after c in
        let of_report = λ (f : Controller → ℕ). ap (λ c. some (u32_field (f c))) same in
        (
          u,
          status_adds m.platform.print_float d path interface ip_address,
          ap (λ k. and_run k (run m (method get_status b ∷ []))) e
              ∙ ap
                  (λ k.
                    output_before (coordinates_saved (reported w.daemon.controller p v))
                      (and_run k (run m [])))
                  o,
          of_report (λ c. c.motors.x),
          of_report (λ c. c.motors.y),
          of_report (λ c. c.motors.z),
          of_report (λ c. c.motors.encoder_x),
          of_report (λ c. c.motors.encoder_y),
        )
