-- ===== src/Serial/Chunks.antt =====
-- How `read` cuts the stream of a line into buffers, and what serial.c makes of it.
use koruza_driver.Prelude.{
  ℕ, ◌≡◌, refl, sym, ap, ◌∙◌, List, [], ◌∷◌, ◌++◌, Bytes, true, Option, some, none,
}
use koruza_driver.Message.{Message}
use koruza_driver.Frame.{Parser, Heap, Pushed, prepend, and_then, frame_parser_push_buffer}
use koruza_driver.Frame.Content.{ReallocSucceeds}
use koruza_driver.Frame.Invariant.{IsIdle}
use koruza_driver.Frame.Delivery.{push_buffer-append}
use koruza_driver.Frame.Decode.{
  tokens, contents, messages, IsShort, opened, escapes, push_buffer-decode,
}
use koruza_driver.Serial.{
  DeviceId, device_motors, device_accelerometer, SerialDevice, Devices, Call, Line,
  serial_get_device, put_device, serial_get_device_fd, pushed_device, put_received, read_device,
  handle_device, serial_fd_handler,
}

abbrev pub concat : List Bytes → Bytes
concat [] = []
concat (c ∷ cs) = c ++ concat cs

abbrev pub Reads : Type 0
Reads = Option (Devices × List Message)

abbrev pub and_read : List Message → Reads → Reads
and_read ms none = none
and_read ms (some (d, ns)) = some (d, ms ++ ns)

abbrev pub then_read : (Devices → Reads) → Option (Devices × List Message × List Call) → Reads
then_read k none = none
then_read k (some (d, ms, calls)) = and_read ms (k d)

-- The event loop reports a descriptor as often as there are buffers to read: the devices
-- afterwards and the messages handed over; `none` is an abort.
unfoldable pub reads : Heap → Line → Option ℕ → List Bytes → Devices → Reads
reads heap line fd [] d = some (d, [])
reads heap line fd (c ∷ cs) d =
    then_read (reads heap line fd cs) (serial_fd_handler heap line d fd (some c))

-- A device with another parser.
abbrev pub with_parser : DeviceId → Parser → Devices → Devices
with_parser id q d = put_device id (record (serial_get_device id d) { parser = q }) d

abbrev parser_of : DeviceId → Devices → Parser
parser_of id d = (serial_get_device id d).parser

-- ---- replacing a parser

get-with_parser :
    (id : DeviceId) (q : Parser) (d : Devices)
    → serial_get_device id (with_parser id q d) ≡ record (serial_get_device id d) { parser = q }
unfolding serial_get_device put_device
get-with_parser device_motors q d = refl
get-with_parser device_accelerometer q d = refl

fd-with_parser :
    (id : DeviceId) (q : Parser) (d : Devices) (fd : Option ℕ)
    → serial_get_device_fd fd (with_parser id q d) ≡ serial_get_device_fd fd d
unfolding serial_get_device put_device serial_get_device_fd
fd-with_parser device_motors q d fd = refl
fd-with_parser device_accelerometer q d fd = refl

with_parser_twice :
    (id : DeviceId) (q r : Parser) (d : Devices)
    → with_parser id r (with_parser id q d) ≡ with_parser id r d
unfolding serial_get_device put_device
with_parser_twice device_motors q r d = refl
with_parser_twice device_accelerometer q r d = refl

with_parser_same : (id : DeviceId) (d : Devices) → with_parser id (parser_of id d) d ≡ d
unfolding serial_get_device put_device
with_parser_same device_motors d = refl
with_parser_same device_accelerometer d = refl

-- ---- one buffer, and all of them

-- The result of a push, as a change of the devices.
abbrev pushed_to : DeviceId → Devices → Pushed → Reads
pushed_to id d none = none
pushed_to id d (some (q, ms)) = some (with_parser id q d, ms)

pushed_to-with_parser :
    (id : DeviceId) (q : Parser) (d : Devices) (ms : List Message) (r : Pushed)
    → and_read ms (pushed_to id (with_parser id q d) r) ≡ pushed_to id d (prepend ms r)
pushed_to-with_parser id q d ms none = refl
pushed_to-with_parser id q d ms (some (o, ns)) =
    ap (λ e. some (e, ms ++ ns)) (with_parser_twice id q o d)

-- Where each later push is a change of the devices, so is one push and then a later one.
then_read-pushed :
    (id : DeviceId) (d : Devices) (k : Devices → Reads) (l : Parser → Pushed)
    → ((q : Parser) → k (with_parser id q d) ≡ pushed_to id (with_parser id q d) (l q))
    → (r : Pushed)
    → then_read k (put_received id d (pushed_device (serial_get_device id d) r))
      ≡ pushed_to id d (and_then r l)
then_read-pushed id d k l h none = refl
then_read-pushed id d k l h (some (q, ms)) =
    ap (and_read ms) (h q) ∙ pushed_to-with_parser id q d ms (l q)

module _ (heap : Heap) (line : Line) (fd : Option ℕ) (id : DeviceId) where
  pub handler_pushes :
      (d : Devices) (c : Bytes)
      → serial_get_device_fd fd d ≡ some id
      → (serial_get_device id d).ready ≡ true
      → serial_fd_handler heap line d fd (some c)
        ≡ put_received id d (
            pushed_device
              (serial_get_device id d)
              (frame_parser_push_buffer heap (parser_of id d) c))
  unfolding serial_fd_handler handle_device read_device
  handler_pushes d c f ready = rw (f, serial_fd_handler) (rw (ready, handle_device) refl)

  reads-push :
      (cs : List Bytes) (d : Devices)
      → serial_get_device_fd fd d ≡ some id
      → (serial_get_device id d).ready ≡ true
      → reads heap line fd cs d
        ≡ pushed_to id d (frame_parser_push_buffer heap (parser_of id d) (concat cs))
  unfolding reads
  reads-push [] d f ready =
      unfold frame_parser_push_buffer in ap (λ e. some (e, [])) (sym (with_parser_same id d))
  reads-push (c ∷ cs) d f ready =
      ap (then_read (reads heap line fd cs)) (handler_pushes d c f ready)
      ∙ then_read-pushed id d (reads heap line fd cs)
          (λ q. frame_parser_push_buffer heap q (concat cs))
          (λ q.
            reads-push cs (with_parser id q d) (fd-with_parser id q d fd ∙ f)
              (ap (λ (cfg : SerialDevice). cfg.ready) (get-with_parser id q d) ∙ ready)
            ∙ ap
                (λ (cfg : SerialDevice).
                  pushed_to id (with_parser id q d)
                    (frame_parser_push_buffer heap cfg.parser (concat cs)))
                (get-with_parser id q d))
          (frame_parser_push_buffer heap (parser_of id d) c)
      ∙ ap (pushed_to id d) (sym (push_buffer-append heap (parser_of id d) c (concat cs)))

  -- However `read` cuts the bytes of a line into buffers: the handlers get what parsing the
  -- contents of the whole frames of all the bytes gives, in order, if no frame has more than
  -- 131071 bytes of content. The device is open and ready, its parser has a handler and an empty
  -- buffer between frames, and memory suffices.
  pub reads-decode :
      (cs : List Bytes) (d : Devices)
      → serial_get_device_fd fd d ≡ some id
      → (serial_get_device id d).ready ≡ true
      → ReallocSucceeds heap
      → let p = (serial_get_device id d).parser in
        IsIdle p.state p.buffer
        → p.has_handler ≡ true
        → IsShort (opened p.state p.buffer) (tokens (escapes p.state) (concat cs))
        → (e : Devices) × (reads heap line fd cs d
            ≡ some (
              e,
              messages heap
                  (contents (opened p.state p.buffer) (tokens (escapes p.state) (concat cs))),
            ))
  reads-decode cs d f ready a i k h =
      let (q, e) = push_buffer-decode heap (parser_of id d) (concat cs) a i k h in
      (with_parser id q d, reads-push cs d f ready ∙ ap (pushed_to id d) e)
