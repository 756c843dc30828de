-- ===== src/Lib.antt =====
-- A model of koruza-driver, the daemon that drives a KORUZA optical unit from a Raspberry Pi, and
-- theorems about it.
--
-- The parts and their files. The unit's microcontrollers hang on serial lines. A message is a
-- list of type-length-value entries (message.c), protected by a CRC-32 (crc32.c), and goes over
-- the line as a frame with start, end and escape markers (frame.c). The daemon pushes what it
-- reads from the line into a frame parser, which parses the content of each frame and hands the
-- message to a handler; to send, it serialises and frames a message. The handler keeps the state
-- of the unit (koruza.c) and stores part of it in the configuration (configuration.c); other
-- programs call the daemon over the bus (ubus.c), which may also start an upgrade (upgrade.c);
-- units announce themselves on the network (network.c). main.c starts all of it.
--
-- - Prelude: the tests of C, lists indexed by machine numbers, bytes and words in network order.
-- - Crc: crc32.c. `crc32_tab`, `crc32_loop` (the while loop) and `crc32` are the source's;
--   Crc/Bitwise is the description of the table in the source's comment, Crc/Laws compares them.
-- - Message: message.c and message.h. A `message_t` is the list of its entries in use, so
--   `message->length` is the length of the list; a `tlv_t` keeps its three fields.
--   `message_parse` and its loop, `message_tlv_add`, `message_tlv_get`, `message_serialize`,
--   `message_serialized_size` and `message_checksum` are in Message.antt, the typed accessors in
--   Message/Typed. An operation returns its result code and the new message. Message/Format has
--   the wire format as a function with no buffers, and well-formedness.
-- - Frame: frame.c and frame.h. `parser_t` is the record `Parser`, whose buffer is the list of
--   the bytes below `length`; pushing a byte returns the new parser and the messages that the
--   handler is called with. `frame_message` returns the bytes that it writes, also where they are
--   more than the buffer has. Frame/Decode describes what a stream of bytes means by its tokens.
-- - Serial: serial.c and serial.h. A `struct serial_device` is a record whose negative descriptor
--   is `none`; opening and reopening return the calls of `close` and of the event loop that they
--   make. `serial_send_message` returns the bytes that reached the line. Serial/Send is about
--   sending, Serial/Descriptors about what is opened and closed, Serial/Chunks about the buffers
--   that `read` gives, Serial/Parsers about the parsers of the devices.
-- - Gpio: gpio.c and the hard reset of koruza.c, as the log of the accesses to the files of the
--   GPIO interface.
-- - Configuration: configuration.c over an abstract libuci, the record `Uci`, which reads,
--   writes, deletes and commits, and whose `restarted` is what a new context reads. A lookup
--   succeeds also where the section is missing (`no_section`), and a write there fails unnoticed.
--   `UciLaws` is what is used of its documented behaviour, for the options that the program
--   writes, where their section is there; Configuration/Table has two tables that obey it.
--   Prelude/Decimal is `%d` of printf, and atoi.
-- - Koruza: koruza.c and koruza.h. `Controller` is what the motor handler, the commands and the
--   timers use of `status`; a handler returns the new controller and its effects in order, which
--   are sent messages and writes of the configuration. Koruza/Timers has what the start, the
--   status request and the timers do with the motors; Koruza/Survey the survey, Koruza/Window the
--   accelerometer's samples over an abstract `float`. Koruza/Commands follows a command to the
--   parser at the other end of the line, Koruza/Motors and Koruza/Report are about the handler,
--   Koruza/Connection about the ranges of the motors, Koruza/Silence about the wait for a reply.
--   Koruza/Store and Koruza/Restart follow the saved position through the configuration to the
--   next start. Koruza/Calibration is the calibration of the webcam, Koruza/Migration its
--   conversion from an old configuration, Koruza/Sfp the reading of the SFP module, Koruza/Leds
--   the LEDs, and Koruza/Sfp/Refresh the timer that joins the last two. Koruza/Start has
--   `koruza_init` as a whole, with the status request at its end.
-- - Network: network.c and network.h. What it does outside its state is a list of
--   `NetworkEffect`. Network/Init is its start-up, Network/Startup is about what the start-up
--   leaves open, Network/Address about the unit's address, Network/Announce and Network/Peers
--   about the announcements.
-- - Upgrade: upgrade.c, both sides of the fork, with the calls of the child in Upgrade/Child.
-- - Ubus: ubus.c. `Daemon` (Ubus/State) is the state that the methods read and write, `Outcome`
--   what a method gives back, and `call` the table of methods. A reply is the list of the calls
--   of libubox that build it (Ubus/Reply, Ubus/Status); a status reply whose path, interface or
--   address is a null string crashes the daemon, since `blobmsg_add_string` takes its length, and
--   a call that crashes has no outcome. Ubus/Refused is about calls that are refused,
--   Ubus/Variables about the arguments of the alignment, Ubus/Tree and Ubus/Nested about replies,
--   Ubus/Keeps and Ubus/Untouched about what the methods leave as it is.
-- - Main: main.c, the options, the loop that connects (Main/Connect) and the start-up
--   (Main/Order).
-- - Loop: the event loop, `uloop_run` of main.c, with the callbacks of koruza.c, serial.c,
--   network.c and ubus.c on one state, the record `World`; `step` is one event. Each sending goes
--   through `serial_send_message`, and what a callback writes to the configuration is written.
--   Loop/Boot is the start up to the loop, Loop/Boot/Begun what it establishes, Loop/Sound what
--   every event keeps, Loop/Reach the states that can be reached, Loop/Report the way of a status
--   report from the line to an answer on the bus (read by Loop/Answer), Loop/Move the way of a
--   command from the bus to the line, and Loop/Quiet and Loop/Silence about events without a
--   message from the motors.
--
-- Bounds and loops. The loop of `message_parse` recurs on the number of free entries, which
-- starts at MAX_TLV_COUNT = 25 and falls with each entry, so no fuel is needed; the other loops
-- recur on the list they walk or on what is left to do, but for the write loop below. `size_t`
-- sums are unbounded numbers: a message has at most 25 entries of 65538 bytes, and input lies in
-- memory. `uint8_t`, `uint16_t` and `uint32_t` values are numbers with their ranges as hypotheses
-- or in the well-formedness of a message; an `int32_t` is its bit pattern. Words that are stored
-- in network order have the same bytes on every host.
--
-- The C library is a parameter. The record `Memory` says whether `malloc` succeeds for an entry,
-- and what a read just behind an empty block finds (`message_parse` makes one when a checksum TLV
-- is empty); the record `Heap` adds `realloc`. A failed `assert` and `abort()` are results of
-- their own.
--
-- What the serial line answers is a parameter too: `Line` for one opening, and a function for the
-- calls of `write`. The write loop runs on fuel, as much as the buffer of a frame has bytes:
-- every write that succeeds advances, so that is enough. A timer that is not pending does not
-- fire. A product of coordinates that overflows an `int` wraps around.
--
-- `float` and `double` are parameters with their operations (`FloatOps`, `Casts`, `LedOps`,
-- `SfpCasts`), without any law but those that a theorem names. libubox is the record `Blob` for
-- reading messages and `Avl` for the tree of units; the answers of the SFP service are the record
-- `Service`. `Machine` joins the parameters of the loop, with the answers to each sending in turn
-- (`Link`). The loop that connects to the bus runs on fuel; Main/Connect shows how much is
-- enough.
--
-- Not modelled: the rendering of the LEDs behind the colours and the brightness; `gpio_read` and
-- `message_print`, on which none of the state depends; logging; the registration of the bus
-- object in `ubus_init`; and the copy of rpi_ws281x, a library of its own that the driver only
-- calls.
pub mod Prelude
pub mod Crc
pub mod Message
pub mod Frame
pub mod Serial
pub mod Gpio
pub mod Configuration
pub mod Koruza
pub mod Network
pub mod Upgrade
pub mod Ubus
pub mod Main
pub mod Loop
