-- ===== src/Frame.antt =====
-- frame.c and frame.h: the frame parser, a state machine over bytes, and `frame_message`.
--
-- The parser's buffer is the list of its first `length` bytes. The machine calls `realloc` and,
-- at the end of a frame, `message_parse`; the messages that it hands to the handler are returned.
pub mod Escape
pub mod Invariant
pub mod Content
pub mod RoundTrip
pub mod Delivery
pub mod Decode
pub mod Resync
mod Tests
use koruza_driver.Prelude.{
  ℕ, ◌+◌, List, [], ◌∷◌, ◌++◌, Bool, true, false, not, ◌||◌, ltb, leb, ◌==◌, Option, some, none,
  if◌then◌else◌, Bytes, length,
}
use koruza_driver.Message.{
  Message, Memory, MessageResult, success, message_parse, message_serialize,
  message_serialized_size,
}

abbrev pub frame_max_length : ℕ
frame_max_length = 131070

abbrev pub marker_start : ℕ
marker_start = 0xf1

abbrev pub marker_end : ℕ
marker_end = 0xf2

abbrev pub marker_escape : ℕ
marker_escape = 0xf3

pub data ParserState : Type 0 where
  wait_start wait_start_escape in_frame after_escape : ParserState

-- `has_handler` is `handler != NULL`; `buffer` holds the bytes below `length`.
pub record Parser : Type 0 where
  pub has_handler : Bool
  pub state : ParserState
  pub buffer : Bytes
  pub buffer_size : ℕ

-- What the parser uses of the C library: the memory of `message_parse`, and whether `realloc`
-- to a size succeeds.
pub record Heap : Type 0 where
  pub memory : Memory
  pub realloc : ℕ → Bool

-- `none` is `abort()` for want of memory.
unfoldable pub frame_parser_init : Heap → Option Parser
frame_parser_init heap =
    if heap.realloc 1024
    then some (record { has_handler = false; state = wait_start; buffer = []; buffer_size = 1024 })
    else none

unfoldable pub frame_parser_free : Parser → Parser
frame_parser_free p = record p { state = wait_start; buffer = []; buffer_size = 0 }

unfoldable pub frame_parser_add_to_frame : Heap → Parser → ℕ → Option Parser
frame_parser_add_to_frame heap p byte =
    if ltb frame_max_length (length p.buffer)
    then some (record p { state = wait_start; buffer = [] })
    else if length p.buffer == p.buffer_size
    then (if heap.realloc (p.buffer_size + 1024)
        then some (record p { buffer = p.buffer ++ byte ∷ []; buffer_size = p.buffer_size + 1024 })
        else none)
    else some (record p { buffer = p.buffer ++ byte ∷ [] })

-- The handler's calls at the end of a frame.
abbrev pub handled : MessageResult × Message → List Message
handled (success, m) = m ∷ []
handled (_, m) = []

unfoldable pub end_of_frame : Heap → Parser → List Message
end_of_frame heap p = if p.has_handler then handled (message_parse heap.memory p.buffer) else []

-- The new parser and the messages handled, or `none` after an abort.
abbrev pub Pushed : Type 0
Pushed = Option (Parser × List Message)

abbrev pub silent : Option Parser → Pushed
silent none = none
silent (some p) = some (p, [])

abbrev pub set_state : ParserState → Option Parser → Option Parser
set_state s none = none
set_state s (some p) = some (record p { state = s })

unfoldable pub push_in : Heap → ParserState → Parser → ℕ → Pushed
push_in heap wait_start p byte =
    if byte == marker_escape
    then some (record p { state = wait_start_escape }, [])
    else if byte == marker_start
    then some (record p { state = in_frame }, [])
    else some (p, [])
push_in heap wait_start_escape p byte = some (record p { state = wait_start }, [])
push_in heap in_frame p byte =
    if byte == marker_escape
    then some (record p { state = after_escape }, [])
    else if byte == marker_start
    then some (record p { buffer = [] }, [])
    else if byte == marker_end
    then some (record p { state = wait_start; buffer = [] }, end_of_frame heap p)
    else silent (frame_parser_add_to_frame heap p byte)
push_in heap after_escape p byte =
    silent (set_state in_frame (frame_parser_add_to_frame heap p byte))

-- The `switch` on the state.
unfoldable pub frame_parser_push_byte : Heap → Parser → ℕ → Pushed
unfolding push_in
frame_parser_push_byte heap p byte = push_in heap p.state p byte

abbrev pub prepend : List Message → Pushed → Pushed
prepend ms none = none
prepend ms (some (q, ns)) = some (q, ms ++ ns)

-- The rest of a run, with the messages handled before it.
abbrev pub and_then : Pushed → (Parser → Pushed) → Pushed
and_then none k = none
and_then (some (p, ms)) k = prepend ms (k p)

unfoldable pub frame_parser_push_buffer : Heap → Parser → Bytes → Pushed
frame_parser_push_buffer heap p [] = some (p, [])
frame_parser_push_buffer heap p (byte ∷ bytes) =
    and_then (frame_parser_push_byte heap p byte) (λ q. frame_parser_push_buffer heap q bytes)

-- ---- framing

abbrev pub is_marker : ℕ → Bool
is_marker b = b == marker_start || b == marker_end || b == marker_escape

-- What one round writes.
unfoldable pub escape_byte : ℕ → Bytes
escape_byte b = if is_marker b then marker_escape ∷ b ∷ [] else b ∷ []

-- The `for` loop: `frame` is what has been written, `index` many bytes, into a buffer of `size`
-- bytes. `none` is the return of -1.
unfoldable pub frame_loop : ℕ → Bytes → Bytes → Option Bytes
frame_loop size frame [] = some frame
frame_loop size frame (b ∷ bytes) =
    let rest = frame_loop size (frame ++ escape_byte b) bytes in
    if leb size (length frame) then none else rest

-- The results of `frame_message`: the bytes written from `frame[0]` on, as many as `index` counts,
-- also where that is more than the buffer has; the return of -1; the abort for want of memory.
pub data Framed : Type 0 where
  framed : Bytes → Framed
  refused aborted : Framed

abbrev pub closed : Option Bytes → Framed
closed none = refused
closed (some frame) = framed (frame ++ marker_end ∷ [])

-- What follows `message_serialize`; a result other than `buffer_size` is refused.
unfoldable pub frame_serialized : ℕ → ℕ → Option Bytes → Framed
frame_serialized size buffer_size none = refused
frame_serialized size buffer_size (some bytes) =
    if not (length bytes == buffer_size)
    then refused
    else closed (frame_loop size (marker_start ∷ []) bytes)

-- `size` is the size of the buffer `frame`, and `malloc` tells whether an allocation succeeds.
unfoldable pub frame_message : (ℕ → Bool) → ℕ → Message → Framed
frame_message malloc size m =
    let buffer_size = message_serialized_size m in
    if ltb size (buffer_size + 2)
    then refused
    else if not (malloc buffer_size)
    then aborted
    else frame_serialized size buffer_size (message_serialize buffer_size m)
