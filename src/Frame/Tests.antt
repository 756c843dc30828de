-- ===== src/Frame/Tests.antt =====
-- The run of tests/test_frame.c, and the laws at concrete inputs.
use koruza_driver.Prelude.{
  ℕ, ◌+◌, ◌≤◌, ◌≡◌, refl, inl, [], ◌∷◌, ◌++◌, Bytes, true, false, none, some, length, replicate,
  length-replicate, arith,
}
use koruza_driver.Message.{Message, message_serialize, message_serialized_size}
use koruza_driver.Message.Format.{wire}
use koruza_driver.Frame.{
  frame_max_length, marker_end, escape_byte, ParserState, wait_start, in_frame, after_escape,
  Parser, Heap, frame_parser_init, silent, push_in, frame_parser_push_byte, and_then,
  frame_parser_push_buffer, frame_loop, framed, refused, frame_serialized, frame_message,
}
use koruza_driver.Frame.Escape.{escaped, frame_of, frame_message_enough, frame_message_overflow}
use koruza_driver.Frame.Invariant.{IsParser, PushedHolds, init_then_push-IsParser}
use koruza_driver.Frame.RoundTrip.{CanStart, behind, content_handled}
use koruza_driver.Frame.Delivery.{stream, push_stream, push-frame_message, HasMemory, IsDeliverable}
use koruza_driver.Frame.Decode.{tokens, contents, messages, push_buffer-decode}
use koruza_driver.Frame.Resync.{push_long_escaped}

abbrev heap : Heap
heap = record { memory = record { malloc = λ i n. true; stray = 0 }; realloc = λ n. true }

abbrev fresh : Parser
fresh = record { has_handler = true; state = wait_start; buffer = []; buffer_size = 1024 }

-- A command whose value is an end marker.
abbrev marked : Message
marked = (record { type = 1; length = 1; value = 0xf2 ∷ [] }) ∷ []

abbrev marked_frame : Bytes
marked_frame = 0xf1 ∷ 1 ∷ 0 ∷ 1 ∷ 0xf3 ∷ 0xf2 ∷ 0xf2 ∷ []

frame-marked :
    (frame_message (λ n. true) 1024 marked ≡ framed marked_frame)
    × (frame_message (λ n. true) 5 marked ≡ refused)
unfolding frame_message frame_serialized frame_loop escape_byte message_serialize
    message_serialized_size
frame-marked = (refl, refl)

-- The buffer has 6 bytes, and 7 are written.
frame_overrun : frame_message (λ n. true) 6 marked ≡ framed marked_frame
unfolding frame_message frame_serialized frame_loop escape_byte message_serialize
    message_serialized_size
frame_overrun = refl

-- Noise, an escaped start marker and a stray end marker are passed over.
noise_skipped :
    frame_parser_push_buffer heap fresh (0x10 ∷ 0x20 ∷ 0xf3 ∷ 0xf1 ∷ 0x15 ∷ 0xf2 ∷ [])
    ≡ some (fresh, [])
unfolding frame_parser_push_buffer frame_parser_push_byte push_in
noise_skipped = refl

memory : HasMemory heap
memory = (λ i n. refl, λ n. refl)

marked-IsDeliverable : IsDeliverable heap marked
unfolding escape_byte
marked-IsDeliverable = (omega arith, (λ e. absurd (omega arith), tt), omega arith)

frame_message_enough_example :
    (frame_message (λ n. true) 10 marked ≡ framed (frame_of marked))
    × (length (frame_of marked) ≤ 10)
frame_message_enough_example =
    frame_message_enough (λ n. true) 10 marked (omega arith) refl
      (unfold message_serialized_size in omega arith)

marked_is_longer : length (wire marked) + 1 ≤ length (escaped (wire marked))
unfolding escape_byte
marked_is_longer = omega arith

frame_message_overflow_example :
    (size : ℕ) × (frame_message (λ n. true) size marked ≡ framed (frame_of marked))
    × (length (frame_of marked) ≡ size + 1)
frame_message_overflow_example =
    frame_message_overflow (λ n. true) marked (omega arith) refl marked_is_longer

init_then_push-IsParser_example : PushedHolds IsParser (
    and_then
      (silent (frame_parser_init heap))
      (λ p. frame_parser_push_buffer heap p (0xf1 ∷ 1 ∷ [])))
init_then_push-IsParser_example = init_then_push-IsParser heap (0xf1 ∷ 1 ∷ [])

push_stream_example :
    (q : Parser) × (frame_parser_push_buffer heap fresh (stream (marked ∷ marked ∷ []))
      ≡ some (q, marked ∷ marked ∷ []))
    × CanStart q
push_stream_example =
    push_stream heap (marked ∷ marked ∷ []) fresh memory (inl (refl, refl)) refl
      (marked-IsDeliverable, (marked-IsDeliverable, tt))

push-frame_message_example :
    frame_parser_push_buffer heap fresh
      ((0x10 ∷ 0x20 ∷ 0xf3 ∷ 0xf1 ∷ 0x15 ∷ 0xf2 ∷ []) ++ marked_frame)
    ≡ some (behind fresh (wire marked), [] ++ marked ∷ [])
push-frame_message_example =
    push-frame_message heap (λ n. true) 1024 marked fresh fresh
      (0x10 ∷ 0x20 ∷ 0xf3 ∷ 0xf1 ∷ 0x15 ∷ 0xf2 ∷ []) [] memory marked-IsDeliverable frame-marked.0
      noise_skipped (inl (refl, refl)) refl

-- A parser in the content of a frame that is too long.
abbrev stuffed : ParserState → Parser
stuffed s = record {
  has_handler = true;
  state = s;
  buffer = replicate 131071 0;
  buffer_size = 131072;
}

stuffed_long : frame_max_length + 1 ≤ length (stuffed in_frame).buffer
stuffed_long = omega (arith, length-replicate {A = ℕ} 131071 0)

push_long_escaped_example :
    (q : Parser) × (frame_parser_push_buffer heap
        (stuffed after_escape)
        (7 ∷ (escaped (1 ∷ 0 ∷ 0 ∷ []) ++ marker_end ∷ []))
      ≡ some (q, content_handled heap true (1 ∷ 0 ∷ 0 ∷ [])))
    × (q.state ≡ wait_start)
push_long_escaped_example =
    push_long_escaped heap (stuffed after_escape) 7 (1 ∷ 0 ∷ 0 ∷ []) memory.1 refl stuffed_long
      (omega arith)

-- A byte of noise, a frame that is cut off, and a whole frame.
abbrev noisy : Bytes
noisy = 7 ∷ 0xf1 ∷ 1 ∷ 2 ∷ marked_frame

push_buffer-decode_example :
    (q : Parser) × (frame_parser_push_buffer heap fresh noisy
      ≡ some (q, messages heap (contents none (tokens false noisy))))
push_buffer-decode_example =
    push_buffer-decode heap fresh noisy (λ n. refl) refl refl
      (omega arith, (omega arith, (omega arith, (omega arith, (omega arith, (omega arith, tt))))))
