-- ===== src/Frame/Resync.antt =====
-- Frames that are too long. `frame_parser_add_to_frame` discards them and goes back to waiting
-- for a start marker; after an escape, `frame_parser_push_byte` undoes that.
use koruza_driver.Prelude.{
  ℕ, ◌+◌, ◌≤◌, ◌<◌, ◌≡◌, refl, ap, ◌∙◌, List, [], ◌∷◌, ◌++◌, Bytes, length, lt→ltb, Option, some,
  arith,
}
use koruza_driver.Message.{Message}
use koruza_driver.Frame.{
  frame_max_length, marker_end, wait_start, in_frame, after_escape, Parser, Heap,
  frame_parser_add_to_frame, silent, set_state, push_in, frame_parser_push_byte,
  frame_parser_push_buffer,
}
use koruza_driver.Frame.Content.{
  ReallocSucceeds, push_byte-in, push_buffer-quiet, filled, filled_lem, push_escaped_bytes,
}
use koruza_driver.Frame.RoundTrip.{push_end, push_buffer_one, content_handled, end-content}
use koruza_driver.Frame.Escape.{escaped}

add_to_frame_long :
    (heap : Heap) (p : Parser) (byte : ℕ)
    → frame_max_length < length p.buffer
    → frame_parser_add_to_frame heap p byte ≡ some (record p { state = wait_start; buffer = [] })
unfolding frame_parser_add_to_frame
add_to_frame_long heap p byte h = rw (lt→ltb frame_max_length (length p.buffer) h) refl

discard :
    (heap : Heap) (p : Parser) (byte : ℕ)
    → frame_max_length < length p.buffer
    → push_in heap after_escape p byte ≡ some (record p { state = in_frame; buffer = [] }, [])
unfolding push_in
discard heap p byte h =
    ap (λ (r : Option Parser). silent (set_state in_frame r)) (add_to_frame_long heap p byte h)

-- With more than 131070 bytes of content, an escaped byte discards the content but leaves the
-- parser inside a frame: what follows, up to the next end marker, is parsed and handed to the
-- handler as a message, though no start marker was seen.
pub push_long_escaped :
    (heap : Heap) (p : Parser) (byte : ℕ) (content : Bytes)
    → ReallocSucceeds heap
    → p.state ≡ after_escape
    → frame_max_length < length p.buffer
    → length content ≤ frame_max_length + 1
    → (q : Parser) × (frame_parser_push_buffer heap p (byte ∷ (escaped content ++ marker_end ∷ []))
        ≡ some (q, content_handled heap p.has_handler content))
      × (q.state ≡ wait_start)
push_long_escaped heap p byte content a e h short =
    let r : Parser = record p { state = in_frame; buffer = [] } in
    let q = filled r content in
    let (st, buf, hand) = filled_lem r content refl in
    let reset : frame_parser_push_byte heap p byte ≡ some (r, []) =
      push_byte-in heap p after_escape byte e ∙ discard heap p byte h in
    (
      record q { state = wait_start; buffer = [] },
      push_buffer-quiet heap p r byte (escaped content ++ marker_end ∷ []) reset
          ∙ push_escaped_bytes heap content r (marker_end ∷ []) a refl (omega arith)
          ∙ push_buffer_one heap q _ marker_end _ (push_end heap q st)
          ∙ ap (λ (l : List Message). some (record q { state = wait_start; buffer = [] }, l))
              (end-content heap q content p.has_handler buf hand),
      refl,
    )
