-- ===== src/Frame/RoundTrip.antt =====
-- A frame that is pushed into the parser byte by byte comes out as its message.
use koruza_driver.Prelude.{
  ℕ, ◌+◌, ◌≤◌, ◌≡◌, refl, ap, ◌∙◌, ◌⊎◌, inl, inr, List, [], ◌∷◌, ◌++◌, append-nil, Bytes, length,
  if◌then◌else◌, Bool, some, arith,
}
use koruza_driver.Message.{Message, message_parse}
use koruza_driver.Frame.{
  frame_max_length, marker_start, marker_end, wait_start, in_frame, Parser, Heap, Pushed, push_in,
  frame_parser_push_byte, and_then, frame_parser_push_buffer, handled, end_of_frame,
}
use koruza_driver.Frame.Escape.{escaped}
use koruza_driver.Frame.Content.{
  ReallocSucceeds, push_byte-in, push_buffer-quiet, filled, filled_lem, push_escaped_bytes,
}

-- ---- whole frames

-- Where the parser can take a start marker: between frames or in the content of one.
abbrev pub CanStart : Parser → Type 0
CanStart p = ((p.state ≡ wait_start) × (p.buffer ≡ [])) ⊎ (p.state ≡ in_frame)

-- The parser behind the start marker.
abbrev started : Parser → Parser
started p = record p { state = in_frame; buffer = [] }

pub push_start :
    (heap : Heap) (p : Parser)
    → CanStart p
    → frame_parser_push_byte heap p marker_start ≡ some (started p, [])
push_start heap p (inl (e, empty)) =
    push_byte-in heap p wait_start marker_start e
    ∙ unfold push_in in
      λ i. some (
        record {
          has_handler = p.has_handler;
          state = in_frame;
          buffer = empty i;
          buffer_size = p.buffer_size;
        },
        [],
      )
push_start heap p (inr e) =
    push_byte-in heap p in_frame marker_start e
    ∙ unfold push_in in
      λ i. some (
        record {
          has_handler = p.has_handler;
          state = e i;
          buffer = [];
          buffer_size = p.buffer_size;
        },
        [],
      )

pub push_end :
    (heap : Heap) (p : Parser)
    → p.state ≡ in_frame
    → frame_parser_push_byte heap p marker_end
      ≡ some (record p { state = wait_start; buffer = [] }, end_of_frame heap p)
push_end heap p e = push_byte-in heap p in_frame marker_end e ∙ unfold push_in in refl

pub push_buffer_one :
    (heap : Heap) (p q : Parser) (byte : ℕ) (ms : List Message)
    → frame_parser_push_byte heap p byte ≡ some (q, ms)
    → frame_parser_push_buffer heap p (byte ∷ []) ≡ some (q, ms)
unfolding frame_parser_push_buffer
push_buffer_one heap p q byte ms e =
    ap (λ (r : Pushed). and_then r (λ s. some (s, []))) e
    ∙ ap (λ (l : List Message). some (q, l)) (append-nil ms)

-- The parser behind a frame with the given content.
abbrev pub behind : Parser → Bytes → Parser
behind p content = record (filled (started p) content) { state = wait_start; buffer = [] }

abbrev pub content_handled : Heap → Bool → Bytes → List Message
content_handled heap k content = if k then handled (message_parse heap.memory content) else []

pub end-content :
    (heap : Heap) (q : Parser) (content : Bytes) (k : Bool)
    → q.buffer ≡ content
    → q.has_handler ≡ k
    → end_of_frame heap q ≡ content_handled heap k content
unfolding end_of_frame
end-content heap q content k e f = rw (e, f) refl

-- Pushing a start marker, the escaped content and an end marker, where the parser can start and
-- the content is at most 131071 bytes, makes the parser wait for the next frame with an empty
-- buffer, and hands exactly the result of parsing the content to the handler, if there is one.
pub push_frame :
    (heap : Heap) (p : Parser) (content : Bytes)
    → ReallocSucceeds heap
    → CanStart p
    → length content ≤ frame_max_length + 1
    → frame_parser_push_buffer heap p (marker_start ∷ (escaped content ++ marker_end ∷ []))
      ≡ some (behind p content, content_handled heap p.has_handler content)
push_frame heap p content a s h =
    let q = filled (started p) content in
    let (st, buf, hand) = filled_lem (started p) content refl in
    push_buffer-quiet heap p (started p) marker_start (escaped content ++ marker_end ∷ [])
      (push_start heap p s)
    ∙ push_escaped_bytes heap content (started p) (marker_end ∷ []) a refl (omega arith)
    ∙ push_buffer_one heap q (behind p content) marker_end (end_of_frame heap q)
        (push_end heap q st)
    ∙ ap (λ (l : List Message). some (behind p content, l))
        (end-content heap q content p.has_handler buf hand)
