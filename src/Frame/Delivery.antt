-- ===== src/Frame/Delivery.antt =====
-- From `frame_message` to the handler: streams of frames, and what may stand in front of them.
use koruza_driver.Prelude.{
  ℕ, ◌+◌, ◌≤◌, ◌≡◌, refl, sym, ap, ◌∙◌, inl, fun_ext, All, List, [], ◌∷◌, ◌++◌, append_assoc, Bytes,
  length, Bool, true, some, none,
}
use koruza_driver.Message.{Message}
use koruza_driver.Message.Format.{IsMessage, wire, ChecksumsPass}
use koruza_driver.Message.Entry.{MallocSucceeds}
use koruza_driver.Message.Sealed.{parse-wire}
use koruza_driver.Frame.{
  frame_max_length, in_frame, Parser, Heap, Pushed, frame_parser_push_byte, prepend, and_then,
  frame_parser_push_buffer, handled, framed, frame_message,
}
use koruza_driver.Frame.Escape.{frame_of, frame_message_sound}
use koruza_driver.Frame.Content.{ReallocSucceeds, and_then_silent, filled_lem}
use koruza_driver.Frame.RoundTrip.{CanStart, behind, content_handled, push_frame}

prepend_twice :
    (ms ns : List Message) (r : Pushed) → prepend (ms ++ ns) r ≡ prepend ms (prepend ns r)
prepend_twice ms ns none = refl
prepend_twice ms ns (some (q, os)) = ap (λ (x : List Message). some (q, x)) (append_assoc ms ns os)

and_then-prepend :
    (ms : List Message) (r : Pushed) (l : Parser → Pushed)
    → and_then (prepend ms r) l ≡ prepend ms (and_then r l)
and_then-prepend ms none l = refl
and_then-prepend ms (some (q, ns)) l = prepend_twice ms ns (l q)

and_then_assoc :
    (r : Pushed) (k l : Parser → Pushed)
    → and_then (and_then r k) l ≡ and_then r (λ q. and_then (k q) l)
and_then_assoc none k l = refl
and_then_assoc (some (p, ms)) k l = and_then-prepend ms (k p) l

-- Pushing two buffers in turn is pushing their concatenation.
pub push_buffer-append :
    (heap : Heap) (p : Parser) (a b : Bytes)
    → frame_parser_push_buffer heap p (a ++ b)
      ≡ and_then (frame_parser_push_buffer heap p a) (λ q. frame_parser_push_buffer heap q b)
unfolding frame_parser_push_buffer
push_buffer-append heap p [] b = sym (and_then_silent p (λ q. frame_parser_push_buffer heap q b))
push_buffer-append heap p (c ∷ a) b =
    ap (and_then (frame_parser_push_byte heap p c)) (fun_ext (λ q. push_buffer-append heap q a b))
    ∙ sym (
        and_then_assoc (frame_parser_push_byte heap p c) (λ q. frame_parser_push_buffer heap q a)
          (λ q. frame_parser_push_buffer heap q b))

-- A message that the receiver accepts: well formed, with checksum TLVs that pass, and of at most
-- 131071 bytes.
abbrev pub IsDeliverable : Heap → Message → Type 0
IsDeliverable heap m =
    IsMessage m × ChecksumsPass heap.memory [] m × (length (wire m) ≤ frame_max_length + 1)

-- The C library gives all the memory that is asked for.
abbrev pub HasMemory : Heap → Type 0
HasMemory heap = MallocSucceeds heap.memory × ReallocSucceeds heap

behind_handler : (p : Parser) (content : Bytes) → (behind p content).has_handler ≡ p.has_handler
behind_handler p content = (filled_lem (record p { state = in_frame; buffer = [] }) content refl).2

pub deliver_one :
    (heap : Heap) (p : Parser) (m : Message)
    → HasMemory heap
    → CanStart p
    → p.has_handler ≡ true
    → IsDeliverable heap m
    → frame_parser_push_buffer heap p (frame_of m) ≡ some (behind p (wire m), m ∷ [])
deliver_one heap p m a s k d =
    push_frame heap p (wire m) a.1 s d.2
    ∙ ap (λ (l : List Message). some (behind p (wire m), l))
        (ap (λ (b : Bool). content_handled heap b (wire m)) k
          ∙ ap handled (parse-wire heap.memory m a.0 d.0 d.1))

abbrev pub stream : List Message → Bytes
stream [] = []
stream (m ∷ ms) = frame_of m ++ stream ms

-- The frames of any number of deliverable messages, one after another, pushed where the parser
-- can start, hand those messages to the handler, each once and in order, and leave a parser that
-- can start again.
pub push_stream :
    (heap : Heap) (ms : List Message) (p : Parser)
    → HasMemory heap
    → CanStart p
    → p.has_handler ≡ true
    → All (IsDeliverable heap) ms
    → (q : Parser) × (frame_parser_push_buffer heap p (stream ms) ≡ some (q, ms)) × CanStart q
push_stream heap [] p a s k d = (p, unfold frame_parser_push_buffer in refl, s)
push_stream heap (m ∷ ms) p a s k d =
    let (q, e, t) =
      push_stream heap ms (behind p (wire m)) a (inl (refl, refl)) (behind_handler p (wire m) ∙ k)
        d.1 in
    (
      q,
      push_buffer-append heap p (frame_of m) (stream ms)
          ∙ ap (λ (r : Pushed). and_then r (λ o. frame_parser_push_buffer heap o (stream ms)))
              (deliver_one heap p m a s k d.0)
          ∙ ap (λ (r : Pushed). prepend (m ∷ []) r) e,
      t,
    )

-- What `frame_message` writes for a deliverable message is handed to the handler as that message,
-- behind any bytes after which the parser can start and whatever was handled during those.
pub push-frame_message :
    (heap : Heap) (malloc : ℕ → Bool) (size : ℕ) (m : Message) (p q : Parser) (noise : Bytes)
    (ms : List Message) {frame : Bytes}
    → HasMemory heap
    → IsDeliverable heap m
    → frame_message malloc size m ≡ framed frame
    → frame_parser_push_buffer heap p noise ≡ some (q, ms)
    → CanStart q
    → q.has_handler ≡ true
    → frame_parser_push_buffer heap p (noise ++ frame) ≡ some (behind q (wire m), ms ++ m ∷ [])
push-frame_message heap malloc size m p q noise ms {frame} a d e n s k =
    push_buffer-append heap p noise frame
    ∙ ap (λ (r : Pushed). and_then r (λ o. frame_parser_push_buffer heap o frame)) n
    ∙ ap (λ (r : Pushed). prepend ms r)
        (ap (frame_parser_push_buffer heap q) (frame_message_sound malloc size m d.0.1 e).0
          ∙ deliver_one heap q m a s k d)
