-- ===== src/Frame/Decode.antt =====
-- The frame parser against a description of what a stream of bytes means: its tokens, and the
-- contents that stand between a start and an end marker.
use mathlib.Core.Path.{subst}
use koruza_driver.Prelude.{
  ℕ, ◌≤◌, ◌≡◌, refl, sym, ap, ◌∙◌, inl, inr, ◌⊎◌, List, [], ◌∷◌, ◌++◌, Bytes, length, if◌then◌else◌,
  ◌==◌, Bool, true, false, Option, some, none, arith,
}
use koruza_driver.Message.{Message}
use koruza_driver.Frame.{
  frame_max_length, marker_start, marker_end, marker_escape, is_marker, ParserState, wait_start,
  wait_start_escape, in_frame, after_escape, Parser, Heap, Pushed, push_in, frame_parser_push_byte,
  prepend, and_then, frame_parser_push_buffer, silent, set_state,
}
use koruza_driver.Frame.Content.{
  ReallocSucceeds, push_byte-in, add_to_frame_lem, added, push_content,
}
use koruza_driver.Frame.RoundTrip.{content_handled, end-content, push_start}
use koruza_driver.Frame.Invariant.{IsIdle}

pub data Token : Type 0 where
  begin finish : Token
  content : ℕ → Token

-- What a byte means, by itself and behind an escape marker; an escape marker is no token.
abbrev pub read : Bool → ℕ → List Token × Bool
read true b = (content b ∷ [], false)
read false b =
    if b == marker_escape
    then ([], true)
    else if b == marker_start
    then (begin ∷ [], false)
    else if b == marker_end
    then (finish ∷ [], false)
    else (content b ∷ [], false)

abbrev pub tokens : Bool → Bytes → List Token
tokens escape [] = []
tokens escape (b ∷ bytes) = (read escape b).0 ++ tokens (read escape b).1 bytes

-- The contents of the whole frames, where `some c` is the content of an open frame.
abbrev pub contents : Option Bytes → List Token → List Bytes
contents open_frame [] = []
contents open_frame (begin ∷ ts) = contents (some []) ts
contents (some c) (content b ∷ ts) = contents (some (c ++ b ∷ [])) ts
contents (some c) (finish ∷ ts) = c ∷ contents none ts
contents none (content b ∷ ts) = contents none ts
contents none (finish ∷ ts) = contents none ts

-- No frame has more than 131071 bytes of content.
abbrev pub IsShort : Option Bytes → List Token → Type 0
IsShort open_frame [] = Unit
IsShort open_frame (begin ∷ ts) = IsShort (some []) ts
IsShort (some c) (content b ∷ ts) = (length c ≤ frame_max_length) × IsShort (some (c ++ b ∷ [])) ts
IsShort (some c) (finish ∷ ts) = IsShort none ts
IsShort none (content b ∷ ts) = IsShort none ts
IsShort none (finish ∷ ts) = IsShort none ts

-- The messages that parsing the contents gives.
abbrev pub messages : Heap → List Bytes → List Message
messages heap [] = []
messages heap (c ∷ cs) = content_handled heap true c ++ messages heap cs

-- The state of a parser in these terms.
abbrev pub opened : ParserState → Bytes → Option Bytes
opened wait_start buffer = none
opened wait_start_escape buffer = none
opened in_frame buffer = some buffer
opened after_escape buffer = some buffer

abbrev pub escapes : ParserState → Bool
escapes wait_start = false
escapes wait_start_escape = true
escapes in_frame = false
escapes after_escape = true

-- What pushing bytes comes to.
abbrev Decodes : Heap → Parser → Bytes → List Message → Type 0
Decodes heap p bytes ms = (q : Parser) × (frame_parser_push_buffer heap p bytes ≡ some (q, ms))

chain :
    (heap : Heap) (p q : Parser) (b : ℕ) (bytes : Bytes) (ms ns : List Message)
    → frame_parser_push_byte heap p b ≡ some (q, ms)
    → Decodes heap q bytes ns
    → Decodes heap p (b ∷ bytes) (ms ++ ns)
unfolding frame_parser_push_buffer
chain heap p q b bytes ms ns e (r, f) = (
  r,
  ap (λ (x : Pushed). and_then x (λ o. frame_parser_push_buffer heap o bytes)) e
      ∙ ap (prepend ms) f,
)

-- The end marker of an open frame.
finish_frame :
    (heap : Heap) (p : Parser)
    → p.state ≡ in_frame
    → p.has_handler ≡ true
    → frame_parser_push_byte heap p marker_end
      ≡ some (record p { state = wait_start; buffer = [] }, content_handled heap true p.buffer)
finish_frame heap p e k =
    push_byte-in heap p in_frame marker_end e
    ∙ unfold push_in in
      ap (λ (l : List Message). some (record p { state = wait_start; buffer = [] }, l))
        (end-content heap p p.buffer true refl k)

push_started :
    (heap : Heap) (p : Parser)
    → p.state ≡ wait_start
    → p.buffer ≡ []
    → frame_parser_push_byte heap p marker_start
      ≡ some (record p { state = in_frame; buffer = [] }, [])
push_started heap p e empty = push_start heap p (inl (e, empty))

kind :
    (b : ℕ)
    → (b ≡ marker_escape) ⊎ ((b ≡ marker_start) ⊎ ((b ≡ marker_end) ⊎ (is_marker b ≡ false)))
kind b = ground arith

read-content : (b : ℕ) → is_marker b ≡ false → read false b ≡ (content b ∷ [], false)
read-content b h = ground arith

push_noise :
    (heap : Heap) (p : Parser) (b : ℕ)
    → p.state ≡ wait_start
    → is_marker b ≡ false
    → frame_parser_push_byte heap p b ≡ some (p, [])
push_noise heap p b e n = push_byte-in heap p wait_start b e ∙ quiet
  where
    quiet : push_in heap wait_start p b ≡ some (p, [])
    quiet = unfold push_in in ground (arith, n)

-- What a byte and the rest must come to, by what the byte is read as.
abbrev Meets : Heap → Parser → Option Bytes → ℕ → Bytes → List Token × Bool → Type 0
Meets heap p cur b bytes r =
    IsShort cur (r.0 ++ tokens r.1 bytes)
    → Decodes heap p (b ∷ bytes) (messages heap (contents cur (r.0 ++ tokens r.1 bytes)))

module _ (heap : Heap) (a : ReallocSucceeds heap) where
  decode :
      (bytes : Bytes) (p : Parser) (s : ParserState)
      → p.state ≡ s
      → IsIdle s p.buffer
      → p.has_handler ≡ true
      → IsShort (opened s p.buffer) (tokens (escapes s) bytes)
      → Decodes heap p bytes
          (messages heap (contents (opened s p.buffer) (tokens (escapes s) bytes)))
  unfolding push_in
  decode [] p s e i k = λ h. (p, unfold frame_parser_push_buffer in refl)
  decode (b ∷ bytes) p wait_start e i k = elim (kind b) [
    | inl m ↦
        subst (λ c. Meets heap p none c bytes (read false c)) (sym m)
          (λ h.
            let q = record p { state = wait_start_escape } in
            chain heap p q marker_escape bytes [] _ (push_byte-in heap p wait_start marker_escape e)
              (decode bytes q wait_start_escape refl i k h))
    | inr (inl m) ↦
        subst (λ c. Meets heap p none c bytes (read false c)) (sym m)
          (λ h.
            let q = record p { state = in_frame; buffer = [] } in
            chain heap p q marker_start bytes [] _ (push_started heap p e i)
              (decode bytes q in_frame refl tt k h))
    | inr (inr (inl m)) ↦
        subst (λ c. Meets heap p none c bytes (read false c)) (sym m)
          (λ h.
            chain heap p p marker_end bytes [] _ (push_byte-in heap p wait_start marker_end e)
              (decode bytes p wait_start e i k h))
    | inr (inr (inr n)) ↦ subst (Meets heap p none b bytes) (sym (read-content b n)) (λ h.
        chain heap p p b bytes [] _ (push_noise heap p b e n) (decode bytes p wait_start e i k h))
  ]
  decode (b ∷ bytes) p wait_start_escape e i k = λ h.
      chain heap p (record p { state = wait_start }) b bytes [] _
        (push_byte-in heap p wait_start_escape b e)
        (decode bytes (record p { state = wait_start }) wait_start refl i k h)
  decode (b ∷ bytes) p in_frame e i k = elim (kind b) [
    | inl m ↦
        subst (λ c. Meets heap p (some p.buffer) c bytes (read false c)) (sym m)
          (λ h.
            let q = record p { state = after_escape } in
            chain heap p q marker_escape bytes [] _ (push_byte-in heap p in_frame marker_escape e)
              (decode bytes q after_escape refl tt k h))
    | inr (inl m) ↦
        subst (λ c. Meets heap p (some p.buffer) c bytes (read false c)) (sym m)
          (λ h.
            let q = record p { buffer = [] } in
            chain heap p q marker_start bytes [] _ (push_byte-in heap p in_frame marker_start e)
              (decode bytes q in_frame e tt k h))
    | inr (inr (inl m)) ↦
        subst (λ c. Meets heap p (some p.buffer) c bytes (read false c)) (sym m)
          (λ h.
            let q = record p { state = wait_start; buffer = [] } in
            chain heap p q marker_end bytes (content_handled heap true p.buffer) _
              (finish_frame heap p e k) (decode bytes q wait_start refl refl k h))
    | inr (inr (inr n)) ↦
        subst (Meets heap p (some p.buffer) b bytes) (sym (read-content b n)) (λ h.
          chain heap p (added p b) b bytes [] _ (push_content heap p b a e n h.0)
            (decode bytes (added p b) in_frame refl tt k h.1))
  ]
  decode (b ∷ bytes) p after_escape e i k = λ h.
      chain heap p (added p b) b bytes [] _
        (push_byte-in heap p after_escape b e
          ∙ ap (λ (r : Option Parser). silent (set_state in_frame r))
              (add_to_frame_lem heap p b a h.0))
        (decode bytes (added p b) in_frame refl tt k h.1)

-- Whatever bytes are pushed, also with noise, broken escapes and frames that are cut off: if no
-- frame among them has more than 131071 bytes of content, the parser hands over what parsing the
-- contents of the whole frames gives, in order. A frame begins at a start marker and ends at the
-- next end marker with no start marker between, and an escape marker takes the meaning from the
-- byte behind it. The parser has a handler, its buffer is empty between frames, and memory
-- suffices.
pub push_buffer-decode :
    (heap : Heap) (p : Parser) (bytes : Bytes)
    → ReallocSucceeds heap
    → IsIdle p.state p.buffer
    → p.has_handler ≡ true
    → IsShort (opened p.state p.buffer) (tokens (escapes p.state) bytes)
    → (q : Parser) × (frame_parser_push_buffer heap p bytes
        ≡ some (
          q,
          messages heap (contents (opened p.state p.buffer) (tokens (escapes p.state) bytes)),
        ))
push_buffer-decode heap p bytes a i k h = decode heap a bytes p p.state refl i k h
