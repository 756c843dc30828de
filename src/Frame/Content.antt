-- ===== src/Frame/Content.antt =====
-- The content of a frame, pushed into the parser byte by byte with its escapes.
use koruza_driver.Prelude.{
  ℕ, ◌+◌, ◌≤◌, ◌≡◌, refl, sym, ap, ◌∙◌, inl, inr, [], ◌∷◌, ◌++◌, append_assoc, append-nil, Bytes,
  length, length-append, le→ltb, ◌==◌, if◌then◌else◌, Bool-cases, true, false, Option, some, none,
  arith,
}
use koruza_driver.Frame.{
  frame_max_length, marker_escape, is_marker, ParserState, in_frame, after_escape, Parser, Heap,
  frame_parser_add_to_frame, Pushed, silent, set_state, push_in, frame_parser_push_byte, prepend,
  and_then, frame_parser_push_buffer, escape_byte,
}
use koruza_driver.Frame.Escape.{escaped}

abbrev pub ReallocSucceeds : Heap → Type 0
ReallocSucceeds heap = (n : ℕ) → heap.realloc n ≡ true

pub and_then_silent : (q : Parser) (k : Parser → Pushed) → and_then (some (q, [])) k ≡ k q
and_then_silent q k = go (k q)
  where
    go : (r : Pushed) → prepend [] r ≡ r
    go none = refl
    go (some (q, ns)) = refl

-- The room for a byte of content at `size`.
abbrev pub room_for : Bytes → ℕ → ℕ
room_for buffer size = if length buffer == size then size + 1024 else size

pub add_to_frame_lem :
    (heap : Heap) (p : Parser) (byte : ℕ)
    → ReallocSucceeds heap
    → length p.buffer ≤ frame_max_length
    → frame_parser_add_to_frame heap p byte
      ≡ some (record p {
        buffer = p.buffer ++ byte ∷ [];
        buffer_size = room_for p.buffer p.buffer_size;
      })
unfolding frame_parser_add_to_frame
add_to_frame_lem heap p byte a h = elim (Bool-cases (length p.buffer == p.buffer_size)) [
  | inl full ↦ rw (le→ltb frame_max_length (length p.buffer) h, full, a (p.buffer_size + 1024)) refl
  | inr room ↦ rw (le→ltb frame_max_length (length p.buffer) h, room) refl
]

-- The parser with one more byte of content.
abbrev pub added : Parser → ℕ → Parser
added p byte = record p {
  state = in_frame;
  buffer = p.buffer ++ byte ∷ [];
  buffer_size = room_for p.buffer p.buffer_size;
}

pub push_byte-in :
    (heap : Heap) (p : Parser) (s : ParserState) (byte : ℕ)
    → p.state ≡ s
    → frame_parser_push_byte heap p byte ≡ push_in heap s p byte
unfolding frame_parser_push_byte
push_byte-in heap p s byte e = ap (λ (t : ParserState). push_in heap t p byte) e

push_escape :
    (heap : Heap) (p : Parser)
    → p.state ≡ in_frame
    → frame_parser_push_byte heap p marker_escape ≡ some (record p { state = after_escape }, [])
push_escape heap p e = push_byte-in heap p in_frame marker_escape e ∙ unfold push_in in refl

push_escaped :
    (heap : Heap) (p : Parser) (byte : ℕ)
    → ReallocSucceeds heap
    → p.state ≡ after_escape
    → length p.buffer ≤ frame_max_length
    → frame_parser_push_byte heap p byte ≡ some (added p byte, [])
push_escaped heap p byte a e h =
    push_byte-in heap p after_escape byte e
    ∙ unfold push_in in
      ap (λ (r : Option Parser). silent (set_state in_frame r)) (add_to_frame_lem heap p byte a h)

pub push_content :
    (heap : Heap) (p : Parser) (byte : ℕ)
    → ReallocSucceeds heap
    → p.state ≡ in_frame
    → is_marker byte ≡ false
    → length p.buffer ≤ frame_max_length
    → frame_parser_push_byte heap p byte ≡ some (added p byte, [])
push_content heap p byte a e n h =
    push_byte-in heap p in_frame byte e
    ∙ plain
    ∙ ap silent (add_to_frame_lem heap p byte a h)
    ∙ λ i. some (
      record {
        has_handler = p.has_handler;
        state = e i;
        buffer = p.buffer ++ byte ∷ [];
        buffer_size = room_for p.buffer p.buffer_size;
      },
      [],
    )
  where
    plain : push_in heap in_frame p byte ≡ silent (frame_parser_add_to_frame heap p byte)
    plain = unfold push_in in ground (arith, n)

pub push_buffer-quiet :
    (heap : Heap) (p q : Parser) (byte : ℕ) (rest : Bytes)
    → frame_parser_push_byte heap p byte ≡ some (q, [])
    → frame_parser_push_buffer heap p (byte ∷ rest) ≡ frame_parser_push_buffer heap q rest
unfolding frame_parser_push_buffer
push_buffer-quiet heap p q byte rest e =
    ap (λ (r : Pushed). and_then r (λ s. frame_parser_push_buffer heap s rest)) e
    ∙ and_then_silent q (λ s. frame_parser_push_buffer heap s rest)

-- One byte of content, escaped where it is a marker.
push-escape_byte :
    (heap : Heap) (p : Parser) (byte : ℕ) (rest : Bytes)
    → ReallocSucceeds heap
    → p.state ≡ in_frame
    → length p.buffer ≤ frame_max_length
    → frame_parser_push_buffer heap p (escape_byte byte ++ rest)
      ≡ frame_parser_push_buffer heap (added p byte) rest
unfolding escape_byte
push-escape_byte heap p byte rest a s h = elim (Bool-cases (is_marker byte)) [
  | inl m ↦
      let q = record p { state = after_escape } in
      rw m (
        push_buffer-quiet heap p q marker_escape (byte ∷ rest) (push_escape heap p s)
        ∙ push_buffer-quiet heap q (added p byte) byte rest (push_escaped heap q byte a refl h))
  | inr n ↦
      rw n (push_buffer-quiet heap p (added p byte) byte rest (push_content heap p byte a s n h))
]

-- The parser after the content of a frame.
abbrev pub filled : Parser → Bytes → Parser
filled p [] = p
filled p (b ∷ bs) = filled (added p b) bs

pub filled_lem :
    (p : Parser) (bs : Bytes)
    → p.state ≡ in_frame
    → ((filled p bs).state ≡ in_frame)
      × ((filled p bs).buffer ≡ p.buffer ++ bs)
      × ((filled p bs).has_handler ≡ p.has_handler)
filled_lem p [] e = (e, sym (append-nil p.buffer), refl)
filled_lem p (b ∷ bs) e =
    let (s, c, k) = filled_lem (added p b) bs refl in (s, c ∙ append_assoc p.buffer (b ∷ []) bs, k)

pub push_escaped_bytes :
    (heap : Heap) (bs : Bytes) (p : Parser) (rest : Bytes)
    → ReallocSucceeds heap
    → p.state ≡ in_frame
    → length p.buffer + length bs ≤ frame_max_length + 1
    → frame_parser_push_buffer heap p (escaped bs ++ rest)
      ≡ frame_parser_push_buffer heap (filled p bs) rest
push_escaped_bytes heap [] p rest a e h = refl
push_escaped_bytes heap (b ∷ bs) p rest a e h =
    ap (frame_parser_push_buffer heap p) (append_assoc (escape_byte b) (escaped bs) rest)
    ∙ push-escape_byte heap p b (escaped bs ++ rest) a e (omega arith)
    ∙ push_escaped_bytes heap bs (added p b) rest a refl
        (omega (arith, length-append p.buffer (b ∷ [])))
