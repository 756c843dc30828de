-- ===== src/Frame/Invariant.antt =====
-- The invariant of the frame parser: its buffer never holds more than it has room for, and holds
-- nothing between frames.
use koruza_driver.Prelude.{
  ℕ, ◌+◌, ◌%◌, ◌≤◌, ◌≡◌, refl, inl, inr, [], ◌∷◌, ◌++◌, Bytes, length, length-append, ltb, ltb→le,
  eqb→eq, ◌≢◌, ◌==◌, Bool-cases, Option, some, none, arith,
}
use koruza_driver.Frame.{
  frame_max_length, marker_start, marker_end, marker_escape, ParserState, wait_start,
  wait_start_escape, in_frame, after_escape, Parser, Heap, frame_parser_init,
  frame_parser_add_to_frame, Pushed, silent, set_state, push_in, frame_parser_push_byte, prepend,
  and_then, frame_parser_push_buffer,
}

-- Between frames the buffer is empty.
abbrev pub IsIdle : ParserState → Bytes → Type 0
IsIdle wait_start buffer = buffer ≡ []
IsIdle wait_start_escape buffer = buffer ≡ []
IsIdle in_frame buffer = Unit
IsIdle after_escape buffer = Unit

pub record IsParser (p : Parser) : Type 0 where
  pub fits : length p.buffer ≤ p.buffer_size
  pub bounded : length p.buffer ≤ frame_max_length + 1
  pub grown : p.buffer_size % 1024 ≡ 0
  pub limited : p.buffer_size ≤ 131072
  pub idle : IsIdle p.state p.buffer

-- Of a parser that has not aborted.
abbrev pub Holds : (Parser → Type 0) → Option Parser → Type 0
Holds P none = Unit
Holds P (some p) = P p

abbrev pub PushedHolds : (Parser → Type 0) → Pushed → Type 0
PushedHolds P none = Unit
PushedHolds P (some (p, ms)) = P p

silent-Holds : (P : Parser → Type 0) (r : Option Parser) → Holds P r → PushedHolds P (silent r)
silent-Holds P none h = tt
silent-Holds P (some p) h = h

set_state-Holds :
    (P : Parser → Type 0) (s : ParserState) (r : Option Parser)
    → Holds (λ q. P (record q { state = s })) r
    → PushedHolds P (silent (set_state s r))
set_state-Holds P s none h = tt
set_state-Holds P s (some p) h = h

pub frame_parser_init-IsParser : (heap : Heap) → Holds IsParser (frame_parser_init heap)
unfolding frame_parser_init
frame_parser_init-IsParser heap = elim (Bool-cases (heap.realloc 1024)) [
  | inl given ↦ rw given (record {
    fits = omega arith;
    bounded = omega arith;
    grown = refl;
    limited = omega arith;
    idle = refl;
  })
  | inr refused ↦ rw refused tt
]

-- The three ways in which a byte of content is taken.
add_to_frame-Holds :
    (P : Parser → Type 0) (heap : Heap) (p : Parser) (byte : ℕ)
    → P (record p { state = wait_start; buffer = [] })
    → (length p.buffer ≤ frame_max_length
        → length p.buffer ≡ p.buffer_size
        → P (record p { buffer = p.buffer ++ byte ∷ []; buffer_size = p.buffer_size + 1024 }))
    → (length p.buffer ≤ frame_max_length
        → length p.buffer ≢ p.buffer_size
        → P (record p { buffer = p.buffer ++ byte ∷ [] }))
    → Holds P (frame_parser_add_to_frame heap p byte)
unfolding frame_parser_add_to_frame
add_to_frame-Holds P heap p byte reset grow append =
    elim (Bool-cases (ltb frame_max_length (length p.buffer))) [
      | inl long ↦ rw long reset
      | inr short ↦
          let bound : length p.buffer ≤ frame_max_length = ltb→le _ _ short in
          rw short (elim (Bool-cases (length p.buffer == p.buffer_size)) [
            | inl full ↦ rw full (elim (Bool-cases (heap.realloc (p.buffer_size + 1024))) [
              | inl given ↦ rw given (grow bound (eqb→eq _ _ full))
              | inr refused ↦ rw refused tt
            ])
            | inr room ↦ rw room (append bound (λ e. ground (arith, room)))
          ])
    ]

module _ (heap : Heap) (p : Parser) (byte : ℕ) (h : IsParser p) where
  length-pushed : length (p.buffer ++ byte ∷ []) ≡ length p.buffer + 1
  length-pushed = length-append p.buffer (byte ∷ [])

  in_frame-IsParser :
      p.state ≡ in_frame → PushedHolds IsParser (silent (frame_parser_add_to_frame heap p byte))
  in_frame-IsParser s = silent-Holds IsParser (frame_parser_add_to_frame heap p byte) (
      add_to_frame-Holds IsParser heap p byte
        (record {
          fits = omega arith;
          bounded = omega arith;
          grown = h.grown;
          limited = h.limited;
          idle = refl;
        })
        (λ b e. record {
          fits = omega (arith, length-pushed);
          bounded = omega (arith, length-pushed);
          grown = omega (arith, h.grown);
          limited = omega (arith, h.grown);
          idle = rw s tt;
        })
        (λ b e. record {
          fits = omega (arith, length-pushed, h.fits);
          bounded = omega (arith, length-pushed);
          grown = h.grown;
          limited = h.limited;
          idle = rw s tt;
        }))

  after_escape-IsParser :
      PushedHolds IsParser (silent (set_state in_frame (frame_parser_add_to_frame heap p byte)))
  after_escape-IsParser =
      set_state-Holds IsParser in_frame (frame_parser_add_to_frame heap p byte) (
        add_to_frame-Holds (λ q. IsParser (record q { state = in_frame })) heap p byte
          (record {
            fits = omega arith;
            bounded = omega arith;
            grown = h.grown;
            limited = h.limited;
            idle = tt;
          })
          (λ b e. record {
            fits = omega (arith, length-pushed);
            bounded = omega (arith, length-pushed);
            grown = omega (arith, h.grown);
            limited = omega (arith, h.grown);
            idle = tt;
          })
          (λ b e. record {
            fits = omega (arith, length-pushed, h.fits);
            bounded = omega (arith, length-pushed);
            grown = h.grown;
            limited = h.limited;
            idle = tt;
          }))

emptied :
    (p : Parser) (s : ParserState)
    → IsParser p
    → IsIdle s []
    → IsParser (record p { state = s; buffer = [] })
emptied p s h i = record {
  fits = omega arith;
  bounded = omega arith;
  grown = h.grown;
  limited = h.limited;
  idle = i;
}

moved :
    (p : Parser) (s : ParserState)
    → IsParser p
    → IsIdle s p.buffer
    → IsParser (record p { state = s })
moved p s h i = record {
  fits = h.fits;
  bounded = h.bounded;
  grown = h.grown;
  limited = h.limited;
  idle = i;
}

push_in-IsParser :
    (heap : Heap) (s : ParserState) (p : Parser) (byte : ℕ)
    → p.state ≡ s
    → IsParser p
    → PushedHolds IsParser (push_in heap s p byte)
unfolding push_in
push_in-IsParser heap wait_start p byte e h =
    let empty : p.buffer ≡ [] = rw e at h.idle in
    elim (Bool-cases (byte == marker_escape)) [
      | inl m ↦ rw m (moved p wait_start_escape h empty)
      | inr n ↦ rw n (elim (Bool-cases (byte == marker_start)) [
        | inl m ↦ rw m (moved p in_frame h tt)
        | inr k ↦ rw k h
      ])
    ]
push_in-IsParser heap wait_start_escape p byte e h = moved p wait_start h (rw e at h.idle)
push_in-IsParser heap in_frame p byte e h = elim (Bool-cases (byte == marker_escape)) [
  | inl m ↦ rw m (moved p after_escape h tt)
  | inr n ↦ rw n (elim (Bool-cases (byte == marker_start)) [
    | inl m ↦ rw m (emptied p p.state h (rw e tt))
    | inr k ↦ rw k (elim (Bool-cases (byte == marker_end)) [
      | inl m ↦ rw m (emptied p wait_start h refl)
      | inr l ↦ rw l (in_frame-IsParser heap p byte h e)
    ])
  ])
]
push_in-IsParser heap after_escape p byte e h = after_escape-IsParser heap p byte h

-- The invariant of the frame parser holds after any byte, unless the parser aborts: the buffer's
-- bytes fit its size, which is a multiple of 1024 and at most 131072, and nothing is left in the
-- buffer between frames.
pub push_byte-IsParser :
    (heap : Heap) (p : Parser) (byte : ℕ)
    → IsParser p
    → PushedHolds IsParser (frame_parser_push_byte heap p byte)
unfolding frame_parser_push_byte
push_byte-IsParser heap p byte h = push_in-IsParser heap p.state p byte refl h

and_then-Holds :
    (P : Parser → Type 0) (r : Pushed) (k : Parser → Pushed)
    → PushedHolds P r
    → ((q : Parser) → P q → PushedHolds P (k q))
    → PushedHolds P (and_then r k)
and_then-Holds P none k h g = tt
and_then-Holds P (some (p, ms)) k h g = last (k p) (g p h)
  where
    last : (r : Pushed) → PushedHolds P r → PushedHolds P (prepend ms r)
    last none i = tt
    last (some (q, ns)) i = i

pub push_buffer-IsParser :
    (heap : Heap) (p : Parser) (bytes : Bytes)
    → IsParser p
    → PushedHolds IsParser (frame_parser_push_buffer heap p bytes)
unfolding frame_parser_push_buffer
push_buffer-IsParser heap p [] h = h
push_buffer-IsParser heap p (byte ∷ bytes) h =
    and_then-Holds IsParser (frame_parser_push_byte heap p byte)
      (λ q. frame_parser_push_buffer heap q bytes) (push_byte-IsParser heap p byte h)
      (λ q i. push_buffer-IsParser heap q bytes i)

-- From initialisation on, whatever bytes are pushed, the parser meets the invariant unless it has
-- aborted.
pub init_then_push-IsParser :
    (heap : Heap) (bytes : Bytes)
    → PushedHolds IsParser
        (and_then (silent (frame_parser_init heap)) (λ p. frame_parser_push_buffer heap p bytes))
init_then_push-IsParser heap bytes =
    and_then-Holds IsParser (silent (frame_parser_init heap))
      (λ p. frame_parser_push_buffer heap p bytes)
      (silent-Holds IsParser (frame_parser_init heap) (frame_parser_init-IsParser heap))
      (λ p h. push_buffer-IsParser heap p bytes h)
