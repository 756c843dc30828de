-- ===== src/Frame/Escape.antt =====
-- What `frame_message` writes: start marker, the wire format with every marker escaped, end
-- marker; and how much of the buffer it needs.
use koruza_driver.Prelude.{
  ℕ, ◌+◌, ◌*◌, ◌≤◌, ◌<◌, ◌≡◌, refl, ap, ◌∙◌, inl, inr, [], ◌∷◌, ◌++◌, append_assoc, append-nil,
  Bytes, length, length-append, All, ltb, leb, le→ltb, eqb_refl, not, if◌then◌else◌, Bool-cases,
  Bool, true, false, Option, some, none, arith,
}
use koruza_driver.Message.{Message, message_serialized_size}
use koruza_driver.Message.Format.{IsTlv, wire, message_serialized_size-wire}
use koruza_driver.Message.Serialize.{message_serialize-wire}
use koruza_driver.Frame.{
  marker_start, marker_end, is_marker, escape_byte, frame_loop, framed, refused, aborted, closed,
  frame_serialized, frame_message,
}

-- The bytes with an escape marker in front of every marker.
abbrev pub escaped : Bytes → Bytes
escaped [] = []
escaped (b ∷ bs) = escape_byte b ++ escaped bs

-- The frame of a message.
abbrev pub frame_of : Message → Bytes
frame_of m = marker_start ∷ (escaped (wire m) ++ marker_end ∷ [])

length-escape_byte : (b : ℕ) → (1 ≤ length (escape_byte b)) × (length (escape_byte b) ≤ 2)
unfolding escape_byte
length-escape_byte b = elim (Bool-cases (is_marker b)) [
  | inl h ↦ rw h (omega arith)
  | inr h ↦ rw h (omega arith)
]

length-escaped :
    (bs : Bytes) → (length bs ≤ length (escaped bs)) × (length (escaped bs) ≤ 2 * length bs)
length-escaped [] = omega arith
length-escaped (b ∷ bs) =
    omega
      (arith, length-escaped bs, length-escape_byte b, length-append (escape_byte b) (escaped bs))

frame_loop-escaped :
    (size : ℕ) (bs frame : Bytes)
    → length frame + length (escaped bs) ≤ size
    → frame_loop size frame bs ≡ some (frame ++ escaped bs)
unfolding frame_loop
frame_loop-escaped size [] frame h = rw append-nil refl
frame_loop-escaped size (b ∷ bs) frame h =
    let parts = length-append (escape_byte b) (escaped bs) in
    let room : leb size (length frame) ≡ false = ground (arith, length-escape_byte b, parts) in
    rw room (
      frame_loop-escaped size bs (frame ++ escape_byte b)
        (omega (arith, length-append frame (escape_byte b), parts))
      ∙ ap some (append_assoc frame (escape_byte b) (escaped bs)))

frame_loop_sound :
    (size : ℕ) (bs frame : Bytes) {out : Bytes}
    → frame_loop size frame bs ≡ some out
    → length frame ≤ size + 1
    → (out ≡ frame ++ escaped bs) × (length out ≤ size + 1)
unfolding frame_loop
frame_loop_sound size [] frame e h = (ground (arith, append-nil frame), ground arith)
frame_loop_sound size (b ∷ bs) frame e h = elim (Bool-cases (leb size (length frame))) [
  | inl full ↦ cc (rw full at e)
  | inr room ↦
      let (same, short) =
        frame_loop_sound size bs (frame ++ escape_byte b) (rw room at e)
          (ground (arith, length-append frame (escape_byte b), length-escape_byte b)) in
      (same ∙ append_assoc frame (escape_byte b) (escaped bs), short)
]

-- ---- the whole function

-- With well-formed entries only the loop can fail, once there is room for `buffer_size + 2`.
frame_message-loop :
    (malloc : ℕ → Bool) (size : ℕ) (m : Message)
    → All IsTlv m
    → frame_message malloc size m ≡ (
        if ltb size (length (wire m) + 2)
        then refused
        else if not (malloc (length (wire m)))
        then aborted
        else closed (frame_loop size (marker_start ∷ []) (wire m)))
unfolding frame_message frame_serialized
frame_message-loop malloc size m h =
    rw
      (
        message_serialized_size-wire m h,
        message_serialize-wire m (length (wire m)) h,
        le→ltb (length (wire m)) (length (wire m)) (omega arith),
        eqb_refl (length (wire m)),
      )
      refl

closed_inv :
    (r : Option Bytes) {frame : Bytes}
    → closed r ≡ framed frame
    → (out : Bytes) × (r ≡ some out) × (frame ≡ out ++ marker_end ∷ [])
closed_inv none e = cc
closed_inv (some out) e = (out, refl, cc)

framed_inv :
    (malloc : ℕ → Bool) (size : ℕ) (m : Message) {frame : Bytes}
    → All IsTlv m
    → frame_message malloc size m ≡ framed frame
    → closed (frame_loop size (marker_start ∷ []) (wire m)) ≡ framed frame
framed_inv malloc size m h e = ground (arith, frame_message-loop malloc size m h)

-- A frame of well-formed entries is the start marker, the escaped wire format and the end marker,
-- and runs over the end of the buffer by two bytes at most.
pub frame_message_sound :
    (malloc : ℕ → Bool) (size : ℕ) (m : Message) {frame : Bytes}
    → All IsTlv m
    → frame_message malloc size m ≡ framed frame
    → (frame ≡ frame_of m) × (length frame ≤ size + 2)
frame_message_sound malloc size m h e =
    let (out, looped, is) = closed_inv _ (framed_inv malloc size m h e) in
    let (same, short) = frame_loop_sound size (wire m) (marker_start ∷ []) looped (omega arith) in
    (
      is ∙ ap (λ (b : Bytes). b ++ marker_end ∷ []) same,
      omega (arith, ap length is, length-append out (marker_end ∷ [])),
    )

-- Where the escaped bytes and the start marker fit the buffer, and the first estimate passes, the
-- frame is written in full.
frame_message_fits :
    (malloc : ℕ → Bool) (size : ℕ) (m : Message)
    → All IsTlv m
    → malloc (length (wire m)) ≡ true
    → length (wire m) + 2 ≤ size
    → 1 + length (escaped (wire m)) ≤ size
    → frame_message malloc size m ≡ framed (frame_of m)
frame_message_fits malloc size m h a estimate fits =
    frame_message-loop malloc size m h
    ∙ rw
        (
          le→ltb size (length (wire m) + 2) estimate,
          a,
          frame_loop-escaped size (wire m) (marker_start ∷ []) fits,
        )
        refl

length-frame_of : (m : Message) → length (frame_of m) ≡ length (escaped (wire m)) + 2
length-frame_of m = omega (arith, length-append (escaped (wire m)) (marker_end ∷ []))

-- A buffer of twice the serialised size and two bytes is enough: with memory, well-formed entries
-- are framed, and the frame stays inside the buffer.
pub frame_message_enough :
    (malloc : ℕ → Bool) (size : ℕ) (m : Message)
    → All IsTlv m
    → malloc (length (wire m)) ≡ true
    → 2 * message_serialized_size m + 2 ≤ size
    → (frame_message malloc size m ≡ framed (frame_of m)) × (length (frame_of m) ≤ size)
frame_message_enough malloc size m h a enough =
    let small : 2 * length (wire m) + 2 ≤ size = omega (arith, message_serialized_size-wire m h) in
    (
      frame_message_fits malloc size m h a (omega arith) (omega (arith, length-escaped (wire m))),
      omega (arith, length-frame_of m, length-escaped (wire m)),
    )

-- Whenever some byte of the wire format is a marker, there is a buffer size at which
-- `frame_message` succeeds and writes one byte behind the end of its buffer: the end marker is
-- written with no check.
pub frame_message_overflow :
    (malloc : ℕ → Bool) (m : Message)
    → All IsTlv m
    → malloc (length (wire m)) ≡ true
    → length (wire m) < length (escaped (wire m))
    → (size : ℕ) × (frame_message malloc size m ≡ framed (frame_of m))
      × (length (frame_of m) ≡ size + 1)
frame_message_overflow malloc m h a marked = (
  1 + length (escaped (wire m)),
  frame_message_fits malloc (1 + length (escaped (wire m))) m h a (omega arith) (omega arith),
  omega (arith, length-frame_of m),
)
