-- ===== src/Koruza/Motors.antt =====
-- The handler of motor messages: when it returns, and what it saves.
use koruza_driver.Prelude.{
  ℕ, ◌≤◌, ◌≡◌, refl, List, [], ◌∷◌, Bool, true, false, ◌&&◌, ◌==◌, some, none, Bytes, ℤ, neg, ◌≤ℤ◌,
  signed32, leb, leb_ℤ, All, All-append, All-map, Bool-cases, eqb→eq, inl, inr, arith,
}
use koruza_driver.Message.{
  Message, Memory, Get, found, not_found, assert_failed, Tlv, tlv_reply, tlv_command,
  tlv_motor_position, tlv_encoder_value, tlv_error_report, message_tlv_get,
}
use koruza_driver.Message.Typed.{
  MotorPosition, EncoderValue, ErrorReport, get_map, message_tlv_get_reply, message_tlv_get_command,
  message_tlv_get_motor_position, message_tlv_get_encoder_value, message_tlv_get_error_report,
}
use koruza_driver.Koruza.{
  Controller, last_x, last_y, Effect, sent, set_int, commit, Run, after, run_then, in_range,
  detect_motors, save_position, take_position, take_encoder, take_error, status_report,
  handle_reply, handle_command, or_zero, dispatch, koruza_restore_motor, reply_status_report,
  reply_error_report, command_restore_motor, koruza_serial_motors_message_handler,
}

-- ---- what is saved

abbrev pub IsBetween : ℤ → ℕ → Type 0
IsBetween v range = (neg (signed32 range) ≤ℤ v) × (v ≤ℤ signed32 range)

-- An effect that writes no coordinate outside its range.
abbrev pub IsSafe : ℕ → ℕ → Effect → Type 0
IsSafe rx ry (sent d m) = Unit
IsSafe rx ry (set_int last_x v) = IsBetween v rx
IsSafe rx ry (set_int last_y v) = IsBetween v ry
IsSafe rx ry commit = Unit

abbrev pub HasRanges : ℕ → ℕ → Controller → Type 0
HasRanges rx ry c = (c.motors.range_x ≡ rx) × (c.motors.range_y ≡ ry)

-- A run that returns, with the ranges as they were.
abbrev pub IsSafeRun : ℕ → ℕ → Run → Type 0
IsSafeRun rx ry none = ⊥
IsSafeRun rx ry (some (c, es)) = HasRanges rx ry c × All (IsSafe rx ry) es

after-IsSafeRun :
    (rx ry : ℕ) (es : List Effect) (r : Run)
    → All (IsSafe rx ry) es
    → IsSafeRun rx ry r
    → IsSafeRun rx ry (after es r)
after-IsSafeRun rx ry es none h l = l
after-IsSafeRun rx ry es (some (c, fs)) h l = (l.0, All-append (IsSafe rx ry) es fs h l.1)

pub run_then-IsSafeRun :
    (rx ry : ℕ) (r : Run) (k : Controller → Run)
    → IsSafeRun rx ry r
    → ((d : Controller) → HasRanges rx ry d → IsSafeRun rx ry (k d))
    → IsSafeRun rx ry (run_then r k)
run_then-IsSafeRun rx ry none k h l = h
run_then-IsSafeRun rx ry (some (c, es)) k h l =
    let (same, safe) = h in after-IsSafeRun rx ry es (k c) safe (l c same)

leb_ℤ-le : (a b : ℤ) → leb_ℤ a b ≡ true → a ≤ℤ b
leb_ℤ-le a b h = ground (arith, h)

and_parts : (a b : Bool) → (a && b) ≡ true → (a ≡ true) × (b ≡ true)
and_parts true true h = (refl, refl)
and_parts true false h = cc
and_parts false b h = cc

in_range-IsBetween : (x range : ℕ) → in_range x range ≡ true → IsBetween (signed32 x) range
in_range-IsBetween x range h =
    let (low, high) =
      and_parts (leb_ℤ (neg (signed32 range)) (signed32 x)) (leb_ℤ (signed32 x) (signed32 range))
        h in
    (leb_ℤ-le (neg (signed32 range)) (signed32 x) low, leb_ℤ-le (signed32 x) (signed32 range) high)

save_position-IsSafe :
    (c : Controller) → All (IsSafe c.motors.range_x c.motors.range_y) (save_position c)
unfolding save_position
save_position-IsSafe c =
    elim (Bool-cases
      (in_range c.motors.x c.motors.range_x && in_range c.motors.y c.motors.range_y)) [
        | inl inside ↦
            let (x, y) =
              and_parts (in_range c.motors.x c.motors.range_x)
                (in_range c.motors.y c.motors.range_y) inside in
            rw inside (
              in_range-IsBetween c.motors.x c.motors.range_x x,
              (in_range-IsBetween c.motors.y c.motors.range_y y, (tt, tt)),
            )
        | inr outside ↦ rw outside tt
      ]

-- ---- when it returns

-- No TLV that the handler reads is longer than what it reads it into.
abbrev pub Fits : Tlv → Type 0
Fits t =
    (t.type ≡ tlv_reply → t.length ≤ 1)
    × (t.type ≡ tlv_command → t.length ≤ 1)
    × (t.type ≡ tlv_motor_position → t.length ≤ 12)
    × (t.type ≡ tlv_encoder_value → t.length ≤ 8)
    × (t.type ≡ tlv_error_report → t.length ≤ 4)

abbrev Answers {ℓ} : {A : Type ℓ} → Get A → Type 0
Answers (found a) = Unit
Answers not_found = Unit
Answers assert_failed = ⊥

leb-true : (a b : ℕ) → a ≤ b → leb a b ≡ true
leb-true a b h = ground arith

message_tlv_get-Answers :
    (m : Message) (type size : ℕ) (before : Bytes)
    → All (λ t. t.type ≡ type → t.length ≤ size) m
    → Answers (message_tlv_get m type before size)
unfolding message_tlv_get
message_tlv_get-Answers [] type size before h = tt
message_tlv_get-Answers (t ∷ m) type size before h = elim (Bool-cases (t.type == type)) [
  | inl same ↦ rw (same, leb-true t.length size (h.0 (eqb→eq t.type type same))) tt
  | inr other ↦ rw other (message_tlv_get-Answers m type size before h.1)
]

get_map-Answers {ℓ κ} :
    {A : Type ℓ} {B : Type κ} (f : A → B) (r : Get A) → Answers r → Answers (get_map f r)
get_map-Answers f (found a) h = tt
get_map-Answers f not_found h = tt
get_map-Answers f assert_failed h = h

pub detect-IsSafeRun :
    (mem : Memory) (rx ry : ℕ) (c : Controller)
    → HasRanges rx ry c
    → IsSafeRun rx ry (detect_motors mem c)
unfolding detect_motors koruza_restore_motor
detect-IsSafeRun mem rx ry c h = elim (Bool-cases c.motors.connected) [
  | inl y ↦ rw y (h, tt)
  | inr n ↦ rw n (h, (tt, tt))
]

pub take_position-IsSafeRun :
    (rx ry : ℕ) (c : Controller) (r : Get MotorPosition)
    → HasRanges rx ry c
    → Answers r
    → IsSafeRun rx ry (take_position c r)
unfolding take_position
take_position-IsSafeRun rx ry c (found p) h a =
    let d : Controller = record c { motors = record (c.motors) { x = p.x; y = p.y; z = p.z } } in
    (h, rw (← h.0, ← h.1) (save_position-IsSafe d))
take_position-IsSafeRun rx ry c not_found h a = (h, tt)
take_position-IsSafeRun rx ry c assert_failed h a = a

pub take_encoder-IsSafeRun :
    (rx ry : ℕ) (c : Controller) (r : Get EncoderValue)
    → HasRanges rx ry c
    → Answers r
    → IsSafeRun rx ry (take_encoder c r)
unfolding take_encoder
take_encoder-IsSafeRun rx ry c (found p) h a = (h, tt)
take_encoder-IsSafeRun rx ry c not_found h a = (h, tt)
take_encoder-IsSafeRun rx ry c assert_failed h a = a

pub take_error-IsSafeRun :
    (rx ry : ℕ) (c : Controller) (r : Get ErrorReport)
    → HasRanges rx ry c
    → Answers r
    → IsSafeRun rx ry (take_error c r)
unfolding take_error
take_error-IsSafeRun rx ry c (found p) h a = (h, tt)
take_error-IsSafeRun rx ry c not_found h a = (h, tt)
take_error-IsSafeRun rx ry c assert_failed h a = a

pub handle_command-IsSafeRun :
    (mem : Memory) (rx ry : ℕ) (c : Controller) (command : ℕ)
    → HasRanges rx ry c
    → IsSafeRun rx ry (handle_command mem c command)
unfolding handle_command koruza_restore_motor
handle_command-IsSafeRun mem rx ry c command h =
    elim (Bool-cases (command == command_restore_motor)) [
      | inl y ↦ rw y (h, (tt, tt))
      | inr n ↦ rw n (h, tt)
    ]

or_zero-some : (r : Get ℕ) → Answers r → (n : ℕ) × (or_zero r ≡ some n)
or_zero-some (found n) h = (n, refl)
or_zero-some not_found h = (0, refl)
or_zero-some assert_failed h = absurd h

pub returned :
    (rx ry : ℕ) (r : Run)
    → IsSafeRun rx ry r
    → (d : Controller) × (es : List Effect) × (r ≡ some (d, es))
      × HasRanges rx ry d
      × All (IsSafe rx ry) es
returned rx ry none h = absurd h
returned rx ry (some (d, es)) h = (d, es, refl, h.0, h.1)

module _ (mem : Memory) (before : ℕ → Bytes) (m : Message) (fits : All Fits m) where
  position-Answers : Answers (message_tlv_get_motor_position m (before tlv_motor_position))
  unfolding message_tlv_get_motor_position
  position-Answers =
      get_map-Answers _ _ (message_tlv_get-Answers m _ _ _ (All-map (λ t f. f.2) m fits))

  encoder-Answers : Answers (message_tlv_get_encoder_value m (before tlv_encoder_value))
  unfolding message_tlv_get_encoder_value
  encoder-Answers =
      get_map-Answers _ _ (message_tlv_get-Answers m _ _ _ (All-map (λ t f. f.3) m fits))

  error-Answers : Answers (message_tlv_get_error_report m (before tlv_error_report))
  unfolding message_tlv_get_error_report
  error-Answers =
      get_map-Answers _ _ (message_tlv_get-Answers m _ _ _ (All-map (λ t f. f.4) m fits))

  handle_reply-IsSafeRun :
      (rx ry : ℕ) (c : Controller) (reply : ℕ)
      → HasRanges rx ry c
      → IsSafeRun rx ry (handle_reply mem before m c reply)
  unfolding handle_reply status_report
  handle_reply-IsSafeRun rx ry c reply h = elim (Bool-cases (reply == reply_status_report)) [
    | inl report ↦ rw report (
        run_then-IsSafeRun rx ry _ _
          (detect-IsSafeRun mem rx ry (record c { wait_pending = false }) h)
          (λ d i.
            run_then-IsSafeRun rx ry _ _ (take_position-IsSafeRun rx ry d _ i position-Answers)
              (λ e j. take_encoder-IsSafeRun rx ry e _ j encoder-Answers)))
    | inr other ↦ rw other (elim (Bool-cases (reply == reply_error_report)) [
      | inl error ↦ rw error (take_error-IsSafeRun rx ry c _ h error-Answers)
      | inr neither ↦ rw neither (h, tt)
    ])
  ]

  dispatch-IsSafeRun :
      (rx ry : ℕ) (c : Controller) (reply command : ℕ)
      → HasRanges rx ry c
      → IsSafeRun rx ry (dispatch mem before m c (some reply) (some command))
  dispatch-IsSafeRun rx ry c reply command h = elim (Bool-cases (reply == 0 && command == 0)) [
    | inl neither ↦ rw neither (h, tt)
    | inr some_of_both ↦ rw some_of_both (
        run_then-IsSafeRun rx ry _ _ (handle_reply-IsSafeRun rx ry c reply h)
          (λ d i. handle_command-IsSafeRun mem rx ry d command i))
  ]

  -- If no TLV of the message is longer than what the handler of motor messages reads it into, no
  -- assertion fails in the reading of the message: the handler has a result, leaves the two ranges as
  -- they are, and what it writes to the configuration are only coordinates between minus and plus
  -- their range.
  pub handler_saves :
      (c : Controller)
      → (d : Controller) × (es : List Effect) × (koruza_serial_motors_message_handler mem before m c
          ≡ some (d, es))
        × HasRanges c.motors.range_x c.motors.range_y d
        × All (IsSafe c.motors.range_x c.motors.range_y) es
  unfolding koruza_serial_motors_message_handler message_tlv_get_reply message_tlv_get_command
  handler_saves c =
      let (reply, e) =
        or_zero-some (message_tlv_get_reply m (before tlv_reply))
          (get_map-Answers _ _ (message_tlv_get-Answers m _ _ _ (All-map (λ t f. f.0) m fits))) in
      let (command, o) =
        or_zero-some (message_tlv_get_command m (before tlv_command))
          (get_map-Answers _ _ (message_tlv_get-Answers m _ _ _ (All-map (λ t f. f.1) m fits))) in
      returned c.motors.range_x c.motors.range_y _ (
        rw (e, o)
          (dispatch-IsSafeRun c.motors.range_x c.motors.range_y c reply command (refl, refl)))
