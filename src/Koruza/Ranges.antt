-- ===== src/Koruza/Ranges.antt =====
-- The handler of motor messages on any message, one that aborts it included: the ranges and what is
-- saved.
use koruza_driver.Prelude.{
  ℕ, List, false, ◌&&◌, ◌==◌, Option, some, none, Bytes, All, All-append, Bool-cases, inl, inr,
}
use koruza_driver.Message.{
  Message, Memory, Get, found, not_found, assert_failed, tlv_reply, tlv_command,
}
use koruza_driver.Message.Typed.{
  MotorPosition, EncoderValue, ErrorReport, message_tlv_get_reply, message_tlv_get_command,
}
use koruza_driver.Koruza.{
  Controller, Effect, Run, after, run_then, take_position, take_encoder, take_error, status_report,
  handle_reply, or_zero, dispatch, reply_status_report, reply_error_report,
  koruza_serial_motors_message_handler,
}
use koruza_driver.Koruza.Motors.{
  IsSafe, HasRanges, IsSafeRun, detect-IsSafeRun, take_position-IsSafeRun, handle_command-IsSafeRun,
}

-- `IsSafeRun`, for a run that may abort.
abbrev pub StaysSafe : ℕ → ℕ → Run → Type 0
StaysSafe rx ry none = Unit
StaysSafe rx ry (some (c, es)) = HasRanges rx ry c × All (IsSafe rx ry) es

safe_stays : (rx ry : ℕ) (r : Run) → IsSafeRun rx ry r → StaysSafe rx ry r
safe_stays rx ry none h = tt
safe_stays rx ry (some (c, es)) h = h

after-StaysSafe :
    (rx ry : ℕ) (es : List Effect) (r : Run)
    → All (IsSafe rx ry) es
    → StaysSafe rx ry r
    → StaysSafe rx ry (after es r)
after-StaysSafe rx ry es none h l = tt
after-StaysSafe rx ry es (some (c, fs)) h l = (l.0, All-append (IsSafe rx ry) es fs h l.1)

run_then-StaysSafe :
    (rx ry : ℕ) (r : Run) (k : Controller → Run)
    → StaysSafe rx ry r
    → ((d : Controller) → HasRanges rx ry d → StaysSafe rx ry (k d))
    → StaysSafe rx ry (run_then r k)
run_then-StaysSafe rx ry none k h l = tt
run_then-StaysSafe rx ry (some (c, es)) k h l = after-StaysSafe rx ry es (k c) h.1 (l c h.0)

take_position-StaysSafe :
    (rx ry : ℕ) (c : Controller) (r : Get MotorPosition)
    → HasRanges rx ry c
    → StaysSafe rx ry (take_position c r)
unfolding take_position
take_position-StaysSafe rx ry c (found p) h = take_position-IsSafeRun rx ry c (found p) h tt
take_position-StaysSafe rx ry c not_found h = (h, tt)
take_position-StaysSafe rx ry c assert_failed h = tt

take_encoder-StaysSafe :
    (rx ry : ℕ) (c : Controller) (r : Get EncoderValue)
    → HasRanges rx ry c
    → StaysSafe rx ry (take_encoder c r)
unfolding take_encoder
take_encoder-StaysSafe rx ry c (found p) h = (h, tt)
take_encoder-StaysSafe rx ry c not_found h = (h, tt)
take_encoder-StaysSafe rx ry c assert_failed h = tt

take_error-StaysSafe :
    (rx ry : ℕ) (c : Controller) (r : Get ErrorReport)
    → HasRanges rx ry c
    → StaysSafe rx ry (take_error c r)
unfolding take_error
take_error-StaysSafe rx ry c (found p) h = (h, tt)
take_error-StaysSafe rx ry c not_found h = (h, tt)
take_error-StaysSafe rx ry c assert_failed h = tt

module _ (mem : Memory) (before : ℕ → Bytes) (m : Message) (rx ry : ℕ) where
  handle_reply-StaysSafe :
      (c : Controller) (reply : ℕ)
      → HasRanges rx ry c
      → StaysSafe rx ry (handle_reply mem before m c reply)
  unfolding handle_reply status_report
  handle_reply-StaysSafe c reply h = elim (Bool-cases (reply == reply_status_report)) [
    | inl report ↦ rw report (
        run_then-StaysSafe rx ry _ _
          (safe_stays rx ry _ (detect-IsSafeRun mem rx ry (record c { wait_pending = false }) h))
          (λ d i.
            run_then-StaysSafe rx ry _ _ (take_position-StaysSafe rx ry d _ i)
              (λ e j. take_encoder-StaysSafe rx ry e _ j)))
    | inr other ↦ rw other (elim (Bool-cases (reply == reply_error_report)) [
      | inl error ↦ rw error (take_error-StaysSafe rx ry c _ h)
      | inr neither ↦ rw neither (h, tt)
    ])
  ]

  dispatch-StaysSafe :
      (c : Controller) (reply command : Option ℕ)
      → HasRanges rx ry c
      → StaysSafe rx ry (dispatch mem before m c reply command)
  dispatch-StaysSafe c none command h = tt
  dispatch-StaysSafe c (some reply) none h = tt
  dispatch-StaysSafe c (some reply) (some command) h =
      elim (Bool-cases (reply == 0 && command == 0)) [
        | inl neither ↦ rw neither (h, tt)
        | inr some_of_both ↦ rw some_of_both (
            run_then-StaysSafe rx ry _ _ (handle_reply-StaysSafe c reply h)
              (λ d i. safe_stays rx ry _ (handle_command-IsSafeRun mem rx ry d command i)))
      ]

  pub handler-StaysSafe :
      (c : Controller)
      → HasRanges rx ry c
      → StaysSafe rx ry (koruza_serial_motors_message_handler mem before m c)
  unfolding koruza_serial_motors_message_handler
  handler-StaysSafe c h =
      dispatch-StaysSafe c (or_zero (message_tlv_get_reply m (before tlv_reply)))
        (or_zero (message_tlv_get_command m (before tlv_command))) h
