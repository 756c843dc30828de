-- ===== src/Koruza/Connection.antt =====
-- The ranges of the motors: what the timers keep, and what they are from start-up on.
use koruza_driver.Prelude.{ℕ, ◌≤◌, ◌<◌, ◌^◌, inl, inr, Bool, not, if_holds, Bool-cases, arith}
use koruza_driver.Koruza.{Controller}
use koruza_driver.Koruza.Timers.{
  initial_range, start_wait, update_connections, koruza_timer_wait_reply_handler,
}
use koruza_driver.Koruza.Motors.{HasRanges}

pub timer-HasRanges :
    (rx ry : ℕ) (c : Controller)
    → HasRanges rx ry c
    → HasRanges rx ry (koruza_timer_wait_reply_handler c)
unfolding koruza_timer_wait_reply_handler
timer-HasRanges rx ry c h = elim (Bool-cases c.motors.connected) [ inl y ↦ rw y h | inr n ↦ rw n h ]

pub request-HasRanges :
    (a b : Bool) (rx ry : ℕ) (c : Controller)
    → HasRanges rx ry c
    → HasRanges rx ry (start_wait (update_connections a b c))
unfolding start_wait update_connections
request-HasRanges a b rx ry c h = if_holds (HasRanges rx ry) (not c.wait_pending) _ _ h h

-- A range that is a positive `int32_t`.
abbrev pub IsRange : ℕ → Type 0
IsRange r = (1 ≤ r) × (r < 2 ^ 31)

pub initial_range-IsRange : (r : ℕ) → r < 2 ^ 32 → IsRange (initial_range r)
unfolding initial_range
initial_range-IsRange r h = ground (arith, h)
