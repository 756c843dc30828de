-- ===== src/Koruza/Silence.antt =====
-- The connection of the motors, and the wait for a reply, in the handlers of the timers.
use koruza_driver.Prelude.{
  ◌≡◌, refl, inl, inr, Bool, true, false, not, if◌then◌else◌, Bool-cases, if_holds,
}
use koruza_driver.Koruza.{Controller}
use koruza_driver.Koruza.Timers.{update_connections, start_wait, koruza_timer_wait_reply_handler}

-- The motors count as disconnected.
abbrev pub IsDisconnected : Controller → Type 0
IsDisconnected c = c.motors.connected ≡ false

-- The timers, on a controller that is connected or not.
pub wait_disconnects : (c : Controller) → IsDisconnected (koruza_timer_wait_reply_handler c)
unfolding koruza_timer_wait_reply_handler
wait_disconnects c = elim (Bool-cases c.motors.connected) [ inl y ↦ rw y refl | inr n ↦ rw n refl ]

pub request_waits :
    (a b : Bool) (c : Controller) → (start_wait (update_connections a b c)).wait_pending ≡ true
unfolding start_wait update_connections
request_waits a b c = elim (Bool-cases c.wait_pending) [ inl y ↦ rw y refl | inr n ↦ rw n refl ]

if_false : (a b : Bool) → b ≡ false → (if a then b else false) ≡ false
if_false true b h = h
if_false false b h = refl

pub request-IsDisconnected :
    (a b : Bool) (c : Controller)
    → IsDisconnected c
    → IsDisconnected (start_wait (update_connections a b c))
unfolding start_wait update_connections
request-IsDisconnected a b c h =
    if_holds IsDisconnected (not c.wait_pending) _ _ (if_false a c.motors.connected h)
      (if_false a c.motors.connected h)
