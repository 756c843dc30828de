-- ===== src/Main/Connect.antt =====
-- The loop of main.c that connects to the bus.
use koruza_driver.Prelude.{ℕ, zero, suc, ◌+◌, ◌<◌, ◌≡◌, ap, ◌∙◌, Bool, true, false, some, arith}
use koruza_driver.Main.{connect_loop}

connect_loop-from :
    (connects : ℕ → Bool) (fuel i k : ℕ)
    → k < fuel
    → connects (k + i) ≡ true
    → ((j : ℕ) → j < k → connects (j + i) ≡ false)
    → connect_loop connects fuel i ≡ some (k + i)
unfolding connect_loop
connect_loop-from connects zero i k h y n = absurd (omega (arith, h))
connect_loop-from connects (suc fuel) i zero h y n =
    let here : connects i ≡ true = ap connects (omega arith) ∙ y in rw here (ap some (omega arith))
connect_loop-from connects (suc fuel) i (suc k) h y n =
    let here : connects i ≡ false = ap connects (omega arith) ∙ n 0 (omega arith) in
    rw here (
      connect_loop-from connects fuel (i + 1) k (omega (arith, h)) (ap connects (omega arith) ∙ y)
        (λ j b. ap connects (omega arith) ∙ n (suc j) (omega (arith, b)))
      ∙ ap some (omega arith))

-- If an attempt connects and none before it does, the loop ends with this attempt, having slept
-- once for each of those before it; as much fuel as there are attempts is enough.
pub connect_loop_ends :
    (connects : ℕ → Bool) (k fuel : ℕ)
    → connects k ≡ true
    → ((j : ℕ) → j < k → connects j ≡ false)
    → k < fuel
    → connect_loop connects fuel 0 ≡ some k
connect_loop_ends connects k fuel y n h =
    connect_loop-from connects fuel 0 k h (ap connects (omega arith) ∙ y)
      (λ j b. ap connects (omega arith) ∙ n j b)
    ∙ ap some (omega arith)
