-- ===== src/Upgrade/Child.antt =====
-- What the two sides of the fork in upgrade.c may do.
use koruza_driver.Prelude.{◌≡◌, refl, ap, ◌⊎◌, inl, inr, [], true, Bool-cases, pos, negsuc}
use koruza_driver.Upgrade.{
  fork_failed, parent, child, Upgrading, returned, exited, executed, upgrade_start, on_side,
  run_child,
}

child-result :
    (u : Upgrading)
    → ((run_child u).0 ≡ exited)
      ⊎ (((run_child u).0 ≡ executed) × (u.setsid ≡ true) × (u.chdir ≡ true) × (u.execl ≡ true))
child-result u = elim (Bool-cases u.setsid) [
  | inr n ↦ rw n (inl refl)
  | inl a ↦ rw a (elim (Bool-cases u.chdir) [
    | inr n ↦ rw n (inl refl)
    | inl b ↦ rw b (elim (Bool-cases u.execl) [
      | inr n ↦ rw n (inl refl)
      | inl c ↦ rw c (inr (refl, refl, refl, refl))
    ])
  ])
]

-- The child never returns to the daemon: it exits, or it is the script, and this only if all its
-- calls succeed. The parent and a failed fork return at once, with 0 and -1, and touch nothing of
-- the process.
pub upgrade_start_lem :
    (u : Upgrading)
    → (u.fork ≡ child
        → ((upgrade_start u).0 ≡ exited)
          ⊎ (((upgrade_start u).0 ≡ executed)
              × (u.setsid ≡ true)
              × (u.chdir ≡ true)
              × (u.execl ≡ true)))
      × (u.fork ≡ parent → upgrade_start u ≡ (returned (pos 0), []))
      × (u.fork ≡ fork_failed → upgrade_start u ≡ (returned (negsuc 0), []))
unfolding upgrade_start
upgrade_start_lem u =
    (λ e. rw e (child-result u), λ e. ap (λ f. on_side f u) e, λ e. ap (λ f. on_side f u) e)
