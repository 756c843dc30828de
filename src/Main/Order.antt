-- ===== src/Main/Order.antt =====
-- The start-up order of main.c against a list of stages.
use koruza_driver.Prelude.{
  ◌≡◌, refl, ap, List, [], ◌∷◌, ◌++◌, Bool, true, false, ◌&&◌, if◌then◌else◌,
}
use koruza_driver.Main.{
  Call, add_ubus_to_loop, start_uci, start_serial, start_koruza, start_ubus, start_network,
  start_upgrade, run_loop, free_ubus, free_uci, end_loop, Startup, checked, connected_main,
}

-- The stages with their success, in the order of the start-up.
abbrev pub stages : Startup → List (Call × Bool)
stages s =
    (start_uci, s.uci)
    ∷ (start_serial, s.serial)
    ∷ (start_koruza, s.koruza)
    ∷ (start_ubus, s.ubus)
    ∷ (start_network, s.network)
    ∷ (start_upgrade, s.upgrade)
    ∷ []

-- All stages up to the first that fails.
abbrev pub reached : List (Call × Bool) → List Call
reached [] = []
reached ((call, ok) ∷ rest) = call ∷ (if ok then reached rest else [])

abbrev pub all_ok : List (Call × Bool) → Bool
all_ok [] = true
all_ok ((call, ok) ∷ rest) = ok && all_ok rest

-- The source's nesting of the checks.
abbrev run_stages : List (Call × Bool) → List Call → Bool × List Call
run_stages [] run = (true, run)
run_stages ((call, ok) ∷ rest) run = checked call ok (run_stages rest run)

run_stages-reached :
    (stages : List (Call × Bool)) (run : List Call)
    → run_stages stages run ≡ (all_ok stages, reached stages ++ (if all_ok stages then run else []))
run_stages-reached [] run = refl
run_stages-reached ((call, true) ∷ rest) run = ap (checked call true) (run_stages-reached rest run)
run_stages-reached ((call, false) ∷ rest) run = refl

-- The parts are started one after another up to the first that fails; the event loop is entered,
-- and what follows it is done, if and only if all of them could be started, and only then is the
-- result 0.
pub connected_main_lem :
    (s : Startup)
    → connected_main s ≡ (
      all_ok (stages s),
      add_ubus_to_loop
          ∷ (reached (stages s)
              ++ (if all_ok (stages s)
                  then run_loop ∷ free_ubus ∷ free_uci ∷ end_loop ∷ []
                  else [])),
    )
unfolding connected_main
connected_main_lem s =
    ap (λ (r : Bool × List Call). (r.0, add_ubus_to_loop ∷ r.1))
      (run_stages-reached (stages s) (run_loop ∷ free_ubus ∷ free_uci ∷ end_loop ∷ []))
