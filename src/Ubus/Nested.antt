-- ===== src/Ubus/Nested.antt =====
-- How the calls of libubox that build a reply of ubus.c open and close tables and arrays.
use mathlib.Core.Path.{subst}
use mathlib.Core.Option
use koruza_driver.Prelude.{
  ℕ, zero, suc, ◌+◌, ◌≡◌, refl, ap, ◌∙◌, List, [], ◌∷◌, ◌++◌, append_assoc, Bool-cases, Bool, true,
  false, not, ◌&&◌, leb, Option, some, none, Bytes, String, length,
}
use koruza_driver.Koruza.Window.{Item}
use koruza_driver.Koruza.Survey.{Survey, survey_bins}
use koruza_driver.Network.{NetworkDevice}
use koruza_driver.Ubus.Reply.{Add, add_field, open_table, open_array, close_table, close_array}
use koruza_driver.Upgrade.{UpgradeResult, returned, exited, executed, upgrade_start}
use koruza_driver.Ubus.State.{Daemon, alignment_variable_count}
use koruza_driver.Ubus.Status.{
  status_reply, status_adds, given, survey_reply, add_items, add_variables, add_peer, add_row,
  adds_from, blobmsg_add_accelerometer_statistics_item,
}
use koruza_driver.Prelude.{inl, inr, take, ◌%◌, ◌^◌, ◌==◌}
use koruza_driver.Ubus.{
  status_ok, answer_with, Outcome, outcome, alignment_loop, finish_alignment, Platform, parsed,
  ubus_move_motor, ubus_homing, ubus_reboot, ubus_firmware_upgrade, ubus_get_status,
  ubus_set_webcam_calibration, ubus_set_distance, ubus_get_survey, ubus_reset_survey,
  koruza_set_leds, leds_to, ubus_set_leds, ubus_upgrade, upgraded, align_to, move_to, calibrate_to,
  distance_to, ubus_set_alignment, koruza_alignment_policy, koruza_motor_policy,
  koruza_distance_policy, koruza_leds_policy, Method, move_motor, homing, reboot, firmware_upgrade,
  get_status, set_webcam_calibration, set_distance, get_survey, reset_survey, set_leds, upgrade,
  set_alignment, call,
}
use koruza_driver.Ubus.Tree.{row_body}

-- Whether calls nest, inside what is open: `true` is a table, whose attributes have names, and
-- `false` an array, whose attributes have none. A message is a table.
abbrev named : Option String → Bool → Bool
named none b = not b
named (some name) b = b

abbrev pub nested : List Add → Bool → List Bool → Bool
nested [] b outer = b && leb (length outer) 0
nested (add_field name f ∷ adds) b outer = named name b && nested adds b outer
nested (open_table name ∷ adds) b outer = named name b && nested adds true (b ∷ outer)
nested (open_array name ∷ adds) b outer = named name b && nested adds false (b ∷ outer)
nested (close_table ∷ adds) true (b ∷ outer) = nested adds b outer
nested (close_array ∷ adds) false (b ∷ outer) = nested adds b outer
nested (close_table ∷ adds) b outer = false
nested (close_array ∷ adds) b outer = false

-- Calls that may stand inside what is open, whatever follows.
abbrev Inside : List Add → Bool → Type 0
Inside adds b = (k : List Add) (outer : List Bool) → nested (adds ++ k) b outer ≡ nested k b outer

adds_from-Inside :
    (n i : ℕ) (body : ℕ → List Add) (b : Bool)
    → ((j : ℕ) → Inside (body j) b)
    → Inside (adds_from n i body) b
unfolding adds_from
adds_from-Inside zero i body b h k outer = refl
adds_from-Inside (suc n) i body b h k outer =
    ap (λ l. nested l b outer) (append_assoc (body i) (adds_from n (i + 1) body) k)
    ∙ h i (adds_from n (i + 1) body ++ k) outer
    ∙ adds_from-Inside n (i + 1) body b h k outer

array-Inside :
    (name : Option String) (adds : List Add) (b : Bool)
    → named name b ≡ true
    → Inside adds false
    → Inside (open_array name ∷ (adds ++ close_array ∷ [])) b
array-Inside name adds b e h k outer =
    ap (λ c. c && nested ((adds ++ close_array ∷ []) ++ k) false (b ∷ outer)) e
    ∙ ap (λ l. nested l false (b ∷ outer)) (append_assoc adds (close_array ∷ []) k)
    ∙ h (close_array ∷ k) (b ∷ outer)

add_row-Inside : (s : Survey) (row : ℕ) → Inside (add_row s row) false
add_row-Inside s row =
    array-Inside none (adds_from survey_bins 0 (row_body s row)) false refl
      (adds_from-Inside survey_bins 0 (row_body s row) false (λ j k outer. refl))

survey_reply-nested : (s : Survey) → nested (survey_reply s) true [] ≡ true
unfolding survey_reply adds_from
survey_reply-nested s =
    array-Inside (some "data") (adds_from survey_bins 0 (add_row s)) true refl
      (adds_from-Inside survey_bins 0 (add_row s) false (add_row-Inside s)) [] []

module _ {F : Type 0} (print_float : F → Bytes) where
  add_items-Inside : (items : List (Item F)) → Inside (add_items print_float items) false
  unfolding add_items
  add_items-Inside [] k outer = refl
  add_items-Inside (item ∷ items) k outer = add_items-Inside items k outer

  add_variables-Inside : (vs : List ℕ) → Inside (add_variables print_float vs) false
  unfolding add_variables
  add_variables-Inside [] k outer = refl
  add_variables-Inside (v ∷ vs) k outer = add_variables-Inside vs k outer

  axis-Inside :
      (items : List (Item F)) (name : String)
      → Inside (blobmsg_add_accelerometer_statistics_item print_float items name) true
  axis-Inside items name =
      array-Inside (some name) (add_items print_float items) true refl (add_items-Inside items)

  add_peer-Inside : (peer : Option NetworkDevice) → Inside (add_peer print_float peer) true
  add_peer-Inside none k outer = refl
  add_peer-Inside (some peer) k outer = refl

  status_adds-nested :
      {S : Type 0} (d : Daemon F S) (path interface ip_address : Bytes)
      → nested (status_adds print_float d path interface ip_address) true [] ≡ true
  unfolding status_adds
  status_adds-nested d path interface ip_address =
      axis-Inside d.accelerometer.x "x" _ _
      ∙ axis-Inside d.accelerometer.y "y" _ _
      ∙ axis-Inside d.accelerometer.z "z" _ _
      ∙ add_peer-Inside d.network.peer _ _
      ∙ add_variables-Inside d.alignment.variables _ _

module _ {B F D S : Type 0} (p : Platform B F D S) where
  abbrev NestedReply : Outcome F S → Type 0
  NestedReply r = nested r.reply true [] ≡ true

  abbrev NestedCall : Option (Outcome F S) → Type 0
  NestedCall none = Unit
  NestedCall (some r) = NestedReply r

  move_to-NestedReply : (d : Daemon F S) (x y z : Option B) → NestedReply (move_to p d x y z)
  move_to-NestedReply d (some x) (some y) (some z) = refl
  move_to-NestedReply d none y z = refl
  move_to-NestedReply d (some x) none z = refl
  move_to-NestedReply d (some x) (some y) none = refl

  calibrate_to-NestedReply : (d : Daemon F S) (x y : Option B) → NestedReply (calibrate_to p d x y)
  calibrate_to-NestedReply d (some x) (some y) = refl
  calibrate_to-NestedReply d none y = refl
  calibrate_to-NestedReply d (some x) none = refl

  distance_to-NestedReply : (d : Daemon F S) (x : Option B) → NestedReply (distance_to p d x)
  distance_to-NestedReply d (some x) = refl
  distance_to-NestedReply d none = refl

  map-NestedCall : (r : Option (Daemon F S)) → NestedCall (Option.map (outcome status_ok) r)
  map-NestedCall none = tt
  map-NestedCall (some d) = refl

  leds_to-NestedCall : (d : Daemon F S) (x : Option B) → NestedCall (leds_to p d x)
  leds_to-NestedCall d none = refl
  leds_to-NestedCall d (some x) =
      map-NestedCall (koruza_set_leds p d (p.blob.blobmsg_get_u8 x % 2 ^ 8))

  finish-NestedReply :
      (d : Daemon F S) (state : ℕ) (r : Option (List ℕ)) → NestedReply (finish_alignment d state r)
  finish-NestedReply d state none = refl
  finish-NestedReply d state (some vs) = elim (Bool-cases (length vs == alignment_variable_count)) [
    | inl y ↦ rw y refl
    | inr n ↦ rw n refl
  ]

  align_to-NestedReply : (d : Daemon F S) (x y : Option B) → NestedReply (align_to p d x y)
  align_to-NestedReply d (some x) (some y) =
      finish-NestedReply d (p.blob.blobmsg_get_u32 x) (alignment_loop p.blob (p.blob.elements y) [])
  align_to-NestedReply d none y = refl
  align_to-NestedReply d (some x) none = refl

  upgraded-NestedCall : (d : Daemon F S) (r : UpgradeResult) → NestedCall (upgraded p d r)
  upgraded-NestedCall d (returned n) = refl
  upgraded-NestedCall d exited = tt
  upgraded-NestedCall d executed = tt

  given-NestedCall :
      (d : Daemon F S) (path interface ip_address : Option Bytes)
      → NestedCall (Option.map (answer_with p d) (given p.print_float d path interface ip_address))
  given-NestedCall d (some path) (some interface) (some ip_address) =
      status_adds-nested p.print_float d path interface ip_address
  given-NestedCall d none interface ip_address = tt
  given-NestedCall d (some path) none ip_address = tt
  given-NestedCall d (some path) (some interface) none = tt

  call-NestedCall : (m : Method) (d : Daemon F S) (msg : B) → NestedCall (call p m d msg)
  unfolding call ubus_move_motor ubus_homing ubus_reboot ubus_firmware_upgrade ubus_get_status
      ubus_set_webcam_calibration ubus_set_distance ubus_get_survey ubus_reset_survey ubus_set_leds
      ubus_upgrade ubus_set_alignment status_reply
  call-NestedCall move_motor d msg =
      move_to-NestedReply d (parsed p koruza_motor_policy msg 0)
        (parsed p koruza_motor_policy msg 1) (parsed p koruza_motor_policy msg 2)
  call-NestedCall homing d msg = refl
  call-NestedCall reboot d msg = refl
  call-NestedCall firmware_upgrade d msg = refl
  call-NestedCall get_status d msg = given-NestedCall _ _ _ _
  call-NestedCall set_webcam_calibration d msg =
      calibrate_to-NestedReply d (parsed p (take 2 koruza_motor_policy) msg 0)
        (parsed p (take 2 koruza_motor_policy) msg 1)
  call-NestedCall set_distance d msg =
      distance_to-NestedReply d (parsed p koruza_distance_policy msg 0)
  call-NestedCall get_survey d msg = survey_reply-nested d.survey
  call-NestedCall reset_survey d msg = refl
  call-NestedCall set_leds d msg = leds_to-NestedCall d (parsed p koruza_leds_policy msg 0)
  call-NestedCall upgrade d msg = upgraded-NestedCall d (upgrade_start p.upgrading).0
  call-NestedCall set_alignment d msg =
      align_to-NestedReply d (parsed p koruza_alignment_policy msg 0)
        (parsed p koruza_alignment_policy msg 1)

  -- The reply to a call of whatever method is well nested: what it opens it closes, in the
  -- opposite order and as what it was opened, each attribute of a table has a name and no element
  -- of an array has one.
  pub reply_nested :
      (m : Method) (d : Daemon F S) (msg : B) (r : Outcome F S)
      → call p m d msg ≡ some r
      → nested r.reply true [] ≡ true
  reply_nested m d msg r e = subst NestedCall e (call-NestedCall m d msg)
