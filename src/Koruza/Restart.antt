-- ===== src/Koruza/Restart.antt =====
-- A daemon that is started again finds the position that was saved last.
use koruza_driver.Prelude.{
  ℕ, ◌^◌, ◌<◌, ◌≡◌, ◌≢◌, refl, sym, ap, ◌∙◌, List, [], ◌∷◌, ◌++◌, Bool, true, false, not, ◌&&◌,
  ◌||◌, some, Bytes, String, eq_iff, ℤ, pos, neg, signed32, pattern32, leb_ℤ, Bool-cases, ltb,
  ltb→le, inl, inr, arith,
}
use text.Mathlib.Text.{◌==◌}
use koruza_driver.Message.{
  Message, Memory, found, not_found, tlv_reply, tlv_command, tlv_motor_position, tlv_encoder_value,
}
use koruza_driver.Message.Typed.{
  message_tlv_get_reply, message_tlv_get_command, message_tlv_get_motor_position,
  message_tlv_get_encoder_value, MotorPosition, EncoderValue,
}
use koruza_driver.Configuration.{
  IsInt, has_section, is_location, Uci, UciLaws, uci_get_int, uci_set_int,
}
use koruza_driver.Configuration.RoundTrip.{
  unless_failed-ne, HasSection, get_int-set_int, get_int_cong, set_int_other, Known,
}
use koruza_driver.Koruza.{
  Controller, last_x, last_y, Effect, sent, set_int, commit, in_range, save_position,
  reply_status_report, koruza_serial_motors_message_handler,
}
use koruza_driver.Koruza.Timers.{initial_range, initial_coordinate, MotorConfig, initial_motors}
use koruza_driver.Koruza.Store.{key_location, read_motors, koruza_uci_commit, perform}
use koruza_driver.Koruza.Report.{reported, restoring, status_report-restores}

-- An `int32_t` and its bit pattern.
pub signed32-IsInt : (w : ℕ) → w < 2 ^ 32 → IsInt (signed32 w)
signed32-IsInt w h = ground (arith, h)

pub pattern32-signed32 : (w : ℕ) → w < 2 ^ 32 → pattern32 (signed32 w) ≡ w
pattern32-signed32 w h = elim (Bool-cases (ltb w (2 ^ 31))) [
  | inl low ↦ rw low (omega (arith, h))
  | inr high ↦ rw high (omega (arith, h, ltb→le w (2 ^ 31) high))
]

not_both : (a b : Bool) → (a && b) ≡ true → (not a || not b) ≡ false
not_both true true h = refl
not_both true false h = cc
not_both false b h = cc

pub initial_coordinate_kept :
    (range x : ℕ) → in_range x range ≡ true → initial_coordinate range x ≡ x
unfolding initial_coordinate
initial_coordinate_kept range x h =
    rw
      (not_both (leb_ℤ (neg (signed32 range)) (signed32 x)) (leb_ℤ (signed32 x) (signed32 range)) h)
      refl

pub text_ne : (a b : String) → (a == b) ≡ false → a ≢ b
text_ne a b h e = cc ((eq_iff a b).1 e, h)

initial_motors_saved :
    (config : MotorConfig) (p : MotorPosition)
    → in_range p.x (initial_range config.range_x) ≡ true
    → in_range p.y (initial_range config.range_y) ≡ true
    → initial_motors (record config { last_x = p.x; last_y = p.y })
      ≡ record (initial_motors config) { x = p.x; y = p.y }
unfolding initial_motors
initial_motors_saved config p x y = λ i. record (initial_motors config) {
  x = initial_coordinate_kept (initial_range config.range_x) p.x x i;
  y = initial_coordinate_kept (initial_range config.range_y) p.y y i;
}

-- ---- saving

module _ {S : Type 0} (uci : Uci S) (laws : UciLaws uci) where
  -- The configuration with two coordinates written.
  abbrev with_saved : S → ℤ → ℤ → S
  with_saved s a b =
      uci_set_int uci (uci_set_int uci s (key_location last_x) a) (key_location last_y) b

  lookup-with_saved :
      (s : S) (a b : ℤ) (l : String)
      → (key_location last_x == l) ≡ false
      → (key_location last_y == l) ≡ false
      → is_location l ≡ true
      → uci.uci_lookup_ptr (with_saved s a b) l ≡ uci.uci_lookup_ptr s l
  lookup-with_saved s a b l h k p =
      set_int_other uci laws (uci_set_int uci s (key_location last_x) a) (key_location last_y) l b
        refl p (text_ne (key_location last_y) l k)
      ∙ set_int_other uci laws s (key_location last_x) l a refl p
          (text_ne (key_location last_x) l h)

  get_x-with_saved :
      (s : S) (a b default : ℤ)
      → HasSection uci laws s (key_location last_x)
      → IsInt a
      → uci_get_int uci (with_saved s a b) (key_location last_x) default ≡ a
  get_x-with_saved s a b default k i =
      get_int_cong uci laws (with_saved s a b) (uci_set_int uci s (key_location last_x) a)
        (key_location last_x) default
        (set_int_other uci laws (uci_set_int uci s (key_location last_x) a) (key_location last_y)
          (key_location last_x) b refl refl
          (text_ne (key_location last_y) (key_location last_x) refl))
      ∙ get_int-set_int uci laws s (key_location last_x) a default refl k i

  get_y-with_saved :
      (s : S) (a b default : ℤ)
      → HasSection uci laws s (key_location last_y)
      → IsInt b
      → uci_get_int uci (with_saved s a b) (key_location last_y) default ≡ b
  get_y-with_saved s a b default k i =
      get_int-set_int uci laws (uci_set_int uci s (key_location last_x) a) (key_location last_y) b
        default refl
        (ap has_section (
            set_int_other uci laws s (key_location last_x) (key_location last_y) a refl refl
              (text_ne (key_location last_x) (key_location last_y) refl))
          ∙ k)
        i

  -- What a fresh context finds after a commit that succeeds.
  pub lookup-committed :
      (s : S) (l : String)
      → is_location l ≡ true
      → Known uci laws s "koruza"
      → ((t : S) → (uci.uci_commit t).0 ≡ true)
      → uci.uci_lookup_ptr (uci.restarted (koruza_uci_commit uci s).1) l ≡ uci.uci_lookup_ptr s l
  unfolding koruza_uci_commit
  lookup-committed s l p k h =
      ap (λ (r : Bool × S). uci.uci_lookup_ptr (uci.restarted r.1) l)
        (unless_failed-ne (uci.uci_lookup_ptr s "koruza") (false, s) (uci.uci_commit s) k)
      ∙ laws.commit_restarted s l p (h s)

  perform-append :
      (es fs : List Effect) (s : S) → perform uci (es ++ fs) s ≡ perform uci fs (perform uci es s)
  unfolding perform
  perform-append [] fs s = refl
  perform-append (sent d m ∷ es) fs s = perform-append es fs s
  perform-append (set_int k v ∷ es) fs s =
      perform-append es fs (uci_set_int uci s (key_location k) v)
  perform-append (commit ∷ es) fs s = perform-append es fs (koruza_uci_commit uci s).1

  perform-restoring : (mem : Memory) (c : Controller) (s : S) → perform uci (restoring mem c) s ≡ s
  unfolding perform
  perform-restoring mem c s = elim (Bool-cases c.motors.connected) [
    | inl y ↦ rw (y, restoring) refl
    | inr n ↦ rw (n, restoring) refl
  ]

  perform-save_position :
      (c : Controller) (s : S)
      → in_range c.motors.x c.motors.range_x ≡ true
      → in_range c.motors.y c.motors.range_y ≡ true
      → perform uci (save_position c) s
        ≡ (koruza_uci_commit uci (with_saved s (signed32 c.motors.x) (signed32 c.motors.y))).1
  unfolding perform save_position
  perform-save_position c s h k = rw (h, k) refl

  -- The section of the motors is there, the package can be looked up, and commits succeed.
  abbrev pub IsWritable : S → Type 0
  IsWritable s =
      HasSection uci laws s (key_location last_x)
      × HasSection uci laws s (key_location last_y)
      × Known uci laws s "koruza"
      × ((t : S) → (uci.uci_commit t).0 ≡ true)

  lookup_restarted :
      (s : S) (x y : ℕ) (l : String)
      → is_location l ≡ true
      → IsWritable s
      → uci.uci_lookup_ptr
          (uci.restarted (koruza_uci_commit uci (with_saved s (signed32 x) (signed32 y))).1)
          l
        ≡ uci.uci_lookup_ptr (with_saved s (signed32 x) (signed32 y)) l
  lookup_restarted s x y l p w =
      lookup-committed (with_saved s (signed32 x) (signed32 y)) l p
        (λ e. w.2 (sym (lookup-with_saved s (signed32 x) (signed32 y) "koruza" refl refl refl) ∙ e))
        w.3

  read_motors_restarted :
      (s : S) (x y : ℕ)
      → IsWritable s
      → x < 2 ^ 32
      → y < 2 ^ 32
      → read_motors uci
          (uci.restarted (koruza_uci_commit uci (with_saved s (signed32 x) (signed32 y))).1)
        ≡ record (read_motors uci s) { last_x = x; last_y = y }
  unfolding read_motors
  read_motors_restarted s x y w h k =
      let t = with_saved s (signed32 x) (signed32 y) in
      let r = uci.restarted (koruza_uci_commit uci t).1 in
      let same = λ (l : String) (d : ℤ) (p : is_location l ≡ true).
        get_int_cong uci laws r t l d (lookup_restarted s x y l p w) in
      let old =
        λ (l : String) (d : ℤ) (p : is_location l ≡ true) (a : (key_location last_x == l) ≡ false)
            (b : (key_location last_y == l) ≡ false).
          same l d p
          ∙ get_int_cong uci laws t s l d (lookup-with_saved s (signed32 x) (signed32 y) l a b p) in
      λ i. record {
        range_x = pattern32 (old "koruza.@motors[0].range_x" (pos 25000) refl refl refl i);
        range_y = pattern32 (old "koruza.@motors[0].range_y" (pos 25000) refl refl refl i);
        last_x =
            (ap pattern32 (
                  same (key_location last_x) (pos 0) refl
                  ∙ get_x-with_saved s (signed32 x) (signed32 y) (pos 0) w.0 (signed32-IsInt x h))
                ∙ pattern32-signed32 x h)
              i;
        last_y =
            (ap pattern32 (
                  same (key_location last_y) (pos 0) refl
                  ∙ get_y-with_saved s (signed32 x) (signed32 y) (pos 0) w.1 (signed32-IsInt y k))
                ∙ pattern32-signed32 y k)
              i;
      }

  -- A message that reads as a status report with a position and an encoder value and without a
  -- command is handled so that a daemon that is started again, on a fresh context, begins with the
  -- `x` and `y` of that position, and with the rest of the motor state (also `z`) that it would have
  -- begun with before. The two coordinates are 32-bit words within the ranges, which are those of
  -- the configuration; the section of the motors is there, the package can be looked up, and commits
  -- succeed.
  pub report_survives_restart :
      (mem : Memory) (before : ℕ → Bytes) (m : Message) (c : Controller) (p : MotorPosition)
      (v : EncoderValue) (s : S)
      → message_tlv_get_reply m (before tlv_reply) ≡ found reply_status_report
      → message_tlv_get_command m (before tlv_command) ≡ not_found
      → message_tlv_get_motor_position m (before tlv_motor_position) ≡ found p
      → message_tlv_get_encoder_value m (before tlv_encoder_value) ≡ found v
      → c.motors.range_x ≡ initial_range (read_motors uci s).range_x
      → c.motors.range_y ≡ initial_range (read_motors uci s).range_y
      → (p.x < 2 ^ 32) × (p.y < 2 ^ 32)
      → in_range p.x c.motors.range_x ≡ true
      → in_range p.y c.motors.range_y ≡ true
      → IsWritable s
      → (d : Controller) × (es : List Effect) × (koruza_serial_motors_message_handler mem before m c
          ≡ some (d, es))
        × (initial_motors (read_motors uci (uci.restarted (perform uci es s)))
            ≡ record (initial_motors (read_motors uci s)) { x = p.x; y = p.y })
  report_survives_restart mem before m c p v s r k e o rx ry words x y w =
      let d = reported c p v in
      let es = restoring mem c ++ save_position d in
      let saved =
        perform-append (restoring mem c) (save_position d) s
        ∙ ap (perform uci (save_position d)) (perform-restoring mem c s)
        ∙ perform-save_position d s x y in
      (
        d,
        es,
        status_report-restores mem before m c p v r k e o,
        ap (λ (t : S). initial_motors (read_motors uci (uci.restarted t))) saved
            ∙ ap initial_motors (read_motors_restarted s p.x p.y w words.0 words.1)
            ∙ initial_motors_saved (read_motors uci s) p (rw (← rx) x) (rw (← ry) y),
      )
