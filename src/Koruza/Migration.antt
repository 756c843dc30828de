-- ===== src/Koruza/Migration.antt =====
-- The conversion of old webcam offsets at start-up: it is done once, and the next start of the
-- daemon finds what it wrote.
use text.Mathlib.Text.{◌==◌}
use koruza_driver.Prelude.{
  ◌^◌, ◌<◌, ◌≡◌, refl, sym, ap, ◌∙◌, Bool, true, false, ◌||◌, String, ℤ, pos, signed32, pattern32,
  atoi,
}
use koruza_driver.Configuration.{
  IsInt, has_section, is_location, Found, string_of, or_default, no_string, Uci, UciLaws,
  uci_get_int, uci_set_int, uci_delete_ptr, uci_get_string,
}
use koruza_driver.Configuration.RoundTrip.{
  unless_failed-keeps, HasSection, get_int-set_int, get_int_cong, set_int_other, delete_ptr_other,
  delete_ptr_same, Known,
}
use koruza_driver.Koruza.Window.{FloatOps}
use koruza_driver.Koruza.Store.{koruza_uci_commit}
use koruza_driver.Koruza.Restart.{lookup-committed, text_ne, signed32-IsInt, pattern32-signed32}
use koruza_driver.Koruza.Calibration.{
  Casts, Calibration, old_x, old_y, global_x, global_y, nonzero,
  koruza_calibration_inverse_transform, koruza_calibration_forward_transform,
  koruza_set_webcam_calibration, read_calibration, convert_old, read_global, initial_calibration,
}

module _ {S : Type 0} (uci : Uci S) (laws : UciLaws uci) where
  lookup-commit :
      (s : S) (l : String)
      → is_location l ≡ true
      → ((t : S) → (uci.uci_commit t).0 ≡ true)
      → uci.uci_lookup_ptr (koruza_uci_commit uci s).1 l ≡ uci.uci_lookup_ptr s l
  unfolding koruza_uci_commit
  lookup-commit s l p c =
      unless_failed-keeps (λ (r : Bool × S). uci.uci_lookup_ptr r.1 l ≡ uci.uci_lookup_ptr s l)
        (uci.uci_lookup_ptr s "koruza") (false, s) (uci.uci_commit s) refl
        (laws.commit_keeps s l p (c s))

  -- The configuration before the offsets are deleted, and after.
  abbrev with_global : S → ℤ → ℤ → S
  with_global s a b =
      (koruza_uci_commit uci (uci_set_int uci (uci_set_int uci s global_x a) global_y b)).1

  abbrev without_old : S → S
  without_old s = uci_delete_ptr uci (uci_delete_ptr uci s old_x) old_y

  lookup-with_global :
      (s : S) (a b : ℤ) (l : String)
      → is_location l ≡ true
      → ((t : S) → (uci.uci_commit t).0 ≡ true)
      → (global_x == l) ≡ false
      → (global_y == l) ≡ false
      → uci.uci_lookup_ptr (with_global s a b) l ≡ uci.uci_lookup_ptr s l
  lookup-with_global s a b l p c x y =
      lookup-commit (uci_set_int uci (uci_set_int uci s global_x a) global_y b) l p c
      ∙ set_int_other uci laws (uci_set_int uci s global_x a) global_y l b refl p
          (text_ne global_y l y)
      ∙ set_int_other uci laws s global_x l a refl p (text_ne global_x l x)

  lookup-without_old :
      (s : S) (l : String)
      → is_location l ≡ true
      → (old_x == l) ≡ false
      → (old_y == l) ≡ false
      → uci.uci_lookup_ptr (without_old s) l ≡ uci.uci_lookup_ptr s l
  lookup-without_old s l p x y =
      delete_ptr_other uci laws (uci_delete_ptr uci s old_x) old_y l refl p (text_ne old_y l y)
      ∙ delete_ptr_other uci laws s old_x l refl p (text_ne old_x l x)

  -- A location that is as it was can still be looked up.
  still_Known :
      (s t : S) (l : String)
      → uci.uci_lookup_ptr t l ≡ uci.uci_lookup_ptr s l
      → Known uci laws s l
      → Known uci laws t l
  still_Known s t l e h i = h (sym e ∙ i)

  still_HasSection :
      (s t : S) (l : String)
      → uci.uci_lookup_ptr t l ≡ uci.uci_lookup_ptr s l
      → HasSection uci laws s l
      → HasSection uci laws t l
  still_HasSection s t l e h = ap has_section e ∙ h

  old_gone :
      (s : S)
      → HasSection uci laws s old_x
      → HasSection uci laws s old_y
      → (uci.uci_lookup_ptr (without_old s) old_x ≡ no_string)
        × (uci.uci_lookup_ptr (without_old s) old_y ≡ no_string)
  old_gone s x y =
      let apart = delete_ptr_other uci laws s old_x old_y refl refl (text_ne old_x old_y refl) in
      (
        delete_ptr_other uci laws (uci_delete_ptr uci s old_x) old_y old_x refl refl
              (text_ne old_y old_x refl)
            ∙ delete_ptr_same uci laws s old_x refl x,
        delete_ptr_same uci laws (uci_delete_ptr uci s old_x) old_y refl
            (still_HasSection s (uci_delete_ptr uci s old_x) old_y apart y),
      )

  get_x-with_global :
      (s : S) (a b default : ℤ)
      → ((t : S) → (uci.uci_commit t).0 ≡ true)
      → HasSection uci laws s global_x
      → IsInt a
      → uci_get_int uci (with_global s a b) global_x default ≡ a
  get_x-with_global s a b default c k i =
      get_int_cong uci laws (with_global s a b) (uci_set_int uci s global_x a) global_x default (
        lookup-commit (uci_set_int uci (uci_set_int uci s global_x a) global_y b) global_x refl c
        ∙ set_int_other uci laws (uci_set_int uci s global_x a) global_y global_x b refl refl
            (text_ne global_y global_x refl))
      ∙ get_int-set_int uci laws s global_x a default refl k i

  get_y-with_global :
      (s : S) (a b default : ℤ)
      → ((t : S) → (uci.uci_commit t).0 ≡ true)
      → HasSection uci laws s global_y
      → IsInt b
      → uci_get_int uci (with_global s a b) global_y default ≡ b
  get_y-with_global s a b default c k i =
      let t = uci_set_int uci s global_x a in
      get_int_cong uci laws (with_global s a b) (uci_set_int uci t global_y b) global_y default
        (lookup-commit (uci_set_int uci t global_y b) global_y refl c)
      ∙ get_int-set_int uci laws t global_y b default refl
          (still_HasSection s t global_y
            (set_int_other uci laws s global_x global_y a refl refl
              (text_ne global_x global_y refl))
            k)
          i

  get_int_none :
      (s : S) (l : String) (default : ℤ)
      → uci.uci_lookup_ptr s l ≡ no_string
      → uci_get_int uci s l default ≡ default
  unfolding uci_get_int uci_get_string
  get_int_none s l default e = ap (λ (f : Found). or_default atoi default (string_of f)) e

  -- The section of the old and the global options is there, the package can be looked up, and commits
  -- succeed.
  abbrev pub IsConvertible : S → Type 0
  IsConvertible s =
      HasSection uci laws s old_x
      × HasSection uci laws s old_y
      × HasSection uci laws s global_x
      × HasSection uci laws s global_y
      × Known uci laws s "koruza"
      × ((t : S) → (uci.uci_commit t).0 ≡ true)

  -- The configuration that a fresh context reads behind the conversion.
  abbrev converted : S → ℤ → ℤ → S
  converted s a b = uci.restarted (koruza_uci_commit uci (without_old (with_global s a b))).1

  lookup-converted :
      (s : S) (a b : ℤ) (l : String)
      → is_location l ≡ true
      → IsConvertible s
      → uci.uci_lookup_ptr (converted s a b) l
        ≡ uci.uci_lookup_ptr (without_old (with_global s a b)) l
  lookup-converted s a b l p w =
      lookup-committed uci laws (without_old (with_global s a b)) l p
        (still_Known s (without_old (with_global s a b)) "koruza"
          (lookup-without_old (with_global s a b) "koruza" refl refl refl
            ∙ lookup-with_global s a b "koruza" refl w.5 refl refl)
          w.4)
        w.5

  -- Behind the conversion the old offsets read as 0, and the global ones as what was written.
  converted-read :
      (s : S) (a b : ℤ)
      → IsConvertible s
      → IsInt a
      → IsInt b
      → (uci_get_int uci (converted s a b) old_x (pos 0) ≡ pos 0)
        × (uci_get_int uci (converted s a b) old_y (pos 0) ≡ pos 0)
        × (uci_get_int uci (converted s a b) global_x (pos 0) ≡ a)
        × (uci_get_int uci (converted s a b) global_y (pos 0) ≡ b)
  converted-read s a b w i j =
      let t = with_global s a b in
      let gone =
        old_gone t
          (still_HasSection s t old_x (lookup-with_global s a b old_x refl w.5 refl refl) w.0)
          (still_HasSection s t old_y (lookup-with_global s a b old_y refl w.5 refl refl) w.1) in
      let kept =
        λ (l : String) (p : is_location l ≡ true) (x : (old_x == l) ≡ false)
            (y : (old_y == l) ≡ false).
          get_int_cong uci laws (converted s a b) t l (pos 0)
            (lookup-converted s a b l p w ∙ lookup-without_old t l p x y) in
      (
        get_int_none (converted s a b) old_x (pos 0) (lookup-converted s a b old_x refl w ∙ gone.0),
        get_int_none (converted s a b) old_y (pos 0) (lookup-converted s a b old_y refl w ∙ gone.1),
        kept global_x refl refl refl ∙ get_x-with_global s a b (pos 0) w.5 w.2 i,
        kept global_y refl refl refl ∙ get_y-with_global s a b (pos 0) w.5 w.3 j,
      )

  module _ {F : Type 0} (o : FloatOps F) (k : Casts F) (word : (f : F) → k.to_word f < 2 ^ 32) where
    -- The calibration that the old offsets are converted to.
    abbrev calibrated : S → Calibration F
    calibrated s = koruza_calibration_inverse_transform o k (record (read_calibration o k uci s) {
      offset_x = pattern32 (uci_get_int uci s old_x (pos 0));
      offset_y = pattern32 (uci_get_int uci s old_y (pos 0));
    })

    abbrev saved : S → S
    saved s =
        with_global s (signed32 (calibrated s).global_offset_x)
          (signed32 (calibrated s).global_offset_y)

    start_converts :
        (s : S)
        → (nonzero (uci_get_int uci s old_x (pos 0)) || nonzero (uci_get_int uci s old_y (pos 0)))
          ≡ true
        → initial_calibration o k uci s
          ≡ (calibrated s, (koruza_uci_commit uci (without_old (saved s))).1)
    unfolding initial_calibration convert_old koruza_set_webcam_calibration
    start_converts s old = rw old refl

    start_keeps :
        (s : S)
        → uci_get_int uci s old_x (pos 0) ≡ pos 0
        → uci_get_int uci s old_y (pos 0) ≡ pos 0
        → initial_calibration o k uci s ≡ (read_global o k uci s (read_calibration o k uci s), s)
    unfolding initial_calibration
    start_keeps s x y = rw (x, y) refl

    calibrated-word :
        (s : S)
        → ((calibrated s).global_offset_x < 2 ^ 32) × ((calibrated s).global_offset_y < 2 ^ 32)
    unfolding koruza_calibration_inverse_transform
    calibrated-word s = (word _, word _)

    read_global_offsets :
        (s : S) (cal : Calibration F)
        → ((read_global o k uci s cal).global_offset_x
            ≡ pattern32 (uci_get_int uci s global_x (pos 0)))
          × ((read_global o k uci s cal).global_offset_y
              ≡ pattern32 (uci_get_int uci s global_y (pos 0)))
    unfolding read_global koruza_calibration_forward_transform
    read_global_offsets s cal = (refl, refl)

    -- A start with old offsets, of which one is not 0, converts them once: the next start on a
    -- fresh context has the global offsets that were computed, and changes the configuration no
    -- more. The section of the options is there, the package can be looked up, commits succeed, and a
    -- conversion of a `float` is a 32-bit word.
    pub conversion_lasts :
        (s : S)
        → IsConvertible s
        → (nonzero (uci_get_int uci s old_x (pos 0)) || nonzero (uci_get_int uci s old_y (pos 0)))
          ≡ true
        → (cal again : Calibration F) × (t : S) × (initial_calibration o k uci s ≡ (cal, t))
          × (initial_calibration o k uci (uci.restarted t) ≡ (again, uci.restarted t))
          × (again.global_offset_x ≡ cal.global_offset_x)
          × (again.global_offset_y ≡ cal.global_offset_y)
    conversion_lasts s w old =
        let r = uci.restarted (koruza_uci_commit uci (without_old (saved s))).1 in
        let (x, y) = calibrated-word s in
        let (no_x, no_y, new_x, new_y) =
          converted-read s (signed32 (calibrated s).global_offset_x)
            (signed32 (calibrated s).global_offset_y) w (signed32-IsInt _ x) (signed32-IsInt _ y) in
        let (as_x, as_y) = read_global_offsets r (read_calibration o k uci r) in
        (
          calibrated s,
          read_global o k uci r (read_calibration o k uci r),
          (koruza_uci_commit uci (without_old (saved s))).1,
          start_converts s old,
          start_keeps r no_x no_y,
          as_x ∙ ap pattern32 new_x ∙ pattern32-signed32 _ x,
          as_y ∙ ap pattern32 new_y ∙ pattern32-signed32 _ y,
        )
