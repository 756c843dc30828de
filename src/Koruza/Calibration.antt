-- ===== src/Koruza/Calibration.antt =====
-- koruza.c: the calibration of the webcam, with its start-up and its setters.
--
-- `float` is a parameter: `FloatOps` and the conversions of `Casts`.
use koruza_driver.Prelude.{
  ℕ, ◌%◌, ◌^◌, [], ◌∷◌, Bool, true, not, ◌||◌, ◌==◌, Option, some, none, if◌then◌else◌, Bytes,
  String, ℤ, pos, negsuc, signed32, pattern32, scan_int,
}
use koruza_driver.Configuration.{
  Uci, uci_get_string, uci_get_int, uci_get_float, uci_set_int, uci_delete_ptr,
}
use koruza_driver.Koruza.Window.{FloatOps}
use koruza_driver.Koruza.Store.{koruza_uci_commit}

-- The conversion of a `float` to `uint32_t`, `atof`, and the default zoom of 0.4.
pub record Casts (F : Type 0) : Type 0 where
  pub to_word : F → ℕ
  pub atof : Bytes → F
  pub default_zoom : F

-- `struct koruza_camera_calibration`.
pub record Calibration (F : Type 0) : Type 0 where
  pub port : ℕ
  pub path : Option Bytes
  pub width : ℕ
  pub height : ℕ
  pub offset_x : ℕ
  pub offset_y : ℕ
  pub global_offset_x : ℕ
  pub global_offset_y : ℕ
  pub zoom_x : F
  pub zoom_y : F
  pub zoom_w : F
  pub zoom_h : F
  pub distance : ℕ

abbrev pub old_x : String
old_x = "koruza.@webcam[0].offset_x"

abbrev pub old_y : String
old_y = "koruza.@webcam[0].offset_y"

abbrev pub global_x : String
global_x = "koruza.@webcam[0].global_offset_x"

abbrev pub global_y : String
global_y = "koruza.@webcam[0].global_offset_y"

abbrev pub nonzero : ℤ → Bool
nonzero (pos n) = not (n == 0)
nonzero (negsuc n) = true

-- The `x` and the second `%d` of the format `%dx%d`.
abbrev pub scan_height : Bytes → ℕ → ℕ
scan_height [] height = height
scan_height (c ∷ s) height =
    if c == 120
    then (elim (scan_int s) [ none ↦ height | some (n, rest) ↦ pattern32 n ])
    else height

abbrev pub scan_width : Option (ℤ × Bytes) → ℕ → ℕ → ℕ × ℕ
scan_width none width height = (width, height)
scan_width (some (n, rest)) width height = (pattern32 n, scan_height rest height)

-- `sscanf` of the resolution of `mjpg-streamer`, if it is configured.
unfoldable pub scan_resolution : Option Bytes → ℕ → ℕ → ℕ × ℕ
scan_resolution none width height = (width, height)
scan_resolution (some s) width height = scan_width (scan_int s) width height

module _ {F : Type 0} (o : FloatOps F) (k : Casts F) where
  abbrev pub float : ℕ → F
  float w = o.of_int (pos w)

  unfoldable pub koruza_calibration_inverse_transform : Calibration F → Calibration F
  koruza_calibration_inverse_transform cal = record cal {
    global_offset_x =
        k.to_word
          (o.add (o.mul (float cal.offset_x) cal.zoom_w) (o.mul cal.zoom_x (float cal.width)));
    global_offset_y =
        k.to_word
          (o.add (o.mul (float cal.offset_y) cal.zoom_h) (o.mul cal.zoom_y (float cal.height)));
  }

  unfoldable pub koruza_calibration_forward_transform : Calibration F → Calibration F
  koruza_calibration_forward_transform cal = record cal {
    offset_x =
        k.to_word (
          o.div (o.sub (float cal.global_offset_x) (o.mul cal.zoom_x (float cal.width)))
            cal.zoom_w);
    offset_y = k.to_word (
        o.div (o.sub (float cal.global_offset_y) (o.mul cal.zoom_y (float cal.height))) cal.zoom_h);
  }

  module _ {S : Type 0} (uci : Uci S) where
    -- The result of a setter: whether it is 0, the calibration and the configuration.
    abbrev pub SetterResult : Type 0
    SetterResult = Bool × Calibration F × S

    abbrev pub with_commit : Calibration F → S → SetterResult
    with_commit cal s = let (ok, t) = koruza_uci_commit uci s in (ok, cal, t)

    unfoldable pub koruza_set_webcam_calibration : S → Calibration F → ℕ → ℕ → SetterResult
    koruza_set_webcam_calibration s cal x y =
        let c = koruza_calibration_inverse_transform (record cal { offset_x = x; offset_y = y }) in
        with_commit c (
          uci_set_int uci (uci_set_int uci s global_x (signed32 c.global_offset_x)) global_y
            (signed32 c.global_offset_y))

    unfoldable pub koruza_set_distance : S → Calibration F → ℕ → SetterResult
    koruza_set_distance s cal distance =
        with_commit (record cal { distance = distance })
          (uci_set_int uci s "koruza.@webcam[0].distance" (signed32 distance))

    -- What `koruza_init` reads of the webcam before it looks at the offsets.
    unfoldable pub read_calibration : S → Calibration F
    read_calibration s =
        let (width, height) =
          scan_resolution (uci_get_string uci s "mjpg-streamer.core.resolution")
            (pattern32 (uci_get_int uci s "koruza.@webcam[0].width" (pos 1280)))
            (pattern32 (uci_get_int uci s "koruza.@webcam[0].height" (pos 720))) in
        record {
          port = pattern32 (uci_get_int uci s "koruza.@webcam[0].port" (pos 8080)) % 2 ^ 16;
          path = uci_get_string uci s "koruza.@webcam[0].path";
          width = width;
          height = height;
          offset_x = 0;
          offset_y = 0;
          global_offset_x = 0;
          global_offset_y = 0;
          zoom_x = uci_get_float uci k.atof s "koruza.@webcam[0].zoom_x" k.default_zoom;
          zoom_y = uci_get_float uci k.atof s "koruza.@webcam[0].zoom_y" k.default_zoom;
          zoom_w = uci_get_float uci k.atof s "koruza.@webcam[0].zoom_w" k.default_zoom;
          zoom_h = uci_get_float uci k.atof s "koruza.@webcam[0].zoom_h" k.default_zoom;
          distance = pattern32 (uci_get_int uci s "koruza.@webcam[0].distance" (pos 0));
        }

    -- Old, zoomed offsets are converted, and their options deleted.
    unfoldable pub convert_old : S → Calibration F → ℤ → ℤ → Calibration F × S
    convert_old s cal x y =
        let (ok, c, t) = koruza_set_webcam_calibration s cal (pattern32 x) (pattern32 y) in
        (c, (koruza_uci_commit uci (uci_delete_ptr uci (uci_delete_ptr uci t old_x) old_y)).1)

    unfoldable pub read_global : S → Calibration F → Calibration F
    read_global s cal = koruza_calibration_forward_transform (record cal {
      global_offset_x = pattern32 (uci_get_int uci s global_x (pos 0));
      global_offset_y = pattern32 (uci_get_int uci s global_y (pos 0));
    })

    unfoldable pub initial_calibration : S → Calibration F × S
    initial_calibration s =
        let x = uci_get_int uci s old_x (pos 0) in
        let y = uci_get_int uci s old_y (pos 0) in
        if nonzero x || nonzero y
        then convert_old s (read_calibration s) x y
        else (read_global s (read_calibration s), s)
