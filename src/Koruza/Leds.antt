-- ===== src/Koruza/Leds.antt =====
-- koruza.c: the LEDs show the received power. `double` and the LED library are parameters.
use koruza_driver.Prelude.{
  ℕ, zero, suc, ◌≡◌, refl, ap, List, [], ◌∷◌, Bool, false, ◌==◌, Option, some, none, if◌then◌else◌,
  ℤ, ◌≤ℤ◌, pos, negsuc, replicate, All, All-map, Bool-cases, inl, inr, arith,
}
use koruza_driver.Configuration.{Uci, uci_set_string, uci_set_int}
use koruza_driver.Koruza.Window.{FloatOps}
use koruza_driver.Koruza.Store.{koruza_uci_commit}

-- `log10`, `<` and `>=` on `double`.
pub record LedOps (D : Type 0) : Type 0 where
  pub log10 : D → D
  pub less : D → D → Bool
  pub at_least : D → D → Bool

-- What is used of `led_config`: the colours of channel 0, which are `NULL` where the library could
-- not be initialised, and its brightness.
pub record Leds : Type 0 where
  pub colors : Option (List ℕ)
  pub brightness : ℕ

abbrev pub led_count : ℕ
led_count = 25

pub record ColorMap : Type 0 where
  pub power : ℤ
  pub color : ℕ

-- -40 is `negsuc 39`.
abbrev pub led_color_map : List ColorMap
led_color_map =
    (record { power = negsuc 39; color = 0x00FF0000 })
    ∷ (record { power = negsuc 37; color = 0x00FF4500 })
    ∷ (record { power = negsuc 29; color = 0x00FF7F50 })
    ∷ (record { power = negsuc 24; color = 0x00FF00FF })
    ∷ (record { power = negsuc 19; color = 0x000000FF })
    ∷ (record { power = negsuc 14; color = 0x000045FF })
    ∷ (record { power = negsuc 9; color = 0x0000FFFF })
    ∷ (record { power = negsuc 4; color = 0x0000FF00 })
    ∷ []

-- The loop over the map: the colour of the last entry that is reached.
unfoldable pub color_loop : (ColorMap → Bool) → List ColorMap → ℕ → ℕ
color_loop reached [] color = color
color_loop reached (e ∷ es) color = color_loop reached es (if reached e then e.color else color)

module _ {D : Type 0} (o : FloatOps D) (k : LedOps D) where
  unfoldable pub rx_power_dbm : ℕ → D
  rx_power_dbm power =
      let dbm =
        o.mul (o.of_int (pos 10)) (k.log10 (o.div (o.of_int (pos power)) (o.of_int (pos 10000)))) in
      let least = o.of_int (negsuc 39) in if k.less dbm least then least else dbm

  unfoldable pub led_color : ℕ → ℕ
  led_color power =
      color_loop (λ e. k.at_least (rx_power_dbm power) (o.of_int e.power)) led_color_map 0x00FF0000

  -- `none` is a write through a null pointer. `leds` is `status.leds`; the rendering is left out.
  unfoldable pub koruza_update_sfp_leds : ℕ → ℕ → Leds → Option Leds
  koruza_update_sfp_leds power leds l = elim l.colors [
    | none ↦ none
    | some colors ↦ some (record {
      colors = some (replicate led_count (led_color power));
      brightness = if leds == 0 then 0 else 255;
    })
  ]

-- The stored state; `leds` is written as text and as a number.
unfoldable pub store_leds : {S : Type 0} → Uci S → ℕ → S → S
store_leds uci leds s =
    (koruza_uci_commit uci (
      uci_set_int uci (uci_set_string uci s "koruza.leds" (108 ∷ 101 ∷ 100 ∷ 115 ∷ []))
        "koruza.leds.status" (pos leds))).1

-- ---- the colour that is chosen

-- Behind an entry that is not reached, none is.
abbrev pub IsDownward : (ColorMap → Bool) → List ColorMap → Type 0
IsDownward reached [] = Unit
IsDownward reached (e ∷ es) =
    (reached e ≡ false → All (λ x. reached x ≡ false) es) × IsDownward reached es

abbrev pub count_reached : (ColorMap → Bool) → List ColorMap → ℕ
count_reached reached [] = 0
count_reached reached (e ∷ es) =
    let rest = count_reached reached es in if reached e then suc rest else rest

color_loop_none :
    (reached : ColorMap → Bool) (es : List ColorMap) (color : ℕ)
    → All (λ e. reached e ≡ false) es
    → (color_loop reached es color ≡ color) × (count_reached reached es ≡ 0)
unfolding color_loop
color_loop_none reached [] color h = (refl, refl)
color_loop_none reached (e ∷ es) color h = rw h.0 (color_loop_none reached es color h.1)

-- The colour of the entry that is the last of the `n` first ones, or a given one for none.
abbrev pub color_at : List ColorMap → ℕ → ℕ → ℕ
color_at es zero color = color
color_at [] (suc n) color = color
color_at (e ∷ es) (suc n) color = color_at es n e.color

color_loop-count :
    (reached : ColorMap → Bool) (es : List ColorMap) (color : ℕ)
    → IsDownward reached es
    → color_loop reached es color ≡ color_at es (count_reached reached es) color
unfolding color_loop
color_loop-count reached [] color h = refl
color_loop-count reached (e ∷ es) color h = elim (Bool-cases (reached e)) [
  | inl y ↦ rw y (color_loop-count reached es e.color h.1)
  | inr n ↦
      let (same, none_reached) = color_loop_none reached es color (h.0 n) in
      rw (n, same, none_reached) refl
]

abbrev IsAscending : List ColorMap → Type 0
IsAscending [] = Unit
IsAscending (e ∷ es) = All (λ x. e.power ≤ℤ x.power) es × IsAscending es

ascending-IsDownward :
    (reached : ℤ → Bool)
    → ((a b : ℤ) → a ≤ℤ b → reached a ≡ false → reached b ≡ false)
    → (es : List ColorMap) → IsAscending es
    → IsDownward (λ e. reached e.power) es
ascending-IsDownward reached falls [] h = tt
ascending-IsDownward reached falls (e ∷ es) h = (
  λ n. All-map (λ (x : ColorMap) (le : e.power ≤ℤ x.power). falls e.power x.power le n) es h.0,
  ascending-IsDownward reached falls es h.1,
)

-- The LEDs show the colour of the highest level of the map that the power reaches, and that of the
-- lowest if it reaches none, where a power that does not reach a level does not reach a higher
-- one; the brightness is full if and only if the LEDs are on, and all LEDs have the one colour.
pub leds_show_level :
    {D : Type 0} (o : FloatOps D) (k : LedOps D)
    → ((d : D) (a b : ℤ)
        → a ≤ℤ b
        → k.at_least d (o.of_int a) ≡ false
        → k.at_least d (o.of_int b) ≡ false)
    → (power leds : ℕ) (l : Leds) {colors : List ℕ} → l.colors ≡ some colors
    → let level =
        count_reached (λ e. k.at_least (rx_power_dbm o k power) (o.of_int e.power)) led_color_map in
      koruza_update_sfp_leds o k power leds l
      ≡ some (record {
        colors = some (replicate led_count (color_at led_color_map level 0x00FF0000));
        brightness = if leds == 0 then 0 else 255;
      })
unfolding koruza_update_sfp_leds led_color
leds_show_level o k falls power leds l h =
    rw (h, koruza_update_sfp_leds)
      (ap
        (λ (c : ℕ). some (record {
          colors = some (replicate led_count c);
          brightness = if leds == 0 then 0 else 255;
        }))
        (color_loop-count _ led_color_map 0x00FF0000 (
          ascending-IsDownward (λ a. k.at_least (rx_power_dbm o k power) (o.of_int a))
            (falls (rx_power_dbm o k power)) led_color_map (omega arith))))
