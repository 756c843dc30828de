-- ===== src/Koruza/Survey.antt =====
-- koruza.c: the survey, a table of the received power at the positions of the motors.
use koruza_driver.Prelude.{
  put_at, length-put_at, get-put_at, get-put_at_other, All-put_at, All-get_or, ℕ, zero, suc, ◌+◌,
  ◌-◌, ◌*◌, ◌/◌, ◌≤◌, ◌<◌, ◌≡◌, ◌≢◌, refl, ap, ◌∙◌, List, [], true, not, if◌then◌else◌, lt→ltb,
  le→ltb, sub_ℕ, ◌^◌, ◌%◌, leb, length, replicate, length-replicate, All-replicate, get_or, All,
  if_holds, Bool-cases, eqb→eq, ◌==◌, inl, inr, ℤ, pos, negsuc, signed32, pattern32, div_c, mul_ℕ,
  add_ℕ, arith,
}
use koruza_driver.Koruza.{Controller}

-- `SURVEY_BINS` and `SURVEY_COVERAGE`.
abbrev pub survey_bins : ℕ
survey_bins = 100

abbrev pub survey_coverage : ℕ
survey_coverage = 10000

abbrev pub Survey : Type 0
Survey = List (List ℕ)

-- The two tests on a bin that is out of range.
abbrev pub clamp : ℤ → ℕ
clamp (pos n) = if leb survey_bins n then survey_bins - 1 else n
clamp (negsuc n) = 0

-- The bin of a coordinate; the product is an `int`, which wraps around.
unfoldable pub survey_bin : ℕ → ℕ
survey_bin x = clamp (
    add_ℕ (div_c (signed32 (pattern32 (mul_ℕ (signed32 x) (survey_bins / 2)))) survey_coverage)
      (survey_bins / 2))

unfoldable pub koruza_survey_reset : Survey
koruza_survey_reset = replicate survey_bins (replicate survey_bins 0)

-- The element `data[row][column]`.
abbrev pub cell : Survey → ℕ → ℕ → ℕ
cell s row column = get_or (get_or s row []) column 0

unfoldable pub koruza_timer_survey_handler : Controller → Survey → Survey
koruza_timer_survey_handler c s =
    if not c.motors.connected
    then s
    else (let x_bin = survey_bin c.motors.x in
        let y_bin = survey_bin c.motors.y in
        put_at s y_bin (put_at (get_or s y_bin []) x_bin c.rx_power))

-- ---- bins

clamp_bound : (v : ℤ) → clamp v < survey_bins
clamp_bound (pos n) = ground arith
clamp_bound (negsuc n) = omega arith

pub survey_bin_bound : (x : ℕ) → survey_bin x < survey_bins
unfolding survey_bin
survey_bin_bound x = clamp_bound (
    add_ℕ (div_c (signed32 (pattern32 (mul_ℕ (signed32 x) (survey_bins / 2)))) survey_coverage)
      (survey_bins / 2))

signed_pos : (n : ℕ) → n < 2 ^ 31 → signed32 (pattern32 (pos n)) ≡ pos n
signed_pos n h = rw (lt→ltb (n % 2 ^ 32) (2 ^ 31) (omega (arith, h))) (ap pos (omega (arith, h)))

signed_negsuc : (n : ℕ) → n < 2 ^ 31 → signed32 (pattern32 (negsuc n)) ≡ negsuc n
signed_negsuc n h =
    rw (le→ltb (2 ^ 32 - 1 - n % 2 ^ 32) (2 ^ 31) (omega (arith, h))) (ap negsuc (omega (arith, h)))

signed_small : (n : ℕ) → n < 2 ^ 31 → signed32 n ≡ pos n
signed_small n h = rw (lt→ltb n (2 ^ 31) h) refl

above : (q : ℕ) → q < 50 → clamp (add_ℕ (pos q) 50) ≡ 50 + q
above q h = ground (arith, h)

below : (q : ℕ) → q ≤ 50 → clamp (add_ℕ (sub_ℕ 0 q) 50) ≡ 50 - q
below zero h = refl
below (suc q) h = ground (arith, h)

negative_product :
    (n : ℕ)
    → n < survey_coverage
    → signed32 (pattern32 (mul_ℕ (signed32 (pattern32 (negsuc n))) 50)) ≡ negsuc (n * 50 + 49)
negative_product n h =
    ap (λ (v : ℤ). signed32 (pattern32 (mul_ℕ v 50))) (signed_negsuc n (omega (arith, h)))
    ∙ ap (λ (v : ℤ). signed32 (pattern32 v)) (negated n)
    ∙ signed_negsuc (n * 50 + 49) (omega (arith, h))
  where
    negated : (n : ℕ) → sub_ℕ 0 (suc n * 50) ≡ negsuc (n * 50 + 49)
    negated n = ground arith

-- A coordinate from 0 to 9999 is in the bin as far above bin 50 as it has whole 200 units, and its
-- complement, from -1 to -10000, in the bin as far below as it has whole 200 units.
pub survey_bin_lem :
    (n : ℕ)
    → n < survey_coverage
    → (survey_bin n ≡ 50 + n / 200) × (survey_bin (pattern32 (negsuc n)) ≡ 50 - suc n / 200)
unfolding survey_bin
survey_bin_lem n h = (
  rw (signed_small n (omega (arith, h)), signed_pos (n * 50) (omega (arith, h)))
      (above (n * 50 / 10000) (omega (arith, h)) ∙ omega (arith, h)),
  ap (λ (v : ℤ). clamp (add_ℕ (div_c v 10000) 50)) (negative_product n h)
      ∙ below (suc (n * 50 + 49) / 10000) (omega (arith, h))
      ∙ omega (arith, h),
)

-- ---- the table

-- A table of `survey_bins` rows and columns.
abbrev pub IsSurvey : Survey → Type 0
IsSurvey s = (length s ≡ survey_bins) × All (λ (row : List ℕ). length row ≡ survey_bins) s

abbrev IsRow : List ℕ → Type 0
IsRow row = length row ≡ survey_bins

pub reset-IsSurvey : IsSurvey koruza_survey_reset
unfolding koruza_survey_reset
reset-IsSurvey = (
  length-replicate survey_bins (replicate survey_bins 0),
  All-replicate IsRow survey_bins (replicate survey_bins 0) (length-replicate survey_bins 0),
)

-- An assignment to `data[y][x]`.
abbrev put_cell : Survey → ℕ → ℕ → ℕ → Survey
put_cell s y x v = put_at s y (put_at (get_or s y []) x v)

get-IsRow : (s : Survey) (y : ℕ) → IsSurvey s → y < survey_bins → IsRow (get_or s y [])
get-IsRow s y h b = All-get_or IsRow s y [] h.1 (omega (arith, h.0, b))

put_cell_here :
    (s : Survey) (y x v : ℕ)
    → IsSurvey s
    → y < survey_bins
    → x < survey_bins
    → cell (put_cell s y x v) y x ≡ v
put_cell_here s y x v h b a =
    ap (λ (row : List ℕ). get_or row x 0)
      (get-put_at s y (put_at (get_or s y []) x v) [] (omega (arith, h.0, b)))
    ∙ get-put_at (get_or s y []) x v 0 (omega (arith, get-IsRow s y h b, a))

put_cell_row :
    (s : Survey) (y x v column : ℕ)
    → IsSurvey s
    → y < survey_bins
    → x ≢ column
    → cell (put_cell s y x v) y column ≡ cell s y column
put_cell_row s y x v column h b other =
    ap (λ (row : List ℕ). get_or row column 0)
      (get-put_at s y (put_at (get_or s y []) x v) [] (omega (arith, h.0, b)))
    ∙ get-put_at_other (get_or s y []) x column v 0 other

put_cell_elsewhere :
    (s : Survey) (y x v row column : ℕ)
    → IsSurvey s
    → y < survey_bins
    → ¬ ((y ≡ row) × (x ≡ column))
    → cell (put_cell s y x v) row column ≡ cell s row column
put_cell_elsewhere s y x v row column h b other = elim (Bool-cases (y == row)) [
  | inl same ↦
      let e = eqb→eq y row same in rw (← e) (put_cell_row s y x v column h b (λ i. other (e, i)))
  | inr differs ↦
      ap (λ (r : List ℕ). get_or r column 0)
        (get-put_at_other s y row (put_at (get_or s y []) x v) [] (ground (arith, differs)))
]

put_cell-IsSurvey :
    (s : Survey) (y x v : ℕ) → IsSurvey s → y < survey_bins → IsSurvey (put_cell s y x v)
put_cell-IsSurvey s y x v h b = (
  length-put_at s y (put_at (get_or s y []) x v) ∙ h.0,
  All-put_at IsRow s y (put_at (get_or s y []) x v) h.1
      (length-put_at (get_or s y []) x v ∙ get-IsRow s y h b),
)

pub timer-IsSurvey :
    (c : Controller) (s : Survey) → IsSurvey s → IsSurvey (koruza_timer_survey_handler c s)
unfolding koruza_timer_survey_handler
timer-IsSurvey c s h = if_holds IsSurvey (not c.motors.connected) _ _ h (
    put_cell-IsSurvey s (survey_bin c.motors.y) (survey_bin c.motors.x) c.rx_power h
      (survey_bin_bound c.motors.y))

-- While the motors are connected, the survey timer writes the received power into the cell of the
-- bins of the two coordinates, keeps every other cell, and keeps the shape of the table.
pub survey_records :
    (c : Controller) (s : Survey)
    → c.motors.connected ≡ true
    → IsSurvey s
    → (cell (koruza_timer_survey_handler c s) (survey_bin c.motors.y) (survey_bin c.motors.x)
        ≡ c.rx_power)
      × ((row column : ℕ)
          → ¬ ((survey_bin c.motors.y ≡ row) × (survey_bin c.motors.x ≡ column))
          → cell (koruza_timer_survey_handler c s) row column ≡ cell s row column)
      × IsSurvey (koruza_timer_survey_handler c s)
unfolding koruza_timer_survey_handler
survey_records c s h k =
    let y = survey_bin_bound c.motors.y in
    let x = survey_bin_bound c.motors.x in
    rw h (
      put_cell_here s (survey_bin c.motors.y) (survey_bin c.motors.x) c.rx_power k y x,
      λ row column other.
          put_cell_elsewhere s (survey_bin c.motors.y) (survey_bin c.motors.x) c.rx_power row column
            k y other,
      put_cell-IsSurvey s (survey_bin c.motors.y) (survey_bin c.motors.x) c.rx_power k y,
    )
