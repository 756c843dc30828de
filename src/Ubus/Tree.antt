-- ===== src/Ubus/Tree.antt =====
-- The reply of `ubus_get_survey` of ubus.c as a tree of attributes.
use mathlib.Core.Path.{subst}
use koruza_driver.Prelude.{
  ℕ, suc, ◌+◌, ◌≡◌, refl, ap, ◌∙◌, List, [], ◌∷◌, ◌++◌, append_assoc, ◌<◌, arith, Option, some,
  none, String, length, get_or, All-get_or,
}
use koruza_driver.Koruza.Survey.{Survey, IsSurvey, survey_bins, survey_coverage, cell}
use koruza_driver.Ubus.Reply.{
  Field, u16_field, Add, add_field, open_table, open_array, close_table, close_array,
}
use koruza_driver.Ubus.Status.{survey_reply, add_row, adds_from}

-- A forest of attributes: what comes first, and what follows it on the same level.
pub data Forest : Type 0 where
  done : Forest
  leaf : Option String → Field → Forest → Forest
  table array : Option String → Forest → Forest → Forest

-- The calls that add a forest, before the calls `k`.
abbrev pub render : Forest → List Add → List Add
render done k = k
render (leaf name f t) k = add_field name f ∷ render t k
render (table name inner t) k = open_table name ∷ render inner (close_table ∷ render t k)
render (array name inner t) k = open_array name ∷ render inner (close_array ∷ render t k)

abbrev row_forest : List ℕ → Forest
row_forest [] = done
row_forest (n ∷ ns) = leaf none (u16_field n) (row_forest ns)

abbrev rows_forest : Survey → Forest
rows_forest [] = done
rows_forest (row ∷ rows) = array none (row_forest row) (rows_forest rows)

-- The reply with the survey: its extent, its number of bins, and its rows, in order.
abbrev pub survey_forest : Survey → Forest
survey_forest s =
    table (some "coverage")
      (leaf (some "x") (u16_field survey_coverage)
        (leaf (some "y") (u16_field survey_coverage) done))
      (table (some "bins")
        (leaf (some "x") (u16_field survey_bins) (leaf (some "y") (u16_field survey_bins) done))
        (array (some "data") (rows_forest s) done))

abbrev flat_map : {A : Type 0} → (A → List Add) → List A → List Add
flat_map emit [] = []
flat_map emit (x ∷ xs) = emit x ++ flat_map emit xs

-- A loop on the indices of an array is a walk along the array.
adds_from-flat_map :
    {A : Type 0} (emit : A → List Add) (d : A) (xs : List A) (i : ℕ) (body : ℕ → List Add)
    → ((j : ℕ) → j < length xs → body (j + i) ≡ emit (get_or xs j d))
    → adds_from (length xs) i body ≡ flat_map emit xs
unfolding adds_from
adds_from-flat_map emit d [] i body h = refl
adds_from-flat_map emit d (x ∷ xs) i body h =
    ap (λ l. body i ++ l)
      (adds_from-flat_map emit d xs (i + 1) body
        (λ j k. ap body (omega arith) ∙ h (suc j) (omega (arith, k))))
    ∙ ap (λ l. l ++ flat_map emit xs) (ap body (omega arith) ∙ h 0 (omega arith))

abbrev add_cell : ℕ → List Add
add_cell n = add_field none (u16_field n) ∷ []

abbrev add_cells : List ℕ → List Add
add_cells row = open_array none ∷ (flat_map add_cell row ++ close_array ∷ [])

row-render : (row : List ℕ) (k : List Add) → flat_map add_cell row ++ k ≡ render (row_forest row) k
row-render [] k = refl
row-render (n ∷ ns) k = ap (λ l. add_field none (u16_field n) ∷ l) (row-render ns k)

rows-render : (s : Survey) (k : List Add) → flat_map add_cells s ++ k ≡ render (rows_forest s) k
rows-render [] k = refl
rows-render (row ∷ rows) k =
    ap (λ l. open_array none ∷ l)
      (append_assoc (flat_map add_cell row ++ close_array ∷ []) (flat_map add_cells rows) k
        ∙ append_assoc (flat_map add_cell row) (close_array ∷ []) (flat_map add_cells rows ++ k)
        ∙ ap (λ l. flat_map add_cell row ++ close_array ∷ l) (rows-render rows k)
        ∙ row-render row (close_array ∷ render (rows_forest rows) k))

add_zero : (n : ℕ) → n + 0 ≡ n
add_zero n = omega arith

-- The body of the loop on the columns of a row.
abbrev pub row_body : Survey → ℕ → ℕ → List Add
row_body s row col = add_field none (u16_field (cell s row col)) ∷ []

add_row-cells :
    (s : Survey) (i : ℕ) → IsSurvey s → i < length s → add_row s i ≡ add_cells (get_or s i [])
add_row-cells s i h k =
    ap (λ l. open_array none ∷ (l ++ close_array ∷ []))
      (subst (λ n. adds_from n 0 (row_body s i) ≡ flat_map add_cell (get_or s i []))
        (All-get_or (λ (row : List ℕ). length row ≡ survey_bins) s i [] h.1 k)
        (adds_from-flat_map add_cell 0 (get_or s i []) 0 (row_body s i)
          (λ j b. ap (row_body s i) (add_zero j))))

-- The reply with a survey of the right size is its tree: the rows and the bins of a row in order.
pub survey_reply-render : (s : Survey) → IsSurvey s → survey_reply s ≡ render (survey_forest s) []
unfolding survey_reply
survey_reply-render s h =
    ap
      (λ l.
        open_table (some "coverage")
        ∷ add_field (some "x") (u16_field survey_coverage)
        ∷ add_field (some "y") (u16_field survey_coverage)
        ∷ close_table
        ∷ open_table (some "bins")
        ∷ add_field (some "x") (u16_field survey_bins)
        ∷ add_field (some "y") (u16_field survey_bins)
        ∷ close_table
        ∷ open_array (some "data")
        ∷ l)
      (ap (λ l. l ++ close_array ∷ [])
          (subst (λ n. adds_from n 0 (add_row s) ≡ flat_map add_cells s) h.0
            (adds_from-flat_map add_cells [] s 0 (add_row s)
              (λ j b. ap (add_row s) (add_zero j) ∙ add_row-cells s j h b)))
        ∙ rows-render s (close_array ∷ []))
