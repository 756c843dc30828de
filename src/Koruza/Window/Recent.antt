-- ===== src/Koruza/Window/Recent.antt =====
-- The window as a ring: what is in the buffers after any number of samples.
use koruza_driver.Prelude.{
  ℕ, zero, suc, ◌+◌, ◌%◌, ◌≤◌, ◌<◌, ◌≡◌, ◌≢◌, refl, ◌∙◌, inl, inr, ◌==◌, length, length-replicate,
  get_or, length-put_at, get-put_at, get-put_at_other, min, Bool-cases, eqb→eq, arith,
}
use koruza_driver.Koruza.Window.{
  FloatOps, Item, window_size, zero_item, koruza_update_accelerometer_statistics_item,
}

-- The first `n` samples of two sequences.
unfoldable pub fed : {F : Type 0} → FloatOps F → (ℕ → F) → (ℕ → F) → ℕ → Item F
fed o avg max zero = zero_item o
fed o avg max (suc n) =
    koruza_update_accelerometer_statistics_item o (fed o avg max n) (avg n) (max n)

apart : (n k : ℕ) → k < n → suc n ≤ k + window_size → n % window_size ≢ k % window_size
apart n k h l e = absurd (omega (arith, h, l, e))

module _ {F : Type 0} (o : FloatOps F) (avg max : ℕ → F) where
  fed-index : (n : ℕ) → (fed o avg max n).index ≡ n % window_size
  unfolding fed zero_item koruza_update_accelerometer_statistics_item
  fed-index zero = refl
  fed-index (suc n) = omega (arith, fed-index n)

  fed-samples : (n : ℕ) → (fed o avg max n).samples ≡ min n window_size
  unfolding fed zero_item koruza_update_accelerometer_statistics_item
  fed-samples zero = refl
  fed-samples (suc n) = ground (arith, fed-samples n)

  length-fed :
      (n : ℕ)
      → (length (fed o avg max n).buffer ≡ window_size)
        × (length (fed o avg max n).buffer_max ≡ window_size)
  unfolding fed zero_item koruza_update_accelerometer_statistics_item
  length-fed zero =
      (length-replicate window_size o.zero_float, length-replicate window_size o.zero_float)
  length-fed (suc n) =
      let item = fed o avg max n in
      (
        length-put_at item.buffer item.index (avg n) ∙ (length-fed n).0,
        length-put_at item.buffer_max item.index (max n) ∙ (length-fed n).1,
      )

  fed-recent :
      (n k : ℕ)
      → k < n
      → n ≤ k + window_size
      → (get_or (fed o avg max n).buffer (k % window_size) o.zero_float ≡ avg k)
        × (get_or (fed o avg max n).buffer_max (k % window_size) o.zero_float ≡ max k)
  unfolding fed koruza_update_accelerometer_statistics_item
  fed-recent zero k h l = absurd (omega (arith, h))
  fed-recent (suc n) k h l =
      let item = fed o avg max n in
      elim (Bool-cases (k == n)) [
        | inl last ↦
            rw (eqb→eq k n last, fed-index n)
              (
                get-put_at item.buffer (n % window_size) (avg n) o.zero_float
                    (omega (arith, (length-fed n).0)),
                get-put_at item.buffer_max (n % window_size) (max n) o.zero_float
                    (omega (arith, (length-fed n).1)),
              )
        | inr older ↦
            let (kept, kept_max) = fed-recent n k (ground (arith, h, older)) (omega (arith, l)) in
            (
              get-put_at_other item.buffer item.index (k % window_size) (avg n) o.zero_float
                    (λ e. apart n k (ground (arith, h, older)) l (rw (← fed-index n) e))
                  ∙ kept,
              get-put_at_other item.buffer_max item.index (k % window_size) (max n) o.zero_float
                    (λ e. apart n k (ground (arith, h, older)) l (rw (← fed-index n) e))
                  ∙ kept_max,
            )
      ]

  -- After any number of updates of an item of zeros, it counts as many samples as there were, up
  -- to the size of the window, its index is the number of updates modulo that size, and each of
  -- the last updates, as many as the window holds, is kept in both buffers at its own number
  -- modulo that size.
  pub window_recent :
      (n : ℕ)
      → ((fed o avg max n).samples ≡ min n window_size)
        × ((fed o avg max n).index ≡ n % window_size)
        × ((k : ℕ)
            → k < n
            → n ≤ k + window_size
            → (get_or (fed o avg max n).buffer (k % window_size) o.zero_float ≡ avg k)
              × (get_or (fed o avg max n).buffer_max (k % window_size) o.zero_float ≡ max k))
  window_recent n = (fed-samples n, fed-index n, fed-recent n)
