-- ===== src/Koruza/Window/Maximum.antt =====
-- The maximum that is computed on demand.
use koruza_driver.Prelude.{
  ℕ, zero, suc, ◌+◌, ◌≤◌, ◌<◌, ◌≡◌, inl, inr, Bool, true, false, ◌==◌, get_or, Bool-cases, eqb→eq,
  arith,
}
use koruza_driver.Koruza.Window.{
  FloatOps, Item, statistics_loop, koruza_compute_accelerometer_statistics_item,
}

-- What `>` on `float` satisfies, also where a number is not a number.
abbrev pub IsStrictOrder : {F : Type 0} → (F → F → Bool) → Type 0
IsStrictOrder {F} greater =
    ((a : F) → greater a a ≡ false)
    × ((a b c : F) → greater a b ≡ true → greater b c ≡ true → greater a c ≡ true)

module _ {F : Type 0} (o : FloatOps F) (item : Item F) (strict : IsStrictOrder o.greater) where
  not_above : (a b c : F) → o.greater a c ≡ false → o.greater b c ≡ true → o.greater a b ≡ false
  not_above a b c h k = elim (Bool-cases (o.greater a b)) [
    | inl e ↦ cc (strict.1 a b c e k, h)
    | inr e ↦ e
  ]

  loop_raises :
      (left index : ℕ) (variance maximum value : F)
      → o.greater value maximum ≡ false
      → o.greater value (statistics_loop o item left index variance maximum).1 ≡ false
  unfolding statistics_loop
  loop_raises zero index variance maximum value h = h
  loop_raises (suc left) index variance maximum value h =
      let v = get_or item.buffer_max index o.zero_float in
      loop_raises left (index + 1) _ _ value (elim (Bool-cases (o.greater v maximum)) [
        | inl e ↦ rw e (not_above value v maximum h e)
        | inr e ↦ rw e h
      ])

  loop_above :
      (left index : ℕ) (variance maximum : F) (i : ℕ)
      → index ≤ i
      → i < index + left
      → o.greater
          (get_or item.buffer_max i o.zero_float)
          (statistics_loop o item left index variance maximum).1
        ≡ false
  unfolding statistics_loop
  loop_above zero index variance maximum i l h = absurd (omega (arith, l, h))
  loop_above (suc left) index variance maximum i l h = elim (Bool-cases (i == index)) [
    | inl first ↦
        let v = get_or item.buffer_max index o.zero_float in
        rw (eqb→eq i index first) (
          loop_raises left (index + 1) _ _ v (elim (Bool-cases (o.greater v maximum)) [
            | inl e ↦ rw e (strict.0 v)
            | inr e ↦ rw e e
          ]))
    | inr later ↦ loop_above left (index + 1) _ _ i (ground (arith, l, later)) (omega (arith, h))
  ]

  -- Where `>` is irreflexive and transitive, no entry of the window's buffer of maxima, of those
  -- that hold samples, is greater than the maximum that is computed.
  pub maximum_above :
      (i : ℕ)
      → i < item.samples
      → o.greater
          (get_or item.buffer_max i o.zero_float)
          (koruza_compute_accelerometer_statistics_item o item).maximum
        ≡ false
  unfolding koruza_compute_accelerometer_statistics_item
  maximum_above i h =
      loop_above item.samples 0 o.zero_float o.minus_infinity i (omega arith) (omega (arith, h))
