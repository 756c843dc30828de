-- ===== src/Ubus/Variables.antt =====
-- `ubus_set_alignment` of ubus.c: which elements of `variables` the loop takes.
use mathlib.Core.Option
use koruza_driver.Prelude.{
  ℕ, suc, ◌+◌, ◌≤◌, ◌<◌, eqb→eq, Option-cases, and_true, and_false, ◌≡◌, refl, sym, ap, ◌∙◌, inl,
  inr, List, [], ◌∷◌, ◌++◌, append_assoc, append-nil, map, Bool, true, false, ◌&&◌, ◌==◌, leb,
  Option, some, none, if◌then◌else◌, length, length-append, Bool-cases, arith,
}
use koruza_driver.Ubus.State.{Daemon, Alignment, alignment_variable_count}
use koruza_driver.Ubus.{
  Blob, Platform, Outcome, outcome, status_ok, status_invalid_argument, parsed, alignment_loop,
  finish_alignment, align_to, koruza_set_alignment, ubus_set_alignment, koruza_alignment_policy,
}

leb_below : (n : ℕ) → n < 4 → leb 4 n ≡ false
leb_below n h = ground arith

length-map_lem {ℓ κ} :
    {A : Type ℓ} {B : Type κ} (f : A → B) (xs : List A) → length (map f xs) ≡ length xs
length-map_lem f [] = refl
length-map_lem f (x ∷ xs) = ap suc (length-map_lem f xs)

-- The list that the loop and the count after it leave.
abbrev pub counted : Option (List ℕ) → Option (List ℕ)
counted none = none
counted (some ws) = if length ws == alignment_variable_count then some ws else none

module _ {B : Type 0} (blob : Blob B) where
  -- Every element is an integer of 32 bits.
  abbrev pub all_int32 : List B → Bool
  all_int32 [] = true
  all_int32 (v ∷ vs) = blob.is_int32 v && all_int32 vs

  loop_taken :
      (vs : List B) (taken ws : List ℕ)
      → alignment_loop blob vs taken ≡ some ws
      → (all_int32 vs ≡ true) × (ws ≡ taken ++ map blob.blobmsg_get_u32 vs)
  unfolding alignment_loop
  loop_taken [] taken ws = λ e. (refl, cc (e, append-nil taken))
  loop_taken (v ∷ vs) taken ws = elim (Bool-cases (leb 4 (length taken))) [
    | inl y ↦ rw y (λ e. absurd cc)
    | inr n ↦ rw n (elim (Bool-cases (blob.is_int32 v)) [
      | inl i ↦ rw i (λ e.
          let h = loop_taken vs (taken ++ blob.blobmsg_get_u32 v ∷ []) ws e in
          (
            h.0,
            h.1 ∙ append_assoc taken (blob.blobmsg_get_u32 v ∷ []) (map blob.blobmsg_get_u32 vs),
          ))
      | inr i ↦ rw i (λ e. absurd cc)
    ])
  ]

  loop_takes :
      (vs : List B) (taken : List ℕ)
      → all_int32 vs ≡ true
      → length taken + length vs ≤ 4
      → alignment_loop blob vs taken ≡ some (taken ++ map blob.blobmsg_get_u32 vs)
  unfolding alignment_loop
  loop_takes [] taken a h = ap some (sym (append-nil taken))
  loop_takes (v ∷ vs) taken a h =
      let ab = and_true (blob.is_int32 v) (all_int32 vs) a in
      rw (leb_below (length taken) (omega (arith, h))) (
        rw ab.0 (
          loop_takes vs (taken ++ blob.blobmsg_get_u32 v ∷ []) ab.1
            (rw (length-append taken (blob.blobmsg_get_u32 v ∷ [])) (omega (arith, h)))
          ∙ ap some
              (append_assoc taken (blob.blobmsg_get_u32 v ∷ []) (map blob.blobmsg_get_u32 vs))))

  counted_loop :
      (vs : List B)
      → counted (alignment_loop blob vs [])
        ≡ (if (length vs == 4) && all_int32 vs then some (map blob.blobmsg_get_u32 vs) else none)
  counted_loop vs = elim (Bool-cases ((length vs == 4) && all_int32 vs)) [
    | inl y ↦
        (let ab = and_true (length vs == 4) (all_int32 vs) y in
          rw y (
            rw (loop_takes vs [] ab.1 (omega (arith, eqb→eq (length vs) 4 ab.0)))
              (rw (length-map_lem blob.blobmsg_get_u32 vs) (rw ab.0 refl))))
    | inr n ↦ rw n (elim (Option-cases (alignment_loop blob vs [])) [
      | inl e ↦ rw e refl
      | inr h ↦
          (let ws = loop_taken vs [] h.0 h.1 in
            rw h.1 (
              rw
                (ap (λ n. n == 4) (ap length ws.1 ∙ length-map_lem blob.blobmsg_get_u32 vs)
                  ∙ and_false (length vs == 4) (all_int32 vs) ws.0 n)
                refl))
    ])
  ]

  -- What a call asks for: it has both attributes, and exactly four variables of 32 bits.
  abbrev pub requested : Option B → Option B → Option Alignment
  requested (some state) (some variables) =
      if (length (blob.elements variables) == 4) && all_int32 (blob.elements variables)
      then some (record {
        state = blob.blobmsg_get_u32 state;
        variables = map blob.blobmsg_get_u32 (blob.elements variables);
      })
      else none
  requested _ _ = none

-- An alignment is stored, and without one nothing changes.
abbrev pub answer : {F S : Type 0} → Daemon F S → Option Alignment → Outcome F S
answer d none = outcome status_invalid_argument d
answer d (some a) = outcome status_ok (koruza_set_alignment d a)

finish_counted :
    {F S : Type 0} (d : Daemon F S) (state : ℕ) (r : Option (List ℕ))
    → finish_alignment d state r
      ≡ answer d (Option.map (λ vs. record { state = state; variables = vs }) (counted r))
finish_counted d state none = refl
finish_counted d state (some vs) = elim (Bool-cases (length vs == alignment_variable_count)) [
  | inl y ↦ rw y refl
  | inr n ↦ rw n refl
]

map-if :
    {A C : Type 0} (f : A → C) (b : Bool) (a : A)
    → Option.map f (if b then some a else none) ≡ (if b then some (f a) else none)
map-if f true a = refl
map-if f false a = refl

module _ {B F D S : Type 0} (p : Platform B F D S) where
  align_to_lem :
      (d : Daemon F S) (x y : Option B) → align_to p d x y ≡ answer d (requested p.blob x y)
  align_to_lem d (some x) (some y) =
      finish_counted d (p.blob.blobmsg_get_u32 x) (alignment_loop p.blob (p.blob.elements y) [])
      ∙ ap
          (λ r.
            answer d
              (Option.map (λ vs. record { state = p.blob.blobmsg_get_u32 x; variables = vs }) r))
          (counted_loop p.blob (p.blob.elements y))
      ∙ ap (answer d)
          (map-if _ ((length (p.blob.elements y) == 4) && all_int32 p.blob (p.blob.elements y)) _)
  align_to_lem d none y = refl
  align_to_lem d (some x) none = refl

  -- `set_alignment` stores what the call asks for, its state and its four variables, if both
  -- attributes are there and there are exactly four variables, each an integer of 32 bits; in
  -- every other case it refuses the call and changes nothing.
  pub set_alignment_lem :
      (d : Daemon F S) (msg : B)
      → ubus_set_alignment p d msg
        ≡ answer d (
            requested p.blob
              (parsed p koruza_alignment_policy msg 0)
              (parsed p koruza_alignment_policy msg 1))
  unfolding ubus_set_alignment
  set_alignment_lem d msg =
      align_to_lem d (parsed p koruza_alignment_policy msg 0)
        (parsed p koruza_alignment_policy msg 1)
