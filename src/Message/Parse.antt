-- ===== src/Message/Parse.antt =====
-- `message_parse` against the wire format: it accepts exactly the well-formed messages whose
-- checksum TLVs pass, and a refusal leaves no entries behind.
use koruza_driver.Prelude.{
  ℕ, zero, suc, ◌≤◌, ◌≡◌, refl, sym, ap, ◌∙◌, ◌↔◌, inl, inr, [], ◌∷◌, ◌++◌, append_assoc,
  append-nil, Bytes, IsByte, IsBytes, word16, length, take, drop, take-append-drop, length-take,
  All, All-take, All-drop, arith, ltb, ◌==◌, ◌&&◌, Bool-cases, ltb→le,
}
use koruza_driver.Message.{
  Tlv, Message, Memory, MessageResult, success, error_too_many_tlvs, error_out_of_memory,
  error_buffer_too_small, error_parse_error, error_checksum_mismatch, error_tlv_not_found,
  max_tlv_count, tlv_checksum, proceed, entry_error, checksum_differs, parse_loop, message_parse,
}
use koruza_driver.Message.Format.{IsTlv, IsMessage, wire, ChecksumsPass}
use koruza_driver.Message.Entry.{
  MallocSucceeds, entry_error-pass, proceed-success, be16-word16, parse_loop-wire,
}

-- ---- soundness

-- What an accepted piece of input stands for, read behind the entries `m`.
abbrev Accepted : Memory → ℕ → Message → Bytes → Message → Type 0
Accepted mem left m bytes m' =
    (ts : Message) × (m' ≡ m ++ ts)
    × (wire ts ≡ bytes)
    × All IsTlv ts
    × (length ts ≤ left)
    × ChecksumsPass mem m ts

abbrev success_of : MessageResult × Message → MessageResult
success_of p = p.0

parse_loop-Accepted :
    (mem : Memory) (left : ℕ) (m : Message) (bytes : Bytes) {m' : Message}
    → IsBytes bytes
    → parse_loop mem left m bytes ≡ (success, m')
    → Accepted mem left m bytes m'
unfolding parse_loop
parse_loop-Accepted mem left m [] b h = (
  [],
  sym (ap (λ (p : MessageResult × Message). p.1) h) ∙ sym (append-nil m),
  refl,
  tt,
  omega arith,
  tt,
)
parse_loop-Accepted mem zero m (type ∷ rest) b h = cc (ap success_of h)
parse_loop-Accepted mem (suc left) m (type ∷ []) b h = cc (ap success_of h)
parse_loop-Accepted mem (suc left) m (type ∷ hi ∷ []) b h = cc (ap success_of h)
parse_loop-Accepted mem (suc left) m (type ∷ hi ∷ lo ∷ rest) b h =
    let n = word16 hi lo in
    let t : Tlv = record { type = type; length = n; value = take n rest } in
    elim (Bool-cases (ltb (length rest) n)) [
      | inl short ↦ cc (ap success_of (rw short at h))
      | inr fits ↦
          let enough : n ≤ length rest = ltb→le (length rest) n fits in
          let (passed, later) = proceed-success (entry_error mem m t) m _ (rw fits at h) in
          let (ts, e, w, good, room, sums) =
            parse_loop-Accepted mem left (m ++ t ∷ []) (drop n rest)
              (All-drop IsByte n rest b.1.1.1) later in
          (
            t ∷ ts,
            e ∙ append_assoc m (t ∷ []) ts,
            ap (λ (x : Bytes). (type ∷ (x ++ take n rest)) ++ wire ts)
                  (be16-word16 hi lo b.1.0 b.1.1.0)
                ∙ ap (λ (r : Bytes). type ∷ hi ∷ lo ∷ (take n rest ++ r)) w
                ∙ ap (λ (r : Bytes). type ∷ hi ∷ lo ∷ r) (take-append-drop n rest),
            ((b.0, omega arith, length-take n rest enough, All-take IsByte n rest b.1.1.1), good),
            omega arith,
            (entry_error-pass mem m t passed, sums),
          )
    ]

-- Where allocation succeeds, parsing bytes succeeds with message `m` exactly when `m` is well
-- formed (25 entries at most, every value as long as its length says), the bytes are the wire
-- format of `m`, and no checksum TLV of `m` is refused.
pub message_parse_iff :
    (mem : Memory) (bytes : Bytes) (m : Message)
    → MallocSucceeds mem
    → IsBytes bytes
    → (message_parse mem bytes ≡ (success, m))
      ↔ (IsMessage m × (wire m ≡ bytes) × ChecksumsPass mem [] m)
unfolding message_parse
message_parse_iff mem bytes m a b = (
  λ h.
      let (ts, e, w, good, room, sums) = parse_loop-Accepted mem max_tlv_count [] bytes b h in
      rw e ((room, good), w, sums),
  λ k. rw (← k.1) (parse_loop-wire mem m max_tlv_count [] a k.0.1 k.0.0 k.2),
)

-- Whether or not allocation succeeds, an accepted message is well formed, spells the bytes and
-- passes its checksums.
pub message_parse_sound :
    (mem : Memory) (bytes : Bytes) {m : Message}
    → IsBytes bytes
    → message_parse mem bytes ≡ (success, m)
    → IsMessage m × (wire m ≡ bytes) × ChecksumsPass mem [] m
unfolding message_parse
message_parse_sound mem bytes b h =
    let (ts, e, w, good, room, sums) = parse_loop-Accepted mem max_tlv_count [] bytes b h in
    rw e ((room, good), w, sums)

-- ---- refusals

-- A result with the message that goes with it: either success, or one of the four errors of
-- parsing with no entry left in the message.
abbrev pub IsParseResult : MessageResult × Message → Type 0
IsParseResult (success, m) = Unit
IsParseResult (error_too_many_tlvs, m) = m ≡ []
IsParseResult (error_out_of_memory, m) = m ≡ []
IsParseResult (error_parse_error, m) = m ≡ []
IsParseResult (error_checksum_mismatch, m) = m ≡ []
IsParseResult (error_buffer_too_small, m) = ⊥
IsParseResult (error_tlv_not_found, m) = ⊥

proceed-entry_error :
    (mem : Memory) (m : Message) (t : Tlv) (more : MessageResult × Message)
    → IsParseResult more
    → IsParseResult (proceed (entry_error mem m t) m more)
unfolding proceed entry_error
proceed-entry_error mem m t more h = elim (Bool-cases (mem.malloc (length m) t.length)) [
  | inl a ↦ elim (Bool-cases (t.type == tlv_checksum && checksum_differs mem m t)) [
    | inl c ↦ rw (a, c) refl
    | inr c ↦ rw (a, c) h
  ]
  | inr a ↦ rw a refl
]

parse_loop-IsParseResult :
    (mem : Memory) (left : ℕ) (m : Message) (bytes : Bytes)
    → IsParseResult (parse_loop mem left m bytes)
unfolding parse_loop
parse_loop-IsParseResult mem left m [] = tt
parse_loop-IsParseResult mem zero m (type ∷ rest) = refl
parse_loop-IsParseResult mem (suc left) m (type ∷ []) = refl
parse_loop-IsParseResult mem (suc left) m (type ∷ hi ∷ []) = refl
parse_loop-IsParseResult mem (suc left) m (type ∷ hi ∷ lo ∷ rest) =
    let n = word16 hi lo in
    let t : Tlv = record { type = type; length = n; value = take n rest } in
    elim (Bool-cases (ltb (length rest) n)) [
      | inl short ↦ rw short refl
      | inr fits ↦ rw fits (
          proceed-entry_error mem m t _
            (parse_loop-IsParseResult mem left (m ++ t ∷ []) (drop n rest)))
    ]

-- Parsing any input ends in success or in one of its four errors, and every error leaves the
-- message with no entries.
pub message_parse-IsParseResult :
    (mem : Memory) (bytes : Bytes) → IsParseResult (message_parse mem bytes)
unfolding message_parse
message_parse-IsParseResult mem bytes = parse_loop-IsParseResult mem max_tlv_count [] bytes
