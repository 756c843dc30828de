-- ===== src/Message/Entry.antt =====
-- One round of the loop of `message_parse`, and input that starts with well-formed entries.
use koruza_driver.Prelude.{
  ℕ, zero, suc, ◌+◌, ◌-◌, ◌/◌, ◌%◌, ◌^◌, ◌≤◌, ◌<◌, ◌≡◌, refl, sym, ap, ap₂, ◌∙◌, [], ◌∷◌, ◌++◌,
  append_assoc, append-nil, Bytes, word16, be16, length, length-append, take, drop, take-append,
  drop-append, All, arith, ltb, true, false,
}
use koruza_driver.Message.{
  Tlv, Message, Memory, MessageResult, success, error_too_many_tlvs, tlv_checksum, proceed,
  entry_error, checksum_differs, parse_loop,
}
use koruza_driver.Message.Format.{IsTlv, wire, ChecksumsPass}

abbrev pub MallocSucceeds : Memory → Type 0
MallocSucceeds mem = (i n : ℕ) → mem.malloc i n ≡ true

-- ---- one entry

pub entry_error-success :
    (mem : Memory) (m : Message) (t : Tlv)
    → mem.malloc (length m) t.length ≡ true
    → (t.type ≡ tlv_checksum → checksum_differs mem m t ≡ false)
    → entry_error mem m t ≡ success
unfolding entry_error
entry_error-success mem m t a c = ground (arith)

pub entry_error-pass :
    (mem : Memory) (m : Message) (t : Tlv)
    → entry_error mem m t ≡ success
    → t.type ≡ tlv_checksum
    → checksum_differs mem m t ≡ false
unfolding entry_error
entry_error-pass mem m t h e = ground arith

pub proceed-success :
    (r : MessageResult) (m : Message) (more : MessageResult × Message) {m' : Message}
    → proceed r m more ≡ (success, m')
    → (r ≡ success) × (more ≡ (success, m'))
unfolding proceed
proceed-success success m more h = (refl, h)
proceed-success error_too_many_tlvs m more h = cc (ap (λ (p : MessageResult × Message). p.0) h)
proceed-success _ m more h = cc (ap (λ (p : MessageResult × Message). p.0) h)

parsed_tlv :
    (t : Tlv) (n : ℕ) (rest : Bytes)
    → IsTlv t
    → n ≡ t.length
    → ◌≡◌ {A = Tlv} (record { type = t.type; length = n; value = take n (t.value ++ rest) }) t
parsed_tlv t n rest h e = λ i. record { type = t.type; length = e i; value = values i }
  where
    values : take n (t.value ++ rest) ≡ t.value
    values = ap (λ (k : ℕ). take k (t.value ++ rest)) (e ∙ sym h.2) ∙ take-append t.value rest

word16-length :
    (t : Tlv) → IsTlv t → word16 (t.length / 2 ^ 8 % 2 ^ 8) (t.length % 2 ^ 8) ≡ t.length
word16-length t h = omega (arith, h.1)

pub be16-word16 : (hi lo : ℕ) → hi < 256 → lo < 256 → be16 (word16 hi lo) ≡ hi ∷ lo ∷ []
be16-word16 hi lo h l = ap₂ (λ (a b : ℕ). a ∷ b ∷ []) (omega arith) (omega arith)

pub parse_loop-cons :
    (mem : Memory) (left : ℕ) (m : Message) (t : Tlv) (rest : Bytes)
    → IsTlv t
    → parse_loop mem (suc left) m ((t.type ∷ (be16 t.length ++ t.value)) ++ rest)
      ≡ proceed (entry_error mem m t) m (parse_loop mem left (m ++ t ∷ []) rest)
unfolding parse_loop
parse_loop-cons mem left m t rest h =
    let n = word16 (t.length / 2 ^ 8 % 2 ^ 8) (t.length % 2 ^ 8) in
    let e : n ≡ t.length = word16-length t h in
    let fits : ltb (length (t.value ++ rest)) n ≡ false =
      ground (arith, length-append t.value rest, h.2) in
    let dropped : drop n (t.value ++ rest) ≡ rest =
      ap (λ (k : ℕ). drop k (t.value ++ rest)) (e ∙ sym h.2) ∙ drop-append t.value rest in
    rw fits (
      ap₂
        (λ (u : Tlv) (d : Bytes).
          proceed (entry_error mem m u) m (parse_loop mem left (m ++ u ∷ []) d))
        (parsed_tlv t n rest h e) dropped)

-- ---- input that starts with well-formed entries

pub proceed-of_success :
    (m : Message) (more : MessageResult × Message) → proceed success m more ≡ more
unfolding proceed
proceed-of_success m more = refl

parse_loop-nil : (mem : Memory) (left : ℕ) (m : Message) → parse_loop mem left m [] ≡ (success, m)
unfolding parse_loop
parse_loop-nil mem left m = refl

-- The loop reads well-formed entries off the front of the input, and goes on with what follows.
pub parse_loop-prefix :
    (mem : Memory) (ts : Message) (k left : ℕ) (m : Message) (rest : Bytes)
    → MallocSucceeds mem
    → All IsTlv ts
    → k ≡ length ts + left
    → ChecksumsPass mem m ts
    → parse_loop mem k m (wire ts ++ rest) ≡ parse_loop mem left (m ++ ts) rest
parse_loop-prefix mem [] k left m rest a h e c =
    ap₂ (λ (n : ℕ) (r : Message). parse_loop mem n r rest) (omega arith) (sym (append-nil m))
parse_loop-prefix mem (t ∷ ts) zero left m rest a h e c = absurd (omega arith)
parse_loop-prefix mem (t ∷ ts) (suc k) left m rest a h e c =
    ap (parse_loop mem (suc k) m)
      (append_assoc (t.type ∷ (be16 t.length ++ t.value)) (wire ts) rest)
    ∙ parse_loop-cons mem k m t (wire ts ++ rest) h.0
    ∙ ap (λ (r : MessageResult). proceed r m (parse_loop mem k (m ++ t ∷ []) (wire ts ++ rest)))
        (entry_error-success mem m t (a (length m) t.length) c.0)
    ∙ proceed-of_success m (parse_loop mem k (m ++ t ∷ []) (wire ts ++ rest))
    ∙ parse_loop-prefix mem ts k left (m ++ t ∷ []) rest a h.1 (omega arith) c.1
    ∙ ap (λ (r : Message). parse_loop mem left r rest) (append_assoc m (t ∷ []) ts)

pub parse_loop-wire :
    (mem : Memory) (ts : Message) (left : ℕ) (m : Message)
    → MallocSucceeds mem
    → All IsTlv ts
    → length ts ≤ left
    → ChecksumsPass mem m ts
    → parse_loop mem left m (wire ts) ≡ (success, m ++ ts)
parse_loop-wire mem ts left m a h l c =
    ap (parse_loop mem left m) (sym (append-nil (wire ts)))
    ∙ parse_loop-prefix mem ts left (left - length ts) m [] a h (omega arith) c
    ∙ parse_loop-nil mem (left - length ts) (m ++ ts)
