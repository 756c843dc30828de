-- ===== src/Message/Invariant.antt =====
-- Every operation of message.c that changes a message keeps it well formed.
use koruza_driver.Prelude.{
  ℕ, ◌≤◌, ◌<◌, ◌^◌, ◌≡◌, sym, ap, ◌∙◌, inl, inr, [], ◌∷◌, ◌++◌, Bytes, IsBytes, length,
  length-append, take, take-length, All-append, leb, Bool-cases, true, false, arith,
}
use koruza_driver.Message.{
  Tlv, Message, Memory, success, error_too_many_tlvs, error_out_of_memory, max_tlv_count,
  message_tlv_add,
}
use koruza_driver.Message.Format.{IsTlv, IsMessage}

-- The entry that `message_tlv_add` appends.
abbrev pub new_tlv : ℕ → ℕ → Bytes → Tlv
new_tlv type n value = record { type = type; length = n; value = take n value }

-- Adding an entry appends it when there is room and memory. With 25 entries, or with no memory,
-- the call reports that and leaves the message as it was.
pub message_tlv_add_lem :
    (mem : Memory) (m : Message) (type n : ℕ) (value : Bytes)
    → (max_tlv_count ≤ length m → message_tlv_add mem m type n value ≡ (error_too_many_tlvs, m))
      × (length m < max_tlv_count
          → mem.malloc (length m) n ≡ false
          → message_tlv_add mem m type n value ≡ (error_out_of_memory, m))
      × (length m < max_tlv_count
          → mem.malloc (length m) n ≡ true
          → message_tlv_add mem m type n value ≡ (success, m ++ new_tlv type n value ∷ []))
unfolding message_tlv_add
message_tlv_add_lem mem m type n value =
    (λ full. ground arith, λ room refused. ground arith, λ room given. ground arith)

new_tlv-IsTlv :
    (type n : ℕ) (value : Bytes)
    → type < 256
    → n < 2 ^ 16
    → length value ≡ n
    → IsBytes value
    → IsTlv (new_tlv type n value)
new_tlv-IsTlv type n value ht hn e b =
    let whole : take n value ≡ value = ap (λ (k : ℕ). take k value) (sym e) ∙ take-length value in
    rw whole (ht, hn, e, b)

-- A message stays well formed under `message_tlv_add`, whatever the call returns, if the type and
-- the length are within their C types and `value` points to that many bytes.
pub message_tlv_add-IsMessage :
    (mem : Memory) (m : Message) (type n : ℕ) (value : Bytes)
    → IsMessage m
    → type < 256
    → n < 2 ^ 16
    → length value ≡ n
    → IsBytes value
    → IsMessage (message_tlv_add mem m type n value).1
unfolding message_tlv_add
message_tlv_add-IsMessage mem m type n value h ht hn e b =
    elim (Bool-cases (leb max_tlv_count (length m))) [
      | inl full ↦ rw full h
      | inr room ↦ rw room (elim (Bool-cases (mem.malloc (length m) n)) [
        | inr refused ↦ rw refused h
        | inl given ↦ rw given (
          ground (arith, length-append m (new_tlv type n value ∷ [])),
          All-append IsTlv m (new_tlv type n value ∷ []) h.1
              (new_tlv-IsTlv type n value ht hn e b, tt),
        )
      ])
    ]
