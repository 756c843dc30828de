-- ===== src/Message/Serialize.antt =====
-- `message_serialize`: when it succeeds, and what it writes.
use koruza_driver.Prelude.{
  ℕ, ◌+◌, ◌-◌, ◌≡◌, ap, inl, inr, [], ◌∷◌, ◌++◌, append_assoc, append-nil, Bytes, be16, length,
  length-append, All, arith, some, none, ltb, if◌then◌else◌, Bool-cases,
}
use koruza_driver.Message.{Tlv, Message, tlv_size, tlv_bytes, serialize_loop, message_serialize}
use koruza_driver.Message.Format.{IsTlv, wire, take-value}

tlv_bytes-wire : (t : Tlv) → IsTlv t → tlv_bytes t ≡ t.type ∷ (be16 t.length ++ t.value)
tlv_bytes-wire t h = ap (λ (v : Bytes). t.type ∷ (be16 t.length ++ v)) (take-value t h)

length-wire :
    (t : Tlv) (ts : Message) → IsTlv t → length (wire (t ∷ ts)) ≡ tlv_size t + length (wire ts)
length-wire t ts h =
    omega (arith, h.2, length-append (t.type ∷ (be16 t.length ++ t.value)) (wire ts))

serialize_loop-wire :
    (m : Message) (written : Bytes) (remaining : ℕ)
    → All IsTlv m
    → serialize_loop written remaining m
      ≡ (if ltb remaining (length (wire m)) then none else some (written ++ wire m))
unfolding serialize_loop
serialize_loop-wire [] written remaining h = rw append-nil (ground arith)
serialize_loop-wire (t ∷ ts) written remaining h = elim (Bool-cases (ltb remaining (tlv_size t))) [
  | inl small ↦ ground (arith, length-wire t ts h.0)
  | inr fits ↦ ground (
    arith,
    length-wire t ts h.0,
    serialize_loop-wire ts (written ++ tlv_bytes t) (remaining - tlv_size t) h.1,
    ap (λ (b : Bytes). written ++ b ++ wire ts) (tlv_bytes-wire t h.0),
    append_assoc written (t.type ∷ (be16 t.length ++ t.value)) (wire ts),
  )
]

-- Serialising well-formed entries into `size` bytes writes their wire format if that fits, and
-- reports a buffer that is too small if it does not.
pub message_serialize-wire :
    (m : Message) (size : ℕ)
    → All IsTlv m
    → message_serialize size m ≡ (if ltb size (length (wire m)) then none else some (wire m))
unfolding message_serialize
message_serialize-wire m size h = serialize_loop-wire m [] size h
