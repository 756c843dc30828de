-- ===== src/Message/Format.antt =====
-- The wire format, described with no buffers, and what makes a message well formed.
use koruza_driver.Prelude.{
  ℕ, ◌+◌, ◌*◌, ◌≤◌, ◌<◌, ◌^◌, ◌≡◌, refl, sym, ap, ◌∙◌, [], ◌∷◌, ◌++◌, append_assoc, Bytes, IsByte,
  IsBytes, be16, be16-IsBytes, length, take, length-append, take-length, All, All-append, arith,
  false,
}
use koruza_driver.Message.{
  Tlv, Message, Memory, max_tlv_count, tlv_checksum, tlv_size, size_loop, message_serialized_size,
  checksum_differs,
}

-- Every field is within its C type, and the value has as many bytes as the length says.
abbrev pub IsTlv : Tlv → Type 0
IsTlv t = (t.type < 256) × (t.length < 2 ^ 16) × (length t.value ≡ t.length) × IsBytes t.value

abbrev pub IsMessage : Message → Type 0
IsMessage m = (length m ≤ max_tlv_count) × All IsTlv m

-- One TLV after another: type, length in network order, value.
abbrev pub wire : Message → Bytes
wire [] = []
wire (t ∷ ts) = (t.type ∷ (be16 t.length ++ t.value)) ++ wire ts

-- No checksum TLV of `ts` is refused, where `m` is what stands in front.
abbrev pub ChecksumsPass : Memory → Message → Message → Type 0
ChecksumsPass mem m [] = Unit
ChecksumsPass mem m (t ∷ ts) =
    (t.type ≡ tlv_checksum → checksum_differs mem m t ≡ false) × ChecksumsPass mem (m ++ t ∷ []) ts

-- The copy of the whole value.
pub take-value : (t : Tlv) → IsTlv t → take t.length t.value ≡ t.value
take-value t h = rw (sym h.2) (take-length t.value)

pub wire-append : (a b : Message) → wire (a ++ b) ≡ wire a ++ wire b
wire-append [] b = refl
wire-append (t ∷ a) b =
    ap (λ (r : Bytes). (t.type ∷ (be16 t.length ++ t.value)) ++ r) (wire-append a b)
    ∙ sym (append_assoc (t.type ∷ (be16 t.length ++ t.value)) (wire a) (wire b))

pub wire-IsBytes : (m : Message) → All IsTlv m → IsBytes (wire m)
wire-IsBytes [] h = tt
wire-IsBytes (t ∷ ts) h =
    All-append IsByte (t.type ∷ (be16 t.length ++ t.value)) (wire ts)
      (h.0.0, All-append IsByte (be16 t.length) t.value (be16-IsBytes t.length) h.0.3)
      (wire-IsBytes ts h.1)

length-tlv : (t : Tlv) → IsTlv t → length (t.type ∷ (be16 t.length ++ t.value)) ≡ tlv_size t
length-tlv t h = omega (arith, h.2)

size_loop-wire : (m : Message) (size : ℕ) → All IsTlv m → size_loop size m ≡ size + length (wire m)
unfolding size_loop
size_loop-wire [] size h = omega arith
size_loop-wire (t ∷ ts) size h = omega (
  arith,
  size_loop-wire ts (size + tlv_size t) h.1,
  length-tlv t h.0,
  length-append (t.type ∷ (be16 t.length ++ t.value)) (wire ts),
)

-- `message_serialized_size` is the length of the wire format.
pub message_serialized_size-wire :
    (m : Message) → All IsTlv m → message_serialized_size m ≡ length (wire m)
unfolding message_serialized_size
message_serialized_size-wire m h = size_loop-wire m 0 h ∙ omega arith

-- A message of `n` entries takes at most `n * 65538` bytes, so the largest one is below 2 ^ 21.
pub length-wire-le : (m : Message) → All IsTlv m → length (wire m) ≤ length m * 65538
length-wire-le [] h = omega arith
length-wire-le (t ∷ ts) h = omega (
  arith,
  length-wire-le ts h.1,
  length-tlv t h.0,
  length-append (t.type ∷ (be16 t.length ++ t.value)) (wire ts),
)
