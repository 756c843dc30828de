-- ===== src/Message/Sealed.antt =====
-- Serialising and parsing are inverse, and a message that ends with `message_tlv_add_checksum`
-- is accepted by `message_parse`.
use koruza_driver.Prelude.{
  ℕ, ◌<◌, ◌≡◌, refl, ap, ◌∙◌, [], ◌∷◌, Bytes, IsBytes, length, length-append, All, All-append,
  be32-IsBytes, not, le→ltb, eqb_refl, false, some, arith,
}
use koruza_driver.Message.{
  Message, Memory, success, max_tlv_count, tlv_checksum, checksum_loop, message_checksum,
  checksum_differs, message_parse, message_serialize, message_serialized_size,
}
use koruza_driver.Message.Typed.{message_tlv_add_checksum}
use koruza_driver.Message.Format.{
  IsTlv, IsMessage, wire, ChecksumsPass, message_serialized_size-wire,
}
use koruza_driver.Message.Serialize.{message_serialize-wire}
use koruza_driver.Message.Entry.{MallocSucceeds, parse_loop-wire}
use koruza_driver.Message.Parse.{message_parse_sound}
use koruza_driver.Message.Invariant.{new_tlv, message_tlv_add_lem}
use koruza_driver.Message.Checksum.{ChecksumsPass-concat}

pub parse-wire :
    (mem : Memory) (m : Message)
    → MallocSucceeds mem
    → IsMessage m
    → ChecksumsPass mem [] m
    → message_parse mem (wire m) ≡ (success, m)
unfolding message_parse
parse-wire mem m a h c = parse_loop-wire mem m max_tlv_count [] a h.1 h.0 c

serialize_fits :
    (m : Message) (size : ℕ) {out : Bytes}
    → All IsTlv m
    → message_serialize size m ≡ some out
    → out ≡ wire m
serialize_fits m size h e = ground (arith, message_serialize-wire m size h)

-- Whatever `message_serialize` writes for a well-formed message, `message_parse` reads back as
-- that message, if allocation succeeds and the message's checksum TLVs pass.
pub parse-serialize :
    (mem : Memory) (m : Message) (size : ℕ) {out : Bytes}
    → MallocSucceeds mem
    → IsMessage m
    → ChecksumsPass mem [] m
    → message_serialize size m ≡ some out
    → message_parse mem out ≡ (success, m)
parse-serialize mem m size a h c e = rw (serialize_fits m size h.1 e) (parse-wire mem m a h c)

-- Serialising a message that `message_parse` accepted gives back the bytes that it was read from.
-- A buffer of `message_serialized_size` is large enough, and that is the size of the input.
pub serialize-parse :
    (mem : Memory) (bytes : Bytes) {m : Message}
    → IsBytes bytes
    → message_parse mem bytes ≡ (success, m)
    → (message_serialized_size m ≡ length bytes)
      × (message_serialize (message_serialized_size m) m ≡ some bytes)
serialize-parse mem bytes {m} b e =
    let (h, w, c) = message_parse_sound mem bytes b e in
    let size : message_serialized_size m ≡ length bytes =
      message_serialized_size-wire m h.1 ∙ ap length w in
    (
      size,
      message_serialize-wire m (message_serialized_size m) h.1
          ∙ rw (w, size, le→ltb (length bytes) (length bytes) (omega arith)) refl,
    )

-- ---- sealing

pub checksum-IsTlv : (m : Message) → IsTlv (new_tlv tlv_checksum 4 (message_checksum m))
unfolding message_checksum
checksum-IsTlv m = (omega arith, omega arith, refl, be32-IsBytes (checksum_loop 0 m))

pub checksum-passes :
    (mem : Memory) (m : Message)
    → checksum_differs mem m (new_tlv tlv_checksum 4 (message_checksum m)) ≡ false
unfolding checksum_differs message_checksum
checksum-passes mem m = ap not (eqb_refl _)

-- Adding the checksum to a well-formed message with a free entry, whose own checksum TLVs pass,
-- gives a well-formed message whose checksum TLVs pass.
pub add_checksum-passes :
    (mem : Memory) (m : Message)
    → MallocSucceeds mem
    → IsMessage m
    → length m < max_tlv_count
    → ChecksumsPass mem [] m
    → IsMessage (message_tlv_add_checksum mem m).1
      × ChecksumsPass mem [] (message_tlv_add_checksum mem m).1
unfolding message_tlv_add_checksum
add_checksum-passes mem m a h room c =
    let t = new_tlv tlv_checksum 4 (message_checksum m) in
    rw ((message_tlv_add_lem mem m tlv_checksum 4 (message_checksum m)).2 room (a (length m) 4)) (
      (
        omega (arith, length-append m (t ∷ [])),
        All-append IsTlv m (t ∷ []) h.1 (checksum-IsTlv m, tt),
      ),
      ChecksumsPass-concat mem m t c (λ _. checksum-passes mem m),
    )

-- A well-formed message with a free entry, in which every checksum TLV passes, parses back from its
-- wire format once the checksum was added. Allocations succeed.
pub parse-add_checksum :
    (mem : Memory) (m : Message)
    → MallocSucceeds mem
    → IsMessage m
    → length m < max_tlv_count
    → ChecksumsPass mem [] m
    → message_parse mem (wire (message_tlv_add_checksum mem m).1)
      ≡ (success, (message_tlv_add_checksum mem m).1)
parse-add_checksum mem m a h room c =
    let (h', c') = add_checksum-passes mem m a h room c in
    parse-wire mem (message_tlv_add_checksum mem m).1 a h' c'
