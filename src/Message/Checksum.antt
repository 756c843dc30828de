-- ===== src/Message/Checksum.antt =====
-- What `message_checksum` covers, and what the comparison in `message_parse` looks at.
use koruza_driver.Prelude.{
  ℕ, suc, ◌<◌, ◌≡◌, ◌≢◌, refl, sym, ap, ◌∙◌, [], ◌∷◌, ◌++◌, append_assoc, append-nil, Bytes, IsByte,
  IsBytes, length, length-append, All, All-append, be16, be32, ◌-◌, bit_xor, get_or, not, ◌==◌,
  eqb_refl, true, false, arith,
}
use koruza_driver.Crc.{crc32, ones}
use koruza_driver.Crc.Bitwise.{register}
use koruza_driver.Crc.Laws.{crc32-append, crc32-nil, crc32-register}
use koruza_driver.Message.{
  Tlv, Message, Memory, MessageResult, success, error_checksum_mismatch, max_tlv_count,
  tlv_checksum, checksum_loop, message_checksum, checksum_differs, entry_error, proceed, parse_loop,
  message_parse,
}
use koruza_driver.Message.Format.{IsTlv, wire, ChecksumsPass, take-value}
use koruza_driver.Message.Entry.{
  MallocSucceeds, parse_loop-cons, parse_loop-prefix, parse_loop-wire,
}

-- The values of a message, one after another.
abbrev pub values : Message → Bytes
values [] = []
values (t ∷ ts) = t.value ++ values ts

values-IsBytes : (m : Message) → All IsTlv m → IsBytes (values m)
values-IsBytes [] h = tt
values-IsBytes (t ∷ ts) h = All-append IsByte t.value (values ts) h.0.3 (values-IsBytes ts h.1)

checksum_loop-values :
    (m : Message) (checksum : ℕ)
    → All IsTlv m
    → checksum_loop checksum m ≡ crc32 checksum (values m)
unfolding checksum_loop
checksum_loop-values [] checksum h = sym (crc32-nil checksum)
checksum_loop-values (t ∷ ts) checksum h =
    ap (λ (v : Bytes). checksum_loop (crc32 checksum v) ts) (take-value t h.0)
    ∙ checksum_loop-values ts (crc32 checksum t.value) h.1
    ∙ crc32-append checksum t.value (values ts)

-- The checksum of a message of well-formed entries is the CRC-32 of all its values, taken bit by
-- bit, in network order. Types and lengths are not covered.
pub message_checksum-register :
    (m : Message)
    → All IsTlv m
    → message_checksum m ≡ be32 (bit_xor (register ones (values m)) ones)
unfolding message_checksum
message_checksum-register m h =
    ap be32 (checksum_loop-values m 0 h ∙ crc32-register 0 (values m) (values-IsBytes m h))

-- ---- the comparison

entry_error-mismatch :
    (mem : Memory) (m : Message) (t : Tlv)
    → mem.malloc (length m) t.length ≡ true
    → t.type ≡ tlv_checksum
    → checksum_differs mem m t ≡ true
    → entry_error mem m t ≡ error_checksum_mismatch
unfolding entry_error
entry_error-mismatch mem m t a e d = ground arith

proceed-mismatch :
    (m : Message) (more : MessageResult × Message)
    → proceed error_checksum_mismatch m more ≡ (error_checksum_mismatch, [])
unfolding proceed
proceed-mismatch m more = refl

abbrev wire_tlv : Tlv → Bytes
wire_tlv t = t.type ∷ (be16 t.length ++ t.value)

-- A checksum TLV behind `m`, whatever bytes follow the first.
abbrev pub checksum_tlv : ℕ → Bytes → Tlv
checksum_tlv first others = record {
  type = tlv_checksum;
  length = suc (length others);
  value = first ∷ others;
}

abbrev pub first_byte : Message → ℕ
first_byte m = get_or (message_checksum m) 0 0

get_or-checksum : (m : Message) (d : ℕ) → get_or (message_checksum m) 0 d ≡ first_byte m
unfolding message_checksum
get_or-checksum m d = refl

pub checksum_differs-first :
    (mem : Memory) (m : Message) (first : ℕ) (others : Bytes)
    → checksum_differs mem m (checksum_tlv first others) ≡ not (first_byte m == first)
unfolding checksum_differs
checksum_differs-first mem m first others =
    ap (λ (b : ℕ). not (b == first)) (get_or-checksum m mem.stray)

ChecksumsPass-append :
    (mem : Memory) (ts us m : Message)
    → ChecksumsPass mem m ts
    → ChecksumsPass mem (m ++ ts) us
    → ChecksumsPass mem m (ts ++ us)
ChecksumsPass-append mem [] us m h k = rw append-nil at k
ChecksumsPass-append mem (t ∷ ts) us m h k =
    (h.0, ChecksumsPass-append mem ts us (m ++ t ∷ []) h.1 (rw append_assoc k))

pub ChecksumsPass-concat :
    (mem : Memory) (m : Message) (t : Tlv)
    → ChecksumsPass mem [] m
    → (t.type ≡ tlv_checksum → checksum_differs mem m t ≡ false)
    → ChecksumsPass mem [] (m ++ t ∷ [])
ChecksumsPass-concat mem m t h k = ChecksumsPass-append mem m (t ∷ []) [] h (k, tt)

-- Behind well-formed entries that pass, a checksum TLV whose first byte is that of the checksum
-- is accepted whatever its other bytes are and however many: `memcmp` compares one byte.
pub parse_first_byte :
    (mem : Memory) (m : Message) (others : Bytes)
    → MallocSucceeds mem
    → All IsTlv m
    → length m < max_tlv_count
    → ChecksumsPass mem [] m
    → IsTlv (checksum_tlv (first_byte m) others)
    → message_parse mem (wire (m ++ checksum_tlv (first_byte m) others ∷ []))
      ≡ (success, m ++ checksum_tlv (first_byte m) others ∷ [])
unfolding message_parse
parse_first_byte mem m others a h room c t =
    let u = checksum_tlv (first_byte m) others in
    let passes : checksum_differs mem m u ≡ false =
      checksum_differs-first mem m (first_byte m) others ∙ ap not (eqb_refl (first_byte m)) in
    parse_loop-wire mem (m ++ u ∷ []) max_tlv_count [] a (All-append IsTlv m (u ∷ []) h (t, tt))
      (omega (arith, length-append m (u ∷ []))) (ChecksumsPass-concat mem m u c (λ _. passes))

-- A checksum TLV whose first byte is not that of the checksum of the entries before it makes
-- parsing fail with a checksum mismatch, whatever follows.
pub parse_mismatch :
    (mem : Memory) (m : Message) (first : ℕ) (others rest : Bytes)
    → MallocSucceeds mem
    → All IsTlv m
    → length m < max_tlv_count
    → ChecksumsPass mem [] m
    → IsTlv (checksum_tlv first others)
    → first ≢ first_byte m
    → message_parse mem (wire m ++ (wire (checksum_tlv first others ∷ []) ++ rest))
      ≡ (error_checksum_mismatch, [])
unfolding message_parse
parse_mismatch mem m first others rest a h room c t ne =
    let u = checksum_tlv first others in
    let left = max_tlv_count - length m - 1 in
    let differs : checksum_differs mem m u ≡ true =
      checksum_differs-first mem m first others ∙ ground (arith, ne) in
    let refused : entry_error mem m u ≡ error_checksum_mismatch =
      entry_error-mismatch mem m u (a (length m) u.length) refl differs in
    parse_loop-prefix mem m max_tlv_count (suc left) [] (wire (u ∷ []) ++ rest) a h (omega arith) c
    ∙ ap (parse_loop mem (suc left) m) (ap (λ (b : Bytes). b ++ rest) (append-nil (wire_tlv u)))
    ∙ parse_loop-cons mem left m u rest t
    ∙ ap (λ (r : MessageResult). proceed r m (parse_loop mem left (m ++ u ∷ []) rest)) refused
    ∙ proceed-mismatch m (parse_loop mem left (m ++ u ∷ []) rest)
