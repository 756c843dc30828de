-- ===== src/Message.antt =====
-- message.c and message.h: TLVs, messages, parsing and serialising.
--
-- A `message_t` is the list of its entries in use, `tlv[0 .. length)`; a new entry stands last.
-- A `tlv_t` keeps the three fields of the struct; `value` is the block that `malloc(length)` gave.
-- `size_t` sums are plain numbers: they are bounded by buffers that are in memory.
pub mod Typed
pub mod Format
pub mod Serialize
pub mod Entry
pub mod Parse
pub mod Invariant
pub mod Lookup
pub mod Checksum
pub mod Sealed
mod Tests
use koruza_driver.Prelude.{
  ℕ, zero, suc, ◌+◌, ◌-◌, List, [], ◌∷◌, ◌++◌, Bool, true, false, not, ◌&&◌, ltb, leb, ◌==◌, Option,
  none, some, if◌then◌else◌, Bytes, be16, be32, word16, length, take, drop, get_or,
}
use koruza_driver.Crc.{crc32}

-- `MAX_TLV_COUNT`.
abbrev pub max_tlv_count : ℕ
max_tlv_count = 25

-- The types of `tlv_type_t` that the driver reads or writes.
abbrev pub tlv_command : ℕ
tlv_command = 1

abbrev pub tlv_reply : ℕ
tlv_reply = 2

abbrev pub tlv_checksum : ℕ
tlv_checksum = 3

abbrev pub tlv_motor_position : ℕ
tlv_motor_position = 4

abbrev pub tlv_current_reading : ℕ
tlv_current_reading = 5

abbrev pub tlv_sfp_calibration : ℕ
tlv_sfp_calibration = 6

abbrev pub tlv_error_report : ℕ
tlv_error_report = 7

abbrev pub tlv_power_reading : ℕ
tlv_power_reading = 8

abbrev pub tlv_encoder_value : ℕ
tlv_encoder_value = 9

abbrev pub tlv_vibration_value : ℕ
tlv_vibration_value = 10

pub data MessageResult : Type 0 where
  success error_too_many_tlvs error_out_of_memory error_buffer_too_small : MessageResult
  error_parse_error error_checksum_mismatch error_tlv_not_found : MessageResult

pub record Tlv : Type 0 where
  pub type : ℕ
  pub length : ℕ
  pub value : Bytes

abbrev pub Message : Type 0
Message = List Tlv

-- What the C library supplies: whether `malloc` succeeds for entry `i` at a size, and the byte
-- that a read just behind an empty block finds.
pub record Memory : Type 0 where
  pub malloc : ℕ → ℕ → Bool
  pub stray : ℕ

abbrev pub message_init : Message
message_init = []

-- The values are given back and the message is initialised.
abbrev pub message_free : Message → Message
message_free m = message_init

-- ---- checksum

unfoldable pub checksum_loop : ℕ → Message → ℕ
checksum_loop checksum [] = checksum
checksum_loop checksum (t ∷ ts) = checksum_loop (crc32 checksum (take t.length t.value)) ts

-- The memory of the word that `message_checksum` returns, which is in network byte order.
unfoldable pub message_checksum : Message → Bytes
message_checksum m = be32 (checksum_loop 0 m)

-- ---- parsing

abbrev pub fail : MessageResult → Message → MessageResult × Message
fail result m = (result, message_free m)

-- `memcmp(&checksum, value, sizeof(uint32_t) != 0)` is not 0. The last argument is 1, so the
-- first bytes alone are compared.
unfoldable pub checksum_differs : Memory → Message → Tlv → Bool
checksum_differs mem m t =
    not (get_or (message_checksum m) 0 mem.stray == get_or t.value 0 mem.stray)

-- What follows the two bounds checks of one entry: allocation, copy and verification.
unfoldable pub entry_error : Memory → Message → Tlv → MessageResult
entry_error mem m t =
    if not (mem.malloc (length m) t.length)
    then error_out_of_memory
    else if t.type == tlv_checksum && checksum_differs mem m t
    then error_checksum_mismatch
    else success

-- The next round, unless this entry returned an error.
unfoldable pub proceed : MessageResult → Message → MessageResult × Message → MessageResult × Message
proceed success m more = more
proceed other m more = fail other m

-- The `while` loop on the bytes from `offset` on. `left` is the number of free entries,
-- `MAX_TLV_COUNT - message->length`, so the first check fails when none is left.
unfoldable pub parse_loop : Memory → ℕ → Message → Bytes → MessageResult × Message
parse_loop mem left m [] = (success, m)
parse_loop mem zero m (type ∷ rest) = fail error_too_many_tlvs m
parse_loop mem (suc left) m (type ∷ []) = fail error_parse_error m
parse_loop mem (suc left) m (type ∷ hi ∷ []) = fail error_parse_error m
parse_loop mem (suc left) m (type ∷ hi ∷ lo ∷ rest) =
    let n = word16 hi lo in
    let t : Tlv = record { type = type; length = n; value = take n rest } in
    let more = parse_loop mem left (m ++ t ∷ []) (drop n rest) in
    if ltb (length rest) n then fail error_parse_error m else proceed (entry_error mem m t) m more

unfoldable pub message_parse : Memory → Bytes → MessageResult × Message
message_parse mem bytes = parse_loop mem max_tlv_count message_init bytes

-- ---- adding and reading entries

unfoldable pub message_tlv_add : Memory → Message → ℕ → ℕ → Bytes → MessageResult × Message
message_tlv_add mem m type n value =
    if leb max_tlv_count (length m)
    then (error_too_many_tlvs, m)
    else if not (mem.malloc (length m) n)
    then (error_out_of_memory, m)
    else (success, m ++ (record { type = type; length = n; value = take n value }) ∷ [])

-- `assert_failed` is the abort of a TLV that is longer than the destination.
pub data Get {ℓ} (A : Type ℓ) : Type ℓ where
  found : A → Get A
  not_found assert_failed : Get A

-- `destination` is the memory of the destination before the call; the bytes that a shorter TLV
-- does not reach stay as they are.
unfoldable pub message_tlv_get : Message → ℕ → Bytes → ℕ → Get Bytes
message_tlv_get [] type destination size = not_found
message_tlv_get (t ∷ ts) type destination size =
    if t.type == type
    then (if leb t.length size
        then found (take t.length t.value ++ drop t.length destination)
        else assert_failed)
    else message_tlv_get ts type destination size

-- ---- serialising

abbrev pub tlv_size : Tlv → ℕ
tlv_size t = 1 + 2 + t.length

unfoldable pub size_loop : ℕ → Message → ℕ
size_loop size [] = size
size_loop size (t ∷ ts) = size_loop (size + tlv_size t) ts

unfoldable pub message_serialized_size : Message → ℕ
unfolding size_loop
message_serialized_size m = size_loop 0 m

-- The three `memcpy` calls of one entry.
abbrev pub tlv_bytes : Tlv → Bytes
tlv_bytes t = t.type ∷ (be16 t.length ++ take t.length t.value)

-- `none` is MESSAGE_ERROR_BUFFER_TOO_SMALL; else the bytes written, `offset` many.
unfoldable pub serialize_loop : Bytes → ℕ → Message → Option Bytes
serialize_loop written remaining [] = some written
serialize_loop written remaining (t ∷ ts) =
    let rest = serialize_loop (written ++ tlv_bytes t) (remaining - tlv_size t) ts in
    if ltb remaining (tlv_size t) then none else rest

unfoldable pub message_serialize : ℕ → Message → Option Bytes
unfolding serialize_loop
message_serialize size m = serialize_loop [] size m
