-- ===== src/Message/Tests.antt =====
-- The messages of tests/test_tlv.c, and the laws at concrete inputs.
use koruza_driver.Prelude.{ℕ, ◌≡◌, refl, ◌↔◌, [], ◌∷◌, ◌++◌, Bytes, true, some, length, arith}
use koruza_driver.Crc.{crc32_tab, crc32_step, crc32_loop, crc32}
use koruza_driver.Message.{
  Tlv, Message, Memory, success, error_parse_error, error_checksum_mismatch, checksum_loop,
  message_checksum, checksum_differs, entry_error, proceed, parse_loop, message_parse,
  message_tlv_add, message_serialize, message_serialized_size,
}
use koruza_driver.Message.Typed.{
  MotorPosition, message_tlv_add_command, message_tlv_add_motor_position,
}
use koruza_driver.Message.Format.{IsMessage, wire, ChecksumsPass}
use koruza_driver.Message.Parse.{message_parse_iff}
use koruza_driver.Message.Checksum.{checksum_tlv, first_byte, parse_first_byte}
use koruza_driver.Message.Sealed.{serialize-parse}

abbrev plenty : Memory
plenty = record { malloc = λ i n. true; stray = 0 }

-- {-18004, -18009, 0}
abbrev position : MotorPosition
position = record { x = 4294949292; y = 4294949287; z = 0 }

abbrev command_tlv : Tlv
command_tlv = record { type = 1; length = 1; value = 7 ∷ [] }

abbrev position_tlv : Tlv
position_tlv = record {
  type = 4;
  length = 12;
  value = 255 ∷ 255 ∷ 185 ∷ 172 ∷ 255 ∷ 255 ∷ 185 ∷ 167 ∷ 0 ∷ 0 ∷ 0 ∷ 0 ∷ [];
}

abbrev restore : Message
restore = command_tlv ∷ position_tlv ∷ []

abbrev restore_bytes : Bytes
restore_bytes =
    1 ∷ 0 ∷ 1 ∷ 7 ∷ 4 ∷ 0 ∷ 12 ∷ 255 ∷ 255 ∷ 185 ∷ 172 ∷ 255 ∷ 255 ∷ 185 ∷ 167 ∷ 0 ∷ 0 ∷ 0 ∷ 0 ∷ []

restore_built :
    (message_tlv_add_motor_position plenty (message_tlv_add_command plenty [] 7).1 position).1
    ≡ restore
unfolding message_tlv_add_motor_position message_tlv_add_command message_tlv_add
restore_built = refl

restore_serialized : message_serialize 1024 restore ≡ some restore_bytes
unfolding message_serialize
restore_serialized = refl

refusals :
    (message_parse plenty (1 ∷ 0 ∷ []) ≡ (error_parse_error, []))
    × (message_parse plenty (1 ∷ 0 ∷ 2 ∷ 7 ∷ []) ≡ (error_parse_error, []))
    × (message_parse plenty (3 ∷ 0 ∷ 1 ∷ 9 ∷ []) ≡ (error_checksum_mismatch, []))
unfolding message_parse parse_loop proceed entry_error checksum_differs message_checksum
    checksum_loop
refusals = (refl, refl, refl)

restore-IsMessage : IsMessage restore
restore-IsMessage = omega arith

restore_passes : ChecksumsPass plenty [] restore
restore_passes = (λ e. absurd (omega arith), (λ e. absurd (omega arith), tt))

malloc_plenty : (i n : ℕ) → plenty.malloc i n ≡ true
malloc_plenty i n = refl

message_parse_iff_example :
    (message_parse plenty restore_bytes ≡ (success, restore))
    ↔ (IsMessage restore × (wire restore ≡ restore_bytes) × ChecksumsPass plenty [] restore)
message_parse_iff_example =
    message_parse_iff plenty restore_bytes restore malloc_plenty (omega arith)

restore_parsed : message_parse plenty restore_bytes ≡ (success, restore)
unfolding message_parse parse_loop proceed entry_error
restore_parsed = refl

serialize-parse_example :
    (message_serialized_size restore ≡ length restore_bytes)
    × (message_serialize (message_serialized_size restore) restore ≡ some restore_bytes)
serialize-parse_example = serialize-parse plenty restore_bytes (omega arith) restore_parsed

-- The checksum of the message is 0x65e93ef3.
restore_checksum : message_checksum restore ≡ 101 ∷ 233 ∷ 62 ∷ 243 ∷ []
unfolding message_checksum checksum_loop crc32 crc32_loop crc32_step crc32_tab
restore_checksum = refl

restore_first : first_byte restore ≡ 101
unfolding message_checksum checksum_loop crc32 crc32_loop crc32_step crc32_tab
restore_first = refl

parse_first_byte_example :
    message_parse plenty (wire (restore ++ checksum_tlv (first_byte restore) (1 ∷ 2 ∷ []) ∷ []))
    ≡ (success, restore ++ checksum_tlv (first_byte restore) (1 ∷ 2 ∷ []) ∷ [])
parse_first_byte_example =
    parse_first_byte plenty restore (1 ∷ 2 ∷ []) malloc_plenty restore-IsMessage.1 (omega arith)
      restore_passes (omega (arith, restore_first))
