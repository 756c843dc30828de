-- ===== src/Message/Typed.antt =====
-- The typed accessors of message.c: `message_tlv_add_*` and `message_tlv_get_*`. An `int32_t` or
-- `uint32_t` is its bit pattern, a number below 2 ^ 32.
use koruza_driver.Prelude.{
  ℕ, ◌+◌, List, [], ◌∷◌, ◌++◌, Bytes, u8, be16, be32, word16, word32_at, get_or,
}
use koruza_driver.Message.{
  Message, MessageResult, Memory, Get, found, not_found, assert_failed, message_tlv_add,
  message_tlv_get, message_checksum, tlv_command, tlv_reply, tlv_checksum, tlv_motor_position,
  tlv_current_reading, tlv_sfp_calibration, tlv_error_report, tlv_power_reading, tlv_encoder_value,
  tlv_vibration_value,
}

pub record MotorPosition : Type 0 where
  pub x : ℕ
  pub y : ℕ
  pub z : ℕ

pub record EncoderValue : Type 0 where
  pub x : ℕ
  pub y : ℕ

-- The six arrays of four words each.
pub record VibrationValue : Type 0 where
  pub avg_x : List ℕ
  pub avg_y : List ℕ
  pub avg_z : List ℕ
  pub max_x : List ℕ
  pub max_y : List ℕ
  pub max_z : List ℕ

pub record ErrorReport : Type 0 where
  pub code : ℕ

pub record SfpCalibration : Type 0 where
  pub offset_x : ℕ
  pub offset_y : ℕ

-- ---- the memory of the converted structures

abbrev pub motor_position_bytes : MotorPosition → Bytes
motor_position_bytes p = be32 p.x ++ (be32 p.y ++ be32 p.z)

abbrev pub array_bytes : List ℕ → Bytes
array_bytes ws =
    be32 (get_or ws 0 0) ++ (be32 (get_or ws 1 0) ++ (be32 (get_or ws 2 0) ++ be32 (get_or ws 3 0)))

abbrev pub vibration_value_bytes : VibrationValue → Bytes
vibration_value_bytes v =
    array_bytes v.avg_x
    ++ (array_bytes v.avg_y
        ++ (array_bytes v.avg_z
            ++ (array_bytes v.max_x ++ (array_bytes v.max_y ++ array_bytes v.max_z))))

module _ (mem : Memory) (m : Message) where
  unfoldable pub message_tlv_add_command : ℕ → MessageResult × Message
  message_tlv_add_command command = message_tlv_add mem m tlv_command 1 (u8 command ∷ [])

  unfoldable pub message_tlv_add_reply : ℕ → MessageResult × Message
  message_tlv_add_reply reply = message_tlv_add mem m tlv_reply 1 (u8 reply ∷ [])

  unfoldable pub message_tlv_add_motor_position : MotorPosition → MessageResult × Message
  message_tlv_add_motor_position position =
      message_tlv_add mem m tlv_motor_position 12 (motor_position_bytes position)

  unfoldable pub message_tlv_add_error_report : ErrorReport → MessageResult × Message
  message_tlv_add_error_report report = message_tlv_add mem m tlv_error_report 4 (be32 report.code)

  unfoldable pub message_tlv_add_current_reading : ℕ → MessageResult × Message
  message_tlv_add_current_reading current =
      message_tlv_add mem m tlv_current_reading 2 (be16 current)

  unfoldable pub message_tlv_add_power_reading : ℕ → MessageResult × Message
  message_tlv_add_power_reading power = message_tlv_add mem m tlv_power_reading 2 (be16 power)

  unfoldable pub message_tlv_add_encoder_value : EncoderValue → MessageResult × Message
  message_tlv_add_encoder_value v = message_tlv_add mem m tlv_encoder_value 8 (be32 v.x ++ be32 v.y)

  unfoldable pub message_tlv_add_vibration_value : VibrationValue → MessageResult × Message
  message_tlv_add_vibration_value v =
      message_tlv_add mem m tlv_vibration_value 96 (vibration_value_bytes v)

  unfoldable pub message_tlv_add_sfp_calibration : SfpCalibration → MessageResult × Message
  message_tlv_add_sfp_calibration c =
      message_tlv_add mem m tlv_sfp_calibration 8 (be32 c.offset_x ++ be32 c.offset_y)

  unfoldable pub message_tlv_add_checksum : MessageResult × Message
  message_tlv_add_checksum = message_tlv_add mem m tlv_checksum 4 (message_checksum m)

-- ---- reading

-- The conversion that follows a successful `message_tlv_get`; the other results are passed on.
abbrev pub get_map {ℓ κ} : {A : Type ℓ} {B : Type κ} → (A → B) → Get A → Get B
get_map f (found a) = found (f a)
get_map f not_found = not_found
get_map f assert_failed = assert_failed

abbrev pub motor_position_of : Bytes → MotorPosition
motor_position_of bs = record { x = word32_at bs 0; y = word32_at bs 4; z = word32_at bs 8 }

abbrev pub encoder_value_of : Bytes → EncoderValue
encoder_value_of bs = record { x = word32_at bs 0; y = word32_at bs 4 }

abbrev pub sfp_calibration_of : Bytes → SfpCalibration
sfp_calibration_of bs = record { offset_x = word32_at bs 0; offset_y = word32_at bs 4 }

abbrev pub array_of : Bytes → ℕ → List ℕ
array_of bs i =
    word32_at bs i ∷ word32_at bs (i + 4) ∷ word32_at bs (i + 8) ∷ word32_at bs (i + 12) ∷ []

abbrev pub vibration_value_of : Bytes → VibrationValue
vibration_value_of bs = record {
  avg_x = array_of bs 0;
  avg_y = array_of bs 16;
  avg_z = array_of bs 32;
  max_x = array_of bs 48;
  max_y = array_of bs 64;
  max_z = array_of bs 80;
}

-- `before` is the memory of the destination before the call.
module _ (m : Message) (before : Bytes) where
  unfoldable pub message_tlv_get_command : Get ℕ
  message_tlv_get_command = get_map (λ bs. get_or bs 0 0) (message_tlv_get m tlv_command before 1)

  unfoldable pub message_tlv_get_reply : Get ℕ
  message_tlv_get_reply = get_map (λ bs. get_or bs 0 0) (message_tlv_get m tlv_reply before 1)

  unfoldable pub message_tlv_get_motor_position : Get MotorPosition
  message_tlv_get_motor_position =
      get_map motor_position_of (message_tlv_get m tlv_motor_position before 12)

  unfoldable pub message_tlv_get_error_report : Get ErrorReport
  message_tlv_get_error_report =
      get_map (λ bs. record { code = word32_at bs 0 }) (message_tlv_get m tlv_error_report before 4)

  unfoldable pub message_tlv_get_current_reading : Get ℕ
  message_tlv_get_current_reading =
      get_map (λ bs. word16 (get_or bs 0 0) (get_or bs 1 0))
        (message_tlv_get m tlv_current_reading before 2)

  unfoldable pub message_tlv_get_encoder_value : Get EncoderValue
  message_tlv_get_encoder_value =
      get_map encoder_value_of (message_tlv_get m tlv_encoder_value before 8)

  unfoldable pub message_tlv_get_vibration_value : Get VibrationValue
  message_tlv_get_vibration_value =
      get_map vibration_value_of (message_tlv_get m tlv_vibration_value before 96)

  unfoldable pub message_tlv_get_sfp_calibration : Get SfpCalibration
  message_tlv_get_sfp_calibration =
      get_map sfp_calibration_of (message_tlv_get m tlv_sfp_calibration before 8)
