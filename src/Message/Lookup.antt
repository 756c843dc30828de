-- ===== src/Message/Lookup.antt =====
-- `message_tlv_get` finds the first TLV of a type, and the typed accessors are inverse: what one
-- adds, the other reads back.
use koruza_driver.Prelude.{
  ℕ, ◌/◌, ◌%◌, ◌<◌, ◌^◌, ◌≡◌, ◌≢◌, refl, ap, ◌∙◌, inl, inr, List, [], ◌∷◌, ◌++◌, Bytes, length,
  take, drop, All, ◌==◌, u8, be32, word32, word32-be32, get_or, Bool-cases, true, arith,
}
use koruza_driver.Message.{
  Message, Memory, MessageResult, max_tlv_count, Get, found, not_found, assert_failed,
  message_tlv_add, message_tlv_get, tlv_command, tlv_reply, tlv_motor_position, tlv_encoder_value,
  tlv_vibration_value, tlv_sfp_calibration,
}
use koruza_driver.Message.Typed.{
  MotorPosition, EncoderValue, VibrationValue, SfpCalibration, get_map, motor_position_of,
  encoder_value_of, sfp_calibration_of, vibration_value_of, motor_position_bytes,
  vibration_value_bytes, message_tlv_add_command, message_tlv_get_command, message_tlv_add_reply,
  message_tlv_get_reply, message_tlv_add_motor_position, message_tlv_get_motor_position,
  message_tlv_add_encoder_value, message_tlv_get_encoder_value, message_tlv_add_vibration_value,
  message_tlv_get_vibration_value, message_tlv_add_sfp_calibration, message_tlv_get_sfp_calibration,
}
use koruza_driver.Message.Invariant.{new_tlv, message_tlv_add_lem}

-- No entry has the type.
abbrev pub Lacks : ℕ → Message → Type 0
Lacks type = All (λ t. t.type ≢ type)

abbrev pub or_else {ℓ} : {A : Type ℓ} → Get A → Get A → Get A
or_else (found a) r = found a
or_else not_found r = r
or_else assert_failed r = assert_failed

-- A lookup in two messages one after the other looks in the second only if the first has no TLV
-- of the type.
pub message_tlv_get-append :
    (a b : Message) (type : ℕ) (destination : Bytes) (size : ℕ)
    → message_tlv_get (a ++ b) type destination size
      ≡ or_else (message_tlv_get a type destination size) (message_tlv_get b type destination size)
unfolding message_tlv_get
message_tlv_get-append [] b type destination size = refl
message_tlv_get-append (t ∷ a) b type destination size = elim (Bool-cases (t.type == type)) [
  | inl same ↦ rw same (ground arith)
  | inr other ↦ rw other (message_tlv_get-append a b type destination size)
]

pub message_tlv_get-Lacks :
    (m : Message) (type : ℕ) (destination : Bytes) (size : ℕ)
    → Lacks type m
    → message_tlv_get m type destination size ≡ not_found
unfolding message_tlv_get
message_tlv_get-Lacks [] type destination size h = refl
message_tlv_get-Lacks (t ∷ m) type destination size h =
    ground (arith, h.0, message_tlv_get-Lacks m type destination size h.1)

-- There is room and memory for one more entry of `n` bytes.
abbrev pub HasRoom : Memory → Message → ℕ → Type 0
HasRoom mem m n = (length m < max_tlv_count) × (mem.malloc (length m) n ≡ true)

new-found :
    (m : Message) (type n : ℕ) (value before : Bytes)
    → Lacks type m
    → message_tlv_get (m ++ new_tlv type n value ∷ []) type before n
      ≡ found (take n (take n value) ++ drop n before)
new-found m type n value before h =
    message_tlv_get-append m (new_tlv type n value ∷ []) type before n
    ∙ ap (λ (r : Get Bytes). or_else r (message_tlv_get (new_tlv type n value ∷ []) type before n))
        (message_tlv_get-Lacks m type before n h)
    ∙ last
  where
    last :
        message_tlv_get (new_tlv type n value ∷ []) type before n
        ≡ found (take n (take n value) ++ drop n before)
    last = unfold message_tlv_get in ground arith

-- What `message_tlv_add` put in as the first TLV of its type is what `message_tlv_get` copies out.
pub get-add :
    (mem : Memory) (m : Message) (type n : ℕ) (value before : Bytes)
    → HasRoom mem m n
    → Lacks type m
    → message_tlv_get (message_tlv_add mem m type n value).1 type before n
      ≡ found (take n (take n value) ++ drop n before)
get-add mem m type n value before r h =
    ap (λ (p : MessageResult × Message). message_tlv_get p.1 type before n)
      ((message_tlv_add_lem mem m type n value).2 r.0 r.1)
    ∙ new-found m type n value before h

abbrev pub IsWord : ℕ → Type 0
IsWord w = w < 2 ^ 32

-- The four words of an array member.
abbrev pub IsArray : List ℕ → Type 0
IsArray ws = (length ws ≡ 4) × All IsWord ws

abbrev read_back : ℕ → ℕ
read_back w = word32 (w / 2 ^ 24 % 2 ^ 8) (w / 2 ^ 16 % 2 ^ 8) (w / 2 ^ 8 % 2 ^ 8) (w % 2 ^ 8)

array_read_back :
    (ws : List ℕ)
    → IsArray ws
    → read_back (get_or ws 0 0)
        ∷ read_back (get_or ws 1 0)
        ∷ read_back (get_or ws 2 0)
        ∷ read_back (get_or ws 3 0)
        ∷ []
      ≡ ws
array_read_back (a ∷ b ∷ c ∷ d ∷ []) h = λ i.
    word32-be32 a h.1.0 i
    ∷ word32-be32 b h.1.1.0 i
    ∷ word32-be32 c h.1.1.1.0 i
    ∷ word32-be32 d h.1.1.1.1.0 i
    ∷ []
array_read_back [] h = absurd (omega arith)
array_read_back (a ∷ []) h = absurd (omega arith)
array_read_back (a ∷ b ∷ []) h = absurd (omega arith)
array_read_back (a ∷ b ∷ c ∷ []) h = absurd (omega arith)
array_read_back (a ∷ b ∷ c ∷ d ∷ e ∷ ws) h = absurd (omega arith)

module _ (mem : Memory) (m : Message) (before : Bytes) where
  -- A command survives `message_tlv_add_command` and `message_tlv_get_command`, cut to a byte.
  pub get_command-add_command :
      (command : ℕ)
      → HasRoom mem m 1
      → Lacks tlv_command m
      → message_tlv_get_command (message_tlv_add_command mem m command).1 before
        ≡ found (u8 command)
  unfolding message_tlv_get_command message_tlv_add_command
  get_command-add_command command r h =
      ap (get_map (λ bs. get_or bs 0 0)) (get-add mem m tlv_command 1 (u8 command ∷ []) before r h)

  pub get_reply-add_reply :
      (reply : ℕ)
      → HasRoom mem m 1
      → Lacks tlv_reply m
      → message_tlv_get_reply (message_tlv_add_reply mem m reply).1 before ≡ found (u8 reply)
  unfolding message_tlv_get_reply message_tlv_add_reply
  get_reply-add_reply reply r h =
      ap (get_map (λ bs. get_or bs 0 0)) (get-add mem m tlv_reply 1 (u8 reply ∷ []) before r h)

  -- A motor position of three 32-bit words survives the two conversions of byte order, whatever
  -- the destination held.
  pub get_motor_position-add_motor_position :
      (p : MotorPosition)
      → IsWord p.x × IsWord p.y × IsWord p.z
      → HasRoom mem m 12
      → Lacks tlv_motor_position m
      → message_tlv_get_motor_position (message_tlv_add_motor_position mem m p).1 before ≡ found p
  unfolding message_tlv_get_motor_position message_tlv_add_motor_position
  get_motor_position-add_motor_position p w r h =
      ap (get_map motor_position_of)
        (get-add mem m tlv_motor_position 12 (motor_position_bytes p) before r h)
      ∙ λ i. found (record {
        x = word32-be32 p.x w.0 i;
        y = word32-be32 p.y w.1 i;
        z = word32-be32 p.z w.2 i;
      })

  pub get_encoder_value-add_encoder_value :
      (v : EncoderValue)
      → IsWord v.x × IsWord v.y
      → HasRoom mem m 8
      → Lacks tlv_encoder_value m
      → message_tlv_get_encoder_value (message_tlv_add_encoder_value mem m v).1 before ≡ found v
  unfolding message_tlv_get_encoder_value message_tlv_add_encoder_value
  get_encoder_value-add_encoder_value v w r h =
      ap (get_map encoder_value_of)
        (get-add mem m tlv_encoder_value 8 (be32 v.x ++ be32 v.y) before r h)
      ∙ λ i. found (record { x = word32-be32 v.x w.0 i; y = word32-be32 v.y w.1 i })

  pub get_sfp_calibration-add_sfp_calibration :
      (c : SfpCalibration)
      → IsWord c.offset_x × IsWord c.offset_y
      → HasRoom mem m 8
      → Lacks tlv_sfp_calibration m
      → message_tlv_get_sfp_calibration (message_tlv_add_sfp_calibration mem m c).1 before ≡ found c
  unfolding message_tlv_get_sfp_calibration message_tlv_add_sfp_calibration
  get_sfp_calibration-add_sfp_calibration c w r h =
      ap (get_map sfp_calibration_of)
        (get-add mem m tlv_sfp_calibration 8 (be32 c.offset_x ++ be32 c.offset_y) before r h)
      ∙ λ i. found (record {
        offset_x = word32-be32 c.offset_x w.0 i;
        offset_y = word32-be32 c.offset_y w.1 i;
      })

  -- A vibration value of six arrays of four 32-bit words survives the two conversions of byte
  -- order, whatever the destination held.
  pub get_vibration_value-add_vibration_value :
      (v : VibrationValue)
      → IsArray v.avg_x
        × IsArray v.avg_y
        × IsArray v.avg_z
        × IsArray v.max_x
        × IsArray v.max_y
        × IsArray v.max_z
      → HasRoom mem m 96
      → Lacks tlv_vibration_value m
      → message_tlv_get_vibration_value (message_tlv_add_vibration_value mem m v).1 before ≡ found v
  unfolding message_tlv_get_vibration_value message_tlv_add_vibration_value
  get_vibration_value-add_vibration_value v w r h =
      ap (get_map vibration_value_of)
        (get-add mem m tlv_vibration_value 96 (vibration_value_bytes v) before r h)
      ∙ λ i. found (record {
        avg_x = array_read_back v.avg_x w.0 i;
        avg_y = array_read_back v.avg_y w.1 i;
        avg_z = array_read_back v.avg_z w.2 i;
        max_x = array_read_back v.max_x w.3 i;
        max_y = array_read_back v.max_y w.4 i;
        max_z = array_read_back v.max_z w.5 i;
      })
