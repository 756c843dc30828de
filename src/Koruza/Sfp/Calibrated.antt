-- ===== src/Koruza/Sfp/Calibrated.antt =====
-- The calibration in the vendor data of the SFP module, from the message that is stored there to
-- the offsets of the camera.
use mathlib.Core.Path.{subst}
use koruza_driver.Prelude.{
  ◌≡◌, refl, sym, ap, ◌∙◌, [], ◌∷◌, ◌++◌, some, Bytes, be32, word32-be32, arith,
}
use koruza_driver.Message.{
  Message, Memory, success, found, tlv_checksum, tlv_sfp_calibration, message_init,
  message_checksum, message_parse, message_tlv_add, message_tlv_get,
}
use koruza_driver.Message.Typed.{
  SfpCalibration, message_tlv_add_sfp_calibration, message_tlv_add_checksum,
  message_tlv_get_sfp_calibration,
}
use koruza_driver.Message.Format.{IsMessage, wire}
use koruza_driver.Message.Entry.{MallocSucceeds}
use koruza_driver.Message.Invariant.{new_tlv}
use koruza_driver.Message.Lookup.{IsWord}
use koruza_driver.Message.Sealed.{parse-add_checksum}
use koruza_driver.Koruza.Window.{FloatOps}
use koruza_driver.Koruza.Sfp.{SfpCasts, Sfp, koruza_sfp_get_calibration_data}

abbrev entry : SfpCalibration → Message
entry c = new_tlv tlv_sfp_calibration 8 (be32 c.offset_x ++ be32 c.offset_y) ∷ []

-- The message with the calibration and a checksum.
abbrev pub calibration_message : Memory → SfpCalibration → Message
calibration_message mem c =
    (message_tlv_add_checksum mem (message_tlv_add_sfp_calibration mem message_init c).1).1

entry_built :
    (mem : Memory) (c : SfpCalibration)
    → MallocSucceeds mem
    → (message_tlv_add_sfp_calibration mem message_init c).1 ≡ entry c
unfolding message_tlv_add_sfp_calibration message_tlv_add
entry_built mem c a = rw (a 0 8) refl

entry_sealed :
    (mem : Memory) (c : SfpCalibration)
    → MallocSucceeds mem
    → (message_tlv_add_checksum mem (entry c)).1
      ≡ entry c ++ new_tlv tlv_checksum 4 (message_checksum (entry c)) ∷ []
unfolding message_tlv_add_checksum message_tlv_add
entry_sealed mem c a = rw (a 1 4) refl

entry-IsMessage : (c : SfpCalibration) → IsMessage (entry c)
entry-IsMessage c = (omega arith, (omega arith, tt))

calibration_message-parsed :
    (mem : Memory) (c : SfpCalibration)
    → MallocSucceeds mem
    → message_parse mem (wire (calibration_message mem c)) ≡ (success, calibration_message mem c)
calibration_message-parsed mem c a =
    subst (λ m. message_parse mem (wire m) ≡ (success, m))
      (sym (ap (λ (m : Message). (message_tlv_add_checksum mem m).1) (entry_built mem c a)))
      (parse-add_checksum mem (entry c) a (entry-IsMessage c) (omega arith)
        ((λ e. absurd (omega (arith, e))), tt))

calibration_message-read :
    (mem : Memory) (c : SfpCalibration) (before : Bytes)
    → MallocSucceeds mem
    → IsWord c.offset_x × IsWord c.offset_y
    → message_tlv_get_sfp_calibration (calibration_message mem c) before ≡ found c
unfolding message_tlv_get_sfp_calibration message_tlv_get message_checksum
calibration_message-read mem c before a w =
    ap (λ (m : Message). message_tlv_get_sfp_calibration m before)
      (ap (λ (m : Message). (message_tlv_add_checksum mem m).1) (entry_built mem c a)
        ∙ entry_sealed mem c a)
    ∙ (λ i. found (record {
      offset_x = word32-be32 c.offset_x w.0 i;
      offset_y = word32-be32 c.offset_y w.1 i;
    }))

-- Vendor data that is the wire format of a message with two 32-bit offsets and a checksum sets the
-- offsets of the camera to these, and leaves the powers.
pub sfp_calibration_taken :
    {F : Type 0} (o : FloatOps F) (k : SfpCasts F) (mem : Memory) (before : Bytes)
    (c : SfpCalibration) (s : Sfp)
    → MallocSucceeds mem
    → IsWord c.offset_x × IsWord c.offset_y
    → koruza_sfp_get_calibration_data o k mem before (some (wire (calibration_message mem c))) s
      ≡ some (record s { offset_x = c.offset_x; offset_y = c.offset_y })
unfolding koruza_sfp_get_calibration_data
sfp_calibration_taken o k mem before c s a w =
    rw (calibration_message-parsed mem c a, calibration_message-read mem c before a w) refl
