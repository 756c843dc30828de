-- ===== src/Koruza/Window/Shape.antt =====
-- The arrays of the window of accelerometer samples, and the index that is written.
use koruza_driver.Prelude.{
  ℕ, ◌≤◌, ◌<◌, ◌≡◌, ◌∙◌, List, [], ◌∷◌, true, map, ◌&&◌, ◌==◌, Option, some, none, Bytes, signed32,
  length, length-replicate, length-put_at, Bool-cases, inl, inr, All, arith,
}
use koruza_driver.Message.{
  Message, Get, found, not_found, assert_failed, tlv_vibration_value, tlv_reply, tlv_command,
}
use koruza_driver.Message.Typed.{
  VibrationValue, message_tlv_get_reply, message_tlv_get_command, message_tlv_get_vibration_value,
}
use koruza_driver.Koruza.{or_zero, reply_status_report}
use koruza_driver.Koruza.Window.{
  FloatOps, window_size, Item, zero_item, koruza_update_accelerometer_statistics_item,
  koruza_compute_accelerometer_statistics_item, Accelerometer,
  koruza_compute_accelerometer_statistics, update_axis, take_vibration, dispatch_accelerometer,
  koruza_serial_accelerometer_message_handler,
}

module _ {F : Type 0} where
  -- Both arrays are whole, what is written is inside them, and so is what is read.
  pub record IsItem (item : Item F) : Type 0 where
    pub whole : length item.buffer ≡ window_size
    pub whole_max : length item.buffer_max ≡ window_size
    pub inside : item.index < window_size
    pub filled : item.samples ≤ window_size

  abbrev pub IsWindow : Accelerometer F → Type 0
  IsWindow a = All IsItem a.x × All IsItem a.y × All IsItem a.z

  module _ (o : FloatOps F) where
    pub zero-IsItem : IsItem (zero_item o)
    unfolding zero_item
    zero-IsItem = record {
      whole = length-replicate window_size o.zero_float;
      whole_max = length-replicate window_size o.zero_float;
      inside = omega arith;
      filled = omega arith;
    }

    update-IsItem :
        (item : Item F) (avg max : F)
        → IsItem item
        → IsItem (koruza_update_accelerometer_statistics_item o item avg max)
    unfolding koruza_update_accelerometer_statistics_item
    update-IsItem item avg max h = record {
      whole = length-put_at item.buffer item.index avg ∙ h.whole;
      whole_max = length-put_at item.buffer_max item.index max ∙ h.whole_max;
      inside = omega arith;
      filled = let f = h.filled in ground (arith, f);
    }

    compute-IsItem :
        (item : Item F) → IsItem item → IsItem (koruza_compute_accelerometer_statistics_item o item)
    unfolding koruza_compute_accelerometer_statistics_item
    compute-IsItem item h = record {
      whole = h.whole;
      whole_max = h.whole_max;
      inside = h.inside;
      filled = h.filled;
    }

    compute_axis :
        (items : List (Item F))
        → All IsItem items
        → All IsItem (map (koruza_compute_accelerometer_statistics_item o) items)
    compute_axis [] h = tt
    compute_axis (item ∷ items) h = (compute-IsItem item h.0, compute_axis items h.1)

    pub compute-IsWindow :
        (a : Accelerometer F) → IsWindow a → IsWindow (koruza_compute_accelerometer_statistics o a)
    unfolding koruza_compute_accelerometer_statistics
    compute-IsWindow a h = (compute_axis a.x h.0, compute_axis a.y h.1, compute_axis a.z h.2)

    update_axis-IsItem :
        (items : List (Item F)) (avgs maxs : List ℕ)
        → All IsItem items
        → All IsItem (update_axis o items avgs maxs)
    unfolding update_axis
    update_axis-IsItem [] avgs maxs h = tt
    update_axis-IsItem (item ∷ items) [] maxs h = h
    update_axis-IsItem (item ∷ items) (a ∷ avgs) [] h = h
    update_axis-IsItem (item ∷ items) (a ∷ avgs) (m ∷ maxs) h = (
      update-IsItem item (o.of_int (signed32 a)) (o.of_int (signed32 m)) h.0,
      update_axis-IsItem items avgs maxs h.1,
    )

    -- Of a handler that has not aborted.
    abbrev pub StaysWindow : Option (Accelerometer F) → Type 0
    StaysWindow none = Unit
    StaysWindow (some a) = IsWindow a

    take_vibration-StaysWindow :
        (a : Accelerometer F) (v : Get VibrationValue)
        → IsWindow a
        → StaysWindow (take_vibration o a v)
    unfolding take_vibration
    take_vibration-StaysWindow a (found v) h = (
      update_axis-IsItem a.x v.avg_x v.max_x h.0,
      update_axis-IsItem a.y v.avg_y v.max_y h.1,
      update_axis-IsItem a.z v.avg_z v.max_z h.2,
    )
    take_vibration-StaysWindow a not_found h = h
    take_vibration-StaysWindow a assert_failed h = tt

    dispatch-StaysWindow :
        (a : Accelerometer F) (v : Get VibrationValue) (reply command : Option ℕ)
        → IsWindow a
        → StaysWindow (dispatch_accelerometer o a v reply command)
    dispatch-StaysWindow a v none command h = tt
    dispatch-StaysWindow a v (some reply) none h = tt
    dispatch-StaysWindow a v (some reply) (some command) h =
        elim (Bool-cases (reply == 0 && command == 0)) [
          | inl neither ↦ rw neither h
          | inr either ↦ rw either (elim (Bool-cases (reply == reply_status_report)) [
            | inl report ↦
                rw report (take_vibration-StaysWindow (record a { connected = true }) v h)
            | inr other ↦ rw other h
          ])
        ]

    pub handler-StaysWindow :
        (before : ℕ → Bytes) (m : Message) (a : Accelerometer F)
        → IsWindow a
        → StaysWindow (koruza_serial_accelerometer_message_handler o before m a)
    unfolding koruza_serial_accelerometer_message_handler
    handler-StaysWindow before m a h =
        dispatch-StaysWindow a (message_tlv_get_vibration_value m (before tlv_vibration_value))
          (or_zero (message_tlv_get_reply m (before tlv_reply)))
          (or_zero (message_tlv_get_command m (before tlv_command))) h
