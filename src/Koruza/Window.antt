-- ===== src/Koruza/Window.antt =====
-- koruza.c: the window of accelerometer samples, and the handler of messages from the accelerometer.
--
-- `float` and its operations are a parameter, the record `FloatOps`.
pub mod Recent
pub mod Maximum
pub mod Shape
use koruza_driver.Prelude.{
  ℕ, zero, suc, ◌+◌, ◌%◌, ◌≤◌, ◌<◌, ◌≡◌, ◌≢◌, refl, ap, ◌∙◌, inl, inr, List, [], ◌∷◌, Bool, true,
  false, not, ◌&&◌, ◌==◌, map, Option, some, none, if◌then◌else◌, Bytes, ℤ, pos, signed32, ltb,
  length, replicate, length-replicate, get_or, put_at, length-put_at, get-put_at, get-put_at_other,
  min, Bool-cases, eqb→eq, arith,
}
use koruza_driver.Message.{
  Message, Get, found, not_found, assert_failed, tlv_reply, tlv_command, tlv_vibration_value,
}
use koruza_driver.Message.Typed.{
  VibrationValue, message_tlv_get_reply, message_tlv_get_command, message_tlv_get_vibration_value,
}
use koruza_driver.Koruza.{or_zero, reply_status_report}

-- The operations on `float` that are used; `of_int` converts an integer.
pub record FloatOps (F : Type 0) : Type 0 where
  pub zero_float : F
  pub nan : F
  pub minus_infinity : F
  pub add : F → F → F
  pub sub : F → F → F
  pub mul : F → F → F
  pub div : F → F → F
  pub greater : F → F → Bool
  pub of_int : ℤ → F

-- `ACCELEROMETER_STATISTICS_BUFFER_SIZE`.
abbrev pub window_size : ℕ
window_size = 120

-- `struct accelerometer_statistics_item`.
pub record Item (F : Type 0) : Type 0 where
  pub sum : F
  pub average : F
  pub variance : F
  pub maximum : F
  pub buffer : List F
  pub buffer_max : List F
  pub samples : ℕ
  pub index : ℕ

-- What `memset` in `koruza_init` leaves.
unfoldable pub zero_item : {F : Type 0} → FloatOps F → Item F
zero_item o = record {
  sum = o.zero_float;
  average = o.zero_float;
  variance = o.zero_float;
  maximum = o.zero_float;
  buffer = replicate window_size o.zero_float;
  buffer_max = replicate window_size o.zero_float;
  samples = 0;
  index = 0;
}

unfoldable pub koruza_update_accelerometer_statistics_item :
    {F : Type 0} → FloatOps F → Item F → F → F → Item F
koruza_update_accelerometer_statistics_item o item avg max =
    let sum = o.add (o.sub item.sum (get_or item.buffer item.index o.zero_float)) avg in
    let samples = if ltb item.samples window_size then item.samples + 1 else item.samples in
    record {
      sum = sum;
      average = o.div sum (o.of_int (pos samples));
      variance = o.nan;
      maximum = o.minus_infinity;
      buffer = put_at item.buffer item.index avg;
      buffer_max = put_at item.buffer_max item.index max;
      samples = samples;
      index = (item.index + 1) % window_size;
    }

-- The loop of `koruza_compute_accelerometer_statistics_item` on the entries from `index` on, of
-- which `left` are to come: the variance and the maximum.
unfoldable pub statistics_loop : {F : Type 0} → FloatOps F → Item F → ℕ → ℕ → F → F → F × F
statistics_loop o item zero index variance maximum = (variance, maximum)
statistics_loop o item (suc left) index variance maximum =
    let value = get_or item.buffer index o.zero_float in
    let value_max = get_or item.buffer_max index o.zero_float in
    statistics_loop o item left (index + 1)
      (o.add variance (o.mul (o.sub value item.average) (o.sub value item.average)))
      (if o.greater value_max maximum then value_max else maximum)

unfoldable pub koruza_compute_accelerometer_statistics_item :
    {F : Type 0} → FloatOps F → Item F → Item F
koruza_compute_accelerometer_statistics_item o item =
    let (variance, maximum) = statistics_loop o item item.samples 0 o.zero_float o.minus_infinity in
    record item { variance = o.div variance (o.of_int (pos item.samples)); maximum = maximum }

-- `struct koruza_accelerometer_status`, with four items for each axis.
pub record Accelerometer (F : Type 0) : Type 0 where
  pub connected : Bool
  pub x : List (Item F)
  pub y : List (Item F)
  pub z : List (Item F)

unfoldable pub koruza_compute_accelerometer_statistics :
    {F : Type 0} → FloatOps F → Accelerometer F → Accelerometer F
koruza_compute_accelerometer_statistics o a = record a {
  x = map (koruza_compute_accelerometer_statistics_item o) a.x;
  y = map (koruza_compute_accelerometer_statistics_item o) a.y;
  z = map (koruza_compute_accelerometer_statistics_item o) a.z;
}

-- The updates of the items of one axis.
unfoldable pub update_axis :
    {F : Type 0} → FloatOps F → List (Item F) → List ℕ → List ℕ → List (Item F)
update_axis o (item ∷ items) (avg ∷ avgs) (max ∷ maxs) =
    koruza_update_accelerometer_statistics_item o item (o.of_int (signed32 avg))
      (o.of_int (signed32 max))
    ∷ update_axis o items avgs maxs
update_axis o items avgs maxs = items

unfoldable pub take_vibration :
    {F : Type 0} → FloatOps F → Accelerometer F → Get VibrationValue → Option (Accelerometer F)
take_vibration o a (found v) = some (record a {
  x = update_axis o a.x v.avg_x v.max_x;
  y = update_axis o a.y v.avg_y v.max_y;
  z = update_axis o a.z v.avg_z v.max_z;
})
take_vibration o a not_found = some a
take_vibration o a assert_failed = none

abbrev pub dispatch_accelerometer :
    {F : Type 0}
    → FloatOps F
    → Accelerometer F
    → Get VibrationValue
    → Option ℕ
    → Option ℕ
    → Option (Accelerometer F)
dispatch_accelerometer o a v (some reply) (some command) =
    if reply == 0 && command == 0
    then some a
    else if reply == reply_status_report
    then take_vibration o (record a { connected = true }) v
    else some a
dispatch_accelerometer o a v _ _ = none

-- `none` is the abort of a failed assertion.
unfoldable pub koruza_serial_accelerometer_message_handler :
    {F : Type 0} → FloatOps F → (ℕ → Bytes) → Message → Accelerometer F → Option (Accelerometer F)
koruza_serial_accelerometer_message_handler o before m a =
    dispatch_accelerometer o a (message_tlv_get_vibration_value m (before tlv_vibration_value))
      (or_zero (message_tlv_get_reply m (before tlv_reply)))
      (or_zero (message_tlv_get_command m (before tlv_command)))
