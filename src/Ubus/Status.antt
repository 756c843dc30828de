-- ===== src/Ubus/Status.antt =====
-- The replies of `ubus_get_status` and `ubus_get_survey`. The arrays of four elements are lists.
use koruza_driver.Prelude.{
  ℕ, zero, suc, ◌+◌, List, [], ◌∷◌, ◌++◌, Bool, Option, some, none, if◌then◌else◌, Bytes, String,
}
use koruza_driver.Koruza.Window.{Item}
use koruza_driver.Koruza.Survey.{Survey, survey_bins, survey_coverage, cell}
use koruza_driver.Network.{NetworkDevice}
use koruza_driver.Ubus.Reply.{
  string_field, u8_field, u16_field, u32_field, Add, add_field, open_table, open_array, close_table,
  close_array,
}
use koruza_driver.Ubus.State.{Daemon}

abbrev pub blobmsg_add_string : String → Bytes → Add
blobmsg_add_string name s = add_field (some name) (string_field s)

abbrev pub blobmsg_add_u8 : String → ℕ → Add
blobmsg_add_u8 name n = add_field (some name) (u8_field n)

abbrev pub blobmsg_add_u16 : String → ℕ → Add
blobmsg_add_u16 name n = add_field (some name) (u16_field n)

abbrev pub blobmsg_add_u32 : String → ℕ → Add
blobmsg_add_u32 name n = add_field (some name) (u32_field n)

abbrev pub bit : Bool → ℕ
bit b = if b then 1 else 0

-- `for (i = first; left rounds; i++)`.
unfoldable pub adds_from : ℕ → ℕ → (ℕ → List Add) → List Add
adds_from zero i body = []
adds_from (suc left) i body = body i ++ adds_from left (i + 1) body

module _ {F : Type 0} (print_float : F → Bytes) where
  -- `blobmsg_add_float` prints four decimals.
  abbrev pub blobmsg_add_float : String → F → Add
  blobmsg_add_float name f = blobmsg_add_string name (print_float f)

  -- The loop of `blobmsg_add_accelerometer_statistics_item`.
  unfoldable pub add_items : List (Item F) → List Add
  add_items [] = []
  add_items (item ∷ items) =
      open_table none
      ∷ blobmsg_add_float "average" item.average
      ∷ blobmsg_add_u32 "count" item.samples
      ∷ blobmsg_add_float "variance" item.variance
      ∷ blobmsg_add_float "maximum" item.maximum
      ∷ close_table
      ∷ add_items items

  abbrev pub blobmsg_add_accelerometer_statistics_item : List (Item F) → String → List Add
  blobmsg_add_accelerometer_statistics_item items name =
      open_array (some name) ∷ (add_items items ++ close_array ∷ [])

  abbrev pub add_peer : Option NetworkDevice → List Add
  add_peer none = []
  add_peer (some peer) = blobmsg_add_string "peer" peer.ip_address ∷ []

  unfoldable pub add_variables : List ℕ → List Add
  add_variables [] = []
  add_variables (v ∷ vs) = add_field none (u32_field v) ∷ add_variables vs

  -- The reply, with the three strings that may be null.
  unfoldable pub status_adds : {S : Type 0} → Daemon F S → Bytes → Bytes → Bytes → List Add
  status_adds d path interface ip_address =
      blobmsg_add_string "serial_number" d.serial_number
      ∷ blobmsg_add_u8 "connected" (bit d.controller.motors.connected)
      ∷ open_table (some "leds")
      ∷ blobmsg_add_u8 "state" d.leds
      ∷ close_table
      ∷ open_table (some "errors")
      ∷ blobmsg_add_u32 "code" d.controller.error_code
      ∷ close_table
      ∷ open_table (some "motors")
      ∷ blobmsg_add_u8 "connected" (bit d.controller.motors.connected)
      ∷ blobmsg_add_u32 "x" d.controller.motors.x
      ∷ blobmsg_add_u32 "y" d.controller.motors.y
      ∷ blobmsg_add_u32 "z" d.controller.motors.z
      ∷ blobmsg_add_u32 "range_x" d.controller.motors.range_x
      ∷ blobmsg_add_u32 "range_y" d.controller.motors.range_y
      ∷ blobmsg_add_u32 "encoder_x" d.controller.motors.encoder_x
      ∷ blobmsg_add_u32 "encoder_y" d.controller.motors.encoder_y
      ∷ close_table
      ∷ open_table (some "accelerometer")
      ∷ blobmsg_add_u8 "connected" (bit d.accelerometer.connected)
      ∷ (blobmsg_add_accelerometer_statistics_item d.accelerometer.x "x"
          ++ (blobmsg_add_accelerometer_statistics_item d.accelerometer.y "y"
              ++ (blobmsg_add_accelerometer_statistics_item d.accelerometer.z "z"
                  ++ (close_table
                      ∷ open_table (some "camera_calibration")
                      ∷ blobmsg_add_u16 "port" d.calibration.port
                      ∷ blobmsg_add_string "path" path
                      ∷ blobmsg_add_u32 "width" d.calibration.width
                      ∷ blobmsg_add_u32 "height" d.calibration.height
                      ∷ blobmsg_add_u32 "offset_x" d.calibration.offset_x
                      ∷ blobmsg_add_u32 "offset_y" d.calibration.offset_y
                      ∷ blobmsg_add_u32 "distance" d.calibration.distance
                      ∷ close_table
                      ∷ open_table (some "sfp")
                      ∷ blobmsg_add_u16 "tx_power" d.tx_power
                      ∷ blobmsg_add_u16 "rx_power" d.controller.rx_power
                      ∷ close_table
                      ∷ open_table (some "network")
                      ∷ blobmsg_add_string "interface" interface
                      ∷ blobmsg_add_string "ip_address" ip_address
                      ∷ blobmsg_add_u8 "ready" (bit d.network.ready)
                      ∷ (add_peer d.network.peer
                          ++ (close_table
                              ∷ open_table (some "alignment")
                              ∷ blobmsg_add_u32 "state" d.alignment.state
                              ∷ open_array (some "variables")
                              ∷ (add_variables d.alignment.variables
                                  ++ close_array ∷ close_table ∷ [])))))))

  abbrev pub given :
      {S : Type 0} → Daemon F S → Option Bytes → Option Bytes → Option Bytes → Option (List Add)
  given d (some path) (some interface) (some ip_address) =
      some (status_adds d path interface ip_address)
  given d _ _ _ = none

  -- `blobmsg_add_string` takes the length of its string: `none` is the crash on a null pointer.
  unfoldable pub status_reply : {S : Type 0} → Daemon F S → Option (List Add)
  status_reply d = given d d.calibration.path d.network.interface d.network.ip_address

-- The loop on the columns of one row, and the one on the rows.
abbrev pub add_row : Survey → ℕ → List Add
add_row s row =
    open_array none
    ∷ (adds_from survey_bins 0 (λ col. add_field none (u16_field (cell s row col)) ∷ [])
        ++ close_array ∷ [])

unfoldable pub survey_reply : Survey → List Add
survey_reply s =
    open_table (some "coverage")
    ∷ blobmsg_add_u16 "x" survey_coverage
    ∷ blobmsg_add_u16 "y" survey_coverage
    ∷ close_table
    ∷ open_table (some "bins")
    ∷ blobmsg_add_u16 "x" survey_bins
    ∷ blobmsg_add_u16 "y" survey_bins
    ∷ close_table
    ∷ open_array (some "data")
    ∷ (adds_from survey_bins 0 (add_row s) ++ close_array ∷ [])
