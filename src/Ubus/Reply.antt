-- ===== src/Ubus/Reply.antt =====
-- The replies of ubus.c, as the calls of libubox that build them, in order.
use koruza_driver.Prelude.{ℕ, Option, Bytes, String}

pub data Field : Type 0 where
  string_field : Bytes → Field
  u8_field u16_field u32_field : ℕ → Field

-- `blobmsg_add_*`, `blobmsg_open_table` and `blobmsg_open_array` with the name, which may be null,
-- and the closing of either.
pub data Add : Type 0 where
  add_field : Option String → Field → Add
  open_table open_array : Option String → Add
  close_table close_array : Add
