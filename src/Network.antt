-- ===== src/Network.antt =====
-- network.c and network.h: the status of the network, the update of the unit's address, the
-- announcements, and the peer. The start-up is in Network/Init.
--
-- The tree of libubox and the calls of the system are parameters; `strdup` does not fail.
-- `network_message_received` does nothing. What the code does outside its state is a list of
-- `NetworkEffect`.
pub mod Init
pub mod Announce
pub mod Address
pub mod Peers
pub mod Startup
mod Tests
use mathlib.Core.Option
use koruza_driver.Prelude.{
  ℕ, List, [], ◌∷◌, ◌++◌, Bool, true, false, not, ◌&&◌, ◌||◌, ◌==◌, Option, some, none,
  if◌then◌else◌, Bytes, String, length,
}
use koruza_driver.Message.{
  Message, Memory, message_init, message_serialize, message_serialized_size,
}
use koruza_driver.Message.Typed.{message_tlv_add_checksum}
use koruza_driver.Configuration.{Uci, uci_get_string}

-- `struct network_device`, without its place in the tree.
pub record NetworkDevice : Type 0 where
  pub version : ℕ
  pub id : Bytes
  pub ip_address : Bytes

-- `struct network_status`.
pub record NetworkStatus : Type 0 where
  pub interface : Option Bytes
  pub ip_address : Option Bytes
  pub ready : Bool
  pub peer : Option NetworkDevice

-- The state of network.c: `net_status` and `discovered_units`.
pub record Network (T : Type 0) : Type 0 where
  pub status : NetworkStatus
  pub units : T

-- The tree; `none` is a result of `avl_insert` that is not 0.
pub record Avl (T : Type 0) : Type 0 where
  pub avl_init : T
  pub avl_insert : T → NetworkDevice → Option T

-- The allocations for a device.
pub data Block : Type 0 where
  device_block id_block address_block : Block

pub data NetworkEffect : Type 0 where
  allocated released : Block → NetworkEffect
  sent_datagram : Bytes → NetworkEffect
  socket_opened socket_closed socket_watched : ℕ → NetworkEffect
  announce_timer address_timer : ℕ → NetworkEffect
  addresses_freed : NetworkEffect

abbrev pub announce_interval : ℕ
announce_interval = 1000

abbrev pub update_interval : ℕ
update_interval = 60000

-- What a function of network.c returns, whether it is 0, with the state and the effects.
abbrev pub NetworkResult : Type 0 → Type 0
NetworkResult T = Bool × Network T × List NetworkEffect

-- ---- peers

abbrev pub inserted : {T : Type 0} → NetworkDevice → Network T → Option T → NetworkResult T
inserted device n none = (
  false,
  n,
  allocated device_block
      ∷ allocated id_block
      ∷ allocated address_block
      ∷ released id_block
      ∷ released address_block
      ∷ released device_block
      ∷ [],
)
inserted device n (some units) = (
  true,
  record { status = record n.status { peer = some device }; units = units },
  allocated device_block ∷ allocated id_block ∷ allocated address_block ∷ [],
)

-- `malloc` is whether the allocation of the device succeeds.
unfoldable pub network_add_device :
    {T : Type 0} → Avl T → Bool → NetworkDevice → Network T → NetworkResult T
network_add_device avl malloc cfg n =
    if not malloc then (false, n, []) else inserted cfg n (avl.avl_insert n.units cfg)

-- ---- announcements

-- The comparison of the result of `message_serialize` with the size of the buffer.
abbrev pub send_serialized : ℕ → Option Bytes → Bool × List NetworkEffect
send_serialized size none = (false, [])
send_serialized size (some bytes) =
    if length bytes == size then (true, sent_datagram bytes ∷ []) else (false, [])

-- The message gets a checksum; `malloc` is the allocation of the buffer. The result of `sendto` is
-- not looked at.
unfoldable pub network_send_message :
    Memory → (ℕ → Bool) → Message → Bool × Message × List NetworkEffect
network_send_message mem malloc message =
    let sealed = (message_tlv_add_checksum mem message).1 in
    let size = message_serialized_size sealed in
    let (ok, es) = send_serialized size (message_serialize size sealed) in
    if not (malloc size) then (false, sealed, []) else (ok, sealed, es)

abbrev pub reschedule : Option NetworkDevice → List NetworkEffect
reschedule none = announce_timer announce_interval ∷ []
reschedule (some peer) = []

unfoldable pub network_announce_ourselves : Memory → (ℕ → Bool) → NetworkStatus → List NetworkEffect
network_announce_ourselves mem malloc s =
    (network_send_message mem malloc message_init).2 ++ reschedule s.peer

-- ---- the unit's address

-- An entry of the list of `getifaddrs`; `host` is what `getnameinfo` makes of its address.
pub record InterfaceAddress : Type 0 where
  pub has_address : Bool
  pub name : Bytes
  pub is_inet : Bool
  pub host : Option Bytes

abbrev pub same_string : Bytes → Bytes → Bool
same_string [] [] = true
same_string (a ∷ s) (b ∷ t) = (a == b) && same_string s t
same_string [] (b ∷ t) = false
same_string (a ∷ s) [] = false

abbrev pub store_host : Option Bytes → Bytes → Option Bytes
store_host none host = some host
store_host (some old) host = if same_string old host then some old else some host

-- The loop over the entries, with what it frees.
unfoldable pub address_loop :
    Bytes → List InterfaceAddress → Option Bytes → Option Bytes × List NetworkEffect
address_loop interface [] ip = (ip, [])
address_loop interface (a ∷ entries) ip =
    let rest = address_loop interface entries ip in
    if not a.has_address || not (same_string a.name interface)
    then rest
    else if not a.is_inet
    then rest
    else elim a.host [ none ↦ (ip, addresses_freed ∷ []) | some host ↦ (store_host ip host, []) ]

abbrev pub update_with :
    Bytes → Option (List InterfaceAddress) → NetworkStatus → NetworkStatus × List NetworkEffect
update_with interface none s = (s, address_timer update_interval ∷ [])
update_with interface (some entries) s =
    let (ip, es) = address_loop interface entries s.ip_address in
    (record s { ip_address = ip }, es ++ addresses_freed ∷ address_timer update_interval ∷ [])

-- `none` for the entries is a failure of `getifaddrs`. The result `none` is the comparison with an
-- interface that is null.
unfoldable pub network_update_local_address :
    Option (List InterfaceAddress) → NetworkStatus → Option (NetworkStatus × List NetworkEffect)
network_update_local_address entries s =
    Option.map (λ (interface : Bytes). update_with interface entries s) s.interface
