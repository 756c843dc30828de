-- ===== src/Network/Init.antt =====
-- network.c: the start-up, `network_init`.
use koruza_driver.Prelude.{
  ℕ, List, [], ◌∷◌, ◌++◌, Bool, true, false, not, Option, some, none, if◌then◌else◌, Bytes,
}
use koruza_driver.Configuration.{Uci, uci_get_string}
use koruza_driver.Network.{
  NetworkDevice, Network, Avl, NetworkEffect, socket_opened, socket_closed, socket_watched,
  announce_timer, announce_interval, NetworkResult, network_add_device, InterfaceAddress,
  update_with,
}

-- The results of the calls for the socket.
pub record Sockets : Type 0 where
  pub socket : Option ℕ
  pub bind_to_device : Bool
  pub bind : Bool
  pub join_group : Bool
  pub set_hops : Bool

abbrev pub initial_network : {T : Type 0} → Avl T → Network T
initial_network avl = record {
  status = record { interface = none; ip_address = none; ready = false; peer = none };
  units = avl.avl_init;
}

-- Its id is "STATIC".
abbrev pub static_device : Bytes → NetworkDevice
static_device peer_ip = record {
  version = 0;
  id = 83 ∷ 84 ∷ 65 ∷ 84 ∷ 73 ∷ 67 ∷ [];
  ip_address = peer_ip;
}

abbrev pub add_static :
    {T : Type 0} → Avl T → Bool → Option Bytes → Network T → Network T × List NetworkEffect
add_static avl malloc none n = (n, [])
add_static avl malloc (some peer_ip) n =
    let (ok, m, es) = network_add_device avl malloc (static_device peer_ip) n in (m, es)

-- The clean-up of the checks behind the opening of the socket.
abbrev pub close_and_fail : {T : Type 0} → ℕ → Network T → NetworkResult T
close_and_fail fd n = (false, n, socket_opened fd ∷ socket_closed fd ∷ [])

-- From the opening of the socket on.
unfoldable pub open_socket :
    {T : Type 0} → Avl T → Bool → Sockets → Option Bytes → Network T → NetworkResult T
open_socket avl malloc sockets peer_ip n = elim sockets.socket [
  | none ↦ (false, n, [])
  | some fd ↦
      (let (m, es) =
          add_static avl malloc peer_ip (record n { status = record n.status { ready = true } }) in
        if not sockets.bind_to_device
        then close_and_fail fd n
        else if not sockets.bind
        then close_and_fail fd n
        else if not sockets.join_group
        then close_and_fail fd n
        else if not sockets.set_hops
        then close_and_fail fd n
        else (
          true,
          m,
          socket_opened fd ∷ socket_watched fd ∷ announce_timer announce_interval ∷ es,
        ))
]

abbrev pub with_interface :
    {T : Type 0}
    → Avl T
    → Bool
    → Sockets
    → Option (List InterfaceAddress)
    → Option Bytes
    → Option Bytes
    → NetworkResult T
with_interface avl malloc sockets entries peer_ip none = (true, initial_network avl, [])
with_interface avl malloc sockets entries peer_ip (some interface) =
    let n = initial_network avl in
    let (s, es) = update_with interface entries (record n.status { interface = some interface }) in
    let (ok, m, fs) = open_socket avl malloc sockets peer_ip (record n { status = s }) in
    (ok, m, es ++ fs)

unfoldable pub network_init :
    {T S : Type 0}
    → Avl T
    → Uci S
    → S
    → Bool
    → Sockets
    → Option (List InterfaceAddress)
    → NetworkResult T
network_init avl uci store malloc sockets entries =
    with_interface avl malloc sockets entries (uci_get_string uci store "koruza.@network[0].peer")
      (uci_get_string uci store "koruza.@network[0].interface")
