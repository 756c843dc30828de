-- ===== src/Network/Tests.antt =====
-- network.c at a concrete configuration and concrete interfaces.
use koruza_driver.Prelude.{◌≡◌, refl, List, [], ◌∷◌, true, false, some, none, String}
use koruza_driver.Message.{Message, Memory}
use koruza_driver.Configuration.{string, uci_get_string}
use koruza_driver.Configuration.Table.{Tables, tables}
use koruza_driver.Network.{
  NetworkStatus, NetworkDevice, Avl, InterfaceAddress, address_timer, update_interval,
  addresses_freed, network_update_local_address,
}
use koruza_driver.Network.Init.{Sockets, network_init}
use koruza_driver.Network.Address.{local_address_lem, finished, update_result, first_ours}
use koruza_driver.Network.Startup.{IsStartedOr, network_init-IsStartedOr}

abbrev memory : Memory
memory = record { malloc = λ i n. true; stray = 0 }

-- The tree as the list of its devices.
abbrev tree : Avl (List NetworkDevice)
tree = record { avl_init = []; avl_insert = λ units d. some (d ∷ units) }

-- Every option is the text "1".
abbrev configured : Tables
configured = record { context = λ l. string (49 ∷ []); files = λ l. string (49 ∷ []) }

abbrev sockets : Sockets
sockets = record {
  socket = some 7;
  bind_to_device = true;
  bind = true;
  join_group = true;
  set_hops = true;
}

abbrev refusing : Sockets
refusing = record sockets { join_group = false }

-- Another interface, one without an address, and the addresses 2 and 3 of the interface.
abbrev interfaces : List InterfaceAddress
interfaces =
    (record { has_address = true; name = 48 ∷ []; is_inet = true; host = some (48 ∷ []) })
    ∷ (record { has_address = false; name = 49 ∷ []; is_inet = true; host = none })
    ∷ (record { has_address = true; name = 49 ∷ []; is_inet = true; host = some (50 ∷ []) })
    ∷ (record { has_address = true; name = 49 ∷ []; is_inet = true; host = some (51 ∷ []) })
    ∷ []

abbrev status : NetworkStatus
status = record {
  interface = some (49 ∷ []);
  ip_address = some (57 ∷ []);
  ready = true;
  peer = none;
}

configured-read : (l : String) → uci_get_string tables configured l ≡ some (49 ∷ [])
unfolding uci_get_string
configured-read l = refl

-- A command to reboot.
abbrev restart : Message
restart = (record { type = 1; length = 1; value = 4 ∷ [] }) ∷ []

local_address_lem_example :
    ((entries : List InterfaceAddress)
      → network_update_local_address (some entries) status
        ≡ some (finished status (update_result (first_ours (49 ∷ []) entries) status.ip_address)))
    × (network_update_local_address none status ≡ some (status, address_timer update_interval ∷ []))
local_address_lem_example = local_address_lem status (49 ∷ []) refl

-- The first address of the interface is taken.
address_taken :
    network_update_local_address (some interfaces) status
    ≡ some (
      record status { ip_address = some (50 ∷ []) },
      addresses_freed ∷ address_timer update_interval ∷ [],
    )
address_taken = (local_address_lem status (49 ∷ []) refl).0 interfaces

network_init-IsStartedOr_example :
    IsStartedOr (network_init tree tables configured true refusing (some interfaces))
network_init-IsStartedOr_example =
    network_init-IsStartedOr tree tables configured true refusing (some interfaces)
