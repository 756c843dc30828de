-- ===== src/Network/Peers.antt =====
-- The peer of network.c: what an insertion allocates, and when the announcements stop.
use mathlib.Core.Option
use koruza_driver.Prelude.{ℕ, ◌≡◌, refl, ap, ◌∙◌, List, ◌∷◌, Bool, true, Option, some, none, Bytes}
use koruza_driver.Message.{Memory}
use koruza_driver.Message.Entry.{MallocSucceeds}
use koruza_driver.Configuration.{Uci, uci_get_string}
use koruza_driver.Network.{
  Network, NetworkDevice, Avl, InterfaceAddress, sent_datagram, update_with, network_add_device,
  inserted, network_announce_ourselves, reschedule,
}
use koruza_driver.Network.Init.{
  Sockets, initial_network, add_static, static_device, open_socket, with_interface, network_init,
}
use koruza_driver.Network.Startup.{update_with-keeps}
use koruza_driver.Network.Announce.{announce-parse}

module _ {T : Type 0} (avl : Avl T)
    (inserts : (d : NetworkDevice)
      → (units : T) × (avl.avl_insert avl.avl_init d ≡ some units)) where
  static-peer :
      (peer_ip : Option Bytes) (n : Network T)
      → n.units ≡ avl.avl_init
      → n.status.peer ≡ none
      → (add_static avl true peer_ip n).0.status.peer ≡ Option.map static_device peer_ip
  unfolding network_add_device
  static-peer none n e h = h
  static-peer (some ip) n e h =
      ap (λ (r : Option T). (inserted (static_device ip) n r).1.status.peer)
        (ap (λ (u : T). avl.avl_insert u (static_device ip)) e ∙ (inserts (static_device ip)).1)

  open_socket-peer :
      (sockets : Sockets) (fd : ℕ) (peer_ip : Option Bytes) (n : Network T)
      → sockets ≡ (record {
        socket = some fd;
        bind_to_device = true;
        bind = true;
        join_group = true;
        set_hops = true;
      })
      → n.units ≡ avl.avl_init
      → n.status.peer ≡ none
      → (open_socket avl true sockets peer_ip n).1.status.peer ≡ Option.map static_device peer_ip
  unfolding open_socket
  open_socket-peer sockets fd peer_ip n e u h =
      ap (λ (k : Sockets). (open_socket avl true k peer_ip n).1.status.peer) e
      ∙ static-peer peer_ip (record n { status = record n.status { ready = true } }) u h

  -- Behind a start-up that succeeds, the timer of the announcements sends one datagram, and is set
  -- again if and only if no peer is configured; the interface is configured, an insertion in the
  -- empty tree succeeds, and so do the allocations.
  pub announce-network_init :
      {S : Type 0} (uci : Uci S) (store : S) (sockets : Sockets) (fd : ℕ)
      (entries : Option (List InterfaceAddress)) (mem : Memory) (malloc : ℕ → Bool)
      (interface : Bytes)
      → uci_get_string uci store "koruza.@network[0].interface" ≡ some interface
      → sockets ≡ (record {
        socket = some fd;
        bind_to_device = true;
        bind = true;
        join_group = true;
        set_hops = true;
      })
      → MallocSucceeds mem
      → ((n : ℕ) → malloc n ≡ true)
      → (bytes : Bytes) × (network_announce_ourselves mem malloc
            (network_init avl uci store true sockets entries).1.status
          ≡ sent_datagram bytes
            ∷ reschedule
                (Option.map static_device (uci_get_string uci store "koruza.@network[0].peer")))
  unfolding network_init
  announce-network_init uci store sockets fd entries mem malloc interface configured all_succeed a
        b =
      let peer_ip = uci_get_string uci store "koruza.@network[0].peer" in
      let n = initial_network avl in
      let s = (update_with interface entries (record n.status { interface = some interface })) in
      let r =
        with_interface avl true sockets entries peer_ip
          (uci_get_string uci store "koruza.@network[0].interface") in
      let (bytes, sends, parses, one) = announce-parse mem malloc r.1.status a b in
      (
        bytes,
        sends
            ∙ ap (λ p. sent_datagram bytes ∷ reschedule p)
                (ap (λ i. (with_interface avl true sockets entries peer_ip i).1.status.peer)
                    configured
                  ∙ open_socket-peer sockets fd peer_ip (record n { status = s.0 }) all_succeed refl
                      (update_with-keeps interface entries
                        (record n.status { interface = some interface })).1),
      )
