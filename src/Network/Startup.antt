-- ===== src/Network/Startup.antt =====
-- The start-up of network.c: what it leaves open when it fails, and how the announcements go on
-- behind it.
use koruza_driver.Prelude.{
  ℕ, ◌≡◌, refl, ap, ◌∙◌, ◌⊎◌, inl, inr, List, [], ◌∷◌, ◌++◌, Bool, true, false, Bool-cases, Option,
  some, none, Option-cases, Bytes,
}
use koruza_driver.Configuration.{Uci, uci_get_string}
use koruza_driver.Network.{
  Network, NetworkStatus, NetworkEffect, update_interval, NetworkResult, Avl, InterfaceAddress,
  allocated, released, sent_datagram, socket_opened, socket_closed, socket_watched, announce_timer,
  address_timer, addresses_freed, update_with, network_add_device,
}
use koruza_driver.Network.Init.{
  Sockets, initial_network, add_static, static_device, open_socket, close_and_fail, with_interface,
  network_init,
}
use koruza_driver.Network.Address.{update_with_lem, first_ours, update_result, finished}

-- The sockets of network.c: the one that is open, the one that the loop watches, and whether the
-- announcements are scheduled.
pub record Running : Type 0 where
  pub opened : Option ℕ
  pub watched : Option ℕ
  pub announces : Bool

abbrev pub step : Running → NetworkEffect → Running
step r (socket_opened fd) = record r { opened = some fd }
step r (socket_closed fd) = record r { opened = none }
step r (socket_watched fd) = record r { watched = some fd }
step r (announce_timer n) = record r { announces = true }
step r (allocated b) = r
step r (released b) = r
step r (sent_datagram bytes) = r
step r (address_timer n) = r
step r addresses_freed = r

abbrev pub runs : Running → List NetworkEffect → Running
runs r [] = r
runs r (e ∷ es) = runs (step r e) es

abbrev pub stopped : Running
stopped = record { opened = none; watched = none; announces = false }

runs-append : (r : Running) (es fs : List NetworkEffect) → runs r (es ++ fs) ≡ runs (runs r es) fs
runs-append r [] fs = refl
runs-append r (e ∷ es) fs = runs-append (step r e) es fs

-- A result that is a started network on a socket, or one that is not ready and has no socket.
abbrev pub IsStartedOr : {T : Type 0} → NetworkResult T → Type 0
IsStartedOr (ok, n, es) =
    ((n.status.ready ≡ false) × (runs stopped es ≡ stopped))
    ⊎ ((ok ≡ true)
        × (n.status.ready ≡ true)
        × (fd : ℕ) × (runs stopped es
            ≡ record { opened = some fd; watched = some fd; announces = true }))

static-quiet :
    {T : Type 0} (avl : Avl T) (malloc : Bool) (peer_ip : Option Bytes) (n : Network T)
    (r : Running)
    → ((add_static avl malloc peer_ip n).0.status.ready ≡ n.status.ready)
      × (runs r (add_static avl malloc peer_ip n).1 ≡ r)
unfolding network_add_device
static-quiet avl malloc none n r = (refl, refl)
static-quiet avl false (some ip) n r = (refl, refl)
static-quiet avl true (some ip) n r =
    elim (Option-cases (avl.avl_insert n.units (static_device ip))) [
      | inl e ↦ rw e (refl, refl)
      | inr h ↦ rw h.1 (refl, refl)
    ]

close_and_fail-IsStartedOr :
    {T : Type 0} (fd : ℕ) (n : Network T)
    → n.status.ready ≡ false
    → IsStartedOr (close_and_fail fd n)
close_and_fail-IsStartedOr fd n e = inl (e, refl)

open_socket-IsStartedOr :
    {T : Type 0} (avl : Avl T) (malloc : Bool) (sockets : Sockets) (peer_ip : Option Bytes)
    (n : Network T)
    → n.status.ready ≡ false
    → IsStartedOr (open_socket avl malloc sockets peer_ip n)
unfolding open_socket
open_socket-IsStartedOr avl malloc sockets peer_ip n e = elim (Option-cases sockets.socket) [
  | inl none_open ↦ rw none_open (inl (e, refl))
  | inr (fd, is_open) ↦ rw is_open (elim (Bool-cases sockets.bind_to_device) [
    | inr f ↦ rw f (close_and_fail-IsStartedOr fd n e)
    | inl a ↦ rw a (elim (Bool-cases sockets.bind) [
      | inr f ↦ rw f (close_and_fail-IsStartedOr fd n e)
      | inl b ↦ rw b (elim (Bool-cases sockets.join_group) [
        | inr f ↦ rw f (close_and_fail-IsStartedOr fd n e)
        | inl c ↦ rw c (elim (Bool-cases sockets.set_hops) [
          | inr f ↦ rw f (close_and_fail-IsStartedOr fd n e)
          | inl d ↦ rw d (
              let (same, quiet) =
                static-quiet avl malloc peer_ip
                  (record n { status = record n.status { ready = true } })
                  (record { opened = some fd; watched = some fd; announces = true }) in
              inr (refl, same, fd, quiet))
        ])
      ])
    ])
  ])
]

update_result-quiet :
    (r : Option InterfaceAddress) (ip : Option Bytes)
    → runs stopped (update_result r ip).1 ≡ stopped
update_result-quiet none ip = refl
update_result-quiet (some a) ip = elim (Option-cases a.host) [
  | inl e ↦ rw e refl
  | inr h ↦ rw h.1 refl
]

finished-quiet :
    (s : NetworkStatus) (r : Option InterfaceAddress)
    → runs stopped (finished s (update_result r s.ip_address)).1 ≡ stopped
finished-quiet s r =
    runs-append stopped (update_result r s.ip_address).1 (address_timer update_interval ∷ [])
    ∙ ap (λ t. runs t (address_timer update_interval ∷ [])) (update_result-quiet r s.ip_address)

update_with-quiet :
    (interface : Bytes) (entries : Option (List InterfaceAddress)) (s : NetworkStatus)
    → runs stopped (update_with interface entries s).1 ≡ stopped
update_with-quiet interface none s = refl
update_with-quiet interface (some entries) s =
    ap (λ (r : NetworkStatus × List NetworkEffect). runs stopped r.1)
      (update_with_lem interface entries s)
    ∙ finished-quiet s (first_ours interface entries)

-- The update of the address leaves the rest of the status.
pub update_with-keeps :
    (interface : Bytes) (entries : Option (List InterfaceAddress)) (s : NetworkStatus)
    → ((update_with interface entries s).0.ready ≡ s.ready)
      × ((update_with interface entries s).0.peer ≡ s.peer)
update_with-keeps interface none s = (refl, refl)
update_with-keeps interface (some entries) s = (refl, refl)

IsStartedOr-behind :
    {T : Type 0} (es : List NetworkEffect) (r : NetworkResult T)
    → runs stopped es ≡ stopped
    → IsStartedOr r
    → IsStartedOr (r.0, r.1, es ++ r.2)
IsStartedOr-behind es (ok, n, fs) q (inl (e, stays)) =
    inl (e, runs-append stopped es fs ∙ ap (λ t. runs t fs) q ∙ stays)
IsStartedOr-behind es (ok, n, fs) q (inr (a, b, fd, runs_on)) =
    inr (a, b, fd, runs-append stopped es fs ∙ ap (λ t. runs t fs) q ∙ runs_on)

module _ {T S : Type 0} (avl : Avl T) (uci : Uci S) (store : S) (malloc : Bool) (sockets : Sockets)
    (entries : Option (List InterfaceAddress)) where
  with_interface-IsStartedOr :
      (interface peer_ip : Option Bytes)
      → IsStartedOr (with_interface avl malloc sockets entries peer_ip interface)
  with_interface-IsStartedOr none peer_ip = inl (refl, refl)
  with_interface-IsStartedOr (some interface) peer_ip =
      let n = initial_network avl in
      let s = record n.status { interface = some interface } in
      let m = record n { status = (update_with interface entries s).0 } in
      IsStartedOr-behind (update_with interface entries s).1
        (open_socket avl malloc sockets peer_ip m) (update_with-quiet interface entries s)
        (open_socket-IsStartedOr avl malloc sockets peer_ip m
          (update_with-keeps interface entries s).0)

  -- Whatever fails of it, the start-up leaves one of two things: a network that is ready, with a
  -- socket that is open and watched and announcements that are scheduled, and then the result is
  -- 0; or one that is not ready, with no socket open or watched and no announcements.
  pub network_init-IsStartedOr : IsStartedOr (network_init avl uci store malloc sockets entries)
  unfolding network_init
  network_init-IsStartedOr =
      with_interface-IsStartedOr (uci_get_string uci store "koruza.@network[0].interface")
        (uci_get_string uci store "koruza.@network[0].peer")
