-- ===== src/Network/Address.antt =====
-- The update of the unit's address in network.c.
use mathlib.Core.Option
use koruza_driver.Prelude.{
  ◌≡◌, refl, ap, ap₂, ◌∙◌, inl, inr, List, [], ◌∷◌, ◌++◌, Bool, true, ◌&&◌, ◌==◌, eqb→eq,
  Bool-cases, and_true, Option-cases, Option, some, none, if◌then◌else◌, Bytes,
}
use koruza_driver.Network.{
  NetworkStatus, NetworkEffect, addresses_freed, address_timer, update_interval, InterfaceAddress,
  same_string, store_host, address_loop, update_with, network_update_local_address,
}

same_string→eq : (s t : Bytes) → same_string s t ≡ true → s ≡ t
same_string→eq [] [] h = refl
same_string→eq (a ∷ s) (b ∷ t) h =
    let both = and_true (a == b) (same_string s t) h in
    ap₂ (λ x xs. x ∷ xs) (eqb→eq a b both.0) (same_string→eq s t both.1)
same_string→eq [] (b ∷ t) h = absurd cc
same_string→eq (a ∷ s) [] h = absurd cc

store_host_lem : (ip : Option Bytes) (host : Bytes) → store_host ip host ≡ some host
store_host_lem none host = refl
store_host_lem (some old) host = elim (Bool-cases (same_string old host)) [
  | inl y ↦ rw y (ap some (same_string→eq old host y))
  | inr n ↦ rw n refl
]

-- An IPv4 address of the interface.
abbrev pub is_ours : Bytes → InterfaceAddress → Bool
is_ours interface a = a.has_address && (same_string a.name interface && a.is_inet)

abbrev pub first_ours : Bytes → List InterfaceAddress → Option InterfaceAddress
first_ours interface [] = none
first_ours interface (a ∷ entries) =
    let rest = first_ours interface entries in if is_ours interface a then some a else rest

abbrev looked_up : Option Bytes → Option Bytes → Option Bytes × List NetworkEffect
looked_up none ip = (ip, addresses_freed ∷ [])
looked_up (some host) ip = (some host, [])

abbrev loop_result : Option InterfaceAddress → Option Bytes → Option Bytes × List NetworkEffect
loop_result none ip = (ip, [])
loop_result (some a) ip = looked_up a.host ip

address_loop_lem :
    (interface : Bytes) (entries : List InterfaceAddress) (ip : Option Bytes)
    → address_loop interface entries ip ≡ loop_result (first_ours interface entries) ip
unfolding address_loop
address_loop_lem interface [] ip = refl
address_loop_lem interface (a ∷ entries) ip = elim (Bool-cases a.has_address) [
  | inr n ↦ rw n (address_loop_lem interface entries ip)
  | inl y ↦ rw y (elim (Bool-cases (same_string a.name interface)) [
    | inr n ↦ rw n (address_loop_lem interface entries ip)
    | inl same ↦ rw same (elim (Bool-cases a.is_inet) [
      | inr n ↦ rw n (address_loop_lem interface entries ip)
      | inl inet ↦ rw inet (elim (Option-cases a.host) [
        | inl e ↦ rw e refl
        | inr h ↦ rw h.1 (ap (λ (r : Option Bytes). (r, [])) (store_host_lem ip h.0))
      ])
    ])
  ])
]

-- What the update leaves: the address, and how often the list of addresses is freed.
abbrev pub update_result :
    Option InterfaceAddress → Option Bytes → Option Bytes × List NetworkEffect
update_result none ip = (ip, addresses_freed ∷ [])
update_result (some a) ip = elim a.host [
  | none ↦ (ip, addresses_freed ∷ addresses_freed ∷ [])
  | some host ↦ (some host, addresses_freed ∷ [])
]

abbrev finish :
    NetworkStatus → Option Bytes × List NetworkEffect → NetworkStatus × List NetworkEffect
finish s (ip, es) =
    (record s { ip_address = ip }, es ++ addresses_freed ∷ address_timer update_interval ∷ [])

abbrev pub finished :
    NetworkStatus → Option Bytes × List NetworkEffect → NetworkStatus × List NetworkEffect
finished s (ip, es) = (record s { ip_address = ip }, es ++ address_timer update_interval ∷ [])

finish-loop_result :
    (s : NetworkStatus) (r : Option InterfaceAddress)
    → finish s (loop_result r s.ip_address) ≡ finished s (update_result r s.ip_address)
finish-loop_result s none = refl
finish-loop_result s (some a) = elim (Option-cases a.host) [
  | inl e ↦ rw e refl
  | inr h ↦ rw h.1 refl
]

pub update_with_lem :
    (interface : Bytes) (entries : List InterfaceAddress) (s : NetworkStatus)
    → update_with interface (some entries) s
      ≡ finished s (update_result (first_ours interface entries) s.ip_address)
update_with_lem interface entries s =
    ap (finish s) (address_loop_lem interface entries s.ip_address)
    ∙ finish-loop_result s (first_ours interface entries)

-- Of a unit with an interface, the update stores the host of the first IPv4 address of that
-- interface in the list, and keeps the address where there is none, where its host cannot be
-- looked up, and where there is no list. A list is freed once, but twice where the look-up of the
-- host fails. In every case the timer is set again.
pub local_address_lem :
    (s : NetworkStatus) (interface : Bytes)
    → s.interface ≡ some interface
    → ((entries : List InterfaceAddress)
        → network_update_local_address (some entries) s
          ≡ some (finished s (update_result (first_ours interface entries) s.ip_address)))
      × (network_update_local_address none s ≡ some (s, address_timer update_interval ∷ []))
unfolding network_update_local_address
local_address_lem s interface e = (
  λ entries.
      ap (Option.map (λ (i : Bytes). update_with i (some entries) s)) e
      ∙ ap some (update_with_lem interface entries s),
  ap (Option.map (λ (i : Bytes). update_with i none s)) e,
)
