-- ===== src/Serial/Descriptors.antt =====
-- The descriptors that serial.c holds: what is opened, closed and leaked by opening and reopening
-- a device.
use koruza_driver.Prelude.{
  ℕ, ◌≡◌, List, [], ◌∷◌, ◌++◌, true, false, ◌==◌, Option, some, none, ◌⊎◌, arith, if◌then◌else◌,
}
use koruza_driver.Serial.{
  SerialDevice, Call, opened, closed, watched, unwatched, Line, configure_fd, open_fd,
  serial_init_device, serial_reinit_device,
}

abbrev pub remove : ℕ → List ℕ → Option (List ℕ)
remove n [] = none
remove n (m ∷ ms) =
    if m == n then some ms else elim (remove n ms) [ none ↦ none | some rest ↦ some (m ∷ rest) ]

-- The open descriptors after some calls; `none` if a descriptor was closed that was not open.
unfoldable pub replay : List ℕ → List Call → Option (List ℕ)
replay held [] = some held
replay held (opened n ∷ calls) = replay (n ∷ held) calls
replay held (closed n ∷ calls) = elim (remove n held) [
  | none ↦ none
  | some rest ↦ replay rest calls
]
replay held (watched n ∷ calls) = replay held calls
replay held (unwatched n ∷ calls) = replay held calls

abbrev pub fd_list : Option ℕ → List ℕ
fd_list none = []
fd_list (some n) = n ∷ []

-- The descriptors that a device should hold: its own when it is ready, else none.
abbrev pub owned : SerialDevice → List ℕ
owned cfg = if cfg.ready then fd_list cfg.fd else []

-- Reopening a device that is ready, or whose last `open` failed, closes exactly the descriptor
-- that it held, and leaves open exactly the descriptor of a device that is ready again, on every
-- branch; the result is 0 if and only if the device is ready.
pub reinit_balanced :
    (line : Line) (cfg : SerialDevice)
    → (cfg.ready ≡ true) ⊎ ((cfg.ready ≡ false) × (cfg.fd ≡ none))
    → (replay (owned cfg) (serial_reinit_device line cfg).calls
        ≡ some (owned (serial_reinit_device line cfg).cfg))
      × ((serial_reinit_device line cfg).ok ≡ (serial_reinit_device line cfg).cfg.ready)
unfolding serial_reinit_device serial_init_device open_fd configure_fd replay
reinit_balanced line cfg h = ground arith

-- A device that was opened but could not be configured keeps its closed descriptor, and the next
-- reopening closes that descriptor again: after the two reopenings some descriptor was closed that
-- was not open, whatever the system answers to the second.
pub reinit_closes_twice :
    (line line' : Line) (cfg : SerialDevice) (n : ℕ)
    → (cfg.ready ≡ true) ⊎ ((cfg.ready ≡ false) × (cfg.fd ≡ none))
    → cfg.device ≡ true
    → line.open_fd ≡ some n
    → (line.tcgetattr ≡ false) ⊎ (line.tcsetattr ≡ false)
    → replay (owned cfg) (
        (serial_reinit_device line cfg).calls
        ++ (serial_reinit_device line' (serial_reinit_device line cfg).cfg).calls)
      ≡ none
unfolding serial_reinit_device serial_init_device open_fd configure_fd replay
reinit_closes_twice line line' cfg n h d o f = ground arith
