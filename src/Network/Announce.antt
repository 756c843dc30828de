-- ===== src/Network/Announce.antt =====
-- The announcements of network.c as the receiver of a datagram parses them.
use koruza_driver.Prelude.{
  ℕ, ◌<◌, ◌≡◌, refl, [], ◌∷◌, Bool, true, eqb_refl, le→ltb, Bytes, length, arith,
}
use koruza_driver.Message.{
  Message, Memory, success, max_tlv_count, message_init, message_parse, message_serialized_size,
  message_tlv_add,
}
use koruza_driver.Message.Typed.{message_tlv_add_checksum}
use koruza_driver.Message.Format.{IsMessage, wire, ChecksumsPass, message_serialized_size-wire}
use koruza_driver.Message.Entry.{MallocSucceeds}
use koruza_driver.Message.Serialize.{message_serialize-wire}
use koruza_driver.Message.Sealed.{parse-add_checksum, add_checksum-passes}
use koruza_driver.Network.{
  NetworkStatus, sent_datagram, network_send_message, network_announce_ourselves, reschedule,
}

pub send_message-parse :
    (mem : Memory) (malloc : ℕ → Bool) (m : Message)
    → MallocSucceeds mem
    → ((n : ℕ) → malloc n ≡ true)
    → IsMessage m
    → length m < max_tlv_count
    → ChecksumsPass mem [] m
    → (bytes : Bytes) × (network_send_message mem malloc m
        ≡ (true, (message_tlv_add_checksum mem m).1, sent_datagram bytes ∷ []))
      × (message_parse mem bytes ≡ (success, (message_tlv_add_checksum mem m).1))
unfolding network_send_message
send_message-parse mem malloc m a b h room c =
    let sealed = (message_tlv_add_checksum mem m).1 in
    let (w, p) = add_checksum-passes mem m a h room c in
    (
      wire sealed,
      rw (b (message_serialized_size sealed)) (
          rw (message_serialize-wire sealed (message_serialized_size sealed) w.1) (
            rw (message_serialized_size-wire sealed w.1) (
              rw (le→ltb (length (wire sealed)) (length (wire sealed)) (omega arith))
                (rw (eqb_refl (length (wire sealed))) refl)))),
      parse-add_checksum mem m a h room c,
    )

-- The timer of the announcements sends one datagram, which the receiver parses as a message with
-- nothing but a checksum, and is set again if and only if there is no peer. Allocations succeed at both ends.
pub announce-parse :
    (mem : Memory) (malloc : ℕ → Bool) (s : NetworkStatus)
    → MallocSucceeds mem
    → ((n : ℕ) → malloc n ≡ true)
    → (bytes : Bytes) × (network_announce_ourselves mem malloc s
        ≡ sent_datagram bytes ∷ reschedule s.peer)
      × (message_parse mem bytes ≡ (success, (message_tlv_add_checksum mem message_init).1))
      × (length (message_tlv_add_checksum mem message_init).1 ≡ 1)
unfolding network_announce_ourselves message_tlv_add_checksum message_tlv_add
announce-parse mem malloc s a b =
    let (bytes, e, p) =
      send_message-parse mem malloc message_init a b (omega arith, tt) (omega arith) tt in
    (bytes, rw e refl, p, rw (a 0 4) refl)
