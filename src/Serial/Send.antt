-- ===== src/Serial/Send.antt =====
-- `serial_send_message`: the whole frame reaches the line, however the system splits the writes.
use koruza_driver.Prelude.{
  ℕ, zero, suc, ◌≤◌, ◌≡◌, refl, sym, ap, ◌∙◌, [], ◌∷◌, ◌++◌, append_assoc, append-nil, Bool, true,
  false, Option, some, Option-cases, inl, inr, Bytes, length, drop, take, take-append-drop,
  length-drop, All, arith,
}
use koruza_driver.Message.{Message, message_serialized_size}
use koruza_driver.Message.Format.{IsTlv, wire}
use koruza_driver.Frame.{Framed, framed, refused, aborted, frame_message, frame_max_length}
use koruza_driver.Frame.Escape.{frame_of, frame_message_enough, frame_message_sound}
use koruza_driver.Serial.{
  SerialDevice, Line, Opened, serial_reinit_device, write_loop, send_frame, sent_ok, failed,
  serial_send_message,
}

-- Every `write` of some bytes writes at least one of them and at most all.
abbrev pub WriteAdvances : (ℕ → ℕ → Option ℕ) → Type 0
WriteAdvances write = (i n : ℕ) → (k : ℕ) × (write i (suc n) ≡ some k) × (1 ≤ k) × (k ≤ suc n)

write_loop_all :
    (fuel : ℕ) (write : ℕ → ℕ → Option ℕ) (i : ℕ) (sent bytes : Bytes)
    → WriteAdvances write
    → length bytes ≤ fuel
    → write_loop fuel write i sent bytes ≡ some (true, sent ++ bytes)
unfolding write_loop
write_loop_all fuel write i sent [] a h = rw append-nil refl
write_loop_all zero write i sent (b ∷ bytes) a h = absurd (omega arith)
write_loop_all (suc fuel) write i sent (b ∷ bytes) a h =
    let (k, e, pos, most) = a i (length bytes) in
    rw (e, write_loop)
      (write_loop_all fuel write (suc i) (sent ++ take k (b ∷ bytes)) (drop k (b ∷ bytes)) a
          (omega (arith, length-drop k (b ∷ bytes)))
        ∙ ap (λ (s : Bytes). some (true, s))
            (append_assoc sent (take k (b ∷ bytes)) (drop k (b ∷ bytes))
              ∙ ap (λ (s : Bytes). sent ++ s) (take-append-drop k (b ∷ bytes))))

-- With a device that is ready and open, memory for the serialised message, well-formed entries of
-- at most 65534 serialised bytes, and a line whose writes advance, sending succeeds, and exactly
-- the frame of the message reaches the line. As much fuel as the static buffer has bytes is enough.
pub serial_send_message-sent :
    (write : ℕ → ℕ → Option ℕ) (malloc : ℕ → Bool) (line : Line) (cfg : SerialDevice) (n : ℕ)
    (m : Message)
    → cfg.ready ≡ true
    → cfg.fd ≡ some n
    → malloc (length (wire m)) ≡ true
    → All IsTlv m
    → message_serialized_size m ≤ 65534
    → WriteAdvances write
    → serial_send_message frame_max_length write malloc line cfg m ≡ sent_ok (frame_of m)
unfolding serial_send_message send_frame
serial_send_message-sent write malloc line cfg n m r o a h small w =
    let (made, fits) = frame_message_enough malloc frame_max_length m h a (omega arith) in
    rw (r, o, made, send_frame, write_loop_all frame_max_length write 0 [] (frame_of m) w fits) refl

-- ---- failures

-- What reached the line, and what was to reach it.
abbrev IsPrefix : Bytes → Bytes → Type 0
IsPrefix a b = (rest : Bytes) × (a ++ rest ≡ b)

sent_of :
    {a b : Bool} {s t : Bytes} → ◌≡◌ {A = Option (Bool × Bytes)} (some (a, s)) (some (b, t)) → t ≡ s
sent_of e = cc

bytes_of : {s t : Bytes} {o p : Opened} → failed s o ≡ failed t p → s ≡ t
bytes_of e = cc

reopening_of : {s t : Bytes} {o p : Opened} → failed s o ≡ failed t p → o ≡ p
reopening_of e = cc

write_loop_stopped :
    (fuel : ℕ) (write : ℕ → ℕ → Option ℕ) (i : ℕ) (sent bytes : Bytes) {ok : Bool} {out : Bytes}
    → write_loop fuel write i sent bytes ≡ some (ok, out)
    → IsPrefix out (sent ++ bytes)
unfolding write_loop
write_loop_stopped fuel write i sent [] e = ([], ap (λ (s : Bytes). s ++ []) (sent_of e))
write_loop_stopped zero write i sent (b ∷ bytes) e = cc
write_loop_stopped (suc fuel) write i sent (b ∷ bytes) e =
    elim (Option-cases (write i (length (b ∷ bytes)))) [
      | inl broken ↦
          (b ∷ bytes, ap (λ (s : Bytes). s ++ b ∷ bytes) (sent_of (rw (broken, write_loop) at e)))
      | inr (k, wrote) ↦
          let (rest, whole) =
            write_loop_stopped fuel write (suc i) (sent ++ take k (b ∷ bytes)) (drop k (b ∷ bytes))
              (rw (wrote, write_loop) at e) in
          (
            rest,
            whole
                ∙ append_assoc sent (take k (b ∷ bytes)) (drop k (b ∷ bytes))
                ∙ ap (λ (s : Bytes). sent ++ s) (take-append-drop k (b ∷ bytes)),
          )
    ]

send_frame_failed :
    (fuel : ℕ) (write : ℕ → ℕ → Option ℕ) (line : Line) (cfg : SerialDevice) (f : Framed)
    {sent : Bytes} {o : Opened}
    → send_frame fuel write line cfg f ≡ failed sent o
    → (o ≡ serial_reinit_device line cfg)
      × ((frame : Bytes) × (f ≡ framed frame) × IsPrefix sent frame)
unfolding send_frame
send_frame_failed fuel write line cfg refused e = cc
send_frame_failed fuel write line cfg aborted e = cc
send_frame_failed fuel write line cfg (framed frame) e =
    elim (Option-cases (write_loop fuel write 0 [] frame)) [
      | inl out_of_fuel ↦ cc (rw (out_of_fuel, send_frame) at e)
      | inr ((true, out), done) ↦ cc (rw (done, send_frame) at e)
      | inr ((false, out), done) ↦
          let same = rw (done, send_frame) at e in
          (
            sym (reopening_of same),
            (frame, refl, rw (← bytes_of same) (write_loop_stopped fuel write 0 [] frame done)),
          )
    ]

send_open :
    (fuel : ℕ) (write : ℕ → ℕ → Option ℕ) (malloc : ℕ → Bool) (line : Line) (cfg : SerialDevice)
    (n : ℕ) (m : Message)
    → cfg.ready ≡ true
    → cfg.fd ≡ some n
    → serial_send_message fuel write malloc line cfg m
      ≡ send_frame fuel write line cfg (frame_message malloc frame_max_length m)
unfolding serial_send_message
send_open fuel write malloc line cfg n m r d = ground (arith, r, d)

-- If the sending of a well-formed message on a device that is ready and open fails in a `write`
-- (a message that `frame_message` refuses is another result), then a prefix of the frame is on the
-- line, and the device was reopened.
pub serial_send_message_failed :
    (fuel : ℕ) (write : ℕ → ℕ → Option ℕ) (malloc : ℕ → Bool) (line : Line) (cfg : SerialDevice)
    (n : ℕ) (m : Message) {sent : Bytes} {o : Opened}
    → cfg.ready ≡ true
    → cfg.fd ≡ some n
    → All IsTlv m
    → serial_send_message fuel write malloc line cfg m ≡ failed sent o
    → (o ≡ serial_reinit_device line cfg) × IsPrefix sent (frame_of m)
serial_send_message_failed fuel write malloc line cfg n m r d h e =
    let (again, (frame, made, part)) =
      send_frame_failed fuel write line cfg (frame_message malloc frame_max_length m)
        (sym (send_open fuel write malloc line cfg n m r d) ∙ e) in
    (again, rw (← (frame_message_sound malloc frame_max_length m h made).0) part)
