-- ===== src/Api/Channels/Connects.antt =====
-- What a successful `PassThruConnect` has checked and done.
use openport_j.Base.{
  ℕ, ◌%◌, ◌^◌, ◌≡◌, ◌≢◌, refl, Bool, true, false, not, ◌||◌, [], Bytes, Option, none, some, arith,
  ◌==◌, if_cases,
}
use openport_j.Codes.{status_noerror, is_fine}
use openport_j.Proto.Decode.{cmd_max}
use openport_j.Proto.Command.{cmd_open}
use openport_j.Device.Protocol.{protocol_channel}
use openport_j.Device.State.{Device}
use openport_j.Device.Slot.{is_empty}
use openport_j.Device.Exchange.{Timing}
use openport_j.Device.Lifecycle.{op_device_open_channel}
use openport_j.Api.Simple.{device_id, is_zero, simple_cmd, Answer}
use openport_j.Api.Channels.{
  line_taken, pin_shorted, connect_opened, connect_send, connect_on, connect_any, pass_thru_connect,
}

-- The channel is open for the protocol, and its number is handed out.
abbrev pub Opened : ℕ → ℕ → Device × ℕ × Option ℕ → Type 0
Opened fw p out =
    out.1 ≡ status_noerror
    → (out.2 ≡ some fw) × ((out.0.ch fw).is_open ≡ true) × ((out.0.ch fw).protocol ≡ p % 2 ^ 32)

open_channel-opened :
    (d : Device) (fw p : ℕ) (room : Bool)
    → let out = op_device_open_channel d fw p room in
      is_fine out.1 ≡ true → ((out.0.ch fw).is_open ≡ true) × ((out.0.ch fw).protocol ≡ p)
unfolding op_device_open_channel
open_channel-opened d fw p room h = ground arith

connect_opened-Opened :
    (d : Device) (fw p : ℕ) (room : Bool) (t : Timing) → Opened fw p (connect_opened d fw p room t)
unfolding connect_opened
connect_opened-Opened d fw p room t =
    if_cases (Opened fw p) (is_fine (op_device_open_channel d fw (p % 2 ^ 32) room).1) _ _
      (λ on _. let (o, q) = open_channel-opened d fw (p % 2 ^ 32) room on in (refl, o, q))
      (λ _ e. absurd (ground arith))

connect_send-Opened :
    (d : Device) (fw p flags baud : ℕ) (room : Bool) (t undo : Timing)
    → Opened fw p (connect_send d fw p flags baud room t undo)
unfolding connect_send
connect_send-Opened d fw p flags baud room t undo =
    if_cases (Opened fw p) (is_empty line) _ _ (λ _ e. absurd (ground arith))
      (λ _.
        if_cases (Opened fw p) (is_zero a.code) _ _
          (λ _. connect_opened-Opened a.device fw p room undo) (λ bad e. absurd (ground arith)))
  where
    line : Bytes
    line = cmd_open cmd_max fw (flags % 2 ^ 32) (baud % 2 ^ 32)

    a : Answer
    a = simple_cmd d line [] t

-- What a connect to the firmware channel `fw` has found.
abbrev pub Free : Device → ℕ → ℕ → ℕ → Type 0
Free d fw p baud =
    ((d.ch fw).is_open ≡ false) × (line_taken d fw ≡ false) × (pin_shorted d p ≡ false) × (baud ≢ 0)

connect_on-Free :
    (d : Device) (fw p flags baud : ℕ) (room : Bool) (t undo : Timing)
    → let out = connect_on d fw p flags baud room t undo in
      out.1 ≡ status_noerror → Free d fw p baud × Opened fw p out
unfolding connect_on
connect_on-Free d fw p flags baud room t undo =
    if_cases P ((d.ch fw).is_open || line_taken d fw) _ _ (λ _ e. absurd (ground arith))
      (λ free.
        if_cases P (baud == 0) _ _ (λ _ e. absurd (ground arith))
          (λ some_baud.
            if_cases P (pin_shorted d p) _ _ (λ _ e. absurd (ground arith))
              (λ clear e. (
                (ground arith, ground arith, clear, ground arith),
                connect_send-Opened d fw p flags baud room t undo,
              ))))
  where
    P : Device × ℕ × Option ℕ → Type 0
    P o = o.1 ≡ status_noerror → Free d fw p baud × Opened fw p o

-- What a successful connect says.
abbrev pub Connected : Device → ℕ → ℕ → Option ℕ → Device × ℕ × Option ℕ → Type 0
Connected d p baud o out =
    out.1 ≡ status_noerror
    → (fw : ℕ) × (o ≡ some fw)
      × Free d fw p baud
      × (out.2 ≡ some fw)
      × ((out.0.ch fw).is_open ≡ true)
      × ((out.0.ch fw).protocol ≡ p % 2 ^ 32)

connect_any-Connected :
    (d : Device) (p flags baud : ℕ) (room : Bool) (t undo : Timing) (o : Option ℕ)
    → Connected d p baud o (connect_any d p flags baud room t undo o)
unfolding connect_any
connect_any-Connected d p flags baud room t undo none e = absurd (ground arith)
connect_any-Connected d p flags baud room t undo (some fw) e =
    let (free, opened) = connect_on-Free d fw p flags baud room t undo e in
    let (number, on, carries) = opened e in (fw, refl, free, number, on, carries)

-- `PassThruConnect` returns success only if the session is open and the id its own, the protocol
-- has a firmware channel, that channel and the one on its line are closed, no pin that the protocol
-- drives is grounded and the baud rate is not 0; then the channel's number is handed out and the
-- channel is open for the protocol.
pub connect-Connected :
    (d : Device) (id p flags baud : ℕ) (has_out room : Bool) (t undo : Timing)
    → let out = pass_thru_connect d id p flags baud has_out room t undo in
      out.1 ≡ status_noerror
      → (d.is_open ≡ true) × (id ≡ device_id) × Connected d p baud (protocol_channel p) out
unfolding pass_thru_connect
connect-Connected d id p flags baud has_out room t undo =
    if_cases P (not d.is_open || not (id == device_id)) _ _ (λ _ e. absurd (ground arith))
      (λ ok.
        if_cases P (not has_out) _ _ (λ _ e. absurd (ground arith))
          (λ _ e. (
            ground arith,
            ground arith,
            connect_any-Connected d p flags baud room t undo (protocol_channel p),
          )))
  where
    P : Device × ℕ × Option ℕ → Type 0
    P o =
        o.1 ≡ status_noerror
        → (d.is_open ≡ true) × (id ≡ device_id) × Connected d p baud (protocol_channel p) o
