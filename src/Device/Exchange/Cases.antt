-- ===== src/Device/Exchange/Cases.antt =====
-- The paths of `cmd_exchange`, for the proofs on all of them.
use openport_j.Base.{
  ◌≤◌, ◌<◌, ◌≡◌, Bool, true, false, not, ◌||◌, inl, inr, Bytes, arith, ltb, leb, length, Bool-cases,
}
use openport_j.Codes.{param, no_device}
use openport_j.Proto.Decode.{cmd_max, msg_max}
use openport_j.Proto.Command.{cmd_is_numbered, cmd_number}
use openport_j.Device.State.{Device}
use openport_j.Device.Slot.{is_empty}
use openport_j.Device.World.{steps}
use openport_j.Device.Exchange.{
  Timing, Outcome, refused, numbered_size, next_seq, claim, transmit, exchange_numbered,
  exchange_open, cmd_exchange,
}

-- The line on the wire and the state once its number is used up.
abbrev pub numbered_line : Device → Bytes → Bytes
numbered_line d line = cmd_number line numbered_size d.seq_next

abbrev pub counted : Device → Device
counted d = record d { seq_next = next_seq d.seq_next }

module _ (line payload : Bytes) (wait : Bool) (t : Timing) (P : Outcome → Type 0) where
  exchange_numbered_cases :
      (d : Device)
      → (is_empty (numbered_line d line) ≡ true → P (refused (counted d) param))
      → (is_empty (numbered_line d line) ≡ false
          → P (
              transmit
                (claim (counted d) (numbered_line d line) d.seq_next wait)
                (numbered_line d line)
                payload
                wait
                t))
      → P (exchange_numbered d line payload wait t)
  unfolding exchange_numbered
  exchange_numbered_cases d full fits = elim (Bool-cases (is_empty (numbered_line d line))) [
    | inl e ↦ rw e (full e)
    | inr e ↦ rw e (fits e)
  ]

  pub exchange_open_cases :
      (d : Device)
      → (cmd_is_numbered line ≡ true
          → is_empty (numbered_line d line) ≡ true
          → P (refused (counted d) param))
      → (cmd_is_numbered line ≡ true
          → is_empty (numbered_line d line) ≡ false
          → P (
              transmit
                (claim (counted d) (numbered_line d line) d.seq_next wait)
                (numbered_line d line)
                payload
                wait
                t))
      → (cmd_is_numbered line ≡ false → P (transmit (claim d line 0 wait) line payload wait t))
      → P (exchange_open d line payload wait t)
  unfolding exchange_open
  exchange_open_cases d full fits bare = elim (Bool-cases (cmd_is_numbered line)) [
    | inl e ↦ rw e (exchange_numbered_cases d (full e) (fits e))
    | inr e ↦ rw e (bare e)
  ]

  pub cmd_exchange_cases :
      (d : Device)
      → P (refused d param)
      → ((not d.is_open || d.lost) ≡ true → P (refused d no_device))
      → (length line < cmd_max
          → length payload ≤ msg_max
          → (not d.is_open || d.lost) ≡ false
          → P (exchange_open (steps d t.before) line payload wait t))
      → P (cmd_exchange d line payload wait t)
  unfolding cmd_exchange
  cmd_exchange_cases d bad gone run = elim (Bool-cases too_long) [
    | inl e ↦ rw e bad
    | inr e ↦ elim (Bool-cases (not d.is_open || d.lost)) [
      | inl g ↦ rw (e, g) (gone g)
      | inr g ↦ rw (e, g) (run (ground arith) (ground arith) g)
    ]
  ]
    where
      too_long : Bool
      too_long = is_empty line || leb cmd_max (length line) || ltb msg_max (length payload)
