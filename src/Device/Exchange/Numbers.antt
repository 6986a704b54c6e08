-- ===== src/Device/Exchange/Numbers.antt =====
-- The sequence numbers of `cmd_exchange` and what it puts on the wire.
use openport_j.Base.{
  ℕ, ◌+◌, ◌-◌, ◌^◌, ◌≤◌, ◌<◌, ◌≡◌, ◌≢◌, ◌⊎◌, inl, inr, refl, ap, Bool, [], ◌∷◌, ◌++◌, none, some,
  Bytes, arith, length, length-append, length-take, take,
}
use openport_j.Proto.Decode.{cmd_max, msg_max}
use openport_j.Proto.Print.{spaced, crlf}
use openport_j.Proto.Command.{cmd_number}
use openport_j.Device.State.{Device}
use openport_j.Device.World.{steps, await}
use openport_j.Device.World.Steady.{steps-Follows, await-Follows}
use openport_j.Device.Exchange.Cases.{
  exchange_open_cases, cmd_exchange_cases, numbered_line, counted,
}
use openport_j.Device.Exchange.{
  Timing, Outcome, numbered_size, next_seq, claim, answered, collect, transmit, cmd_exchange,
}

-- A number that no key byte looks like, in 32 bits.
abbrev pub IsNumber : ℕ → Type 0
IsNumber n = (256 ≤ n) × (n < 2 ^ 32)

next_seq-IsNumber : (n : ℕ) → IsNumber (next_seq n)
unfolding next_seq
next_seq-IsNumber n = ground arith

-- The state's number is the old one or the next.
abbrev pub Advances : ℕ → Outcome → Type 0
Advances n o = (o.device.seq_next ≡ n) ⊎ (o.device.seq_next ≡ next_seq n)

collect-next : (d : Device) (bytes : Bytes) → (collect d bytes).device.seq_next ≡ d.seq_next
unfolding collect
collect-next d bytes = ground arith

transmit-next :
    (d : Device) (line payload : Bytes) (wait : Bool) (t : Timing)
    → (transmit d line payload wait t).device.seq_next ≡ d.seq_next
unfolding transmit
transmit-next d line payload wait t =
    let sent = steps d t.during in
    ground (
      arith,
      collect-next (await answered sent t.wakes t.last) (line ++ payload),
      (await-Follows answered sent t.wakes t.last).0.next_eq,
      (steps-Follows d t.during).0.next_eq,
    )

-- A command takes the session's number or leaves it, and a number above 255 and within 32 bits
-- is followed by such a number, so that no key byte of an init reply is ever read as a command's number.
pub cmd_exchange-IsNumber :
    (d : Device) (line payload : Bytes) (wait : Bool) (t : Timing)
    → IsNumber d.seq_next
    → let n = (cmd_exchange d line payload wait t).device.seq_next in
      IsNumber n × ((n ≡ d.seq_next) ⊎ (n ≡ next_seq d.seq_next))
cmd_exchange-IsNumber d line payload wait t h =
    cmd_exchange_cases line payload wait t P d (h, inl refl) (λ _. (h, inl refl))
      (λ _ _ _.
        exchange_open_cases line payload wait t P d' (λ _ _. taken)
          (λ _ _.
            rw
              (transmit-next (claim (counted d') (numbered_line d' line) d'.seq_next wait)
                (numbered_line d' line) payload wait t)
              taken)
          (λ _. rw (transmit-next (claim d' line 0 wait) line payload wait t, same) (h, inl refl)))
  where
    P : Outcome → Type 0
    P o =
        IsNumber o.device.seq_next
        × ((o.device.seq_next ≡ d.seq_next) ⊎ (o.device.seq_next ≡ next_seq d.seq_next))

    d' : Device
    d' = steps d t.before

    same : d'.seq_next ≡ d.seq_next
    same = (steps-Follows d t.before).0.next_eq

    taken :
        IsNumber (next_seq d'.seq_next)
        × ((next_seq d'.seq_next ≡ d.seq_next) ⊎ (next_seq d'.seq_next ≡ next_seq d.seq_next))
    taken = (next_seq-IsNumber d'.seq_next, inr (ap next_seq same))

-- Two numbered commands in a row have different numbers.
next_seq_fresh : (n : ℕ) → IsNumber n → next_seq n ≢ n
unfolding next_seq
next_seq_fresh n h = ground arith

length-cmd_number :
    (line : Bytes) (out_sz seq : ℕ)
    → (cmd_number line out_sz seq ≡ []) ⊎ (length (cmd_number line out_sz seq) < out_sz)
unfolding cmd_number
length-cmd_number line out_sz seq = ground (
  arith,
  length-append (take (length line - 2) line) (spaced (seq ∷ []) ++ crlf),
  length-append (spaced (seq ∷ [])) crlf,
  length-take (length line - 2) line,
)

-- What goes to `op_write` fits into `d->tx`.
abbrev pub FitsTx : Outcome → Type 0
FitsTx o = (s : Bytes) → o.sent ≡ some s → length s ≤ cmd_max + 16 + msg_max

collect-sent : (d : Device) (bytes : Bytes) → (collect d bytes).sent ≡ some bytes
unfolding collect
collect-sent d bytes = ground arith

transmit-sent :
    (d : Device) (line payload : Bytes) (wait : Bool) (t : Timing)
    → (transmit d line payload wait t).sent ≡ some (line ++ payload)
unfolding transmit
transmit-sent d line payload wait t =
    ground
      (arith, collect-sent (await answered (steps d t.during) t.wakes t.last) (line ++ payload))

transmit-FitsTx :
    (d : Device) (line payload : Bytes) (wait : Bool) (t : Timing)
    → length line ≤ numbered_size
    → length payload ≤ msg_max
    → FitsTx (transmit d line payload wait t)
transmit-FitsTx d line payload wait t h k s e =
    ground (arith, transmit-sent d line payload wait t, length-append line payload)

-- Whatever line and payload a caller passes, the bytes that a command puts on the wire fit into
-- the session's transmit buffer of OP_CMD_MAX + 16 + OP_MSG_MAX bytes.
pub cmd_exchange-FitsTx :
    (d : Device) (line payload : Bytes) (wait : Bool) (t : Timing)
    → FitsTx (cmd_exchange d line payload wait t)
cmd_exchange-FitsTx d line payload wait t =
    cmd_exchange_cases line payload wait t FitsTx d nothing (λ _. nothing)
      (λ short small _.
        exchange_open_cases line payload wait t FitsTx (steps d t.before) (λ _ _. nothing)
          (λ _ _. transmit-FitsTx _ _ payload wait t (fits (steps d t.before)) small)
          (λ _. transmit-FitsTx _ line payload wait t (omega arith) small))
  where
    nothing : (s : Bytes) → none ≡ some s → length s ≤ cmd_max + 16 + msg_max
    nothing s e = cc

    fits : (d' : Device) → length (numbered_line d' line) ≤ numbered_size
    fits d' = ground (arith, length-cmd_number line numbered_size d'.seq_next)
