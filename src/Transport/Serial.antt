-- ===== src/Transport/Serial.antt =====
-- The character-device transport, src/op_serial.c.
use openport_j.Base.{
  ℕ, zero, suc, ◌≡◌, ◌≢◌, ◌⊎◌, inl, inr, refl, Bool, not, ◌&&◌, List, [], ◌∷◌, Option, some, none,
  Bytes, arith, ◌==◌, if◌then◌else◌, if_cases,
}
use openport_j.Codes.{OpStatus}
use openport_j.Transport.Push.{Written, push}

-- The values of errno that the code tells apart.
pub data Errno : Type 0 where
  enoent eacces ebusy eagain einval eintr other : Errno

unfoldable pub from_errno : Errno → OpStatus
from_errno enoent = OpStatus.no_device
from_errno eacces = OpStatus.access
from_errno ebusy = OpStatus.access
from_errno eagain = OpStatus.timeout
from_errno einval = OpStatus.param
from_errno eintr = OpStatus.io
from_errno other = OpStatus.io

-- The answer of poll: an error, the deadline, or `revents`, of which the code reads POLLERR or
-- POLLNVAL, POLLHUP and POLLIN.
pub data Poll : Type 0 where
  poll_failed : Errno → Poll
  expired : Poll
  ready : (bad : Bool) (hup : Bool) (pollin : Bool) → Poll

unfoldable pub poll_status : Poll → OpStatus
poll_status (poll_failed e) = from_errno e
poll_status expired = OpStatus.timeout
poll_status (ready bad hup pollin) =
    if bad then OpStatus.io else if hup && not pollin then OpStatus.no_device else OpStatus.fine

-- The polls that a signal interrupts are made again: `interrupted` of them, and the one that is
-- not.
unfoldable pub wait_ready : ℕ → Poll → OpStatus
wait_ready zero p = poll_status p
wait_ready (suc interrupted) p = wait_ready interrupted p

-- The answer of write.
pub data Wrote : Type 0 where
  write_failed : Errno → Wrote
  wrote : ℕ → Wrote

-- One round of `ser_write`.
pub record WriteRound : Type 0 where
  pub interrupted : ℕ
  pub poll : Poll
  pub answer : Wrote

abbrev pub wrote_bytes : Wrote → ℕ
wrote_bytes (write_failed e) = 0
wrote_bytes (wrote n) = n

-- A write that a signal or a full buffer stopped is made again.
unfoldable pub write_ends : Wrote → Option OpStatus
write_ends (write_failed eintr) = none
write_ends (write_failed eagain) = none
write_ends (write_failed e) = some (from_errno e)
write_ends (wrote n) = if n == 0 then some OpStatus.io else none

-- A device that is not ready in time is stalled.
unfoldable pub ready_ends : OpStatus → Wrote → Option OpStatus
ready_ends OpStatus.timeout w = some OpStatus.stalled
ready_ends OpStatus.fine w = write_ends w
ready_ends st w = some st

unfoldable pub round_ends : WriteRound → Option OpStatus
round_ends r = ready_ends (wait_ready r.interrupted r.poll) r.answer

-- A round that does not come to its write moves nothing.
unfoldable pub round_moved : WriteRound → ℕ
round_moved r = elim (wait_ready r.interrupted r.poll) [
  | OpStatus.fine ↦ wrote_bytes r.answer
  | _ ↦ 0
]

-- The status and what went out, one answer for each round.
unfoldable pub ser_write : List WriteRound → Bytes → Written
ser_write = push round_ends round_moved

-- The answer of read.
pub data Got : Type 0 where
  read_failed : Errno → Got
  got : Bytes → Got

unfoldable pub got_status : Got → OpStatus × Bytes
got_status (read_failed e) = (from_errno e, [])
got_status (got []) = (OpStatus.no_device, [])
got_status (got (b ∷ s)) = (OpStatus.fine, b ∷ s)

-- The reads that a signal interrupts are made again, like the polls.
unfoldable pub read_again : ℕ → Got → OpStatus × Bytes
read_again zero g = got_status g
read_again (suc interrupted) g = read_again interrupted g

unfoldable pub ready_read : OpStatus → ℕ → Got → OpStatus × Bytes
ready_read OpStatus.fine interrupted g = read_again interrupted g
ready_read st interrupted g = (st, [])

-- The status and the bytes read.
unfoldable pub ser_read : ℕ → ℕ → Poll → ℕ → Got → OpStatus × Bytes
ser_read cap polls p reads g =
    if cap == 0 then (OpStatus.param, []) else ready_read (wait_ready polls p) reads g

-- What op_transport.h wants of a read: bytes with OP_OK, and only then.
abbrev pub IsRead : OpStatus × Bytes → Type 0
IsRead o = ((o.0 ≡ OpStatus.fine) × (o.1 ≢ [])) ⊎ ((o.0 ≢ OpStatus.fine) × (o.1 ≡ []))

got_status-IsRead : (g : Got) → IsRead (got_status g)
unfolding got_status from_errno
got_status-IsRead (read_failed e) = ground arith
got_status-IsRead (got []) = ground arith
got_status-IsRead (got (b ∷ s)) = inl (refl, λ e. cc)

read_again-IsRead : (n : ℕ) (g : Got) → IsRead (read_again n g)
unfolding read_again
read_again-IsRead zero g = got_status-IsRead g
read_again-IsRead (suc n) g = read_again-IsRead n g

ready_read-IsRead : (st : OpStatus) (n : ℕ) (g : Got) → IsRead (ready_read st n g)
unfolding ready_read
ready_read-IsRead OpStatus.fine n g = read_again-IsRead n g
ready_read-IsRead st n g = inr ((λ e. ground arith), refl)

got_status_fine : (g : Got) → (got_status g).0 ≡ OpStatus.fine → g ≡ got (got_status g).1
unfolding got_status from_errno
got_status_fine (read_failed e) h = ground arith
got_status_fine (got []) h = ground arith
got_status_fine (got (b ∷ s)) h = refl

read_again_fine :
    (n : ℕ) (g : Got) → (read_again n g).0 ≡ OpStatus.fine → g ≡ got (read_again n g).1
unfolding read_again
read_again_fine zero g h = got_status_fine g h
read_again_fine (suc n) g h = read_again_fine n g h

ready_read_fine :
    (st : OpStatus) (n : ℕ) (g : Got)
    → (ready_read st n g).0 ≡ OpStatus.fine
    → (st ≡ OpStatus.fine) × (g ≡ got (ready_read st n g).1)
unfolding ready_read
ready_read_fine OpStatus.fine n g h = (refl, read_again_fine n g h)
ready_read_fine st n g h = ground arith

-- `ser_read`: it hands out bytes with OP_OK and only then, and these are the bytes that read
-- returned, once the device was ready and the buffer not empty.
pub ser_read_lem :
    (cap polls : ℕ) (p : Poll) (reads : ℕ) (g : Got)
    → IsRead (ser_read cap polls p reads g)
      × ((ser_read cap polls p reads g).0 ≡ OpStatus.fine
          → (cap ≢ 0)
            × (wait_ready polls p ≡ OpStatus.fine)
            × (g ≡ got (ser_read cap polls p reads g).1))
unfolding ser_read
ser_read_lem cap polls p reads g =
    if_cases P (cap == 0) _ _ (λ _. (inr ((λ e. ground arith), refl), λ e. ground arith))
      (λ room. (
        ready_read-IsRead (wait_ready polls p) reads g,
        λ fine.
            let rest = ready_read_fine (wait_ready polls p) reads g fine in
            ((λ e. ground arith), rest.0, rest.1),
      ))
  where
    P : OpStatus × Bytes → Type 0
    P o =
        IsRead o
        × (o.0 ≡ OpStatus.fine → (cap ≢ 0) × (wait_ready polls p ≡ OpStatus.fine) × (g ≡ got o.1))
