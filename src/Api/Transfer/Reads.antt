-- ===== src/Api/Transfer/Reads.antt =====
-- The loop of `PassThruReadMsgs` of src/op_j2534.c against the queue as a list.
use openport_j.Base.{
  ℕ, ◌+◌, ◌-◌, ◌≤◌, ◌≡◌, ◌≢◌, ◌⊎◌, true, List, [], ◌∷◌, Option, arith, leb, if◌then◌else◌, take,
  drop,
}
use openport_j.Codes.{OpStatus}
use openport_j.Device.Message.{Message}
use openport_j.Device.State.{Device}
use openport_j.Device.Queue.Fifo.{Holds}
use openport_j.Device.Exchange.{op_device_pop}
use openport_j.Api.Transfer.{Round, time_left, End, running, full, quiet, read_round, read_loop}

-- How many rounds begin when the Timeout is over.
unfoldable pub expired : ℕ → List Round → ℕ
expired timeout_ms [] = 0
expired timeout_ms (r ∷ rs) = (if leb timeout_ms r.elapsed then 1 else 0) + expired timeout_ms rs

read_round-ends :
    (out : Device × OpStatus × Option Message) (left want : ℕ)
    (more again : Device × List Message × End)
    → (2 ≤ want → more.2 ≢ running)
    → (left ≢ 0 → again.2 ≢ running)
    → (read_round out left want more again).2 ≢ running
unfolding read_round
read_round-ends (d, st, o) left want more again h k = ground (arith, h, k)

-- The loop of `PassThruReadMsgs` for one message or more ends: it goes round at most once for each message wanted once
-- the Timeout is over, whatever arrives and whatever other threads do.
pub read_loop-ends :
    (d : Device) (i want timeout_ms : ℕ) (rounds : List Round)
    → 1 ≤ want
    → want ≤ expired timeout_ms rounds
    → (read_loop d i want timeout_ms rounds).2 ≢ running
unfolding read_loop expired time_left
read_loop-ends d i want timeout_ms [] lo h = absurd (omega arith)
read_loop-ends d i want timeout_ms (r ∷ rs) lo h =
    let left = time_left timeout_ms r.elapsed in
    let out = op_device_pop d i left r.wakes r.last in
    read_round-ends out left want (read_loop out.0 i (want - 1) timeout_ms rs)
      (read_loop out.0 i want timeout_ms rs)
      (λ two. read_loop-ends out.0 i (want - 1) timeout_ms rs (omega arith) (ground (arith, h)))
      (λ some_left. read_loop-ends out.0 i want timeout_ms rs lo (ground (arith, h)))

-- What follows a message.
abbrev after_message :
    Message → ℕ → Device → Device × List Message × End → Device × List Message × End
after_message m want d more = if leb want 1 then (d, m ∷ [], full) else (more.0, m ∷ more.1, more.2)

-- The result of a read that finds the queue `q`.
abbrev pub Takes : Device → ℕ → ℕ → List Message → Device × List Message × End → Type 0
Takes d i want q out =
    (out.1 ≡ take want q)
    × Holds (out.0.ch i) (drop want q)
    × ((out.0.ch i).dropped ≡ (d.ch i).dropped)
    × (out.0.is_open ≡ true)
    × ((out.2 ≡ full) ⊎ (out.2 ≡ quiet))
