-- ===== src/Device/Exchange/Pops.antt =====
-- `op_device_pop` on every branch, against the queue as a list.
use openport_j.Base.{
  ℕ, ◌<◌, ◌≡◌, ◌≢◌, refl, ap, true, false, not, ◌&&◌, List, [], ◌∷◌, Option, none, some, arith, leb,
  ◌==◌,
}
use openport_j.Codes.{OpStatus, fine, timeout}
use openport_j.Device.Message.{Message}
use openport_j.Device.State.{Device, max_channels, put_channel}
use openport_j.Device.Queue.Fifo.{Holds}
use openport_j.Device.Queue.Pop.{queue_pop-Holds}
use openport_j.Device.Queue.{Channel, queue_pop, pop_sized}
use openport_j.Device.World.{Step, pop_now}
use openport_j.Device.Exchange.{pop_ready, op_device_pop}

-- The answer that fits a queue.
abbrev pub Pops : Device → ℕ → List Message → Device × OpStatus × Option Message → Type 0
Pops d i [] out = out ≡ (d, timeout, none)
Pops d i (m ∷ q) out =
    (out.1 ≡ fine)
    × (out.2 ≡ some m)
    × Holds (out.0.ch i) q
    × ((out.0.ch i).dropped ≡ (d.ch i).dropped)
    × (out.0.is_open ≡ true)
    × (out.0.lost ≡ false)
    × ((j : ℕ) → j ≢ i → out.0.ch j ≡ d.ch j)

queue_pop-dropped : (c : Channel) → (queue_pop c).1.dropped ≡ c.dropped
unfolding queue_pop pop_sized
queue_pop-dropped c = refl

-- The branch of a message.
pop_now_full :
    (d : Device) (i : ℕ) (m : Message) (q : List Message)
    → d.is_open ≡ true
    → d.lost ≡ false
    → Holds (d.ch i) (m ∷ q)
    → pop_now d i ≡ (put_channel d i (queue_pop (d.ch i)).1, fine, some (queue_pop (d.ch i)).0)
unfolding pop_now
pop_now_full d i m q o l h = ground (arith, h.counted)

pop_now_empty :
    (d : Device) (i : ℕ)
    → d.is_open ≡ true
    → d.lost ≡ false
    → Holds (d.ch i) []
    → pop_now d i ≡ (d, timeout, none)
unfolding pop_now
pop_now_empty d i o l h = ground (arith, h.counted)

pop_now-Pops :
    (d : Device) (i : ℕ) (q : List Message)
    → d.is_open ≡ true
    → d.lost ≡ false
    → Holds (d.ch i) q
    → Pops d i q (pop_now d i)
pop_now-Pops d i [] o l h = pop_now_empty d i o l h
pop_now-Pops d i (m ∷ q) o l h =
    let (e, left) = queue_pop-Holds (d.ch i) m q h in
    let own : (i == i) ≡ true = ground arith in
    rw (pop_now_full d i m q o l h)
      (refl, ap some e, rw own left, rw own (queue_pop-dropped (d.ch i)), o, l, λ j n. ground arith)

-- `op_device_pop` on an open session, on a channel whose queue is valid and with no time to wait:
-- the oldest message is handed out and the queue keeps the rest; every other channel, the loss
-- count and the session stay as they were. From an empty queue the answer is OP_ERR_TIMEOUT and
-- nothing changes.
pub op_device_pop-Pops :
    (d : Device) (i : ℕ) (q : List Message) (wakes : List (List Step)) (last : List Step)
    → d.is_open ≡ true
    → d.lost ≡ false
    → i < max_channels
    → Holds (d.ch i) q
    → Pops d i q (op_device_pop d i 0 wakes last)
unfolding op_device_pop
op_device_pop-Pops d i q wakes last o l b h =
    let inside : leb max_channels i ≡ false = ground arith in
    let still : (not (pop_ready i d) && false) ≡ false = ground arith in
    rw (inside, still) (pop_now-Pops d i q o l h)
