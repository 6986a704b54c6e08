-- ===== src/Device/World.antt =====
-- What the other threads do while a function of src/op_device.c holds no lock: the reader
-- thread (`reader_main`), a close, and calls that touch a queue. Each step is what such a thread
-- does under `d->lock`; an interleaving is a list of steps.
pub mod Steady
pub mod Anchored
use openport_j.Base.{
  ℕ, Bool, true, false, not, ◌||◌, List, [], ◌∷◌, Option, none, some, Bytes, ltb, if◌then◌else◌,
}
use openport_j.Codes.{OpStatus, fine, timeout, no_device}
use openport_j.Device.Message.{Message}
use openport_j.Device.State.{Device, put_channel}
use openport_j.Device.Queue.{queue_pop, flush_locked}
use openport_j.Device.Stream.{reader_take}

-- `op_device_pop` from where it no longer waits.
unfoldable pub pop_now : Device → ℕ → Device × OpStatus × Option Message
pop_now d i =
    if not d.is_open || d.lost
    then (d, no_device, none)
    else if ltb 0 (d.ch i).qcount
    then (put_channel d i (queue_pop (d.ch i)).1, fine, some (queue_pop (d.ch i)).0)
    else (d, timeout, none)

-- `arrives`: the reader takes in the bytes of one read. `vanishes`: the reader finds the cable
-- gone. `shuts`: op_device_close under its first lock. `pops` and `flushes`: another thread's
-- op_device_pop on a queue, and op_device_flush_channel.
pub data Step : Type 0 where
  arrives : Bytes → Step
  vanishes : Step
  shuts : Step
  pops : ℕ → Step
  flushes : ℕ → Step

unfoldable pub step : Device → Step → Device
step d (arrives got) = reader_take d got
step d vanishes = record d { lost = true }
step d shuts = record d { is_open = false }
step d (pops i) = (pop_now d i).0
step d (flushes i) = put_channel d i (flush_locked (d.ch i))

unfoldable pub steps : Device → List Step → Device
steps d [] = d
steps d (s ∷ ss) = steps (step d s) ss

-- `while (!done && rc != ETIMEDOUT) rc = pthread_cond_timedwait(...)`: `wakes` holds what
-- happens in each wait that ends before the deadline, `last` what happens in the one that ends
-- with it.
unfoldable pub await : (Device → Bool) → Device → List (List Step) → List Step → Device
await done d [] last = if done d then d else steps d last
await done d (w ∷ ws) last = let rest = await done (steps d w) ws last in if done d then d else rest
