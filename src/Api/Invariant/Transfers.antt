-- ===== src/Api/Invariant/Transfers.antt =====
-- PassThruReadMsgs and PassThruWriteMsgs on a sound session.
use openport_j.Base.{
  ℕ, ◌-◌, refl, Bool, not, ◌&&◌, ◌||◌, List, [], ◌∷◌, Option, none, some, arith, ltb, leb, ◌==◌,
  if_either,
}
use openport_j.Codes.{OpStatus}
use openport_j.Device.Message.{Message}
use openport_j.Device.State.{Device, max_channels}
use openport_j.Device.Queue.{take_dropped}
use openport_j.Device.World.{Step, pop_now, await}
use openport_j.Device.World.Anchored.{pop_now-Anchors, await-Anchors, put_channel-Anchors}
use openport_j.Device.Exchange.{pop_ready, op_device_pop}
use openport_j.Device.Lifecycle.{op_device_take_dropped}
use openport_j.Api.Simple.{has_channel}
use openport_j.Api.Transfer.{
  Round, time_left, End, read_round, read_loop, Read, read_done, pass_thru_read_msgs, Turn,
  write_loop, pass_thru_write_msgs, running, full, quiet, gone,
}
use openport_j.Api.Transfer.Writes.{write_loop-Anchors}
use openport_j.Api.Invariant.{Sound, Anchors-Sound}

op_device_pop-Sound :
    (d : Device) (i t : ℕ) (wakes : List (List Step)) (last : List Step)
    → Sound d
    → Sound (op_device_pop d i t wakes last).0
unfolding op_device_pop
op_device_pop-Sound d i t wakes last s =
    let waited = await (pop_ready i) d wakes last in
    let s' = Anchors-Sound d waited s (await-Anchors (pop_ready i) d wakes last) in
    ground (
      arith,
      s,
      Anchors-Sound d (pop_now d i).0 s (pop_now-Anchors d i),
      Anchors-Sound waited (pop_now waited i).0 s' (pop_now-Anchors waited i),
    )

read_round-Sound :
    (out : Device × OpStatus × Option Message) (left want : ℕ)
    (more again : Device × List Message × End)
    → Sound out.0
    → Sound more.0
    → Sound again.0
    → Sound (read_round out left want more again).0
unfolding read_round
read_round-Sound (d, st, o) left want more again s h k = ground (arith, s, h, k)

read_loop-Sound :
    (d : Device) (i want t : ℕ) (rounds : List Round)
    → Sound d
    → Sound (read_loop d i want t rounds).0
unfolding read_loop
read_loop-Sound d i want t [] s = s
read_loop-Sound d i want t (r ∷ rs) s =
    let out = op_device_pop d i (time_left t r.elapsed) r.wakes r.last in
    let s' = op_device_pop-Sound d i (time_left t r.elapsed) r.wakes r.last s in
    read_round-Sound out (time_left t r.elapsed) want (read_loop out.0 i (want - 1) t rs)
      (read_loop out.0 i want t rs) s' (read_loop-Sound out.0 i (want - 1) t rs s')
      (read_loop-Sound out.0 i want t rs s')

take_dropped-Sound : (d : Device) (i : ℕ) → Sound d → Sound (op_device_take_dropped d i).1
unfolding op_device_take_dropped take_dropped
take_dropped-Sound d i s = if_either P (not d.is_open || leb max_channels i) _ _ s (
    Anchors-Sound d _ s (
      put_channel-Anchors d i _ (λ b.
        (record { open_eq = refl; protocol_eq = refl; alloc_eq = refl; periodic_eq = refl }, b))))
  where
    P : ℕ × Device → Type 0
    P o = Sound o.1

-- What a read that has returned leaves.
abbrev pub AfterRead : Option Read → Type 0
AfterRead none = Unit
AfterRead (some r) = Sound r.device

read_done-Sound :
    (out : Device × List Message × End) (i want t : ℕ)
    → Sound out.0
    → AfterRead (read_done out i want t)
unfolding read_done
read_done-Sound (d, ms, running) i want t s = tt
read_done-Sound (d, ms, gone) i want t s = s
read_done-Sound (d, ms, full) i want t s = take_dropped-Sound d i s
read_done-Sound (d, ms, quiet) i want t s = take_dropped-Sound d i s

pub read_msgs-Sound :
    (d : Device) (i : ℕ) (has_msgs : Bool) (wanted : Option ℕ) (t : ℕ) (rounds : List Round)
    → Sound d
    → AfterRead (pass_thru_read_msgs d i has_msgs wanted t rounds)
unfolding pass_thru_read_msgs
read_msgs-Sound d i has_msgs none t rounds s = s
read_msgs-Sound d i has_msgs (some want) t rounds s = if_either AfterRead (not d.is_open) _ _ s (
    if_either AfterRead (not has_msgs && ltb 0 want) _ _ s (
      if_either AfterRead (not (has_channel d i)) _ _ s (
        if_either AfterRead (want == 0) _ _ s (
          read_done-Sound (read_loop d i want t rounds) i want t
            (read_loop-Sound d i want t rounds s)))))

pub write_msgs-Sound :
    (d : Device) (i : ℕ) (has_msgs : Bool) (turns : Option (List Turn)) (t : ℕ)
    → Sound d
    → Sound (pass_thru_write_msgs d i has_msgs turns t).0
unfolding pass_thru_write_msgs
write_msgs-Sound d i has_msgs none t s = s
write_msgs-Sound d i has_msgs (some us) t s =
    ground (arith, s, Anchors-Sound d (write_loop d i t us).0 s (write_loop-Anchors d i t us))
