-- ===== src/Device/Exchange/Anchor.antt =====
-- What `cmd_exchange` of src/op_device.c does to the channels and the pins.
use openport_j.Codes.{is_fine}
use openport_j.Base.{refl, Bool, ◌&&◌, Bytes, ◌++◌, if_either}
use openport_j.Device.State.{Device}
use openport_j.Device.World.{steps, await}
use openport_j.Device.World.Anchored.{
  Anchors, Anchors-trans, same-Anchors, steps-Anchors, await-Anchors,
}
use openport_j.Device.Exchange.{Timing, Outcome, claim, answered, collect, transmit, cmd_exchange}
use openport_j.Device.Exchange.Cases.{
  exchange_open_cases, cmd_exchange_cases, numbered_line, counted,
}

collect-Anchors : (d : Device) (bytes : Bytes) → Anchors d (collect d bytes).device
unfolding collect
collect-Anchors d bytes =
    if_either (λ (o : Outcome). Anchors d o.device) d.reply_valid _ _
      (same-Anchors d _ refl refl refl refl) (same-Anchors d _ refl refl refl refl)

transmit-Anchors :
    (d : Device) (line payload : Bytes) (wait : Bool) (t : Timing)
    → Anchors d (transmit d line payload wait t).device
unfolding transmit
transmit-Anchors d line payload wait t =
    let sent = steps d t.during in
    if_either (λ (o : Outcome). Anchors d o.device) (is_fine t.written && wait) _ _
      (Anchors-trans (steps-Anchors d t.during) (
        Anchors-trans (await-Anchors answered sent t.wakes t.last)
          (collect-Anchors (await answered sent t.wakes t.last) (line ++ payload))))
      (Anchors-trans (steps-Anchors d t.during) (same-Anchors sent _ refl refl refl refl))

-- Where every message in reassembly is within its buffer, a command changes no channel's protocol, opens and closes none, touches no periodic message and
-- no pin, and leaves every message in reassembly within its buffer, whatever arrives meanwhile.
pub cmd_exchange-Anchors :
    (d : Device) (line payload : Bytes) (wait : Bool) (t : Timing)
    → Anchors d (cmd_exchange d line payload wait t).device
cmd_exchange-Anchors d line payload wait t =
    let d' = steps d t.before in
    cmd_exchange_cases line payload wait t (λ o. Anchors d o.device) d same (λ _. same)
      (λ _ _ _.
        exchange_open_cases line payload wait t (λ o. Anchors d o.device) d'
          (λ _ _. Anchors-trans (steps-Anchors d t.before) (same-Anchors d' _ refl refl refl refl))
          (λ _ _.
            claimed (claim (counted d') (numbered_line d' line) d'.seq_next wait)
              (numbered_line d' line) (same-Anchors d' _ refl refl refl refl))
          (λ _. claimed (claim d' line 0 wait) line (same-Anchors d' _ refl refl refl refl)))
  where
    same : Anchors d d
    same = same-Anchors d d refl refl refl refl

    claimed :
        (c : Device) (l : Bytes)
        → Anchors (steps d t.before) c
        → Anchors d (transmit c l payload wait t).device
    claimed c l h =
        Anchors-trans (steps-Anchors d t.before)
          (Anchors-trans h (transmit-Anchors c l payload wait t))
