-- ===== src/Api/Transfer/Writes.antt =====
-- `PassThruWriteMsgs`: how many messages it sends.
use openport_j.Base.{ℕ, suc, refl, false, not, List, [], ◌∷◌, ◌==◌, if_either}
use openport_j.Device.Message.{Message}
use openport_j.Device.State.{Device}
use openport_j.Device.World.Anchored.{Anchors, Anchors-trans, same-Anchors}
use openport_j.Device.Exchange.{Timing}
use openport_j.Device.Exchange.Anchor.{cmd_exchange-Anchors}
use openport_j.Api.Simple.{is_zero, msg_ok}
use openport_j.Api.Invariant.Calls.{simple_cmd-Anchors}
use openport_j.Api.Transfer.{Turn, write_one, out_of_time, turn_timeout, write_loop}

write_one-Anchors :
    (d : Device) (i : ℕ) (m : Message) (timeout_ms : ℕ) (t : Timing)
    → Anchors d (write_one d i m timeout_ms t).0
unfolding write_one
write_one-Anchors d i m timeout_ms t =
    if_either P (not (is_zero (msg_ok (d.ch i).protocol m))) _ _ same (
      if_either P _ (d, _) _ same
        (if_either P (timeout_ms == 0) _ _ (cmd_exchange-Anchors d _ m.body false t)
          (simple_cmd-Anchors d _ m.body t)))
  where
    P : Device × ℕ → Type 0
    P o = Anchors d o.0

    same : Anchors d d
    same = same-Anchors d d refl refl refl refl

pub write_loop-Anchors :
    (d : Device) (i timeout_ms : ℕ) (us : List Turn) → Anchors d (write_loop d i timeout_ms us).0
unfolding write_loop
write_loop-Anchors d i timeout_ms [] = same-Anchors d d refl refl refl refl
write_loop-Anchors d i timeout_ms (u ∷ us) =
    let one = write_one d i u.message (turn_timeout timeout_ms u.elapsed) u.timing in
    let h = write_one-Anchors d i u.message (turn_timeout timeout_ms u.elapsed) u.timing in
    if_either P (out_of_time timeout_ms u.elapsed) _ _ (same-Anchors d d refl refl refl refl) (
      if_either P (is_zero one.1)
        ((
          (write_loop one.0 i timeout_ms us).0,
          (write_loop one.0 i timeout_ms us).1,
          suc (write_loop one.0 i timeout_ms us).2,
        ))
        _ (Anchors-trans h (write_loop-Anchors one.0 i timeout_ms us)) h)
  where
    P : Device × ℕ × ℕ → Type 0
    P o = Anchors d o.0
