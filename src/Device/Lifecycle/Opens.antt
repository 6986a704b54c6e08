-- ===== src/Device/Lifecycle/Opens.antt =====
-- The state that opening and closing a session lead to.
use openport_j.Base.{
  ℕ, ◌≡◌, ◌≢◌, ◌⊎◌, inl, inr, refl, ◌∙◌, true, false, not, List, [], ◌∷◌, arith, if_either,
  if_cases,
}
use openport_j.Codes.{OpStatus, fine, io, is_fine}
use openport_j.Proto.Decode.{cmd_max}
use openport_j.Proto.Command.{cmd_reset}
use openport_j.Device.State.{Device}
use openport_j.Device.Queue.{Channel}
use openport_j.Device.World.{Step, steps}
use openport_j.Device.World.Steady.{steps-Follows}
use openport_j.Device.World.Anchored.{
  AllBounded, Anchors, Anchors-trans, same-Anchors, steps-Anchors,
}
use openport_j.Device.Exchange.{Timing, op_device_cmd}
use openport_j.Device.Exchange.Anchor.{cmd_exchange-Anchors}
use openport_j.Device.Lifecycle.{
  reset_session, Opening, reset_attempts, close_all, sync_device, op_device_close, open_with,
  op_device_open,
}

reset_attempts-Anchors : (d : Device) (ts : List Timing) → Anchors d (reset_attempts d ts).0
unfolding reset_attempts
reset_attempts-Anchors d [] = same-Anchors d d refl refl refl refl
reset_attempts-Anchors d (t ∷ ts) =
    let h = cmd_exchange-Anchors d (cmd_reset cmd_max) [] true t in
    if_either (λ (o : Device × OpStatus). Anchors d o.0) _ _ _
      (Anchors-trans h
        (reset_attempts-Anchors (op_device_cmd d (cmd_reset cmd_max) [] t).device ts))
      h

close_all-Anchors : (d : Device) (t : Timing) → Anchors d (close_all d t).0
unfolding close_all
close_all-Anchors d t = cmd_exchange-Anchors d _ [] true t

sync_device-Anchors : (d : Device) (e : Opening) → Anchors d (sync_device d e).0
unfolding sync_device
sync_device-Anchors d e =
    let w = steps-Anchors d e.woken in
    let r =
      Anchors-trans w
        (reset_attempts-Anchors (steps d e.woken) (e.first ∷ e.second ∷ e.third ∷ [])) in
    if_either (λ (o : Device × OpStatus). Anchors d o.0) _ _ _ w
      (if_either (λ (o : Device × OpStatus). Anchors d o.0) _ _ _
        (Anchors-trans r (close_all-Anchors _ e.closing)) r)

pub op_device_close-Anchors : (d : Device) (ss : List Step) → Anchors d (op_device_close d ss)
unfolding op_device_close
op_device_close-Anchors d ss =
    let d' = record d { is_open = false } in
    if_either (Anchors d) _ _ _
      (Anchors-trans (same-Anchors d d' refl refl refl refl) (steps-Anchors d' ss))
      (same-Anchors d d refl refl refl refl)

open_with-Anchors : (d : Device) (e : Opening) → Anchors d (open_with d e).0
unfolding open_with
open_with-Anchors d e =
    let d' = record d { is_open = true } in
    let synced = Anchors-trans (same-Anchors d d' refl refl refl refl) (sync_device-Anchors d' e) in
    if_either P (not (is_fine e.factory)) (d, e.factory) _ same
      (if_either P (not e.thread_starts) (d, io) _ same
        (if_either P (is_fine (sync_device d' e).1) ((sync_device d' e).0, fine)
          (op_device_close (sync_device d' e).0 e.stopping, (sync_device d' e).1) synced
          (Anchors-trans synced (op_device_close-Anchors (sync_device d' e).0 e.stopping))))
  where
    P : Device × OpStatus → Type 0
    P o = Anchors d o.0

    same : Anchors d d
    same = same-Anchors d d refl refl refl refl

-- A channel at the start of a session.
pub record IsIdle (c : Channel) : Type 0 where
  pub closed : c.is_open ≡ false
  pub no_periodic : c.periodic ≡ []

pub record IsReset (d : Device) : Type 0 where
  pub idle : (i : ℕ) → IsIdle (d.ch i)
  pub no_ground : (p : ℕ) → d.pins_grounded p ≡ false
  pub no_power : (p : ℕ) → d.pins_powered p ≡ false
  pub bounded : AllBounded d

reset_session-IsReset : (d : Device) (clock : ℕ) → IsReset (reset_session d clock)
unfolding reset_session
reset_session-IsReset d clock = record {
  idle = λ i. record { closed = refl; no_periodic = refl };
  no_ground = λ p. refl;
  no_power = λ p. refl;
  bounded = λ i. omega arith;
}

Anchors-IsReset : {d d' : Device} → IsReset d → Anchors d d' → IsReset d'
Anchors-IsReset {d} {d'} r h =
    let (a, b) = h r.bounded in
    record {
      idle = λ i. record {
        closed = (a.channels i).open_eq ∙ (r.idle i).closed;
        no_periodic = (a.channels i).periodic_eq ∙ (r.idle i).no_periodic;
      };
      no_ground = λ p. rw a.grounded_eq (r.no_ground p);
      no_power = λ p. rw a.powered_eq (r.no_power p);
      bounded = b;
    }

pub op_device_open-IsReset :
    (d : Device) (e : Opening) → d.is_open ≡ false → IsReset (op_device_open d e).0
unfolding op_device_open
op_device_open-IsReset d e h =
    if_cases (λ (o : Device × OpStatus). IsReset o.0) d.is_open (d, fine)
      (open_with (reset_session d e.clock) e) (λ on. absurd (ground arith))
      (λ _.
        Anchors-IsReset (reset_session-IsReset d e.clock)
          (open_with-Anchors (reset_session d e.clock) e))

pub op_device_close-closed : (d : Device) (ss : List Step) → (op_device_close d ss).is_open ≡ false
unfolding op_device_close
op_device_close-closed d ss =
    if_cases (λ (x : Device). x.is_open ≡ false) d.is_open (steps (record d { is_open = false }) ss)
      d (λ _. (steps-Follows (record d { is_open = false }) ss).0.stays_closed refl) (λ off. off)

-- How opening can end.
abbrev pub Settles : Device × OpStatus → Type 0
Settles o = (o.1 ≡ fine) ⊎ ((o.1 ≢ fine) × (o.0.is_open ≡ false))

not_fine : (st : OpStatus) → is_fine st ≡ false → st ≢ fine
not_fine st h e = ground arith

open_with-Settles : (d : Device) (e : Opening) → d.is_open ≡ false → Settles (open_with d e)
unfolding open_with
open_with-Settles d e h =
    if_cases Settles (not (is_fine e.factory)) (d, e.factory) _
      (λ bad. inr (not_fine e.factory (ground arith), h))
      (λ _.
        if_cases Settles (not e.thread_starts) (d, io) _ (λ _. inr ((λ q. cc), h))
          (λ _.
            if_cases Settles (is_fine (sync_device d' e).1) ((sync_device d' e).0, fine)
              (op_device_close (sync_device d' e).0 e.stopping, (sync_device d' e).1)
              (λ _. inl refl)
              (λ bad. inr (
                not_fine (sync_device d' e).1 bad,
                op_device_close-closed (sync_device d' e).0 e.stopping,
              ))))
  where
    d' : Device
    d' = record d { is_open = true }

-- A session that does not open is closed again: when `op_device_open` returns anything but OP_OK
-- on a closed session, whatever failed and whatever the reader still took in, the session is
-- closed.
pub op_device_open-Settles :
    (d : Device) (e : Opening) → d.is_open ≡ false → Settles (op_device_open d e)
unfolding op_device_open reset_session
op_device_open-Settles d e h =
    if_cases Settles d.is_open (d, fine) (open_with (reset_session d e.clock) e) (λ _. inl refl)
      (λ off. open_with-Settles (reset_session d e.clock) e off)
