-- ===== src/Api/Invariant/Stops.antt =====
-- What PassThruStopPeriodicMsg does to the table of periodic messages.
use openport_j.Base.{
  ℕ, ◌+◌, ◌%◌, ◌^◌, ◌<◌, ◌≤◌, ◌⊎◌, ◌≡◌, refl, sym, true, not, ◌||◌, List, [], arith, ◌==◌, if_cases,
  inl, inr, length, get_or,
}
use openport_j.Codes.{status_noerror, err_invalid_msg_id}
use openport_j.Proto.Decode.{cmd_max}
use openport_j.Proto.Command.{cmd_periodic_stop}
use openport_j.Device.State.{Device}
use openport_j.Device.Exchange.{Timing}
use openport_j.Api.Simple.{Answer, simple_cmd, is_zero, has_channel}
use openport_j.Api.Periodic.{
  remove_swap, put_periodic, periodic_stop, find_id, pass_thru_stop_periodic_msg,
}
use openport_j.Api.Invariant.{Sound}
use openport_j.Api.Invariant.Calls.{simple_cmd-Anchors}
use openport_j.Api.Invariant.Removal.{count, one_if, count-remove_swap, find_id_lem}

-- How a stop of the message `id` of channel `i` of an open session ends.
abbrev pub IsStopped : Device → ℕ → ℕ → Device × ℕ → Type 0
IsStopped d i id o =
    ((count id (d.ch i).periodic ≡ 0) × (o ≡ (d, err_invalid_msg_id)))
    ⊎ (((o.1 ≡ status_noerror) ⊎ (o.1 ≡ err_invalid_msg_id))
        × ((x : ℕ) → count x (o.0.ch i).periodic + one_if x id ≡ count x (d.ch i).periodic))
    ⊎ (¬ (o.1 ≡ status_noerror)
        × ¬ (o.1 ≡ err_invalid_msg_id)
        × ((o.0.ch i).periodic ≡ (d.ch i).periodic))

put_periodic-same :
    (d : Device) (i : ℕ) (ids : List ℕ) → ((put_periodic d i ids).ch i).periodic ≡ ids
put_periodic-same d i ids = ground arith

periodic_stop-IsStopped :
    (d : Device) (i id slot : ℕ) (t : Timing)
    → Sound d
    → slot < length (d.ch i).periodic
    → get_or (d.ch i).periodic slot 0 ≡ id
    → IsStopped d i id (periodic_stop d i slot t)
unfolding periodic_stop
periodic_stop-IsStopped d i id slot t s l e =
    if_cases (IsStopped d i id) (is_zero a.code || a.code == err_invalid_msg_id) _ _
      (λ gone. inr (inl (ground arith, removed)))
      (λ kept. inr (inr (ground arith, ground arith, same)))
  where
    a : Answer
    a = simple_cmd d (cmd_periodic_stop cmd_max i (get_or (d.ch i).periodic slot 0)) [] t

    same : (a.device.ch i).periodic ≡ (d.ch i).periodic
    same = (((simple_cmd-Anchors d _ [] t) s.bounded).0.channels i).periodic_eq

    ids : List ℕ
    ids = remove_swap (a.device.ch i).periodic slot

    removed :
        (x : ℕ)
        → count x ((put_periodic a.device i ids).ch i).periodic + one_if x id
          ≡ count x (d.ch i).periodic
    removed x =
        rw (put_periodic-same a.device i ids, same, sym e)
          ((count-remove_swap x (d.ch i).periodic slot l).0)

-- `PassThruStopPeriodicMsg` on an open channel of a sound session. An id that is not in the
-- channel's table is refused with nothing sent. Otherwise, where the cable stops the message or
-- does not know it (the two codes say which), the id leaves the table, once, and every other stays;
-- where the command fails in any other way, the table keeps it.
pub stop_periodic_msg-IsStopped :
    (d : Device) (i id : ℕ) (t : Timing)
    → Sound d
    → d.is_open ≡ true
    → has_channel d i ≡ true
    → IsStopped d i (id % 2 ^ 32) (pass_thru_stop_periodic_msg d i id t)
unfolding pass_thru_stop_periodic_msg
stop_periodic_msg-IsStopped d i id t s o h =
    if_cases P (not d.is_open) _ _ (λ shut. absurd (ground arith))
      (λ _.
        if_cases P (not (has_channel d i)) _ _ (λ off. absurd (ground arith))
          (λ _.
            if_cases P (slot == length (d.ch i).periodic) _ _
              (λ end. inl (found.2 (ground arith), refl))
              (λ there.
                let l : slot < length (d.ch i).periodic = ground (arith, found.0) in
                periodic_stop-IsStopped d i _ slot t s l (found.1 l))))
  where
    P : Device × ℕ → Type 0
    P = IsStopped d i (id % 2 ^ 32)

    slot : ℕ
    slot = find_id (d.ch i).periodic (id % 2 ^ 32)

    found :
        (slot ≤ length (d.ch i).periodic)
        × (slot < length (d.ch i).periodic → get_or (d.ch i).periodic slot 0 ≡ id % 2 ^ 32)
        × (slot ≡ length (d.ch i).periodic → count (id % 2 ^ 32) (d.ch i).periodic ≡ 0)
    found = find_id_lem (d.ch i).periodic (id % 2 ^ 32)
