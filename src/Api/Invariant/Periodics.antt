-- ===== src/Api/Invariant/Periodics.antt =====
-- PassThruStartPeriodicMsg and PassThruStopPeriodicMsg on a sound session.
use openport_j.Base.{
  ℕ, ◌-◌, ◌*◌, ◌/◌, ◌%◌, ◌^◌, ◌≤◌, ◌<◌, Bool, not, ◌||◌, List, [], ◌∷◌, Option, none, some, Bytes,
  arith, ltb, leb, ◌==◌, if_either, if_cases, length, length-append, length-take, length-set, set,
  get_or,
}
use openport_j.Codes.{err_invalid_msg_id}
use openport_j.Proto.Decode.{cmd_max}
use openport_j.Proto.Command.{cmd_periodic_start, cmd_periodic_stop}
use openport_j.Device.Slot.{is_empty}
use openport_j.Device.Message.{Message}
use openport_j.Device.State.{Device}
use openport_j.Device.Exchange.{Timing}
use openport_j.Api.Simple.{Answer, simple_cmd, is_zero, has_channel, msg_ok}
use openport_j.Api.Periodic.{
  periodic_per_ch, remove_swap, put_periodic, periodic_stop, find_id, pass_thru_stop_periodic_msg,
  periodic_id, started_with, periodic_started, periodic_send, periodic_checked,
  pass_thru_start_periodic_msg,
}
use openport_j.Api.Invariant.{Sound, put_channel-Sound, open-line_taken}
use openport_j.Api.Invariant.Calls.{simple_cmd-Anchors, simple_cmd-Sound}

pub put_periodic-Sound :
    (d : Device) (i : ℕ) (ids : List ℕ)
    → Sound d
    → length ids ≤ periodic_per_ch
    → Sound (put_periodic d i ids)
put_periodic-Sound d i ids s l = put_channel-Sound d i _ s (s.bounded i) l (λ o. (
  record {
    home = (s.homes i o).home;
    ring = (s.homes i o).ring;
    ungrounded = (s.homes i o).ungrounded;
  },
  open-line_taken d i s o,
))

length-remove_swap : (ids : List ℕ) (slot : ℕ) → length (remove_swap ids slot) ≤ length ids
unfolding remove_swap
length-remove_swap ids slot =
    let n = length ids - 1 in
    omega
      (arith, length-take n (set ids slot (get_or ids n 0)), length-set ids slot (get_or ids n 0))

periodic_stop-Sound :
    (d : Device) (i slot : ℕ) (t : Timing) → Sound d → Sound (periodic_stop d i slot t).0
unfolding periodic_stop
periodic_stop-Sound d i slot t s =
    if_either P (is_zero a.code || a.code == err_invalid_msg_id) _ _
      (put_periodic-Sound a.device i (remove_swap (a.device.ch i).periodic slot) s'
        (omega (arith, length-remove_swap (a.device.ch i).periodic slot, s'.limited i)))
      s'
  where
    P : Device × ℕ → Type 0
    P o = Sound o.0

    line : Bytes
    line = cmd_periodic_stop cmd_max i (get_or (d.ch i).periodic slot 0)

    a : Answer
    a = simple_cmd d line [] t

    s' : Sound a.device
    s' = simple_cmd-Sound d line [] t s

pub stop_periodic_msg-Sound :
    (d : Device) (i id : ℕ) (t : Timing) → Sound d → Sound (pass_thru_stop_periodic_msg d i id t).0
unfolding pass_thru_stop_periodic_msg
stop_periodic_msg-Sound d i id t s = if_either P (not d.is_open) _ _ s (
    if_either P (not (has_channel d i)) _ _ s (
      if_either P (find_id (d.ch i).periodic (id % 2 ^ 32) == length (d.ch i).periodic) _ _ s
        (periodic_stop-Sound d i (find_id (d.ch i).periodic (id % 2 ^ 32)) t s)))
  where
    P : Device × ℕ → Type 0
    P o = Sound o.0

started_with-Sound :
    (d : Device) (i : ℕ) (o : Option ℕ)
    → Sound d
    → length (d.ch i).periodic < periodic_per_ch
    → Sound (started_with d i o).0
unfolding started_with
started_with-Sound d i none s l = s
started_with-Sound d i (some id) s l =
    put_periodic-Sound d i _ s (omega (arith, length-append (d.ch i).periodic (id ∷ [])))

periodic_send-Sound :
    (d : Device) (i : ℕ) (m : Message) (interval : ℕ) (t : Timing)
    → Sound d
    → length (d.ch i).periodic < periodic_per_ch
    → Sound (periodic_send d i m interval t).0
unfolding periodic_send periodic_started
periodic_send-Sound d i m interval t s l =
    let s' = simple_cmd-Sound d line m.body t s in
    if_either P (is_empty line) _ _ s (
      if_either P (not (is_zero a.code)) _ _ s' (
        started_with-Sound a.device i (periodic_id a.reply) s'
          (rw (((simple_cmd-Anchors d line m.body t) s.bounded).0.channels i).periodic_eq l)))
  where
    P : Device × ℕ × Option ℕ → Type 0
    P o = Sound o.0

    line : Bytes
    line =
        cmd_periodic_start cmd_max i (interval * 1000 % 2 ^ 32) (m.tx_flags % 2 ^ 32)
          (length m.body)

    a : Answer
    a = simple_cmd d line m.body t

periodic_checked-Sound :
    (d : Device) (i : ℕ) (m : Message) (interval : ℕ) (t : Timing)
    → Sound d
    → Sound (periodic_checked d i m interval t).0
unfolding periodic_checked
periodic_checked-Sound d i m interval t s =
    if_either P (interval == 0 || ltb (0xFFFFFFFF / 1000) interval) _ _ s (
      if_either P (not (is_zero (msg_ok (d.ch i).protocol m))) _ _ s (
        if_cases P (leb periodic_per_ch (length (d.ch i).periodic)) _ _ (λ _. s)
          (λ room. periodic_send-Sound d i m interval t s (ground arith))))
  where
    P : Device × ℕ × Option ℕ → Type 0
    P o = Sound o.0

pub start_periodic_msg-Sound :
    (d : Device) (i : ℕ) (m : Option Message) (has_id : Bool) (interval : ℕ) (t : Timing)
    → Sound d
    → Sound (pass_thru_start_periodic_msg d i m has_id interval t).0
unfolding pass_thru_start_periodic_msg
start_periodic_msg-Sound d i none has_id interval t s = s
start_periodic_msg-Sound d i (some m) has_id interval t s = if_either P (not d.is_open) _ _ s (
    if_either P (not has_id) _ _ s
      (if_either P (not (has_channel d i)) _ _ s (periodic_checked-Sound d i m interval t s)))
  where
    P : Device × ℕ × Option ℕ → Type 0
    P o = Sound o.0
