-- ===== src/Api/Periodic.antt =====
-- `periodic_stop`, `PassThruStartPeriodicMsg` and `PassThruStopPeriodicMsg`.
use openport_j.Base.{
  ℕ, suc, ◌-◌, ◌*◌, ◌/◌, ◌%◌, ◌^◌, Bool, not, ◌||◌, List, [], ◌∷◌, ◌++◌, Option, none, some, ltb,
  leb, ◌==◌, if◌then◌else◌, length, get_or, set, take,
}
use openport_j.Codes.{
  status_noerror, err_invalid_device_id, err_null_parameter, err_invalid_channel_id,
  err_invalid_time_interval, err_exceeded_limit, err_invalid_msg, err_failed, err_invalid_msg_id,
}
use openport_j.Proto.Reply.{ReplyKind, Reply}
use openport_j.Proto.Decode.{cmd_max}
use openport_j.Proto.Command.{cmd_periodic_start, cmd_periodic_stop}
use openport_j.Device.Message.{Message}
use openport_j.Device.State.{Device, put_channel}
use openport_j.Device.Slot.{is_empty}
use openport_j.Device.Exchange.{Timing}
use openport_j.Api.Simple.{is_zero, simple_cmd, Answer, has_channel, msg_ok}

-- OP_PERIODIC_PER_CH
abbrev pub periodic_per_ch : ℕ
periodic_per_ch = 10

-- `c->periodic[slot] = c->periodic[--c->nperiodic]`
unfoldable pub remove_swap : List ℕ → ℕ → List ℕ
remove_swap ids slot = let n = length ids - 1 in take n (set ids slot (get_or ids n 0))

abbrev pub put_periodic : Device → ℕ → List ℕ → Device
put_periodic d i ids = put_channel d i (record (d.ch i) { periodic = ids })

unfoldable pub periodic_stop : Device → ℕ → ℕ → Timing → Device × ℕ
periodic_stop d i slot t =
    let a = simple_cmd d (cmd_periodic_stop cmd_max i (get_or (d.ch i).periodic slot 0)) [] t in
    if is_zero a.code || a.code == err_invalid_msg_id
    then (put_periodic a.device i (remove_swap (a.device.ch i).periodic slot), a.code)
    else (a.device, a.code)

-- The search for an id: its index, or the length of the list.
unfoldable pub find_id : List ℕ → ℕ → ℕ
find_id [] id = 0
find_id (x ∷ xs) id = if x == id then 0 else suc (find_id xs id)

unfoldable pub pass_thru_stop_periodic_msg : Device → ℕ → ℕ → Timing → Device × ℕ
pass_thru_stop_periodic_msg d i id t =
    let slot = find_id (d.ch i).periodic (id % 2 ^ 32) in
    if not d.is_open
    then (d, err_invalid_device_id)
    else if not (has_channel d i)
    then (d, err_invalid_channel_id)
    else if slot == length (d.ch i).periodic
    then (d, err_invalid_msg_id)
    else periodic_stop d i slot t

-- The id of an `arm` reply.
abbrev pub periodic_id : Option Reply → Option ℕ
periodic_id none = none
periodic_id (some r) = elim r.kind [ ReplyKind.periodic ↦ some r.a | _ ↦ none ]

unfoldable pub started_with : Device → ℕ → Option ℕ → Device × ℕ × Option ℕ
started_with d i none = (d, err_failed, none)
started_with d i (some id) =
    (put_periodic d i ((d.ch i).periodic ++ (id ∷ [])), status_noerror, some id)

-- The cable's answer to `atm`.
unfoldable pub periodic_started : Answer → ℕ → Device × ℕ × Option ℕ
periodic_started a i =
    if not (is_zero a.code)
    then (a.device, a.code, none)
    else started_with a.device i (periodic_id a.reply)

-- A start whose arguments are accepted; `interval` milliseconds go out as microseconds.
unfoldable pub periodic_send : Device → ℕ → Message → ℕ → Timing → Device × ℕ × Option ℕ
periodic_send d i m interval t =
    let line =
      cmd_periodic_start cmd_max i (interval * 1000 % 2 ^ 32) (m.tx_flags % 2 ^ 32)
        (length m.body) in
    if is_empty line
    then (d, err_invalid_msg, none)
    else periodic_started (simple_cmd d line m.body t) i

unfoldable pub periodic_checked : Device → ℕ → Message → ℕ → Timing → Device × ℕ × Option ℕ
periodic_checked d i m interval t =
    if interval == 0 || ltb (0xFFFFFFFF / 1000) interval
    then (d, err_invalid_time_interval, none)
    else if not (is_zero (msg_ok (d.ch i).protocol m))
    then (d, msg_ok (d.ch i).protocol m, none)
    else if leb periodic_per_ch (length (d.ch i).periodic)
    then (d, err_exceeded_limit, none)
    else periodic_send d i m interval t

unfoldable pub pass_thru_start_periodic_msg :
    Device → ℕ → Option Message → Bool → ℕ → Timing → Device × ℕ × Option ℕ
pass_thru_start_periodic_msg d i none has_id interval t =
    (d, (if not d.is_open then err_invalid_device_id else err_null_parameter), none)
pass_thru_start_periodic_msg d i (some m) has_id interval t =
    if not d.is_open
    then (d, err_invalid_device_id, none)
    else if not has_id
    then (d, err_null_parameter, none)
    else if not (has_channel d i)
    then (d, err_invalid_channel_id, none)
    else periodic_checked d i m interval t
