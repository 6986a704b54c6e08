-- ===== src/Api/Transfer.antt =====
-- `PassThruReadMsgs`, `write_one` and `PassThruWriteMsgs`.
pub mod Reads
pub mod Writes
use openport_j.Base.{
  ℕ, zero, suc, ◌+◌, ◌-◌, ◌*◌, ◌%◌, ◌^◌, min, Bool, true, false, not, ◌&&◌, ◌||◌, List, [], ◌∷◌,
  Option, none, some, ltb, leb, ◌==◌, if◌then◌else◌, length,
}
use openport_j.Codes.{
  OpStatus, fine, timeout, status_noerror, err_invalid_device_id, err_null_parameter,
  err_invalid_channel_id, err_buffer_overflow, err_buffer_empty, err_timeout,
  err_device_not_connected, err_invalid_msg, can,
}
use openport_j.Proto.Decode.{cmd_max}
use openport_j.Proto.Command.{cmd_transmit}
use openport_j.Device.Protocol.{protocol_base, status_to_j2534}
use openport_j.Device.Message.{Message}
use openport_j.Device.State.{Device}
use openport_j.Device.Slot.{is_empty}
use openport_j.Device.World.{Step}
use openport_j.Device.Exchange.{Timing, Outcome, op_device_pop, op_device_send_nowait}
use openport_j.Device.Lifecycle.{op_device_take_dropped}
use openport_j.Api.Simple.{is_zero, simple_cmd, Answer, has_channel, msg_ok}

-- One round of the loop: the milliseconds since the call began, and what happens in the wait.
pub record Round : Type 0 where
  pub elapsed : ℕ
  pub wakes : List (List Step)
  pub last : List Step

-- The wait that is left, as an `unsigned`.
unfoldable pub time_left : ℕ → ℕ → ℕ
time_left timeout_ms elapsed =
    if ltb elapsed timeout_ms then min (timeout_ms - elapsed) 0xFFFFFFFF else 0

-- How the loop ends: with all messages, at the deadline, or with the session gone. `running` says
-- that the rounds given are over before the loop is.
pub data End : Type 0 where
  running : End
  full : End
  quiet : End
  gone : End

-- One round's result; `more` is what follows a message, `again` what follows a wait in vain.
unfoldable pub read_round :
    Device × OpStatus × Option Message
    → ℕ
    → ℕ
    → Device × List Message × End
    → Device × List Message × End
    → Device × List Message × End
read_round (d, fine, some m) left want more again =
    if leb want 1 then (d, m ∷ [], full) else (more.0, m ∷ more.1, more.2)
read_round (d, timeout, o) left want more again = if left == 0 then (d, [], quiet) else again
read_round (d, st, o) left want more again = (d, [], gone)

-- `want` messages are still to be read.
unfoldable pub read_loop : Device → ℕ → ℕ → ℕ → List Round → Device × List Message × End
read_loop d i want timeout_ms [] = (d, [], running)
read_loop d i want timeout_ms (r ∷ rs) =
    let left = time_left timeout_ms r.elapsed in
    let out = op_device_pop d i left r.wakes r.last in
    read_round out left want (read_loop out.0 i (want - 1) timeout_ms rs)
      (read_loop out.0 i want timeout_ms rs)

-- The state, the code and the messages delivered, whose number goes to `*pNumMsgs`.
pub record Read : Type 0 where
  pub device : Device
  pub code : ℕ
  pub messages : List Message

abbrev pub no_read : Device → ℕ → Read
no_read d code = record { device = d; code = code; messages = [] }

-- The code of a read that was not cut off: a loss first.
unfoldable pub read_code : ℕ → ℕ → ℕ → ℕ → ℕ
read_code lost got want timeout_ms =
    if ltb 0 lost
    then err_buffer_overflow
    else if got == 0
    then err_buffer_empty
    else if not (timeout_ms == 0) && ltb got want
    then err_timeout
    else status_noerror

unfoldable pub read_done : Device × List Message × End → ℕ → ℕ → ℕ → Option Read
read_done (d, ms, running) i want timeout_ms = none
read_done (d, ms, gone) i want timeout_ms = some (record {
  device = d;
  code = if d.is_open then err_device_not_connected else err_invalid_device_id;
  messages = ms;
})
read_done (d, ms, _) i want timeout_ms = some (record {
  device = (op_device_take_dropped d i).1;
  code = read_code (op_device_take_dropped d i).0 (length ms) want timeout_ms;
  messages = ms;
})

-- `wanted` is `*pNumMsgs`, `none` for a NULL pointer. No result stands for a call that still runs.
unfoldable pub pass_thru_read_msgs : Device → ℕ → Bool → Option ℕ → ℕ → List Round → Option Read
pass_thru_read_msgs d i has_msgs none timeout_ms rounds =
    some (no_read d (if not d.is_open then err_invalid_device_id else err_null_parameter))
pass_thru_read_msgs d i has_msgs (some want) timeout_ms rounds =
    if not d.is_open
    then some (no_read d err_invalid_device_id)
    else if not has_msgs && ltb 0 want
    then some (no_read d err_null_parameter)
    else if not (has_channel d i)
    then some (no_read d err_invalid_channel_id)
    else if want == 0
    then some (no_read d status_noerror)
    else read_done (read_loop d i want timeout_ms rounds) i want timeout_ms

-- The transmit budget in microseconds.
unfoldable pub budget : ℕ → ℕ → ℕ → ℕ
budget channel_protocol i timeout_ms =
    if not (timeout_ms == 0)
    then if ltb 4294967 timeout_ms then 4294967295 else timeout_ms * 1000
    else if protocol_base channel_protocol == can
    then 50000
    else if i == 9
    then 0
    else 1000000

unfoldable pub write_one : Device → ℕ → Message → ℕ → Timing → Device × ℕ
write_one d i m timeout_ms t =
    let p = (d.ch i).protocol in
    let line =
      cmd_transmit cmd_max i (length m.body) (m.tx_flags % 2 ^ 32) (budget p i timeout_ms) in
    let sent = op_device_send_nowait d line m.body t in
    let a = simple_cmd d line m.body t in
    if not (is_zero (msg_ok p m))
    then (d, msg_ok p m)
    else if is_empty line
    then (d, err_invalid_msg)
    else if timeout_ms == 0
    then (sent.device, status_to_j2534 sent.status)
    else (a.device, a.code)

-- A message of the caller's, the milliseconds since the call began, and what happens around it.
pub record Turn : Type 0 where
  pub message : Message
  pub elapsed : ℕ
  pub timing : Timing

-- `remaining <= 0`, where a Timeout of 2^63 and more is negative as a `long`.
unfoldable pub out_of_time : ℕ → ℕ → Bool
out_of_time timeout_ms elapsed =
    not (timeout_ms == 0) && (leb (2 ^ 63) timeout_ms || leb timeout_ms elapsed)

-- The `unsigned` handed to `write_one`.
unfoldable pub turn_timeout : ℕ → ℕ → ℕ
turn_timeout timeout_ms elapsed = if timeout_ms == 0 then 0 else (timeout_ms - elapsed) % 2 ^ 32

-- The state, the code and how many messages were sent.
unfoldable pub write_loop : Device → ℕ → ℕ → List Turn → Device × ℕ × ℕ
write_loop d i timeout_ms [] = (d, status_noerror, 0)
write_loop d i timeout_ms (u ∷ us) =
    let one = write_one d i u.message (turn_timeout timeout_ms u.elapsed) u.timing in
    let rest = write_loop one.0 i timeout_ms us in
    if out_of_time timeout_ms u.elapsed
    then (d, err_timeout, 0)
    else if is_zero one.1
    then (rest.0, rest.1, suc rest.2)
    else (one.0, one.1, 0)

-- `turns` has the caller's `*pNumMsgs` messages, `none` for a NULL `pNumMsgs`; `has_msgs` says
-- whether `pMsg` is given.
unfoldable pub pass_thru_write_msgs : Device → ℕ → Bool → Option (List Turn) → ℕ → Device × ℕ × ℕ
pass_thru_write_msgs d i has_msgs none timeout_ms =
    (d, (if not d.is_open then err_invalid_device_id else err_null_parameter), 0)
pass_thru_write_msgs d i has_msgs (some turns) timeout_ms =
    if not d.is_open
    then (d, err_invalid_device_id, 0)
    else if not has_msgs && ltb 0 (length turns)
    then (d, err_null_parameter, 0)
    else if not (has_channel d i)
    then (d, err_invalid_channel_id, 0)
    else write_loop d i timeout_ms turns
