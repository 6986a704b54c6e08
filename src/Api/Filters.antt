-- ===== src/Api/Filters.antt =====
-- `PassThruStartMsgFilter` and `PassThruStopMsgFilter`.
use openport_j.Base.{
  ℕ, ◌%◌, ◌^◌, Bool, not, ◌||◌, [], ◌++◌, Option, none, some, Bytes, ltb, ◌==◌, if◌then◌else◌,
  length,
}
use openport_j.Codes.{
  status_noerror, err_invalid_device_id, err_invalid_channel_id, err_null_parameter,
  err_invalid_msg, err_msg_protocol_id, err_failed,
}
use openport_j.Proto.Reply.{ReplyKind, Reply}
use openport_j.Proto.Decode.{cmd_max}
use openport_j.Proto.Command.{cmd_filter, cmd_stop_filter, filter_msg_count}
use openport_j.Device.Protocol.{protocol_base}
use openport_j.Device.Message.{Message}
use openport_j.Device.State.{Device}
use openport_j.Device.Slot.{is_empty}
use openport_j.Device.Exchange.{Timing}
use openport_j.Api.Simple.{is_zero, simple_cmd, Answer, has_channel}

-- The id of an `arf` reply.
abbrev pub filter_id : Option Reply → Option ℕ
filter_id none = none
filter_id (some r) = elim r.kind [ ReplyKind.filter ↦ some r.a | _ ↦ none ]

unfoldable pub filter_set : Answer → Device × ℕ × Option ℕ
filter_set a = if not (is_zero a.code) then (a.device, a.code, none) else elim (filter_id a.reply) [
  | none ↦ (a.device, err_failed, none)
  | some id ↦ (a.device, status_noerror, some id)
]

-- The command: the appended messages and the flags of the one that is transmitted.
unfoldable pub filter_send : Device → ℕ → ℕ → Bytes → ℕ → ℕ → Timing → Device × ℕ × Option ℕ
filter_send d i filter_type payload flags each t =
    let line = cmd_filter cmd_max i (filter_type % 2 ^ 32) (flags % 2 ^ 32) each in
    if is_empty line then (d, err_failed, none) else filter_set (simple_cmd d line payload t)

-- Mask and pattern of one length from 1 to 255, and a flow-control message of the same length
-- and of the channel's protocol where there is one.
unfoldable pub filter_checked :
    Device → ℕ → ℕ → Message → Message → Option Message → Timing → Device × ℕ × Option ℕ
filter_checked d i filter_type mask pattern none t =
    if length mask.body == 0 || ltb 255 (length mask.body)
    then (d, err_invalid_msg, none)
    else if not (length pattern.body == length mask.body)
    then (d, err_invalid_msg, none)
    else filter_send d i filter_type (mask.body ++ pattern.body) mask.tx_flags (length mask.body) t
filter_checked d i filter_type mask pattern (some flow) t =
    if length mask.body == 0 || ltb 255 (length mask.body)
    then (d, err_invalid_msg, none)
    else if not (protocol_base flow.protocol_id == protocol_base (d.ch i).protocol)
    then (d, err_msg_protocol_id, none)
    else if not (length pattern.body == length mask.body)
        || not (length flow.body == length mask.body)
    then (d, err_invalid_msg, none)
    else filter_send d i filter_type (mask.body ++ (pattern.body ++ flow.body)) flow.tx_flags
        (length mask.body) t

-- The messages that a filter of the type needs; a flow-control message of another filter is
-- ignored.
unfoldable pub filter_messages :
    Device
    → ℕ
    → ℕ
    → Option Message
    → Option Message
    → Option Message
    → Timing
    → Device × ℕ × Option ℕ
filter_messages d i filter_type (some mask) (some pattern) flow t =
    if filter_msg_count (filter_type % 2 ^ 32) == 3
    then elim flow [
      | none ↦ (d, err_null_parameter, none)
      | some f ↦ filter_checked d i filter_type mask pattern (some f) t
    ]
    else filter_checked d i filter_type mask pattern none t
filter_messages d i filter_type mask pattern flow t = (d, err_null_parameter, none)

unfoldable pub pass_thru_start_msg_filter :
    Device
    → ℕ
    → ℕ
    → Option Message
    → Option Message
    → Option Message
    → Bool
    → Timing
    → Device × ℕ × Option ℕ
pass_thru_start_msg_filter d i filter_type mask pattern flow has_out t =
    if not d.is_open
    then (d, err_invalid_device_id, none)
    else if not (has_channel d i)
    then (d, err_invalid_channel_id, none)
    else if not has_out
    then (d, err_null_parameter, none)
    else if filter_msg_count (filter_type % 2 ^ 32) == 0
    then (d, err_invalid_msg, none)
    else filter_messages d i filter_type mask pattern flow t

unfoldable pub pass_thru_stop_msg_filter : Device → ℕ → ℕ → Timing → Device × ℕ
pass_thru_stop_msg_filter d i id t =
    let a = simple_cmd d (cmd_stop_filter cmd_max i (id % 2 ^ 32)) [] t in
    if not d.is_open
    then (d, err_invalid_device_id)
    else if not (has_channel d i)
    then (d, err_invalid_channel_id)
    else (a.device, a.code)
