-- ===== src/Api/Channels.antt =====
-- `PassThruConnect` and `PassThruDisconnect`.
pub mod Connects
use openport_j.Base.{
  ℕ, ◌%◌, ◌^◌, Bool, not, ◌&&◌, ◌||◌, [], Option, none, some, ◌==◌, if◌then◌else◌,
}
use openport_j.Codes.{
  status_noerror, err_invalid_device_id, err_null_parameter, err_invalid_protocol_id,
  err_channel_in_use, err_invalid_baudrate, err_failed, err_invalid_channel_id, is_fine,
}
use openport_j.Proto.Decode.{cmd_max}
use openport_j.Proto.Command.{cmd_open, cmd_close}
use openport_j.Device.Protocol.{protocol_channel}
use openport_j.Device.State.{Device}
use openport_j.Device.Slot.{is_empty}
use openport_j.Device.Exchange.{Timing}
use openport_j.Device.Lifecycle.{op_device_open_channel, op_device_close_channel}
use openport_j.Api.Simple.{
  device_id, is_zero, simple_cmd, has_channel, protocol_uses_pin, any_below,
}

-- `partner` is open: K is shared by channels 3 and 4, L by 7 and 8.
unfoldable pub line_taken : Device → ℕ → Bool
line_taken d fw =
    (fw == 3 && (d.ch 4).is_open)
    || (fw == 4 && (d.ch 3).is_open)
    || (fw == 7 && (d.ch 8).is_open)
    || (fw == 8 && (d.ch 7).is_open)

-- A pin that the protocol drives is shorted to ground.
unfoldable pub pin_shorted : Device → ℕ → Bool
pin_shorted d p = any_below 32 (λ pin. d.pins_grounded pin && protocol_uses_pin p pin)

-- The firmware has the channel open: the session opens it too, or has the firmware close it.
unfoldable pub connect_opened : Device → ℕ → ℕ → Bool → Timing → Device × ℕ × Option ℕ
connect_opened d fw p room t =
    let opened = op_device_open_channel d fw (p % 2 ^ 32) room in
    if is_fine opened.1
    then (opened.0, status_noerror, some fw)
    else ((simple_cmd opened.0 (cmd_close cmd_max fw) [] t).device, err_failed, none)

-- The command of a connect whose arguments are accepted.
unfoldable pub connect_send :
    Device → ℕ → ℕ → ℕ → ℕ → Bool → Timing → Timing → Device × ℕ × Option ℕ
connect_send d fw p flags baud room t undo =
    let line = cmd_open cmd_max fw (flags % 2 ^ 32) (baud % 2 ^ 32) in
    let a = simple_cmd d line [] t in
    if is_empty line
    then (d, err_failed, none)
    else if is_zero a.code
    then connect_opened a.device fw p room undo
    else (a.device, a.code, none)

unfoldable pub connect_on : Device → ℕ → ℕ → ℕ → ℕ → Bool → Timing → Timing → Device × ℕ × Option ℕ
connect_on d fw p flags baud room t undo =
    if (d.ch fw).is_open || line_taken d fw
    then (d, err_channel_in_use, none)
    else if baud == 0
    then (d, err_invalid_baudrate, none)
    else if pin_shorted d p
    then (d, err_channel_in_use, none)
    else connect_send d fw p flags baud room t undo

-- `op_protocol_channel` of the protocol, or -1.
unfoldable pub connect_any :
    Device → ℕ → ℕ → ℕ → Bool → Timing → Timing → Option ℕ → Device × ℕ × Option ℕ
connect_any d p flags baud room t undo none = (d, err_invalid_protocol_id, none)
connect_any d p flags baud room t undo (some fw) = connect_on d fw p flags baud room t undo

-- `room` says whether malloc finds memory for a queue, `undo` what happens around the `atc` if it
-- does not.
unfoldable pub pass_thru_connect :
    Device → ℕ → ℕ → ℕ → ℕ → Bool → Bool → Timing → Timing → Device × ℕ × Option ℕ
pass_thru_connect d id p flags baud has_out room t undo =
    if not d.is_open || not (id == device_id)
    then (d, err_invalid_device_id, none)
    else if not has_out
    then (d, err_null_parameter, none)
    else connect_any d p flags baud room t undo (protocol_channel p)

unfoldable pub pass_thru_disconnect : Device → ℕ → Timing → Device × ℕ
pass_thru_disconnect d i t =
    let a = simple_cmd d (cmd_close cmd_max i) [] t in
    if not d.is_open
    then (d, err_invalid_device_id)
    else if not (has_channel d i)
    then (d, err_invalid_channel_id)
    else (op_device_close_channel a.device i, a.code)
