-- ===== src/Api/Ioctl.antt =====
-- `PassThruIoctl`: configuration lists, voltages, K-line initialisation and the clearing calls.
use openport_j.Base.{
  ℕ, ◌%◌, ◌^◌, Bool, true, false, not, ◌&&◌, List, [], ◌∷◌, Option, none, some, Bytes, ltb,
  if◌then◌else◌, length, take,
}
use openport_j.Codes.{
  status_noerror, err_invalid_device_id, err_invalid_channel_id, err_null_parameter, err_failed,
  err_invalid_msg, err_init_failed, err_not_supported, err_invalid_ioctl_id, msg_data_max,
}
use openport_j.Proto.Reply.{ReplyKind, Reply}
use openport_j.Proto.Decode.{cmd_max}
use openport_j.Proto.Command.{
  cmd_get_config, cmd_set_config, cmd_read_pin, cmd_five_baud, cmd_fast_init, cmd_clear_periodic,
  cmd_clear_filters,
}
use openport_j.Device.Message.{Message, empty_message}
use openport_j.Device.State.{Device}
use openport_j.Device.Slot.{is_empty}
use openport_j.Device.Exchange.{Timing}
use openport_j.Device.Lifecycle.{op_device_flush_channel}
use openport_j.Api.Simple.{is_zero, simple_cmd, Answer, has_channel}
use openport_j.Api.Periodic.{put_periodic}

-- The value of an `arg` and of an `arr` reply.
abbrev pub config_value : Option Reply → Option ℕ
config_value none = none
config_value (some r) = elim r.kind [ ReplyKind.config ↦ some r.b | _ ↦ none ]

abbrev pub pin_value : Option Reply → Option ℕ
pin_value none = none
pin_value (some r) = elim r.kind [ ReplyKind.pin ↦ some r.b | _ ↦ none ]

-- A reply of the wrong kind to a command that succeeded is a failure.
abbrev pub valued : ℕ → Option ℕ → ℕ
valued code none = if is_zero code then err_failed else code
valued code (some v) = code

abbrev pub kept_value : ℕ → Option ℕ → Option ℕ
kept_value code v = if is_zero code then v else none

-- Every parameter is asked for; the code is the last one's. A value is kept where one came.
unfoldable pub get_config_loop : Device → ℕ → List (ℕ × Timing) → ℕ → Device × ℕ × List (Option ℕ)
get_config_loop d i [] rc = (d, rc, [])
get_config_loop d i ((p, t) ∷ ps) rc =
    let a = simple_cmd d (cmd_get_config cmd_max i (p % 2 ^ 32)) [] t in
    let rest = get_config_loop a.device i ps (valued a.code (config_value a.reply)) in
    (rest.0, rest.1, kept_value a.code (config_value a.reply) ∷ rest.2)

unfoldable pub set_config_loop : Device → ℕ → List ((ℕ × ℕ) × Timing) → ℕ → Device × ℕ
set_config_loop d i [] rc = (d, rc)
set_config_loop d i (((p, v), t) ∷ ps) rc =
    let a = simple_cmd d (cmd_set_config cmd_max i (p % 2 ^ 32) (v % 2 ^ 32)) [] t in
    set_config_loop a.device i ps a.code

-- `none` stands for a NULL list.
unfoldable pub ioctl_get_config :
    Device → ℕ → Option (List (ℕ × Timing)) → Device × ℕ × List (Option ℕ)
ioctl_get_config d i none = (d, err_null_parameter, [])
ioctl_get_config d i (some ps) = get_config_loop d i ps status_noerror

unfoldable pub ioctl_set_config : Device → ℕ → Option (List ((ℕ × ℕ) × Timing)) → Device × ℕ
ioctl_set_config d i none = (d, err_null_parameter)
ioctl_set_config d i (some ps) = set_config_loop d i ps status_noerror

unfoldable pub ioctl_read_pin : Device → ℕ → Bool → Timing → Device × ℕ × Option ℕ
ioctl_read_pin d pin has_out t =
    let a = simple_cmd d (cmd_read_pin cmd_max (pin % 2 ^ 32)) [] t in
    if has_out
    then (a.device, valued a.code (pin_value a.reply), kept_value a.code (pin_value a.reply))
    else (d, err_null_parameter, none)

-- The bytes that an ECU answered an initialisation with.
abbrev pub init_bytes : Option Reply → Bytes
init_bytes none = []
init_bytes (some r) = elim r.kind [
  | ReplyKind.init ↦ elim r.body [ none ↦ [] | some s ↦ s ]
  | _ ↦ []
]

-- An initialisation without an answer of the ECU has failed.
unfoldable pub init_done : Answer → Device × ℕ × Bytes
init_done a =
    if not (is_zero a.code)
    then (a.device, a.code, [])
    else if is_empty (init_bytes a.reply)
    then (a.device, err_init_failed, [])
    else (a.device, status_noerror, init_bytes a.reply)

unfoldable pub init_send : Device → Bytes → Bytes → Timing → Device × ℕ × Bytes
init_send d line payload t =
    if is_empty line then (d, err_failed, []) else init_done (simple_cmd d line payload t)

-- FIVE_BAUD_INIT: the address, and how many key bytes the caller has room for (`none` for a NULL
-- array). The key bytes that are stored.
unfoldable pub five_baud_init : Device → ℕ → Option Bytes → Option ℕ → Timing → Device × ℕ × Bytes
five_baud_init d i (some (address ∷ s)) (some room) t =
    let got = init_send d (cmd_five_baud cmd_max i address) [] t in (got.0, got.1, take room got.2)
five_baud_init d i input output t = (d, err_null_parameter, [])

-- The payload of FAST_INIT, nothing for a NULL message.
abbrev pub fast_payload : Option Message → Bytes
fast_payload none = []
fast_payload (some m) = m.body

-- FAST_INIT: the response as a message; on a failure the caller's is left as it is.
unfoldable pub fast_init : Device → ℕ → Option Message → Timing → Device × ℕ × Option Message
fast_init d i input t =
    let payload = fast_payload input in
    let got = init_send d (cmd_fast_init cmd_max i (length payload)) payload t in
    let kept = take msg_data_max got.2 in
    if ltb 255 (length payload) then (d, err_invalid_msg, none) else (
      got.0,
      got.1,
      if is_zero got.1
          then some (record empty_message {
            protocol_id = (got.0.ch i).protocol;
            body = kept;
            extra_data_index = length kept;
          })
          else none,
    )

-- The calls, each with the input that its IoctlID gives `pInput` and the output it writes to.
pub data Ioctl : Type 0 where
  get_config : Option (List (ℕ × Timing)) → Ioctl
  set_config : Option (List ((ℕ × ℕ) × Timing)) → Ioctl
  read_vbatt : Bool → Timing → Ioctl
  read_prog_voltage : Option ℕ → Bool → Timing → Ioctl
  five_baud : Option Bytes → Option ℕ → Timing → Ioctl
  fast : Option Message → Timing → Ioctl
  clear_tx_buffer : Ioctl
  clear_rx_buffer : Ioctl
  clear_periodic_msgs : Timing → Ioctl
  clear_msg_filters : Timing → Ioctl
  funct_msg_table : Ioctl
  unknown : Ioctl

-- The calls that need no channel.
abbrev pub device_scoped : Ioctl → Bool
device_scoped (read_vbatt has_out t) = true
device_scoped (read_prog_voltage pin has_out t) = true
device_scoped funct_msg_table = true
device_scoped unknown = true
device_scoped _ = false

-- OP_PIN_VBATT and OP_PIN_PROG_VOLTAGE
abbrev pub pin_vbatt : ℕ
pin_vbatt = 16

abbrev pub pin_prog_voltage : ℕ
pin_prog_voltage = 12

-- The state and the code of a call whose session and channel are open.
unfoldable pub ioctl_run : Device → ℕ → Ioctl → Device × ℕ
ioctl_run d i (get_config ps) = let out = ioctl_get_config d i ps in (out.0, out.1)
ioctl_run d i (set_config ps) = ioctl_set_config d i ps
ioctl_run d i (read_vbatt has_out t) =
    let out = ioctl_read_pin d pin_vbatt has_out t in (out.0, out.1)
ioctl_run d i (read_prog_voltage none has_out t) =
    let out = ioctl_read_pin d pin_prog_voltage has_out t in (out.0, out.1)
ioctl_run d i (read_prog_voltage (some pin) has_out t) =
    let out = ioctl_read_pin d pin has_out t in (out.0, out.1)
ioctl_run d i (five_baud input output t) =
    let out = five_baud_init d i input output t in (out.0, out.1)
ioctl_run d i (fast input t) = let out = fast_init d i input t in (out.0, out.1)
ioctl_run d i clear_tx_buffer = (d, status_noerror)
ioctl_run d i clear_rx_buffer = (op_device_flush_channel d i, status_noerror)
ioctl_run d i (clear_periodic_msgs t) =
    let a = simple_cmd d (cmd_clear_periodic cmd_max i) [] t in
    if is_zero a.code then (put_periodic a.device i [], status_noerror) else (a.device, a.code)
ioctl_run d i (clear_msg_filters t) =
    let a = simple_cmd d (cmd_clear_filters cmd_max i) [] t in (a.device, a.code)
ioctl_run d i funct_msg_table = (d, err_not_supported)
ioctl_run d i unknown = (d, err_invalid_ioctl_id)

unfoldable pub pass_thru_ioctl : Device → ℕ → Ioctl → Device × ℕ
pass_thru_ioctl d i call =
    if not d.is_open
    then (d, err_invalid_device_id)
    else if not (device_scoped call) && not (has_channel d i)
    then (d, err_invalid_channel_id)
    else ioctl_run d i call
