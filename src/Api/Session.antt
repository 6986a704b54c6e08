-- ===== src/Api/Session.antt =====
-- `PassThruOpen`, `PassThruClose` and `PassThruReadVersion`.
use openport_j.Base.{
  ℕ, Bool, not, ◌&&◌, ◌||◌, List, [], ◌∷◌, Option, none, some, Bytes, ◌==◌, if◌then◌else◌,
}
use openport_j.Codes.{
  OpStatus, access, protocol, status_noerror, err_null_parameter, err_device_in_use,
  err_device_not_connected, err_failed, err_invalid_device_id, is_fine,
}
use openport_j.Proto.Reply.{ReplyKind, Reply}
use openport_j.Proto.Decode.{cmd_max}
use openport_j.Proto.Command.{cmd_version, cmd_reset}
use openport_j.Proto.Version.{parse_version}
use openport_j.Device.State.{Device}
use openport_j.Device.Slot.{is_empty}
use openport_j.Device.World.{Step}
use openport_j.Device.Exchange.{Timing}
use openport_j.Device.Lifecycle.{Opening, op_device_open, op_device_close}
use openport_j.Api.Simple.{device_id, is_zero, simple_cmd}

-- OP_VERSION_MAX
abbrev pub version_max : ℕ
version_max = 64

-- The code for a session that does not open.
unfoldable pub open_error : OpStatus → ℕ
open_error access = err_device_in_use
open_error protocol = err_failed
open_error _ = err_device_not_connected

-- The text of an `ari` reply.
abbrev pub info_text : Option Reply → Option Bytes
info_text none = none
info_text (some r) = elim r.kind [ ReplyKind.info ↦ r.text | _ ↦ none ]

-- The version is written to the session before it is known to be one.
unfoldable pub store_version : Device → Option Bytes → List Step → Device × ℕ
store_version d none stopping = (op_device_close d stopping, err_failed)
store_version d (some text) stopping =
    let d' = record d { fw_version = (parse_version text version_max).0 } in
    if (parse_version text version_max).1
    then (d', status_noerror)
    else (op_device_close d' stopping, err_failed)

-- The session is open: the cable must identify itself.
unfoldable pub identify : Device → Timing → List Step → Device × ℕ
identify d t stopping =
    let a = simple_cmd d (cmd_version cmd_max) [] t in
    if is_zero a.code
    then store_version a.device (info_text a.reply) stopping
    else (op_device_close a.device stopping, a.code)

unfoldable pub open_fresh : Device → Opening → Timing → List Step → Device × ℕ
open_fresh d e t stopping =
    let opened = op_device_open d e in
    if is_fine opened.1 then identify opened.0 t stopping else (opened.0, open_error opened.1)

-- `losing` is what the reader still does while a lost session is closed first.
unfoldable pub pass_thru_open :
    Device → Bool → List Step → Opening → Timing → List Step → Device × ℕ
pass_thru_open d has_out losing e t stopping =
    if not has_out
    then (d, err_null_parameter)
    else if d.is_open && not d.lost
    then (d, err_device_in_use)
    else open_fresh (op_device_close d losing) e t stopping

unfoldable pub pass_thru_close : Device → ℕ → Timing → List Step → Device × ℕ
pass_thru_close d id t stopping =
    let a = simple_cmd d (cmd_reset cmd_max) [] t in
    if not d.is_open || not (id == device_id)
    then (d, err_invalid_device_id)
    else (op_device_close a.device stopping, a.code)

-- "unknown"
abbrev pub unknown_version : Bytes
unknown_version = b'u' ∷ b'n' ∷ b'k' ∷ b'n' ∷ b'o' ∷ b'w' ∷ b'n' ∷ []

-- The code and the firmware's version; the two other strings are constants of the build.
unfoldable pub pass_thru_read_version : Device → ℕ → Bool → ℕ × Option Bytes
pass_thru_read_version d id has_outs =
    if not d.is_open || not (id == device_id)
    then (err_invalid_device_id, none)
    else if d.lost
    then (err_device_not_connected, none)
    else if not has_outs
    then (err_null_parameter, none)
    else (status_noerror, some (if is_empty d.fw_version then unknown_version else d.fw_version))
