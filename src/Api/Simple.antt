-- ===== src/Api/Simple.antt =====
-- What the entry points share: `device_error`, `reply_to_status`, `simple_cmd`, `channel_of`,
-- `protocol_uses_pin` and `msg_ok`.
use openport_j.Base.{
  ℕ, zero, suc, Bool, false, not, ◌&&◌, ◌||◌, Option, none, some, Bytes, ltb, leb, ◌==◌,
  if◌then◌else◌, has_bit, length,
}
use openport_j.Codes.{
  status_noerror, err_failed, err_j2534_highest, err_oem_voltage_too_high, err_oem_voltage_too_low,
  can, iso15765, iso15765_addr_type, err_msg_protocol_id, err_invalid_msg, msg_data_max, is_fine,
}
use openport_j.Proto.Reply.{Reply}
use openport_j.Device.Protocol.{protocol_channel, protocol_base, status_to_j2534}
use openport_j.Device.Message.{Message}
use openport_j.Device.State.{Device, max_channels}
use openport_j.Device.Slot.{is_error}
use openport_j.Device.Exchange.{Timing, op_device_cmd}

-- OP_DEVICE_ID
abbrev pub device_id : ℕ
device_id = 1

abbrev pub is_zero : ℕ → Bool
is_zero n = n == 0

unfoldable pub device_error : ℕ → ℕ
device_error code =
    if leb code err_j2534_highest
      || (code == err_oem_voltage_too_high || code == err_oem_voltage_too_low)
    then code
    else err_failed

unfoldable pub reply_to_status : Reply → ℕ
reply_to_status r = if is_error r.kind then device_error r.error_code else status_noerror

-- The state, the code and the reply.
pub record Answer : Type 0 where
  pub device : Device
  pub code : ℕ
  pub reply : Option Reply

-- OP_OK comes with a reply (Exchange.Outcomes), so the case `none` stands for nothing.
abbrev pub reply_code : Option Reply → ℕ
reply_code none = err_failed
reply_code (some r) = reply_to_status r

unfoldable pub simple_cmd : Device → Bytes → Bytes → Timing → Answer
simple_cmd d line payload t =
    let o = op_device_cmd d line payload t in
    if is_fine o.status
    then record { device = o.device; code = reply_code o.reply; reply = o.reply }
    else record { device = o.device; code = status_to_j2534 o.status; reply = none }

-- `channel_of` is not NULL.
abbrev pub has_channel : Device → ℕ → Bool
has_channel d i = ltb i max_channels && (d.ch i).is_open

-- OP_PIN_K and OP_PIN_L
abbrev pub pin_k : ℕ
pin_k = 7

abbrev pub pin_l : ℕ
pin_l = 15

unfoldable pub protocol_uses_pin : ℕ → ℕ → Bool
protocol_uses_pin p pin = elim (protocol_channel p) [
  | none ↦ false
  | some c ↦
      if c == 3 || c == 4 then pin == pin_k else if c == 7 || c == 8 then pin == pin_l else false
]

-- Whether a test holds below `n`: the loops over pins and over channels.
unfoldable pub any_below : ℕ → (ℕ → Bool) → Bool
any_below zero f = false
any_below (suc n) f = f n || any_below n f

-- The sizes that a protocol allows, as `lo` and `hi`.
unfoldable pub size_range : ℕ → Message → ℕ × ℕ
size_range proto m =
    if proto == can
    then (4, 12)
    else if proto == iso15765
    then (if has_bit m.tx_flags iso15765_addr_type then (5, 4100) else (4, 4099))
    else (1, msg_data_max)

-- `DataSize` is the length of `body`; one above 4128 is refused before a byte is read.
unfoldable pub msg_ok : ℕ → Message → ℕ
msg_ok channel_protocol m =
    let proto = protocol_base channel_protocol in
    let range = size_range proto m in
    if not (protocol_base m.protocol_id == proto)
    then err_msg_protocol_id
    else if ltb (length m.body) range.0 || ltb range.1 (length m.body)
    then err_invalid_msg
    else status_noerror
