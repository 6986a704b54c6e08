-- ===== src/Api/Pins.antt =====
-- `PassThruSetProgrammingVoltage`.
use openport_j.Base.{ℕ, Bool, not, ◌&&◌, ◌||◌, [], ltb, ◌==◌, if◌then◌else◌}
use openport_j.Codes.{
  status_noerror, err_invalid_device_id, err_pin_invalid, err_channel_in_use, err_failed,
  voltage_off, short_to_ground,
}
use openport_j.Proto.Decode.{cmd_max}
use openport_j.Proto.Command.{cmd_voltage}
use openport_j.Device.State.{Device, max_channels}
use openport_j.Device.Slot.{is_empty}
use openport_j.Device.Exchange.{Timing}
use openport_j.Api.Simple.{device_id, is_zero, simple_cmd, protocol_uses_pin, any_below}

-- `(d->pins_powered & ~(1u << PinNumber)) != 0`
unfoldable pub other_powered : Device → ℕ → Bool
other_powered d pin = any_below 32 (λ p. d.pins_powered p && not (p == pin))

unfoldable pub pin_carries : Device → ℕ → Bool
pin_carries d pin =
    any_below max_channels (λ i. (d.ch i).is_open && protocol_uses_pin (d.ch i).protocol pin)

-- The two masks once the cable has switched the pin.
unfoldable pub switch_pin : Device → ℕ → ℕ → Device
switch_pin d pin voltage =
    if ltb pin 32
    then record d {
      pins_grounded = λ p. if p == pin then voltage == short_to_ground else d.pins_grounded p;
      pins_powered = λ p.
          if p == pin
          then not (voltage == short_to_ground) && not (voltage == voltage_off)
          else d.pins_powered p;
    }
    else d

unfoldable pub send_voltage : Device → ℕ → ℕ → Timing → Device × ℕ
send_voltage d pin voltage t =
    let line = cmd_voltage cmd_max pin voltage in
    let a = simple_cmd d line [] t in
    if is_empty line
    then (d, err_failed)
    else if is_zero a.code
    then (switch_pin a.device pin voltage, status_noerror)
    else (a.device, a.code)

unfoldable pub pass_thru_set_programming_voltage : Device → ℕ → ℕ → ℕ → Timing → Device × ℕ
pass_thru_set_programming_voltage d id pin voltage t =
    if not d.is_open || not (id == device_id)
    then (d, err_invalid_device_id)
    else if not (voltage == voltage_off)
        && (not (voltage == short_to_ground) && (ltb pin 32 && other_powered d pin))
    then (d, err_pin_invalid)
    else if voltage == short_to_ground && pin_carries d pin
    then (d, err_channel_in_use)
    else send_voltage d pin voltage t
