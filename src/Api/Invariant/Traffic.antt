-- ===== src/Api/Invariant/Traffic.antt =====
-- PassThruStartMsgFilter, PassThruStopMsgFilter and PassThruIoctl on a sound session.
use openport_j.Base.{
  ℕ, ◌%◌, ◌^◌, Bool, List, [], ◌∷◌, Option, none, some, Bytes, arith, ltb, leb, if_either, length,
}
use openport_j.Proto.Decode.{cmd_max}
use openport_j.Proto.Command.{
  cmd_stop_filter, cmd_clear_periodic, cmd_clear_filters, cmd_get_config, cmd_set_config,
  cmd_read_pin, cmd_five_baud, cmd_fast_init,
}
use openport_j.Device.Message.{Message}
use openport_j.Device.State.{Device, max_channels}
use openport_j.Device.World.Anchored.{flush-Anchors}
use openport_j.Device.Exchange.{Timing}
use openport_j.Device.Lifecycle.{op_device_flush_channel}
use openport_j.Api.Simple.{simple_cmd}
use openport_j.Api.Filters.{filter_messages, pass_thru_start_msg_filter, pass_thru_stop_msg_filter}
use openport_j.Api.Ioctl.{
  get_config_loop, set_config_loop, ioctl_get_config, ioctl_set_config, ioctl_read_pin, init_done,
  init_send, five_baud_init, fast_init, fast_payload, config_value, valued, Ioctl, ioctl_run,
  pass_thru_ioctl, get_config, set_config, read_vbatt, read_prog_voltage, five_baud, fast,
  clear_tx_buffer, clear_rx_buffer, clear_periodic_msgs, clear_msg_filters, funct_msg_table,
  unknown, pin_vbatt, pin_prog_voltage,
}
use openport_j.Api.Invariant.{Sound, Anchors-Sound}
use openport_j.Api.Invariant.Calls.{simple_cmd-Sound}
use openport_j.Api.Invariant.Periodics.{put_periodic-Sound}
use openport_j.Api.Invariant.Others.{filter_checked-Sound}

filter_messages-Sound :
    (d : Device) (i ty : ℕ) (mask pattern flow : Option Message) (t : Timing)
    → Sound d
    → Sound (filter_messages d i ty mask pattern flow t).0
unfolding filter_messages
filter_messages-Sound d i ty none pattern flow t s = s
filter_messages-Sound d i ty (some mask) none flow t s = s
filter_messages-Sound d i ty (some mask) (some pattern) none t s =
    ground (arith, s, filter_checked-Sound d i ty mask pattern none t s)
filter_messages-Sound d i ty (some mask) (some pattern) (some f) t s = ground (
  arith,
  filter_checked-Sound d i ty mask pattern none t s,
  filter_checked-Sound d i ty mask pattern (some f) t s,
)

pub start_filter-Sound :
    (d : Device) (i ty : ℕ) (mask pattern flow : Option Message) (has_out : Bool) (t : Timing)
    → Sound d
    → Sound (pass_thru_start_msg_filter d i ty mask pattern flow has_out t).0
unfolding pass_thru_start_msg_filter
start_filter-Sound d i ty mask pattern flow has_out t s =
    ground (arith, s, filter_messages-Sound d i ty mask pattern flow t s)

pub stop_filter-Sound :
    (d : Device) (i id : ℕ) (t : Timing) → Sound d → Sound (pass_thru_stop_msg_filter d i id t).0
unfolding pass_thru_stop_msg_filter
stop_filter-Sound d i id t s =
    ground (arith, s, simple_cmd-Sound d (cmd_stop_filter cmd_max i (id % 2 ^ 32)) [] t s)

get_config_loop-Sound :
    (d : Device) (i : ℕ) (ps : List (ℕ × Timing)) (rc : ℕ)
    → Sound d
    → Sound (get_config_loop d i ps rc).0
unfolding get_config_loop
get_config_loop-Sound d i [] rc s = s
get_config_loop-Sound d i ((p, t) ∷ ps) rc s =
    let a = simple_cmd d (cmd_get_config cmd_max i (p % 2 ^ 32)) [] t in
    get_config_loop-Sound a.device i ps (valued a.code (config_value a.reply))
      (simple_cmd-Sound d (cmd_get_config cmd_max i (p % 2 ^ 32)) [] t s)

set_config_loop-Sound :
    (d : Device) (i : ℕ) (ps : List ((ℕ × ℕ) × Timing)) (rc : ℕ)
    → Sound d
    → Sound (set_config_loop d i ps rc).0
unfolding set_config_loop
set_config_loop-Sound d i [] rc s = s
set_config_loop-Sound d i (((p, v), t) ∷ ps) rc s =
    let a = simple_cmd d (cmd_set_config cmd_max i (p % 2 ^ 32) (v % 2 ^ 32)) [] t in
    set_config_loop-Sound a.device i ps a.code
      (simple_cmd-Sound d (cmd_set_config cmd_max i (p % 2 ^ 32) (v % 2 ^ 32)) [] t s)

read_pin-Sound :
    (d : Device) (pin : ℕ) (has_out : Bool) (t : Timing)
    → Sound d
    → Sound (ioctl_read_pin d pin has_out t).0
unfolding ioctl_read_pin
read_pin-Sound d pin has_out t s =
    ground (arith, s, simple_cmd-Sound d (cmd_read_pin cmd_max (pin % 2 ^ 32)) [] t s)

init_send-Sound :
    (d : Device) (line payload : Bytes) (t : Timing)
    → Sound d
    → Sound (init_send d line payload t).0
unfolding init_send init_done
init_send-Sound d line payload t s = ground (arith, s, simple_cmd-Sound d line payload t s)

five_baud-Sound :
    (d : Device) (i : ℕ) (input : Option Bytes) (output : Option ℕ) (t : Timing)
    → Sound d
    → Sound (five_baud_init d i input output t).0
unfolding five_baud_init
five_baud-Sound d i none output t s = s
five_baud-Sound d i (some []) output t s = s
five_baud-Sound d i (some (a ∷ as')) none t s = s
five_baud-Sound d i (some (a ∷ as')) (some n) t s =
    init_send-Sound d (cmd_five_baud cmd_max i a) [] t s

fast_init-Sound :
    (d : Device) (i : ℕ) (input : Option Message) (t : Timing)
    → Sound d
    → Sound (fast_init d i input t).0
unfolding fast_init
fast_init-Sound d i input t s =
    if_either P (ltb 255 (length (fast_payload input))) _ (_, _, _) s
      (init_send-Sound d (cmd_fast_init cmd_max i (length (fast_payload input)))
        (fast_payload input) t s)
  where
    P : Device × ℕ × Option Message → Type 0
    P o = Sound o.0

flush_channel-Sound : (d : Device) (i : ℕ) → Sound d → Sound (op_device_flush_channel d i)
unfolding op_device_flush_channel
flush_channel-Sound d i s =
    if_either Sound (leb max_channels i) _ _ s (Anchors-Sound d _ s (flush-Anchors d i))

clear_periodic-Sound :
    (d : Device) (i : ℕ) (t : Timing) → Sound d → Sound (ioctl_run d i (clear_periodic_msgs t)).0
unfolding ioctl_run
clear_periodic-Sound d i t s =
    let a = simple_cmd d (cmd_clear_periodic cmd_max i) [] t in
    let s' = simple_cmd-Sound d (cmd_clear_periodic cmd_max i) [] t s in
    ground (arith, s', put_periodic-Sound a.device i [] s' (omega arith))

ioctl_run-Sound : (d : Device) (i : ℕ) (call : Ioctl) → Sound d → Sound (ioctl_run d i call).0
unfolding ioctl_run ioctl_get_config ioctl_set_config
ioctl_run-Sound d i (get_config none) s = s
ioctl_run-Sound d i (get_config (some ps)) s = get_config_loop-Sound d i ps _ s
ioctl_run-Sound d i (set_config none) s = s
ioctl_run-Sound d i (set_config (some ps)) s = set_config_loop-Sound d i ps _ s
ioctl_run-Sound d i (read_vbatt o t) s = read_pin-Sound d pin_vbatt o t s
ioctl_run-Sound d i (read_prog_voltage none o t) s = read_pin-Sound d pin_prog_voltage o t s
ioctl_run-Sound d i (read_prog_voltage (some pin) o t) s = read_pin-Sound d pin o t s
ioctl_run-Sound d i (five_baud input output t) s = five_baud-Sound d i input output t s
ioctl_run-Sound d i (fast input t) s = fast_init-Sound d i input t s
ioctl_run-Sound d i clear_tx_buffer s = s
ioctl_run-Sound d i clear_rx_buffer s = flush_channel-Sound d i s
ioctl_run-Sound d i (clear_periodic_msgs t) s = clear_periodic-Sound d i t s
ioctl_run-Sound d i (clear_msg_filters t) s =
    simple_cmd-Sound d (cmd_clear_filters cmd_max i) [] t s
ioctl_run-Sound d i funct_msg_table s = s
ioctl_run-Sound d i unknown s = s

pub ioctl-Sound : (d : Device) (i : ℕ) (call : Ioctl) → Sound d → Sound (pass_thru_ioctl d i call).0
unfolding pass_thru_ioctl
ioctl-Sound d i call s = ground (arith, s, ioctl_run-Sound d i call s)
