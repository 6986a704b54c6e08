-- ===== src/Tests/Calls.antt =====
-- Calls of src/op_j2534.c at concrete inputs.
use openport_j.Base.{ℕ, Option, ◌≤◌, ◌≡◌, ◌≢◌, refl, true, [], ◌∷◌, Bytes, arith}
use openport_j.Proto.Decode.{parse, parse_text, parse_scanned, split_line, parse_line}
use openport_j.Proto.Line.{parse_ascii, parse_verb, parse_ok}
use openport_j.Proto.Number.{
  parse_tail, tail_from, store_token, skip_spaces, parse_u32, digits_from, saturate, is_digit,
}
use openport_j.Proto.Print.{decimal, digits_before, spaced, emit}
use openport_j.Proto.Command.{cmd_is_numbered, cmd_number, cmd_open}
use openport_j.Device.Protocol.{protocol_channel}
use openport_j.Device.Slot.{
  stash_reply, wrong_init, wrong_number, copy_reply, init_data, stash_data,
}
use openport_j.Device.Stream.{
  consume, reader_take, consume_accum, deliver, advance, round, keep_rest,
}
use openport_j.Api.Simple.{device_id, any_below, protocol_uses_pin, simple_cmd, reply_to_status}
use openport_j.Api.Channels.Connects.{Connected, connect-Connected}
use openport_j.Codes.{fine, status_noerror}
use openport_j.Device.State.{Device, fresh_device}
use openport_j.Device.World.{arrives, step, steps, await}
use openport_j.Device.World.Anchored.{Anchored, AllBounded}
use openport_j.Device.Exchange.{
  Timing, cmd_exchange, next_seq, exchange_open, exchange_numbered, transmit, collect,
}
use openport_j.Device.Exchange.Anchor.{cmd_exchange-Anchors}
use openport_j.Device.Lifecycle.{Opening, op_device_open, op_device_open_channel}
use openport_j.Device.Lifecycle.Opens.{Settles, op_device_open-Settles}
use openport_j.Api.Session.{pass_thru_open}
use openport_j.Api.Channels.{
  pass_thru_connect, connect_any, connect_on, connect_send, connect_opened, line_taken, pin_shorted,
}
use openport_j.Api.Transfer.{Round, running, read_loop, Turn}
use openport_j.Api.Transfer.Reads.{read_loop-ends, expired}
use openport_j.Api.Invariant.{Sound}
use openport_j.Api.Invariant.Reachable.{start, next, opens, connects, Reachable-Sound}
use openport_j.Tests.Session.{reading, two_bytes}

abbrev pub answered_by : Bytes → Timing
answered_by line = record {
  before = [];
  during = [];
  written = fine;
  wakes = (arrives line ∷ []) ∷ [];
  last = [];
}

-- "aro 256\r\n", "aro 257\r\n", "ari v : 1\r\n" and "aro 258\r\n".
abbrev ok_256 : Bytes
ok_256 = b'a' ∷ b'r' ∷ b'o' ∷ b' ' ∷ b'2' ∷ b'5' ∷ b'6' ∷ b'\r' ∷ b'\n' ∷ []

abbrev ok_257 : Bytes
ok_257 = b'a' ∷ b'r' ∷ b'o' ∷ b' ' ∷ b'2' ∷ b'5' ∷ b'7' ∷ b'\r' ∷ b'\n' ∷ []

abbrev version_line : Bytes
version_line = b'a' ∷ b'r' ∷ b'i' ∷ b' ' ∷ b'v' ∷ b' ' ∷ b':' ∷ b' ' ∷ b'1' ∷ b'\r' ∷ b'\n' ∷ []

abbrev pub ok_258 : Bytes
ok_258 = b'a' ∷ b'r' ∷ b'o' ∷ b' ' ∷ b'2' ∷ b'5' ∷ b'8' ∷ b'\r' ∷ b'\n' ∷ []

abbrev opening : Opening
opening = record {
  clock = 0;
  factory = fine;
  thread_starts = true;
  woken = [];
  line_ended = fine;
  first = answered_by ok_256;
  second = answered_by [];
  third = answered_by [];
  closing = answered_by ok_257;
  stopping = [];
}

abbrev opened : Device
opened = (pass_thru_open fresh_device true [] opening (answered_by version_line) []).0

-- An ISO 15765 channel at 500000 baud.
abbrev connected : Device
connected =
    (pass_thru_connect opened 1 6 0 500000 true true (answered_by ok_258) (answered_by [])).0

Reachable-Sound_example : Sound connected
Reachable-Sound_example = Reachable-Sound (
    next (next start (opens fresh_device true [] opening (answered_by version_line) []))
      (connects opened 1 6 0 500000 true true (answered_by ok_258) (answered_by [])))

op_device_open-Settles_example : Settles (op_device_open fresh_device opening)
op_device_open-Settles_example = op_device_open-Settles fresh_device opening refl

-- "atc6\r\n"
abbrev close_six : Bytes
close_six = b'a' ∷ b't' ∷ b'c' ∷ b'6' ∷ b'\r' ∷ b'\n' ∷ []

fresh_bounded : AllBounded fresh_device
fresh_bounded i = omega arith

cmd_exchange-Anchors_example :
    Anchored fresh_device (cmd_exchange fresh_device close_six [] true (answered_by ok_256)).device
    × AllBounded (cmd_exchange fresh_device close_six [] true (answered_by ok_256)).device
cmd_exchange-Anchors_example =
    cmd_exchange-Anchors fresh_device close_six [] true (answered_by ok_256) fresh_bounded

abbrev at_once : Round
at_once = record { elapsed = 0; wakes = []; last = [] }

read_loop-ends_example : (read_loop reading 6 2 0 (at_once ∷ at_once ∷ [])).2 ≢ running
read_loop-ends_example = read_loop-ends reading 6 2 0 (at_once ∷ at_once ∷ []) (omega arith) enough
  where
    enough : 2 ≤ expired 0 (at_once ∷ at_once ∷ [])
    enough = unfold expired in omega arith

abbrev turn : Turn
turn = record { message = two_bytes; elapsed = 3; timing = answered_by ok_258 }

-- A session whose next command has number 258.
abbrev idle_session : Device
idle_session = record fresh_device { is_open = true; seq_next = 258 }

abbrev connecting : Device × ℕ × Option ℕ
connecting =
    pass_thru_connect idle_session 1 6 0 500000 true true (answered_by ok_258) (answered_by [])

connected_fine : connecting.1 ≡ status_noerror
unfolding pass_thru_connect connect_any connect_on connect_send connect_opened line_taken
    pin_shorted any_below protocol_uses_pin protocol_channel simple_cmd reply_to_status
    op_device_open_channel cmd_open emit cmd_exchange exchange_open exchange_numbered transmit
    collect steps step await reader_take consume_accum consume round advance deliver keep_rest
    next_seq cmd_is_numbered cmd_number decimal digits_before spaced stash_reply wrong_init
    wrong_number init_data stash_data copy_reply parse parse_text parse_scanned split_line
    parse_line parse_ascii parse_verb parse_ok parse_tail tail_from store_token skip_spaces
    parse_u32 digits_from saturate is_digit
connected_fine = refl

connect-Connected_example :
    (true ≡ true)
    × (device_id ≡ device_id)
    × Connected idle_session 6 500000 (protocol_channel 6) connecting
connect-Connected_example =
    connect-Connected idle_session 1 6 0 500000 true true (answered_by ok_258) (answered_by [])
      connected_fine
