-- ===== src/Device/Lifecycle.antt =====
-- Opening and closing, of src/op_device.c: `op_device_open`, `sync_device`, `op_device_close`,
-- `op_device_open_channel`, `op_device_close_channel`, `op_device_flush_channel` and
-- `op_device_take_dropped`.
pub mod Opens
use openport_j.Base.{
  ℕ, ◌+◌, ◌%◌, ◌^◌, Bool, true, false, not, ◌&&◌, ◌||◌, List, [], ◌∷◌, Option, none, some, Bytes,
  leb, ltb, ◌==◌, if◌then◌else◌,
}
use openport_j.Codes.{
  OpStatus, fine, timeout, io, no_device, access, mass_storage, param, overflow, protocol, stalled,
  is_fine,
}
use openport_j.Proto.Reply.{ReplyKind, Reply}
use openport_j.Proto.Decode.{cmd_max}
use openport_j.Proto.Command.{cmd_reset, cmd_close_all}
use openport_j.Device.State.{Device, zero_channel, put_channel, max_channels}
use openport_j.Device.Queue.{Channel, flush_locked, take_dropped}
use openport_j.Device.World.{Step, steps}
use openport_j.Device.Exchange.{Timing, Outcome, op_device_cmd}

-- Each channel keeps its ring across sessions; `clock` is the time of day in milliseconds.
unfoldable pub reset_session : Device → ℕ → Device
reset_session d clock = record d {
  ch = λ i. record zero_channel { rq = (d.ch i).rq; rq_alloc = (d.ch i).rq_alloc };
  pins_grounded = λ _. false;
  pins_powered = λ _. false;
  accum = [];
  reply_valid = false;
  cmd_waiting = false;
  lost = false;
  seq_next = 256 + clock % 900000;
  seq_pending = 0;
  fw_version = [];
}

-- What the transport, the clock and the cable do while the session opens: the status of the
-- factory, whether the reader thread starts, the status of the write that ends a partial line,
-- the three attempts at a reset, the close-all, and what the reader still does while it stops.
pub record Opening : Type 0 where
  pub clock : ℕ
  pub factory : OpStatus
  pub thread_starts : Bool
  pub woken : List Step
  pub line_ended : OpStatus
  pub first : Timing
  pub second : Timing
  pub third : Timing
  pub closing : Timing
  pub stopping : List Step

abbrev pub is_timeout : OpStatus → Bool
is_timeout timeout = true
is_timeout _ = false

abbrev pub is_stalled : OpStatus → Bool
is_stalled stalled = true
is_stalled _ = false

abbrev pub is_ok : Option Reply → Bool
is_ok none = false
is_ok (some r) = elim r.kind [ ReplyKind.ok ↦ true | _ ↦ false ]

-- The attempts while the answer is a timeout.
unfoldable pub reset_attempts : Device → List Timing → Device × OpStatus
reset_attempts d [] = (d, timeout)
reset_attempts d (t ∷ ts) =
    let o = op_device_cmd d (cmd_reset cmd_max) [] t in
    let rest = reset_attempts o.device ts in
    if is_timeout o.status then rest else (o.device, o.status)

-- A reset that was answered is followed by a close-all, which must be answered `aro`.
unfoldable pub close_all : Device → Timing → Device × OpStatus
close_all d t =
    let o = op_device_cmd d (cmd_close_all cmd_max) [] t in
    (o.device, if is_fine o.status && not (is_ok o.reply) then protocol else o.status)

-- A timeout of either is a link problem.
abbrev pub settle : OpStatus → OpStatus
settle st = if is_timeout st then protocol else st

unfoldable pub sync_device : Device → Opening → Device × OpStatus
sync_device d e =
    let woken = steps d e.woken in
    let reset = reset_attempts woken (e.first ∷ e.second ∷ e.third ∷ []) in
    let closed = close_all reset.0 e.closing in
    if is_stalled e.line_ended
    then (woken, stalled)
    else if is_fine reset.1
    then (closed.0, settle closed.1)
    else (reset.0, settle reset.1)

-- The session is closed first; the reader may still take bytes in until it is joined.
unfoldable pub op_device_close : Device → List Step → Device
op_device_close d stopping = if d.is_open then steps (record d { is_open = false }) stopping else d

unfoldable pub open_with : Device → Opening → Device × OpStatus
open_with d e =
    let synced = sync_device (record d { is_open = true }) e in
    if not (is_fine e.factory)
    then (d, e.factory)
    else if not e.thread_starts
    then (d, io)
    else if is_fine synced.1
    then (synced.0, fine)
    else (op_device_close synced.0 e.stopping, synced.1)

unfoldable pub op_device_open : Device → Opening → Device × OpStatus
op_device_open d e = if d.is_open then (d, fine) else open_with (reset_session d e.clock) e

-- `room` says whether malloc finds memory for a ring that the channel has not got yet.
unfoldable pub op_device_open_channel : Device → ℕ → ℕ → Bool → Device × OpStatus
op_device_open_channel d i p room =
    if leb max_channels i
    then (d, param)
    else if (d.ch i).rq_alloc || room
    then (
      put_channel d i
          (record zero_channel { rq = (d.ch i).rq; rq_alloc = true; is_open = true; protocol = p }),
      fine,
    )
    else (put_channel d i (record zero_channel { rq = (d.ch i).rq }), io)

unfoldable pub op_device_close_channel : Device → ℕ → Device
op_device_close_channel d i =
    if leb max_channels i
    then d
    else put_channel d i (flush_locked (record (d.ch i) { is_open = false; periodic = [] }))

unfoldable pub op_device_flush_channel : Device → ℕ → Device
op_device_flush_channel d i =
    if leb max_channels i then d else put_channel d i (flush_locked (d.ch i))

unfoldable pub op_device_take_dropped : Device → ℕ → ℕ × Device
op_device_take_dropped d i =
    if not d.is_open || leb max_channels i
    then (0, d)
    else ((take_dropped (d.ch i)).0, put_channel d i (take_dropped (d.ch i)).1)
