-- ===== src/Device/Exchange.antt =====
-- A command and its reply: `cmd_exchange`, `op_device_cmd`, `op_device_send_nowait` and
-- `op_device_pop` of src/op_device.c. The transport and the other threads are a `Timing`.
pub mod Cases
pub mod Anchor
pub mod Numbers
pub mod Outcomes
pub mod Pops
use openport_j.Base.{
  ℕ, ◌+◌, ◌%◌, ◌^◌, Bool, true, false, not, ◌&&◌, ◌||◌, List, [], ◌∷◌, ◌++◌, Option, none, some,
  Bytes, ltb, leb, ◌==◌, if◌then◌else◌, length, get_or,
}
use openport_j.Codes.{OpStatus, fine, timeout, no_device, param, is_fine}
use openport_j.Proto.Reply.{Reply}
use openport_j.Proto.Decode.{cmd_max, msg_max}
use openport_j.Proto.Command.{cmd_is_numbered, cmd_number}
use openport_j.Device.Message.{Message}
use openport_j.Device.State.{Device, max_channels}
use openport_j.Device.Slot.{is_empty}
use openport_j.Device.World.{Step, steps, await, pop_now}

-- What happens around one command: before its slot is claimed, while it is written, the status
-- of the write, and while it waits.
pub record Timing : Type 0 where
  pub before : List Step
  pub during : List Step
  pub written : OpStatus
  pub wakes : List (List Step)
  pub last : List Step

-- The state, the status, the reply handed out and the bytes given to `op_write`.
pub record Outcome : Type 0 where
  pub device : Device
  pub status : OpStatus
  pub reply : Option Reply
  pub sent : Option Bytes

abbrev pub refused : Device → OpStatus → Outcome
refused d st = record { device = d; status = st; reply = none; sent = none }

-- `sizeof numbered`
abbrev pub numbered_size : ℕ
numbered_size = cmd_max + 16

-- `d->seq_next++` on 32 bits, and the way round the numbers that a key byte could be.
unfoldable pub next_seq : ℕ → ℕ
next_seq n = let m = (n + 1) % 2 ^ 32 in if ltb m 256 then 256 else m

-- The slot is the command's own before it is on the wire. (In a line of one byte `numbered[2]` is
-- unset; 0 stands for it here.)
abbrev pub claim : Device → Bytes → ℕ → Bool → Device
claim d numbered seq wait = record d {
  reply_valid = false;
  cmd_waiting = wait;
  seq_pending = seq;
  cmd_verb = get_or numbered 2 0;
}

abbrev pub release : Device → Device
release d = record d { cmd_waiting = false }

abbrev pub answered : Device → Bool
answered d = d.reply_valid || not d.is_open || d.lost

-- What the wait has led to.
unfoldable pub collect : Device → Bytes → Outcome
collect d bytes =
    if d.reply_valid
    then record {
      device = record d { reply_valid = false; cmd_waiting = false };
      status = fine;
      reply = some d.reply;
      sent = some bytes;
    }
    else record {
      device = release d;
      status = if not d.is_open || d.lost then no_device else timeout;
      reply = none;
      sent = some bytes;
    }

-- From the claim on.
unfoldable pub transmit : Device → Bytes → Bytes → Bool → Timing → Outcome
transmit d line payload wait t =
    if is_fine t.written && wait
    then collect (await answered (steps d t.during) t.wakes t.last) (line ++ payload)
    else record {
      device = release (steps d t.during);
      status = t.written;
      reply = none;
      sent = some (line ++ payload);
    }

-- A numbered command: the number is used up even where the line leaves no room for it.
unfoldable pub exchange_numbered : Device → Bytes → Bytes → Bool → Timing → Outcome
exchange_numbered d line payload wait t =
    let numbered = cmd_number line numbered_size d.seq_next in
    let d' = record d { seq_next = next_seq d.seq_next } in
    if is_empty numbered
    then refused d' param
    else transmit (claim d' numbered d.seq_next wait) numbered payload wait t

unfoldable pub exchange_open : Device → Bytes → Bytes → Bool → Timing → Outcome
exchange_open d line payload wait t =
    if cmd_is_numbered line
    then exchange_numbered d line payload wait t
    else transmit (claim d line 0 wait) line payload wait t

unfoldable pub cmd_exchange : Device → Bytes → Bytes → Bool → Timing → Outcome
cmd_exchange d line payload wait t =
    if is_empty line || leb cmd_max (length line) || ltb msg_max (length payload)
    then refused d param
    else if not d.is_open || d.lost
    then refused d no_device
    else exchange_open (steps d t.before) line payload wait t

abbrev pub op_device_cmd : Device → Bytes → Bytes → Timing → Outcome
op_device_cmd d line payload t = cmd_exchange d line payload true t

abbrev pub op_device_send_nowait : Device → Bytes → Bytes → Timing → Outcome
op_device_send_nowait d line payload t = cmd_exchange d line payload false t

-- The condition that ends the wait for a message on channel `i`.
abbrev pub pop_ready : ℕ → Device → Bool
pop_ready i d = not ((d.ch i).qcount == 0) || not d.is_open || d.lost

unfoldable pub op_device_pop :
    Device → ℕ → ℕ → List (List Step) → List Step → Device × OpStatus × Option Message
op_device_pop d i timeout_ms wakes last =
    if leb max_channels i
    then (d, param, none)
    else if not (pop_ready i d) && ltb 0 timeout_ms
    then pop_now (await (pop_ready i) d wakes last) i
    else pop_now d i
