-- ===== src/Device/State.antt =====
-- `op_device` of src/op_device.h: the session's state, as every function under its lock sees it.
-- The mutexes, condition variables and the reader thread are the interleavings of `Exchange`.
use openport_j.Base.{ℕ, Bool, false, [], Bytes, ◌==◌, if◌then◌else◌}
use openport_j.Proto.Reply.{Reply, blank, incomplete}
use openport_j.Device.Message.{empty_message}
use openport_j.Device.Queue.{Channel}

-- OP_MAX_CHANNELS
abbrev pub max_channels : ℕ
max_channels = 10

-- `pins_grounded` and `pins_powered` are the bits of the C masks, by pin.
pub record Device : Type 0 where
  pub is_open : Bool
  pub lost : Bool
  pub cmd_waiting : Bool
  pub reply_valid : Bool
  pub seq_next : ℕ
  pub seq_pending : ℕ
  pub cmd_verb : ℕ
  pub reply : Reply
  pub accum : Bytes
  pub ch : ℕ → Channel
  pub pins_grounded : ℕ → Bool
  pub pins_powered : ℕ → Bool
  pub fw_version : Bytes

-- `memset(c, 0, sizeof *c)`
abbrev pub zero_channel : Channel
zero_channel = record {
  is_open = false;
  protocol = 0;
  partial = empty_message;
  partial_active = false;
  ext_announced = false;
  rq_alloc = false;
  rq = λ _. 0;
  rq_head = 0;
  rq_tail = 0;
  rq_used = 0;
  qcount = 0;
  dropped = 0;
  periodic = [];
}

-- The statically zero session.
abbrev pub fresh_device : Device
fresh_device = record {
  is_open = false;
  lost = false;
  cmd_waiting = false;
  reply_valid = false;
  seq_next = 0;
  seq_pending = 0;
  cmd_verb = 0;
  reply = blank incomplete;
  accum = [];
  ch = λ _. zero_channel;
  pins_grounded = λ _. false;
  pins_powered = λ _. false;
  fw_version = [];
}

-- `d->ch[i] = c`
abbrev pub put_channel : Device → ℕ → Channel → Device
put_channel d i c = record d { ch = λ j. if j == i then c else d.ch j }
