-- ===== src/Device/Queue.antt =====
-- A channel's receive queue: `op_channel`, `queue_push`, the popping part of `op_device_pop`,
-- `flush_locked` and `op_device_take_dropped` of src/op_device.c and src/op_device.h.
pub mod Header
pub mod Fifo
pub mod Pop
use openport_j.Base.{
  ℕ, zero, suc, ◌+◌, ◌-◌, ◌*◌, ◌/◌, ◌%◌, ◌^◌, Bool, true, false, not, ◌||◌, List, [], ◌∷◌, ◌++◌,
  Bytes, ltb, leb, if◌then◌else◌, length, take, drop, get_or,
}
use openport_j.Codes.{msg_data_max}
use openport_j.Device.Message.{Message}
use openport_j.Device.Ring.{Memory, rxq_bytes, ring_put, ring_get}

-- `rq` is NULL until `rq_alloc`; `periodic` holds the `nperiodic` ids of the C array.
pub record Channel : Type 0 where
  pub is_open : Bool
  pub protocol : ℕ
  pub partial : Message
  pub partial_active : Bool
  pub ext_announced : Bool
  pub rq_alloc : Bool
  pub rq : Memory
  pub rq_head : ℕ
  pub rq_tail : ℕ
  pub rq_used : ℕ
  pub qcount : ℕ
  pub dropped : ℕ
  pub periodic : List ℕ

-- A `uint32_t` in memory, on the little-endian hosts that the driver is built for.
unfoldable pub le32 : ℕ → Bytes
le32 v = (v % 256) ∷ (v / 2 ^ 8 % 256) ∷ (v / 2 ^ 16 % 256) ∷ (v / 2 ^ 24 % 256) ∷ []

unfoldable pub rd_le32 : Bytes → ℕ
rd_le32 s = get_or s 0 0 + get_or s 1 0 * 2 ^ 8 + get_or s 2 0 * 2 ^ 16 + get_or s 3 0 * 2 ^ 24

-- `sizeof (op_qhdr)`
abbrev pub header_size : ℕ
header_size = 24

-- `op_qhdr` of a message whose size is given: each field cast to `uint32_t`.
unfoldable pub header : Message → ℕ → Bytes
header m size =
    le32 m.protocol_id
    ++ (le32 m.rx_status
        ++ (le32 m.tx_flags ++ (le32 m.timestamp ++ (le32 size ++ le32 m.extra_data_index))))

unfoldable pub stored_size : Message → ℕ
stored_size m = if leb (length m.body) msg_data_max then length m.body else msg_data_max

-- What the two `ring_put` calls of `queue_push` leave behind.
unfoldable pub append_stored : Channel → Message → ℕ → Channel
append_stored c m size =
    let (rq1, tail1) = ring_put c.rq c.rq_tail (header m size) in
    let (rq2, tail2) = ring_put rq1 tail1 (take size m.body) in
    record c {
      rq = rq2;
      rq_tail = tail2;
      rq_used = c.rq_used + (header_size + size);
      qcount = c.qcount + 1;
    }

-- The arriving message is discarded, and counted, where there is no room for it.
unfoldable pub queue_push : Channel → Message → Channel
queue_push c m =
    if not c.rq_alloc || ltb rxq_bytes (c.rq_used + header_size + stored_size m)
    then record c { dropped = (c.dropped + 1) % 2 ^ 32 }
    else append_stored c m (stored_size m)

-- The message that a header and its data stand for.
unfoldable pub read_message : Bytes → Bytes → Message
read_message h data' = record {
  protocol_id = rd_le32 h;
  rx_status = rd_le32 (drop 4 h);
  tx_flags = rd_le32 (drop 8 h);
  timestamp = rd_le32 (drop 12 h);
  extra_data_index = rd_le32 (drop 20 h);
  body = data';
}

-- The data of a message, behind its header `h`, from index `head1` on.
unfoldable pub pop_sized : Channel → Bytes → ℕ → ℕ → Message × Channel
pop_sized c h head1 size =
    let got = ring_get c.rq head1 size in
    (
      read_message h got.0,
      record c {
        rq_head = got.1;
        rq_used = c.rq_used - (header_size + size);
        qcount = c.qcount - 1;
      },
    )

-- The branch `c->qcount > 0` of `op_device_pop`.
unfoldable pub queue_pop : Channel → Message × Channel
queue_pop c =
    let got = ring_get c.rq c.rq_head header_size in
    pop_sized c got.0 got.1 (rd_le32 (drop 16 got.0))

-- `flush_locked`
unfoldable pub flush_locked : Channel → Channel
flush_locked c = record c {
  rq_head = 0;
  rq_tail = 0;
  rq_used = 0;
  qcount = 0;
  partial_active = false;
  ext_announced = false;
  dropped = 0;
}

-- The count and the channel with the count reset, under the lock.
unfoldable pub take_dropped : Channel → ℕ × Channel
take_dropped c = (c.dropped, record c { dropped = 0 })
