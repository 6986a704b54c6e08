-- ===== src/Tests/Session.antt =====
-- src/op_device.c at concrete inputs.
use openport_j.Base.{
  ℕ, ◌+◌, ◌%◌, ◌^◌, ◌≤◌, ◌<◌, ◌≡◌, refl, true, false, [], ◌∷◌, ◌++◌, some, Bytes, arith, length,
  take,
}
use openport_j.Codes.{msg_data_max}
use openport_j.Proto.Reply.{Reply, blank, frame}
use openport_j.Device.Protocol.{protocol_base}
use openport_j.Device.Message.{Message, empty_message}
use openport_j.Device.Ring.{rxq_bytes}
use openport_j.Device.Ring.Window.{window}
use openport_j.Device.Queue.{Channel, queue_push, header_size}
use openport_j.Device.Queue.Header.{IsU32}
use openport_j.Device.Queue.Fifo.{Holds, queue_push-Holds}
use openport_j.Device.State.{Device, fresh_device, zero_channel, put_channel}
use openport_j.Device.Absorb.Segments.{IsChunk, completed, absorb_all, segments-completed}

-- An open channel of ISO 15765 with an empty queue, and a message.
abbrev pub iso_channel : Channel
iso_channel = record zero_channel { is_open = true; protocol = 6; rq_alloc = true }

abbrev pub two_bytes : Message
two_bytes = record empty_message { protocol_id = 6; body = 1 ∷ 2 ∷ [] }

abbrev pub session : Device
session = record (put_channel fresh_device 6 iso_channel) { is_open = true; seq_next = 300 }

iso_channel-Holds : Holds iso_channel []
unfolding window
iso_channel-Holds = record {
  alloc = refl;
  head_in = omega arith;
  tail_at = refl;
  used_le = omega arith;
  counted = refl;
  contents = refl;
  words = tt;
}

two_bytes-IsU32 : IsU32 two_bytes
two_bytes-IsU32 = record {
  protocol_id_lt = omega arith;
  rx_status_lt = omega arith;
  tx_flags_lt = omega arith;
  timestamp_lt = omega arith;
  extra_data_index_lt = omega arith;
  fits = omega arith;
}

queue_push-Holds_example :
    (0 + header_size + 2 ≤ rxq_bytes
      → Holds (queue_push iso_channel two_bytes) ([] ++ (two_bytes ∷ []))
        × ((queue_push iso_channel two_bytes).dropped ≡ 0))
    × (rxq_bytes < 0 + header_size + 2
        → Holds (queue_push iso_channel two_bytes) []
          × ((queue_push iso_channel two_bytes).dropped ≡ (0 + 1) % 2 ^ 32))
queue_push-Holds_example =
    queue_push-Holds iso_channel [] two_bytes iso_channel-Holds two_bytes-IsU32

abbrev pub one_message : Channel
one_message = queue_push iso_channel two_bytes

pub one_message-Holds : Holds one_message (two_bytes ∷ [])
one_message-Holds = (queue_push-Holds_example.0 (omega arith)).0

abbrev pub reading : Device
reading = put_channel session 6 one_message

-- A message of three frames.
abbrev chunk : ℕ → Bytes → Reply
chunk st s = record (blank frame) { channel = 6; status = st; body = some (0 ∷ 0 ∷ 7 ∷ 0xE8 ∷ s) }

IsChunk-more : (s : Bytes) → IsChunk false (chunk 0 s)
IsChunk-more s = record {
  no_ind = refl;
  no_start = refl;
  ends = refl;
  no_ext = refl;
  addressed = omega arith;
}

IsChunk-last : (s : Bytes) → IsChunk true (chunk 0x40 s)
IsChunk-last s = record {
  no_ind = refl;
  no_start = refl;
  ends = refl;
  no_ext = refl;
  addressed = omega arith;
}

segments-completed_example :
    (m : Message) × (absorb_all iso_channel
        (chunk 0 (1 ∷ []) ∷ ((chunk 0 (2 ∷ []) ∷ []) ++ (chunk 0x40 (3 ∷ []) ∷ [])))
      ≡ completed iso_channel m)
    × (m.body ≡ take msg_data_max (0 ∷ 0 ∷ 7 ∷ 0xE8 ∷ 1 ∷ (2 ∷ 3 ∷ [])))
    × (m.protocol_id ≡ 6)
    × (m.extra_data_index ≡ length m.body)
unfolding protocol_base
segments-completed_example =
    segments-completed iso_channel refl (chunk 0 (1 ∷ [])) (chunk 0 (2 ∷ []) ∷ [])
      (chunk 0x40 (3 ∷ [])) refl refl (IsChunk-more (1 ∷ [])) (IsChunk-more (2 ∷ []), tt)
      (IsChunk-last (3 ∷ []))
