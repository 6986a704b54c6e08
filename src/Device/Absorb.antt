-- ===== src/Device/Absorb.antt =====
-- Reassembly: `queue_frame`, `indicate` and `absorb_frame` of src/op_device.c. The functions on
-- a channel return the new channel; logging and waking a reader change no state.
pub mod Segments
pub mod Isolation
use openport_j.Base.{
  ℕ, ◌+◌, ◌-◌, Bool, true, false, not, ◌&&◌, ◌||◌, [], ◌∷◌, ◌++◌, Option, none, some, Bytes, ltb,
  leb, ◌==◌, if◌then◌else◌, has_bit, set_bit, set_if, length, take, drop,
}
use openport_j.Codes.{
  can, iso15765, msg_data_max, can_29bit_id, tx_msg_type, tx_done, iso15765_first_frame,
  iso15765_addr_type,
}
use openport_j.Proto.Reply.{Reply}
use openport_j.Proto.Decode.{sts_start, sts_end, sts_loopback, sts_tx_ind, sts_29bit, sts_ext_addr}
use openport_j.Device.Protocol.{protocol_base}
use openport_j.Device.Message.{Message, empty_message}
use openport_j.Device.Queue.{Channel, queue_push}
use openport_j.Device.State.{Device, max_channels, put_channel}

-- The bytes at `r->data`, none for NULL.
abbrev pub frame_data : Reply → Bytes
frame_data r = elim r.body [ none ↦ [] | some s ↦ s ]

unfoldable pub queue_frame : Channel → ℕ → Reply → ℕ → Bool → Bool → Channel
queue_frame c protocol r status is_indication keep_data =
    let kept = if keep_data then take msg_data_max (frame_data r) else [] in
    queue_push c (record empty_message {
      protocol_id = protocol;
      timestamp = r.timestamp_us;
      rx_status = status;
      body = kept;
      extra_data_index = if is_indication then 0 else length kept;
    })

unfoldable pub indicate : Channel → Reply → ℕ → Bool → Bool → Channel
indicate c r status is_indication keep_data =
    queue_frame c c.protocol r status is_indication keep_data

-- CAN_29BIT_ID and ISO15765_ADDR_TYPE are set on these conditions.
unfoldable pub is_wide : ℕ → Reply → Bool
is_wide base r = (base == can || base == iso15765) && has_bit r.status sts_29bit

unfoldable pub is_ext : ℕ → Reply → Bool
is_ext base r = base == iso15765 && has_bit r.status sts_ext_addr

abbrev pub is_loopback : Reply → Bool
is_loopback r = has_bit r.status sts_loopback

-- A START frame without END.
unfoldable pub announce : Channel → ℕ → Reply → Channel
announce c base r =
    let c' = record c { partial_active = false; ext_announced = is_ext base r } in
    if is_loopback r && not (base == iso15765)
    then indicate c' r iso15765_first_frame true false
    else indicate c' r
        (set_if (is_ext base r) iso15765_addr_type (
          set_if (is_wide base r) can_29bit_id
            (if is_loopback r then set_bit tx_msg_type tx_done else iso15765_first_frame)))
        true (not (is_loopback r))

-- A reassembly that begins: `memset(p, 0, …)` and what the START frame announced.
unfoldable pub begin_partial : Channel → Channel
begin_partial c = record c {
  partial = record empty_message {
    protocol_id = c.protocol;
    rx_status = set_if c.ext_announced iso15765_addr_type 0;
  };
  ext_announced = false;
  partial_active = true;
}

-- `skip = ((p->RxStatus | ext) & ISO15765_ADDR_TYPE) ? 5 : 4`
unfoldable pub address_size : Message → ℕ → Reply → ℕ
address_size p base r =
    if has_bit (set_if (is_ext base r) iso15765_addr_type p.rx_status) iso15765_addr_type
    then 5
    else 4

-- How many bytes of a later chunk repeat the address.
unfoldable pub chunk_skip : Channel → ℕ → Reply → ℕ
chunk_skip c base r =
    if c.partial_active && base == iso15765
    then if ltb (length (frame_data r)) (address_size c.partial base r)
      then 0
      else address_size c.partial base r
    else 0

-- What one chunk does to the message, `skip` bytes left out.
unfoldable pub extend_partial : Message → ℕ → Reply → ℕ → Message
extend_partial p base r skip =
    let kept = take (msg_data_max - length p.body) (drop skip (frame_data r)) in
    record p {
      timestamp = r.timestamp_us;
      rx_status =
          set_if (is_ext base r) iso15765_addr_type
            (set_if (is_wide base r) can_29bit_id (set_if (is_loopback r) tx_msg_type p.rx_status));
      body = p.body ++ kept;
      extra_data_index = length (p.body ++ kept);
    }

-- An END frame completes the message.
unfoldable pub finish_chunk : Channel → Message → Reply → Channel
finish_chunk c p r =
    if has_bit r.status sts_end
    then record (queue_push (record c { partial = p }) p) { partial_active = false }
    else record c { partial = p }

abbrev pub started : Channel → Channel
started c = if c.partial_active then c else begin_partial c

-- A frame that carries data of a message.
unfoldable pub fold_chunk : Channel → ℕ → Reply → Channel
fold_chunk c base r =
    finish_chunk (started c) (extend_partial (started c).partial base r (chunk_skip c base r)) r

-- A transmit indication, and its RxStatus.
abbrev pub is_tx_ind : ℕ → Reply → Bool
is_tx_ind base r = has_bit r.status sts_tx_ind && (base == can || base == iso15765)

abbrev pub tx_ind_status : ℕ → Reply → ℕ
tx_ind_status base r =
    set_if (is_ext base r) iso15765_addr_type
      (set_if (is_wide base r) can_29bit_id (set_bit tx_msg_type tx_done))

-- The RxStatus of a raw CAN frame.
abbrev pub can_status : ℕ → Reply → ℕ
can_status base r = set_if (is_wide base r) can_29bit_id (if is_loopback r then tx_msg_type else 0)

abbrev pub is_announcement : Reply → Bool
is_announcement r = has_bit r.status sts_start && not (has_bit r.status sts_end)

-- `absorb_frame` on the frame's own channel, when that is open.
unfoldable pub absorb_open : Channel → Reply → Channel
absorb_open c r =
    let base = protocol_base c.protocol in
    if is_tx_ind base r
    then indicate c r (tx_ind_status base r) true true
    else if base == can
    then indicate c r (can_status base r) false true
    else if is_announcement r
    then announce c base r
    else fold_chunk c base r

-- The echo of an ISO 15765 message on the closed CAN channel.
unfoldable pub absorb_echo : Channel → Reply → Channel
absorb_echo iso r =
    queue_frame iso can r (set_if (has_bit r.status sts_29bit) can_29bit_id tx_msg_type) false true

unfoldable pub absorb_frame : Device → Reply → Device
absorb_frame d r =
    if leb max_channels r.channel
    then d
    else if (d.ch r.channel).is_open
    then put_channel d r.channel (absorb_open (d.ch r.channel) r)
    else if r.channel == 5 && is_loopback r && (d.ch 6).is_open
    then put_channel d 6 (absorb_echo (d.ch 6) r)
    else d
