-- ===== src/Device/Queue/Header.antt =====
-- A header is read back as it was written.
use openport_j.Base.{ℕ, ◌<◌, ◌≤◌, ◌≡◌, ◌^◌, refl, ◌++◌, Bytes, arith, length, drop}
use openport_j.Codes.{msg_data_max}
use openport_j.Device.Message.{Message}
use openport_j.Device.Queue.{le32, rd_le32, header, read_message, header_size}

rd_le32-le32 : (v : ℕ) (s : Bytes) → v < 2 ^ 32 → rd_le32 (le32 v ++ s) ≡ v
unfolding rd_le32 le32
rd_le32-le32 v s h = omega arith

-- Every field fits 32 bits, and the data fits a message.
pub record IsU32 (m : Message) : Type 0 where
  pub protocol_id_lt : m.protocol_id < 2 ^ 32
  pub rx_status_lt : m.rx_status < 2 ^ 32
  pub tx_flags_lt : m.tx_flags < 2 ^ 32
  pub timestamp_lt : m.timestamp < 2 ^ 32
  pub extra_data_index_lt : m.extra_data_index < 2 ^ 32
  pub fits : length m.body ≤ msg_data_max

pub length-header : (m : Message) (size : ℕ) → length (header m size) ≡ header_size
unfolding header le32
length-header m size = refl

pub read_message-header :
    (m : Message) → IsU32 m → read_message (header m (length m.body)) m.body ≡ m
unfolding read_message header le32 rd_le32
read_message-header m v = ground arith

pub size-header :
    (m : Message) → IsU32 m → rd_le32 (drop 16 (header m (length m.body))) ≡ length m.body
unfolding header le32 rd_le32
size-header m v = omega arith
