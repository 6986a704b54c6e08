-- ===== src/Device/Message.antt =====
-- PASSTHRU_MSG as the driver builds it: `Data[0 .. DataSize)` is `body`, and DataSize its length.
use openport_j.Base.{ℕ, [], Bytes}

pub record Message : Type 0 where
  pub protocol_id : ℕ
  pub rx_status : ℕ
  pub tx_flags : ℕ
  pub timestamp : ℕ
  pub extra_data_index : ℕ
  pub body : Bytes

-- `memset(m, 0, sizeof *m)`
abbrev pub empty_message : Message
empty_message = record {
  protocol_id = 0;
  rx_status = 0;
  tx_flags = 0;
  timestamp = 0;
  extra_data_index = 0;
  body = [];
}
