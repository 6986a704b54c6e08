-- ===== src/Codes.antt =====
-- include/j2534/j2534.h: the numbers that the driver uses, and `op_status` of src/op_transport.h.
use openport_j.Base.{ℕ, Bool, true, false}

-- ProtocolID; the J2534-2 channel ids share firmware channels with these.
abbrev pub iso9141 : ℕ
iso9141 = 3

abbrev pub iso14230 : ℕ
iso14230 = 4

abbrev pub can : ℕ
can = 5

abbrev pub iso15765 : ℕ
iso15765 = 6

abbrev pub can_ch1 : ℕ
can_ch1 = 0x9000

abbrev pub iso9141_ch1 : ℕ
iso9141_ch1 = 0x9240

abbrev pub iso9141_ch2 : ℕ
iso9141_ch2 = 0x9241

abbrev pub iso9141_ch3 : ℕ
iso9141_ch3 = 0x9242

abbrev pub iso14230_ch1 : ℕ
iso14230_ch1 = 0x9320

abbrev pub iso14230_ch2 : ℕ
iso14230_ch2 = 0x9321

abbrev pub iso15765_ch1 : ℕ
iso15765_ch1 = 0x9400

-- Return values.
abbrev pub status_noerror : ℕ
status_noerror = 0x00

abbrev pub err_not_supported : ℕ
err_not_supported = 0x01

abbrev pub err_invalid_channel_id : ℕ
err_invalid_channel_id = 0x02

abbrev pub err_invalid_protocol_id : ℕ
err_invalid_protocol_id = 0x03

abbrev pub err_null_parameter : ℕ
err_null_parameter = 0x04

abbrev pub err_invalid_ioctl_value : ℕ
err_invalid_ioctl_value = 0x05

abbrev pub err_invalid_flags : ℕ
err_invalid_flags = 0x06

abbrev pub err_failed : ℕ
err_failed = 0x07

abbrev pub err_device_not_connected : ℕ
err_device_not_connected = 0x08

abbrev pub err_timeout : ℕ
err_timeout = 0x09

abbrev pub err_invalid_msg : ℕ
err_invalid_msg = 0x0A

abbrev pub err_invalid_time_interval : ℕ
err_invalid_time_interval = 0x0B

abbrev pub err_exceeded_limit : ℕ
err_exceeded_limit = 0x0C

abbrev pub err_invalid_msg_id : ℕ
err_invalid_msg_id = 0x0D

abbrev pub err_device_in_use : ℕ
err_device_in_use = 0x0E

abbrev pub err_invalid_ioctl_id : ℕ
err_invalid_ioctl_id = 0x0F

abbrev pub err_buffer_empty : ℕ
err_buffer_empty = 0x10

abbrev pub err_buffer_full : ℕ
err_buffer_full = 0x11

abbrev pub err_buffer_overflow : ℕ
err_buffer_overflow = 0x12

abbrev pub err_pin_invalid : ℕ
err_pin_invalid = 0x13

abbrev pub err_channel_in_use : ℕ
err_channel_in_use = 0x14

abbrev pub err_msg_protocol_id : ℕ
err_msg_protocol_id = 0x15

abbrev pub err_invalid_filter_id : ℕ
err_invalid_filter_id = 0x16

abbrev pub err_no_flow_control : ℕ
err_no_flow_control = 0x17

abbrev pub err_not_unique : ℕ
err_not_unique = 0x18

abbrev pub err_invalid_baudrate : ℕ
err_invalid_baudrate = 0x19

abbrev pub err_invalid_device_id : ℕ
err_invalid_device_id = 0x1A

abbrev pub err_init_failed : ℕ
err_init_failed = 0x21

abbrev pub err_j2534_highest : ℕ
err_j2534_highest = 0x27

abbrev pub err_oem_voltage_too_high : ℕ
err_oem_voltage_too_high = 0x77

abbrev pub err_oem_voltage_too_low : ℕ
err_oem_voltage_too_low = 0x78

-- RxStatus and TxFlags bits.
abbrev pub can_29bit_id : ℕ
can_29bit_id = 0x100

abbrev pub tx_msg_type : ℕ
tx_msg_type = 0x01

abbrev pub iso15765_first_frame : ℕ
iso15765_first_frame = 0x02

abbrev pub tx_done : ℕ
tx_done = 0x08

abbrev pub iso15765_addr_type : ℕ
iso15765_addr_type = 0x80

abbrev pub iso15765_frame_pad : ℕ
iso15765_frame_pad = 0x40

-- Pin voltages.
abbrev pub voltage_off : ℕ
voltage_off = 0xFFFF_FFFF

abbrev pub short_to_ground : ℕ
short_to_ground = 0xFFFF_FFFE

-- J2534_MSG_DATA_MAX, the size of a message's `Data`.
abbrev pub msg_data_max : ℕ
msg_data_max = 4128

-- `op_status`; `fine` is OP_OK.
pub data OpStatus : Type 0 where
  fine timeout io no_device access mass_storage param overflow protocol stalled : OpStatus

abbrev pub is_fine : OpStatus → Bool
is_fine fine = true
is_fine _ = false
