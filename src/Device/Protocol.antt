-- ===== src/Device/Protocol.antt =====
-- `op_status_to_j2534`, `op_protocol_channel` and `op_protocol_base` of src/op_device.c.
use openport_j.Base.{ℕ, Option, none, some, ◌||◌, ◌==◌, if◌then◌else◌}
use openport_j.Codes.{
  iso9141, iso14230, can, iso15765, can_ch1, iso9141_ch1, iso9141_ch2, iso9141_ch3, iso14230_ch1,
  iso14230_ch2, iso15765_ch1, status_noerror, err_timeout, err_device_not_connected,
  err_device_in_use, err_null_parameter, err_buffer_overflow, err_failed, OpStatus, fine, timeout,
  io, no_device, access, mass_storage, param, overflow, protocol, stalled,
}

unfoldable pub status_to_j2534 : OpStatus → ℕ
status_to_j2534 fine = status_noerror
status_to_j2534 timeout = err_timeout
status_to_j2534 no_device = err_device_not_connected
status_to_j2534 mass_storage = err_device_not_connected
status_to_j2534 access = err_device_in_use
status_to_j2534 param = err_null_parameter
status_to_j2534 overflow = err_buffer_overflow
status_to_j2534 io = err_failed
status_to_j2534 protocol = err_failed
status_to_j2534 stalled = err_device_not_connected

-- `none` stands for -1.
unfoldable pub protocol_channel : ℕ → Option ℕ
protocol_channel p =
    if p == iso9141 || p == iso9141_ch1
    then some 3
    else if p == iso14230 || p == iso14230_ch1
    then some 4
    else if p == can || p == can_ch1
    then some 5
    else if p == iso15765 || p == iso15765_ch1
    then some 6
    else if p == iso9141_ch2
    then some 7
    else if p == iso14230_ch2
    then some 8
    else if p == iso9141_ch3
    then some 9
    else none

unfoldable pub protocol_base : ℕ → ℕ
protocol_base p =
    if p == iso9141_ch1 || p == iso9141_ch2 || p == iso9141_ch3
    then iso9141
    else if p == iso14230_ch1 || p == iso14230_ch2
    then iso14230
    else if p == can_ch1
    then can
    else if p == iso15765_ch1
    then iso15765
    else p
