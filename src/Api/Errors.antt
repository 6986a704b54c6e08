-- ===== src/Api/Errors.antt =====
-- src/op_error.c and the functions of src/op_j2534.c that set the text of the last error. The state
-- is the text of one thread, empty after `op_err_clear`.
pub mod Names
use openport_j.Base.{
  ℕ, zero, suc, ◌+◌, Bool, true, false, not, ◌&&◌, List, [], ◌∷◌, ◌++◌, Option, none, some, Bytes,
  codes, ◌==◌, if◌then◌else◌, take,
}
use openport_j.Codes.{
  status_noerror, err_not_supported, err_invalid_channel_id, err_invalid_protocol_id,
  err_null_parameter, err_invalid_ioctl_value, err_invalid_flags, err_failed,
  err_device_not_connected, err_timeout, err_invalid_msg, err_invalid_time_interval,
  err_exceeded_limit, err_invalid_msg_id, err_device_in_use, err_invalid_ioctl_id, err_buffer_empty,
  err_buffer_full, err_buffer_overflow, err_pin_invalid, err_channel_in_use, err_msg_protocol_id,
  err_invalid_filter_id, err_no_flow_control, err_not_unique, err_invalid_baudrate,
  err_invalid_device_id, err_init_failed, err_oem_voltage_too_high, err_oem_voltage_too_low,
}
use openport_j.Proto.Print.{decimal}
use openport_j.Transport.Select.{same_bytes}

-- OP_ERR_TEXT_MAX
abbrev pub op_err_text_max : ℕ
op_err_text_max = 80

abbrev pub op_err_clear : Bytes
op_err_clear = []

abbrev pub op_err_is_set : Bytes → Bool
op_err_is_set [] = false
op_err_is_set (c ∷ text) = true

-- The text that was printed, as much of it as the buffer holds.
unfoldable pub op_err_set : Bytes → Bytes
op_err_set text = take 79 text

unfoldable pub op_err_get : Bytes → Bytes
op_err_get [] = codes "No error"
op_err_get (c ∷ text) = c ∷ text

-- The cases of `op_err_name`.
abbrev pub code_names : List (ℕ × Bytes)
code_names =
    (status_noerror, codes "STATUS_NOERROR")
    ∷ (err_not_supported, codes "ERR_NOT_SUPPORTED")
    ∷ (err_invalid_channel_id, codes "ERR_INVALID_CHANNEL_ID")
    ∷ (err_invalid_protocol_id, codes "ERR_INVALID_PROTOCOL_ID")
    ∷ (err_null_parameter, codes "ERR_NULL_PARAMETER")
    ∷ (err_invalid_ioctl_value, codes "ERR_INVALID_IOCTL_VALUE")
    ∷ (err_invalid_flags, codes "ERR_INVALID_FLAGS")
    ∷ (err_failed, codes "ERR_FAILED")
    ∷ (err_device_not_connected, codes "ERR_DEVICE_NOT_CONNECTED")
    ∷ (err_timeout, codes "ERR_TIMEOUT")
    ∷ (err_invalid_msg, codes "ERR_INVALID_MSG")
    ∷ (err_invalid_time_interval, codes "ERR_INVALID_TIME_INTERVAL")
    ∷ (err_exceeded_limit, codes "ERR_EXCEEDED_LIMIT")
    ∷ (err_invalid_msg_id, codes "ERR_INVALID_MSG_ID")
    ∷ (err_device_in_use, codes "ERR_DEVICE_IN_USE")
    ∷ (err_invalid_ioctl_id, codes "ERR_INVALID_IOCTL_ID")
    ∷ (err_buffer_empty, codes "ERR_BUFFER_EMPTY")
    ∷ (err_buffer_full, codes "ERR_BUFFER_FULL")
    ∷ (err_buffer_overflow, codes "ERR_BUFFER_OVERFLOW")
    ∷ (err_pin_invalid, codes "ERR_PIN_INVALID")
    ∷ (err_channel_in_use, codes "ERR_CHANNEL_IN_USE")
    ∷ (err_msg_protocol_id, codes "ERR_MSG_PROTOCOL_ID")
    ∷ (err_invalid_filter_id, codes "ERR_INVALID_FILTER_ID")
    ∷ (err_no_flow_control, codes "ERR_NO_FLOW_CONTROL")
    ∷ (err_not_unique, codes "ERR_NOT_UNIQUE")
    ∷ (err_invalid_baudrate, codes "ERR_INVALID_BAUDRATE")
    ∷ (err_invalid_device_id, codes "ERR_INVALID_DEVICE_ID")
    ∷ (err_init_failed, codes "ERR_INIT_FAILED")
    ∷ (err_oem_voltage_too_high, codes "ERR_OEM_VOLTAGE_TOO_HIGH")
    ∷ (err_oem_voltage_too_low, codes "ERR_OEM_VOLTAGE_TOO_LOW")
    ∷ []

unfoldable pub case_of : List (ℕ × Bytes) → ℕ → Option Bytes
case_of [] code = none
case_of ((known, name) ∷ cases) code = if code == known then some name else case_of cases code

abbrev pub or_unknown : Option Bytes → Bytes
or_unknown none = codes "ERR_UNKNOWN"
or_unknown (some name) = name

unfoldable pub op_err_name : ℕ → Bytes
op_err_name code = or_unknown (case_of code_names code)

-- What is printed of a code behind the call's name.
unfoldable pub told : Bytes → ℕ → Bytes
told name code =
    if same_bytes name (codes "ERR_UNKNOWN") then codes "error " ++ decimal code else name

-- A reason that is there is kept. The code is what is returned.
unfoldable pub fail : Bytes → ℕ → Bytes → Bytes × ℕ
fail [] code what = (op_err_set (what ++ (codes ": " ++ told (op_err_name code) code)), code)
fail (c ∷ text) code what = (c ∷ text, code)

unfoldable pub failed : Bytes → ℕ → Bytes → Bytes × ℕ
failed text code what = if code == status_noerror then (text, code) else fail text code what

-- The code and what is written to the caller's buffer, where there is one.
unfoldable pub pass_thru_get_last_error : Bytes → Bool → ℕ × Bytes
pass_thru_get_last_error text false = (err_null_parameter, [])
pass_thru_get_last_error text true = (status_noerror, take 79 (op_err_get text))
