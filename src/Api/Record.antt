-- ===== src/Api/Record.antt =====
-- The recording of the application's calls in src/op_j2534.c: `rec_hex`, `rec_msg`, `rec_msgs` and
-- `rec_line`, as the text that goes to the file.
use openport_j.Base.{
  ℕ, ◌+◌, ◌-◌, ◌/◌, ◌%◌, List, [], ◌∷◌, ◌++◌, Option, none, some, Bytes, codes, ltb, if◌then◌else◌,
  take, map, min, ◌==◌,
}
use openport_j.Codes.{msg_data_max}
use openport_j.Device.Message.{Message}
use openport_j.Proto.Print.{decimal, spaced}

-- A lower-case hexadecimal digit.
abbrev pub hex_digit : ℕ → ℕ
hex_digit d = if ltb d 10 then b'0' + d else b'a' + (d - 10)

-- "%02x" of each byte.
unfoldable pub hex : Bytes → Bytes
hex [] = []
hex (b ∷ s) = hex_digit (b / 16) ∷ hex_digit (b % 16) ∷ hex s

unfoldable pub rec_hex : Bytes → Bytes
rec_hex [] = b'-' ∷ []
rec_hex (b ∷ s) = hex (b ∷ s)

-- A message, `none` for NULL; its data is cut at the size of `Data`.
unfoldable pub rec_msg : Option Message → Bytes
rec_msg none = b' ' ∷ b'-' ∷ b' ' ∷ b'-' ∷ b' ' ∷ b'-' ∷ []
rec_msg (some m) =
    b' '
    ∷ (decimal m.protocol_id
        ++ (b' ' ∷ (decimal m.tx_flags ++ (b' ' ∷ rec_hex (take msg_data_max m.body)))))

-- The messages behind the head of a line, and the end of the line.
unfoldable pub rec_each : List (Option Message) → Bytes
rec_each [] = b'\n' ∷ []
rec_each (m ∷ ms) = rec_msg m ++ rec_each ms

-- The messages of an array that are recorded, `none` for NULL: the first `n`, and at most 64.
abbrev pub recorded_of : Option (List Message) → ℕ → List (Option Message)
recorded_of none n = []
recorded_of (some ms) n = map some (take (min n 64) ms)

unfoldable pub rec_msgs : Bytes → Option (List Message) → ℕ → Bytes
rec_msgs head ms n = head ++ rec_each (recorded_of ms n)

-- A verb and "%lu" for each number.
unfoldable pub rec_line : Bytes → List ℕ → Bytes
rec_line verb ns = verb ++ (spaced ns ++ (b'\n' ∷ []))

-- `snprintf(head, sizeof head, …)` with 64 bytes.
abbrev pub head_text : Bytes → List ℕ → Bytes
head_text verb ns = take 63 (verb ++ spaced ns)

-- What a pointer to a number stands for, 0 where it is NULL.
abbrev pub or_zero : Option ℕ → ℕ
or_zero none = 0
or_zero (some n) = n

-- The line of PassThruWriteMsgs: channel, number of messages, timeout, and the messages.
unfoldable pub rec_write : ℕ → Option ℕ → ℕ → Option (List Message) → Bytes
rec_write channel num timeout ms =
    rec_msgs (head_text (codes "write") (channel ∷ or_zero num ∷ timeout ∷ [])) ms (or_zero num)

abbrev pub alone : Option Message → Option (List Message)
alone none = none
alone (some m) = some (m ∷ [])

-- The line of PassThruStartPeriodicMsg.
unfoldable pub rec_startp : ℕ → Option Message → ℕ → Bytes
rec_startp channel m interval =
    rec_msgs (head_text (codes "startp") (channel ∷ interval ∷ [])) (alone m) 1

-- The line of PassThruStartMsgFilter.
unfoldable pub rec_filter : ℕ → ℕ → Option Message → Option Message → Option Message → Bytes
rec_filter channel filter_type mask pattern flow =
    codes "filter" ++ (spaced (channel ∷ filter_type ∷ []) ++ rec_each (mask ∷ pattern ∷ flow ∷ []))

-- " %lu=%lu" for each parameter.
unfoldable pub rec_pairs : List (ℕ × ℕ) → Bytes
rec_pairs [] = b'\n' ∷ []
rec_pairs ((parameter, value) ∷ cfg) =
    b' ' ∷ ((decimal parameter ++ (b'=' ∷ decimal value)) ++ rec_pairs cfg)

abbrev pub without_values : List (ℕ × ℕ) → List (ℕ × ℕ)
without_values [] = []
without_values ((parameter, value) ∷ cfg) = (parameter, 0) ∷ without_values cfg

-- The parameters that are recorded: 32 at most, and for GET_CONFIG (1) without their values. The
-- input is `none` where it is NULL or no list.
abbrev pub recorded_pairs : ℕ → Option (List (ℕ × ℕ)) → List (ℕ × ℕ)
recorded_pairs ioctl none = []
recorded_pairs ioctl (some cfg) =
    if ioctl == 2 then take 32 cfg else if ioctl == 1 then without_values (take 32 cfg) else []

-- The line of PassThruIoctl.
unfoldable pub rec_ioctl : ℕ → ℕ → Option (List (ℕ × ℕ)) → Bytes
rec_ioctl channel ioctl input =
    codes "ioctl" ++ (spaced (channel ∷ ioctl ∷ []) ++ rec_pairs (recorded_pairs ioctl input))

-- The calls of an application, with the inputs that are recorded.
pub data Call : Type 0 where
  app_open : Call
  app_close : ℕ → Call
  app_connect : ℕ → ℕ → ℕ → ℕ → Call
  app_disconnect : ℕ → Call
  app_read_msgs : ℕ → Option ℕ → ℕ → Call
  app_write_msgs : ℕ → Option (List Message) → Option ℕ → ℕ → Call
  app_start_periodic_msg : ℕ → Option Message → ℕ → Call
  app_stop_periodic_msg : ℕ → ℕ → Call
  app_start_msg_filter : ℕ → ℕ → Option Message → Option Message → Option Message → Call
  app_stop_msg_filter : ℕ → ℕ → Call
  app_set_programming_voltage : ℕ → ℕ → ℕ → Call
  app_read_version : ℕ → Call
  app_get_last_error : Call
  app_ioctl : ℕ → ℕ → Option (List (ℕ × ℕ)) → Call

-- The line that each entry point writes before it does anything else.
unfoldable pub recorded : Call → Bytes
recorded app_open = rec_line (codes "open") []
recorded (app_close dev) = rec_line (codes "close") (dev ∷ [])
recorded (app_connect dev protocol flags baud) =
    rec_line (codes "connect") (dev ∷ protocol ∷ flags ∷ baud ∷ [])
recorded (app_disconnect ch) = rec_line (codes "disconnect") (ch ∷ [])
recorded (app_read_msgs ch num timeout) = rec_line (codes "read") (ch ∷ or_zero num ∷ timeout ∷ [])
recorded (app_write_msgs ch ms num timeout) = rec_write ch num timeout ms
recorded (app_start_periodic_msg ch m interval) = rec_startp ch m interval
recorded (app_stop_periodic_msg ch id) = rec_line (codes "stopp") (ch ∷ id ∷ [])
recorded (app_start_msg_filter ch filter_type mask pattern flow) =
    rec_filter ch filter_type mask pattern flow
recorded (app_stop_msg_filter ch id) = rec_line (codes "stopf") (ch ∷ id ∷ [])
recorded (app_set_programming_voltage dev pin_number voltage) =
    rec_line (codes "progv") (dev ∷ pin_number ∷ voltage ∷ [])
recorded (app_read_version dev) = rec_line (codes "version") (dev ∷ [])
recorded app_get_last_error = rec_line (codes "lasterr") []
recorded (app_ioctl ch ioctl input) = rec_ioctl ch ioctl input

-- The line of a call that has handed out an id.
unfoldable pub rec_result : ℕ → Bytes
rec_result id = rec_line (b'=' ∷ []) (id ∷ [])
