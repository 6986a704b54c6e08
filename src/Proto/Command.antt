-- ===== src/Proto/Command.antt =====
-- The command encoders of src/op_proto.c. Each returns the line that it wrote; the empty line
-- stands for a return value of 0. `at verb` is the two letters "at" and the verb.
pub mod Numbering
pub mod Arguments
use openport_j.Base.{
  ℕ, ◌+◌, ◌-◌, Bool, true, false, not, ◌&&◌, ◌||◌, List, [], ◌∷◌, ◌++◌, Bytes, ltb, ◌==◌,
  if◌then◌else◌, length, take, get_or, codes,
}
use openport_j.Proto.Print.{decimal, signed_decimal, spaced, crlf, emit}
use openport_j.Proto.Decode.{msg_max}

-- The format strings: "at<verb>" with CR LF, "at<verb>%u" with more fields each behind a space,
-- and "at<verb>" with all fields behind spaces.
abbrev pub bare_line : ℕ → Bytes
bare_line verb = b'a' ∷ b't' ∷ verb ∷ crlf

abbrev pub channel_line : ℕ → ℕ → List ℕ → Bytes
channel_line verb ch args = b'a' ∷ b't' ∷ verb ∷ (decimal ch ++ (spaced args ++ crlf))

abbrev pub fields_line : ℕ → List ℕ → Bytes
fields_line verb args = b'a' ∷ b't' ∷ verb ∷ (spaced args ++ crlf)

unfoldable pub cmd_close_all : ℕ → Bytes
cmd_close_all out_sz = emit out_sz (bare_line b'a')

unfoldable pub cmd_reset : ℕ → Bytes
cmd_reset out_sz = emit out_sz (bare_line b'z')

unfoldable pub cmd_version : ℕ → Bytes
cmd_version out_sz = emit out_sz (bare_line b'i')

unfoldable pub cmd_open : ℕ → ℕ → ℕ → ℕ → Bytes
cmd_open out_sz proto flags baud = emit out_sz (channel_line b'o' proto (flags ∷ baud ∷ 0 ∷ []))

unfoldable pub cmd_close : ℕ → ℕ → Bytes
cmd_close out_sz ch = emit out_sz (channel_line b'c' ch [])

unfoldable pub cmd_read_pin : ℕ → ℕ → Bytes
cmd_read_pin out_sz pin = emit out_sz (fields_line b'r' (pin ∷ []))

unfoldable pub cmd_get_config : ℕ → ℕ → ℕ → Bytes
cmd_get_config out_sz ch param = emit out_sz (channel_line b'g' ch (param ∷ []))

unfoldable pub cmd_set_config : ℕ → ℕ → ℕ → ℕ → Bytes
cmd_set_config out_sz ch param value = emit out_sz (channel_line b's' ch (param ∷ value ∷ []))

unfoldable pub cmd_transmit : ℕ → ℕ → ℕ → ℕ → ℕ → Bytes
cmd_transmit out_sz ch payload_len txflags timeout_us =
    if payload_len == 0 || ltb msg_max payload_len
    then []
    else emit out_sz (channel_line b't' ch (payload_len ∷ txflags ∷ timeout_us ∷ []))

unfoldable pub cmd_filter : ℕ → ℕ → ℕ → ℕ → ℕ → Bytes
cmd_filter out_sz ch type txflags each_len =
    if each_len == 0 || ltb 255 each_len
    then []
    else emit out_sz (channel_line b'f' ch (type ∷ txflags ∷ each_len ∷ []))

unfoldable pub cmd_stop_filter : ℕ → ℕ → ℕ → Bytes
cmd_stop_filter out_sz ch filter_id = emit out_sz (channel_line b'k' ch (filter_id ∷ []))

-- "atk%u -1\r\n"
unfoldable pub cmd_clear_filters : ℕ → ℕ → Bytes
cmd_clear_filters out_sz ch =
    emit out_sz (b'a' ∷ b't' ∷ b'k' ∷ (decimal ch ++ (b' ' ∷ b'-' ∷ b'1' ∷ crlf)))

unfoldable pub cmd_clear_periodic : ℕ → ℕ → Bytes
cmd_clear_periodic out_sz ch = emit out_sz (channel_line b'l' ch [])

unfoldable pub cmd_periodic_start : ℕ → ℕ → ℕ → ℕ → ℕ → Bytes
cmd_periodic_start out_sz ch interval_us txflags payload_len =
    if payload_len == 0 || ltb msg_max payload_len
    then []
    else emit out_sz (channel_line b'm' ch (interval_us ∷ 0 ∷ txflags ∷ payload_len ∷ []))

unfoldable pub cmd_periodic_stop : ℕ → ℕ → ℕ → Bytes
cmd_periodic_stop out_sz ch msg_id = emit out_sz (channel_line b'n' ch (msg_id ∷ []))

unfoldable pub cmd_fast_init : ℕ → ℕ → ℕ → Bytes
cmd_fast_init out_sz ch payload_len =
    if ltb 255 payload_len then [] else emit out_sz (channel_line b'y' ch (payload_len ∷ 0 ∷ []))

unfoldable pub cmd_five_baud : ℕ → ℕ → ℕ → Bytes
cmd_five_baud out_sz ch address =
    if ltb 255 address then [] else emit out_sz (channel_line b'w' ch (address ∷ []))

-- `snprintf(line, sizeof line, "atv %lu %ld\r\n", …)` of src/op_j2534.c
unfoldable pub cmd_voltage : ℕ → ℕ → ℕ → Bytes
cmd_voltage out_sz pin voltage =
    emit out_sz
      (b'a' ∷ b't' ∷ b'v' ∷ (spaced (pin ∷ []) ++ (b' ' ∷ (signed_decimal voltage ++ crlf))))

-- A line shorter than three bytes ends in the C string's NUL, which reads as 0 here.
unfoldable pub cmd_is_numbered : Bytes → Bool
cmd_is_numbered line =
    get_or line 0 0 == b'a'
    && get_or line 1 0 == b't'
    && not (get_or line 2 0 == 0)
    && not (get_or line 2 0 == b'i')

-- `op_cmd_number` on a line of `length line` bytes: " <seq>" in front of its CR LF.
unfoldable pub cmd_number : Bytes → ℕ → ℕ → Bytes
cmd_number line out_sz seq =
    let len = length line in
    let tail = spaced (seq ∷ []) in
    if ltb len 4
      || not (get_or line (len - 2) 0 == b'\r' && get_or line (len - 1) 0 == b'\n')
      || ltb out_sz (len - 2 + length tail + 3)
    then []
    else take (len - 2) line ++ (tail ++ crlf)

-- PASS and BLOCK take two messages, FLOW_CONTROL three.
unfoldable pub filter_msg_count : ℕ → ℕ
filter_msg_count filter_type =
    if filter_type == 1 || filter_type == 2 then 2 else if filter_type == 3 then 3 else 0
