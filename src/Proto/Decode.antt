-- ===== src/Proto/Decode.antt =====
-- `op_parse`, `op_frame_has_timestamp`, `op_rd_be32` and `op_resync_offset` of src/op_proto.c.
-- The buffer is the list of its `len` bytes; `parse` returns the bytes consumed and the reply.
pub mod Bounds
pub mod Stream
pub mod Wire
pub mod TextWire
use openport_j.Base.{
  ℕ, ◌+◌, ◌-◌, ◌*◌, ◌^◌, Bool, ◌&&◌, ◌||◌, [], ◌∷◌, Option, none, some, Bytes, ltb, leb, ◌==◌,
  if◌then◌else◌, has_bit, length, take, drop, get_or,
}
use openport_j.Proto.Number.{is_digit}
use openport_j.Proto.Reply.{Reply, blank, incomplete, frame, junk, is_init}
use openport_j.Proto.Line.{parse_ascii}

-- OP_CMD_MAX, OP_FRAME_MAX, OP_MSG_MAX
abbrev pub cmd_max : ℕ
cmd_max = 64

abbrev pub frame_max : ℕ
frame_max = 4 + 255

abbrev pub msg_max : ℕ
msg_max = 4128

-- OP_STS_START, OP_STS_END, OP_STS_LOOPBACK, OP_STS_TX_IND, OP_STS_29BIT, OP_STS_EXT_ADDR
abbrev pub sts_start : ℕ
sts_start = 0x80

abbrev pub sts_end : ℕ
sts_end = 0x40

abbrev pub sts_loopback : ℕ
sts_loopback = 0x20

abbrev pub sts_tx_ind : ℕ
sts_tx_ind = 0x10

abbrev pub sts_29bit : ℕ
sts_29bit = 0x02

abbrev pub sts_ext_addr : ℕ
sts_ext_addr = 0x04

-- The four terms of the C disjunction have no bit in common, so their sum is their disjunction.
unfoldable pub rd_be32 : Bytes → ℕ
rd_be32 p = get_or p 0 0 * 2 ^ 24 + get_or p 1 0 * 2 ^ 16 + get_or p 2 0 * 2 ^ 8 + get_or p 3 0

unfoldable pub frame_has_timestamp : ℕ → ℕ → ℕ → Bool
frame_has_timestamp channel status body_len =
    if channel == 5 || channel == 6
    then leb 4 body_len
    else (has_bit status sts_start || has_bit status sts_end) && body_len == 4

-- A whole frame: its channel digit, the length byte, and the `frame_len` bytes behind it.
unfoldable pub parse_frame : ℕ → ℕ → Bytes → ℕ × Reply
parse_frame digit frame_len [] = (4 + frame_len, blank junk)
parse_frame digit frame_len (status ∷ body) =
    if frame_has_timestamp (digit - b'0') status (length body)
    then (
      4 + frame_len,
      record (blank frame) {
        channel = digit - b'0';
        status = status;
        timestamp_us = rd_be32 body;
        body = some (drop 4 body);
      },
    )
    else (
      4 + frame_len,
      record (blank frame) { channel = digit - b'0'; status = status; body = some body },
    )

-- The bytes behind "ar" and a digit.
unfoldable pub parse_binary : ℕ → Bytes → ℕ × Reply
parse_binary digit [] = (0, blank incomplete)
parse_binary digit (frame_len ∷ s) =
    if ltb (length s) frame_len
    then (0, blank incomplete)
    else parse_frame digit frame_len (take frame_len s)

-- The scan for CR LF: the bytes before the first one, and those behind it.
unfoldable pub split_line : Bytes → Option (Bytes × Bytes)
split_line [] = none
split_line (c ∷ []) = none
split_line (c ∷ d ∷ s) =
    if c == b'\r' && d == b'\n'
    then some ([], s)
    else elim (split_line (d ∷ s)) [ none ↦ none | some (l, rest) ↦ some (c ∷ l, rest) ]

-- A terminated line, with the bytes behind it: `ary` takes its raw bytes from those.
unfoldable pub parse_line : Bytes → Bytes → ℕ × Reply
parse_line l rest =
    let r = parse_ascii l in
    if is_init r.kind && get_or l 0 0 == b'y'
    then if ltb (length rest) r.a
      then (0, blank incomplete)
      else (length l + 4 + r.a, record r { body = some (take r.a rest) })
    else (length l + 4, r)

-- What the scan found in `len` bytes behind "ar".
unfoldable pub parse_scanned : ℕ → Option (Bytes × Bytes) → ℕ × Reply
parse_scanned len none =
    if ltb (cmd_max * 4) (len + 2) then (1, blank junk) else (0, blank incomplete)
parse_scanned len (some (l, rest)) = parse_line l rest

-- The bytes behind "ar", the first of them no digit.
unfoldable pub parse_text : Bytes → ℕ × Reply
parse_text s = parse_scanned (length s) (split_line s)

unfoldable pub parse : Bytes → ℕ × Reply
parse [] = (0, blank incomplete)
parse (c ∷ []) = if c == b'a' then (0, blank incomplete) else (1, blank junk)
parse (c ∷ d ∷ []) = if c == b'a' && d == b'r' then (0, blank incomplete) else (1, blank junk)
parse (c ∷ d ∷ e ∷ s) =
    if c == b'a' && d == b'r'
    then if is_digit e then parse_binary e s else parse_text (e ∷ s)
    else (1, blank junk)
