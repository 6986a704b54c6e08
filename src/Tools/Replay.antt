-- ===== src/Tools/Replay.antt =====
-- The replay of a recording by tools/ab-official/j2534_trace.c: its numbers, its messages and its
-- map of ids.
pub mod Numbers
pub mod Tokens
pub mod Messages
pub mod Maps
pub mod Lines
pub mod Heads
pub mod Parameters
pub mod Recorded
pub mod Inputs
pub mod Calls
pub mod Ids
use openport_j.Base.{
  ℕ, zero, suc, ◌+◌, ◌-◌, ◌*◌, ◌^◌, Bool, true, false, not, ◌&&◌, ◌||◌, List, [], ◌∷◌, ◌++◌, Option,
  none, some, Bytes, min, ltb, leb, ◌==◌, if◌then◌else◌, length,
}
use openport_j.Codes.{msg_data_max}
use openport_j.Device.Message.{Message}
use openport_j.Proto.Number.{is_digit}

-- " \t\r\n", the separators of strtok_r.
abbrev pub is_separator : ℕ → Bool
is_separator c = c == b' ' || c == b'\t' || c == b'\r' || c == b'\n'

abbrev pub flush : Bytes → List Bytes → List Bytes
flush [] rest = rest
flush (b ∷ word) rest = (b ∷ word) ∷ rest

-- The tokens that strtok_r hands out one after the other; `word` is the one that has begun.
unfoldable pub tokens : Bytes → Bytes → List Bytes
tokens word [] = flush word []
tokens word (c ∷ s) = elim (is_separator c) [
  | true ↦ flush word (tokens [] s)
  | false ↦ tokens (word ++ (c ∷ [])) s
]

-- The value of the digits in front, behind those that were `v`.
unfoldable pub digits_value : ℕ → Bytes → ℕ
digits_value v [] = v
digits_value v (c ∷ s) =
    let rest = digits_value (v * 10 + (c - b'0')) s in if is_digit c then rest else v

-- strtoul to base 10 of a token without a sign, as every recorded one is.
unfoldable pub strtoul : Bytes → ℕ
strtoul s = min (digits_value 0 s) (2 ^ 64 - 1)

-- The value of a hexadecimal digit, in either case.
unfoldable pub hex_value : ℕ → Option ℕ
hex_value c =
    if is_digit c
    then some (c - b'0')
    else if leb b'a' c && leb c b'f'
    then some (c - b'a' + 10)
    else if leb b'A' c && leb c b'F'
    then some (c - b'A' + 10)
    else none

-- sscanf "%2x": two digits or one.
abbrev pub hex_pair : Option ℕ → Option ℕ → Option ℕ
hex_pair none low = none
hex_pair (some h) none = some h
hex_pair (some h) (some l) = some (h * 16 + l)

abbrev pub then_bytes : Option ℕ → Bytes → Bytes
then_bytes none rest = []
then_bytes (some v) rest = v ∷ rest

-- The loop, with room for `cap` more bytes.
unfoldable pub hex_loop : ℕ → Bytes → Bytes
hex_loop zero s = []
hex_loop (suc cap) [] = []
hex_loop (suc cap) (h ∷ []) = []
hex_loop (suc cap) (h ∷ l ∷ s) = then_bytes (hex_pair (hex_value h) (hex_value l)) (hex_loop cap s)

abbrev pub is_dash : Bytes → Bool
is_dash (c ∷ []) = c == b'-'
is_dash _ = false

unfoldable pub hex_to_bytes : ℕ → Bytes → Bytes
hex_to_bytes cap s = if is_dash s then [] else hex_loop cap s

-- The array `msgs`, which keeps its contents from line to line.
abbrev pub Slots : Type 0
Slots = ℕ → Message

abbrev pub put_slot : Slots → ℕ → Message → Slots
put_slot slots n m i = if i == n then m else slots i

unfoldable pub parsed_msg : Bytes → Bytes → Bytes → Message
parsed_msg proto flags hex = record {
  protocol_id = strtoul proto;
  rx_status = 0;
  tx_flags = strtoul flags;
  timestamp = 0;
  extra_data_index = 0;
  body = hex_to_bytes msg_data_max hex;
}

-- `parse_msgs` with `left` messages left to its limit and `n` behind it: the array and the count. A
-- NULL message is counted and its slot not written.
unfoldable pub parse_msgs : ℕ → ℕ → List Bytes → Slots → Slots × ℕ
parse_msgs zero n ts slots = (slots, n)
parse_msgs (suc left) n (proto ∷ flags ∷ hex ∷ ts) slots =
    parse_msgs left (n + 1) ts
      (if is_dash proto then slots else put_slot slots n (parsed_msg proto flags hex))
parse_msgs (suc left) n ts slots = (slots, n)
