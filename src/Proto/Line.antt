-- ===== src/Proto/Line.antt =====
-- `parse_ascii` of src/op_proto.c: a text reply whose bytes behind "ar" and before CR LF are given.
-- Each `case` of the C switch is a function into `Option`; where the C code returns early, with
-- the kind still OP_REPLY_JUNK, it is `none`.
use openport_j.Base.{
  ℕ, not, [], ◌∷◌, Option, none, some, Bytes, ltb, ◌==◌, if◌then◌else◌, length, get_or,
}
use openport_j.Proto.Number.{parse_u32, skip_spaces, parse_tail}
use openport_j.Proto.Reply.{
  Reply, blank, ok, error, info, pin, filter, config, init, periodic, junk,
}

infixl 5 ◌>>=◌
abbrev pub ◌>>=◌ {ℓ κ} : {A : Type ℓ} {B : Type κ} → Option A → (A → Option B) → Option B
none >>= f = none
some a >>= f = f a

-- `i += skip_spaces(…); got = parse_u32(…);`
unfoldable pub field : Bytes → Option (ℕ × Bytes)
field s = parse_u32 (skip_spaces s)

-- `aro [<seq>]`
unfoldable pub parse_ok : Bytes → Option Reply
parse_ok s = some (record (blank ok) { tail = parse_tail s })

-- `are <code> [<detail>] [<seq>]`
unfoldable pub parse_error : Bytes → Option Reply
parse_error s = field s >>= λ (code, s1).
    let ts = parse_tail s1 in
    some (record (blank error) {
      error_code = code;
      tail = ts;
      has_detail = not (length ts == 0);
      detail = if length ts == 0 then 0 else get_or ts 0 0;
    })

-- `ari <text>`
unfoldable pub parse_info : Bytes → Option Reply
parse_info s = some (record (blank info) { text = some (skip_spaces s) })

-- `arr <pin> <millivolts>`
unfoldable pub parse_pin : Bytes → Option Reply
parse_pin s = do
  (p, s1) ← field s
  (mv, s2) ← field s1
  some (record (blank pin) { a = p; b = mv; tail = parse_tail s2 })

-- `arm<ch> <msg_id> [<seq>]`
unfoldable pub parse_periodic : Bytes → Option Reply
parse_periodic s = do
  (ch, s1) ← parse_u32 s
  (id, s2) ← field s1
  some (record (blank periodic) { channel = ch; a = id; tail = parse_tail s2 })

-- `arf<ch> <filter_id> <detail>`
unfoldable pub parse_filter : Bytes → Option Reply
parse_filter s = do
  (ch, s1) ← parse_u32 s
  (id, s2) ← field s1
  some (record (blank filter) { channel = ch; a = id; tail = parse_tail s2 })

-- `arg<ch> <param> <value> …`
unfoldable pub parse_config : Bytes → Option Reply
parse_config s = do
  (ch, s1) ← parse_u32 s
  (param, s2) ← field s1
  (value, s3) ← field s2
  some (record (blank config) { channel = ch; a = param; b = value; tail = parse_tail s3 })

-- `ary<ch> <len>`; the raw bytes behind the line are `Decode.parse`'s.
unfoldable pub parse_fast : Bytes → Option Reply
parse_fast s = do
  (ch, s1) ← parse_u32 s
  (count, s2) ← field s1
  (if ltb 255 count
      then none
      else some (record (blank init) { channel = ch; a = count; tail = parse_tail s2 }))

-- `arw<ch> <b> <b> … [<seq>]`
unfoldable pub parse_five : Bytes → Option Reply
parse_five s = do
  (ch, s1) ← parse_u32 s
  some (record (blank init) { channel = ch; tail = parse_tail s1 })

unfoldable pub parse_verb : ℕ → Bytes → Option Reply
parse_verb verb s =
    if verb == b'o'
    then parse_ok s
    else if verb == b'e'
    then parse_error s
    else if verb == b'i'
    then parse_info s
    else if verb == b'r'
    then parse_pin s
    else if verb == b'm'
    then parse_periodic s
    else if verb == b'f'
    then parse_filter s
    else if verb == b'g'
    then parse_config s
    else if verb == b'y'
    then parse_fast s
    else if verb == b'w'
    then parse_five s
    else none

unfoldable pub parse_ascii : Bytes → Reply
parse_ascii [] = blank junk
parse_ascii (verb ∷ s) = elim (parse_verb verb s) [ none ↦ blank junk | some r ↦ r ]
