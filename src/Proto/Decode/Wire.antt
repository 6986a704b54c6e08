-- ===== src/Proto/Decode/Wire.antt =====
-- `op_parse` undoes the wire forms of src/op_proto.h: what the device sends is what it reads.
use openport_j.Base.{
  ◌⊎◌, ℕ, zero, suc, ◌+◌, ◌/◌, ◌%◌, ◌^◌, ◌<◌, ◌≡◌, ◌≢◌, refl, ◌∙◌, List, [], ◌∷◌, ◌++◌, Bytes,
  arith, some, length, length-append, take-length,
}
use openport_j.Base.All.{All, All-append}
use openport_j.Proto.Number.{is_digit}
use openport_j.Proto.Reply.{blank, frame}
use openport_j.Proto.Print.{digits_before, decimal, spaced}
use openport_j.Proto.Decode.{
  rd_be32, frame_has_timestamp, parse_frame, parse_binary, split_line, parse,
}

-- The four bytes of a timestamp, the highest first.
abbrev pub be32 : ℕ → Bytes
be32 t = (t / 2 ^ 24) ∷ (t / 2 ^ 16 % 256) ∷ (t / 2 ^ 8 % 256) ∷ (t % 256) ∷ []

rd_be32-be32 : (t : ℕ) (s : Bytes) → t < 2 ^ 32 → rd_be32 (be32 t ++ s) ≡ t
unfolding rd_be32
rd_be32-be32 t s h = omega arith

-- A frame on channel `ch` whose body, behind the status byte, is `body`.
abbrev pub wire_frame : ℕ → ℕ → Bytes → Bytes
wire_frame ch status body = b'a' ∷ b'r' ∷ (b'0' + ch) ∷ suc (length body) ∷ status ∷ body

parse-wire_frame :
    (ch status : ℕ) (body rest : Bytes)
    → ch < 10
    → parse (wire_frame ch status body ++ rest)
      ≡ parse_frame (b'0' + ch) (suc (length body)) (status ∷ body)
unfolding parse parse_binary is_digit
parse-wire_frame ch status body rest h =
    ground (arith, length-append body rest, take-length body rest)

parse_frame-can :
    (ch status t : ℕ) (data' : Bytes)
    → (ch ≡ 5) ⊎ (ch ≡ 6)
    → t < 2 ^ 32
    → parse_frame (b'0' + ch) (suc (length (be32 t ++ data'))) (status ∷ (be32 t ++ data')) ≡ (
      length data' + 9,
      record (blank frame) { channel = ch; status = status; timestamp_us = t; body = some data' },
    )
unfolding parse_frame frame_has_timestamp
parse_frame-can ch status t data' c h = ground (arith, rd_be32-be32 t data' h)

-- A CAN or ISO 15765 frame is read as its channel, status, timestamp and data, whatever follows
-- it in the buffer, and exactly its own bytes are consumed.
pub parse-can_frame :
    (ch status t : ℕ) (data' rest : Bytes)
    → (ch ≡ 5) ⊎ (ch ≡ 6)
    → t < 2 ^ 32
    → parse (wire_frame ch status (be32 t ++ data') ++ rest) ≡ (
      length data' + 9,
      record (blank frame) { channel = ch; status = status; timestamp_us = t; body = some data' },
    )
parse-can_frame ch status t data' rest c h =
    parse-wire_frame ch status (be32 t ++ data') rest (ground arith)
    ∙ parse_frame-can ch status t data' c h

-- A text without CR ends at the first CR LF.
abbrev pub NoCr : Bytes → Type 0
NoCr = All (λ c. c ≢ b'\r')

pub split_line-NoCr :
    (l rest : Bytes) → NoCr l → split_line (l ++ (b'\r' ∷ b'\n' ∷ rest)) ≡ some (l, rest)
unfolding split_line
split_line-NoCr [] rest h = refl
split_line-NoCr (c ∷ []) rest (hc, h) = ground arith
split_line-NoCr (c ∷ d ∷ l) rest (hc, h) = ground (arith, split_line-NoCr (d ∷ l) rest h)

digits_before-NoCr : (fuel n : ℕ) (out : Bytes) → NoCr out → NoCr (digits_before fuel n out)
unfolding digits_before
digits_before-NoCr zero n out h = h
digits_before-NoCr (suc fuel) n out h =
    ground (arith, digits_before-NoCr fuel (n / 10) ((b'0' + n % 10) ∷ out) (omega arith, h))

pub decimal-NoCr : (n : ℕ) → NoCr (decimal n)
unfolding decimal
decimal-NoCr n = digits_before-NoCr 20 n [] tt

pub spaced-NoCr : (ns : List ℕ) → NoCr (spaced ns)
unfolding spaced
spaced-NoCr [] = tt
spaced-NoCr (n ∷ ns) =
    (omega arith, All-append _ (decimal n) (spaced ns) (decimal-NoCr n) (spaced-NoCr ns))
