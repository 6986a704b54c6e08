-- ===== src/Tests/Codec.antt =====
-- src/op_proto.c at concrete inputs.
use openport_j.Base.{ℕ, ◌≡◌, ◌≢◌, inl, refl, List, [], ◌∷◌, ◌++◌, some, Bytes, arith}
use openport_j.Proto.Reply.{blank, frame, ok}
use openport_j.Proto.Decode.{parse, parse_text, parse_scanned, split_line, parse_line}
use openport_j.Proto.Line.{parse_ascii, parse_verb, parse_ok}
use openport_j.Proto.Number.{
  tail_from, store_token, skip_spaces, parse_u32, digits_from, saturate, is_digit,
}
use openport_j.Proto.Decode.Stream.{parse-append}
use openport_j.Proto.Decode.Wire.{be32, wire_frame, parse-can_frame}
use openport_j.Proto.Number.{parse_tail}
use openport_j.Proto.Resync.{resync_offset, IsNext, resync_offset-IsNext}

-- "aro 300\r\n"
abbrev numbered_ok : Bytes
numbered_ok = b'a' ∷ b'r' ∷ b'o' ∷ b' ' ∷ b'3' ∷ b'0' ∷ b'0' ∷ b'\r' ∷ b'\n' ∷ []

parse-numbered_ok : parse numbered_ok ≡ (9, record (blank ok) { tail = 300 ∷ [] })
unfolding parse parse_text parse_scanned split_line parse_line parse_ascii parse_verb parse_ok
    parse_tail tail_from store_token skip_spaces parse_u32 digits_from saturate is_digit
parse-numbered_ok = refl

parse-append_example : parse (numbered_ok ++ numbered_ok) ≡ parse numbered_ok
parse-append_example = parse-append numbered_ok numbered_ok decided (inl (omega arith))
  where
    decided : (parse numbered_ok).0 ≢ 0
    decided = rw parse-numbered_ok (omega arith)

parse-can_frame_example : parse (wire_frame 5 0 (be32 7 ++ (1 ∷ 2 ∷ [])) ++ numbered_ok) ≡ (
  11,
  record (blank frame) { channel = 5; status = 0; timestamp_us = 7; body = some (1 ∷ 2 ∷ []) },
)
parse-can_frame_example = parse-can_frame 5 0 7 (1 ∷ 2 ∷ []) numbered_ok (inl refl) (omega arith)

resync_offset-IsNext_example :
    IsNext (numbered_ok ++ numbered_ok) 1 (resync_offset (0 ∷ (numbered_ok ++ numbered_ok)))
resync_offset-IsNext_example = resync_offset-IsNext 0 (numbered_ok ++ numbered_ok)

abbrev kline_data : Bytes
kline_data = 1 ∷ 2 ∷ []

abbrev seq : List ℕ
seq = 300 ∷ []
