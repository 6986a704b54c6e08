-- ===== src/Proto/Decode/TextWire.antt =====
-- `op_parse` undoes the text replies of src/op_proto.h, field by field.
use openport_j.Base.{ℕ, List, ◌∷◌, ◌++◌, Bytes}
use openport_j.Proto.Reply.{Reply}
use openport_j.Proto.Print.{decimal, spaced, crlf}

-- The fields of a reply behind its verb: a channel with more fields, or all behind spaces.
abbrev pub on_channel : ℕ → List ℕ → Bytes
on_channel ch ns = decimal ch ++ spaced ns

-- "ar", the verb, the fields, CR LF.
abbrev pub wire_line : ℕ → Bytes → Bytes
wire_line verb l = b'a' ∷ b'r' ∷ verb ∷ (l ++ crlf)
