-- ===== src/Proto/Version.antt =====
-- `op_parse_version` of src/op_proto.c: the version in the text of an `ari` reply.
pub mod Last
use openport_j.Base.{
  ℕ, ◌-◌, Bool, false, ◌&&◌, ◌||◌, [], ◌∷◌, Option, none, some, Bytes, ltb, ◌==◌, if◌then◌else◌,
  length, take,
}
use openport_j.Proto.Number.{skip_spaces}

-- The text behind the last ": ", and what was found before, `none` for nothing.
unfoldable pub after_last_colon : Bytes → Option Bytes → Option Bytes
after_last_colon [] found = found
after_last_colon (c ∷ []) found = found
after_last_colon (c ∷ d ∷ s) found =
    after_last_colon (d ∷ s) (if c == b':' && d == b' ' then some s else found)

abbrev pub is_blank : ℕ → Bool
is_blank c = c == b'\r' || c == b'\n' || c == b' '

-- `while (n > 0 && …) n--;`
unfoldable pub trim_end : Bytes → Bytes
trim_end [] = []
trim_end (c ∷ s) = let t = trim_end s in if is_blank c && length t == 0 then [] else c ∷ t

-- The string written, and whether the function returns 1. With no delimiter the string is empty.
-- At most `out_sz - 1` bytes and a NUL are written.
unfoldable pub parse_version : Bytes → ℕ → Bytes × Bool
parse_version text out_sz = elim (after_last_colon text none) [
  | none ↦ ([], false)
  | some s ↦ let t = take (out_sz - 1) (trim_end (skip_spaces s)) in (t, ltb 0 (length t))
]
