-- ===== src/Proto/Number.antt =====
-- Decimal fields of a text reply: `is_digit`, `parse_u32`, `skip_spaces` and `parse_tail` of
-- src/op_proto.c. The cursor `i` of the C code is the list of the bytes from there on, so
-- `body + i, n - i` is one argument; `parse_u32` returns the number with the bytes behind it,
-- and `none` where the C function returns 0 bytes consumed.
use openport_j.Base.{
  ℕ, zero, suc, ◌+◌, ◌-◌, ◌*◌, Bool, true, false, ◌&&◌, List, [], ◌∷◌, ◌++◌, Option, none, some,
  Bytes, ltb, leb, ◌==◌, if◌then◌else◌, length,
}

abbrev pub u32_max : ℕ
u32_max = 0xffff_ffff

unfoldable pub is_digit : ℕ → Bool
is_digit c = leb b'0' c && leb c b'9'

-- `if (v > 0xFFFFFFFFu) v = 0xFFFFFFFFu;`
unfoldable pub saturate : ℕ → ℕ
saturate v = if ltb u32_max v then u32_max else v

-- The loop of `parse_u32`, from the value so far.
unfoldable pub digits_from : Bytes → ℕ → ℕ × Bytes
digits_from [] v = (v, [])
digits_from (c ∷ s) v = elim (is_digit c) [
  | true ↦ digits_from s (saturate (v * 10 + (c - b'0')))
  | false ↦ (v, c ∷ s)
]

unfoldable pub parse_u32 : Bytes → Option (ℕ × Bytes)
parse_u32 [] = none
parse_u32 (c ∷ s) = if is_digit c then some (digits_from (c ∷ s) 0) else none

unfoldable pub skip_spaces : Bytes → Bytes
skip_spaces [] = []
skip_spaces (c ∷ s) = elim (c == b' ') [ true ↦ skip_spaces s | false ↦ c ∷ s ]

-- `sizeof out->tail / sizeof out->tail[0]`
abbrev pub tail_cap : ℕ
tail_cap = 8

-- `if (out->ntail < …) out->tail[out->ntail++] = v;`
unfoldable pub store_token : List ℕ → ℕ → List ℕ
store_token ts v = if ltb (length ts) tail_cap then ts ++ (v ∷ []) else ts

-- The endless loop of `parse_tail` on fuel; each round takes a digit at least.
unfoldable pub tail_from : ℕ → Bytes → List ℕ → List ℕ
tail_from zero s ts = ts
tail_from (suc fuel) s ts = elim (parse_u32 (skip_spaces s)) [
  | none ↦ ts
  | some (v, rest) ↦ tail_from fuel rest (store_token ts v)
]

unfoldable pub parse_tail : Bytes → List ℕ
parse_tail s = tail_from (suc (length s)) s []
