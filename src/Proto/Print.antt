-- ===== src/Proto/Print.antt =====
-- What `vsnprintf` writes for the conversions that src/op_proto.c uses, and `emit`.
pub mod ReadBack
pub mod Fields
use openport_j.Base.{
  ℕ, zero, suc, ◌+◌, ◌-◌, ◌/◌, ◌%◌, ◌^◌, List, [], ◌∷◌, ◌++◌, Bytes, ltb, ◌==◌, if◌then◌else◌,
  length,
}

-- The decimal digits of `n` in front of `out`, on fuel.
unfoldable pub digits_before : ℕ → ℕ → Bytes → Bytes
digits_before zero n out = out
digits_before (suc fuel) n out =
    let rest = digits_before fuel (n / 10) ((b'0' + n % 10) ∷ out) in
    if n / 10 == 0 then (b'0' + n % 10) ∷ out else rest

-- `%u`, `%lu` and `%zu`: a 64-bit number has at most twenty digits.
unfoldable pub decimal : ℕ → Bytes
decimal n = digits_before 20 n []

-- `%ld` of `(long)(int32_t)(uint32_t)v`.
unfoldable pub signed_decimal : ℕ → Bytes
signed_decimal v =
    let w = v % 2 ^ 32 in if ltb w (2 ^ 31) then decimal w else b'-' ∷ decimal (2 ^ 32 - w)

-- Each number behind a space.
unfoldable pub spaced : List ℕ → Bytes
spaced [] = []
spaced (n ∷ ns) = b' ' ∷ (decimal n ++ spaced ns)

abbrev pub crlf : Bytes
crlf = b'\r' ∷ b'\n' ∷ []

-- `emit`: the empty line stands for a return value of 0, which is a line that does not fit.
unfoldable pub emit : ℕ → Bytes → Bytes
emit out_sz line = if ltb (length line) out_sz then line else []
