-- ===== src/Proto/Print/ReadBack.antt =====
-- The reader of decimal fields undoes the printer.
use native.Mathlib.Nat.{pow-suc}
use openport_j.Base.{
  ℕ, zero, suc, ◌+◌, ◌*◌, ◌/◌, ◌%◌, ◌^◌, ◌≤◌, ◌<◌, ◌≡◌, refl, true, false, [], ◌∷◌, ◌++◌, some,
  Bytes, arith, ◌==◌, ap, ◌∙◌, Bool-cases, inl, inr, ◌-◌, ==→eq,
}
use openport_j.Proto.Number.{u32_max, is_digit, saturate, digits_from, parse_u32, skip_spaces}
use openport_j.Proto.Print.{digits_before, decimal}

-- A text that does not go on with a digit.
abbrev pub Ends : Bytes → Type 0
Ends [] = Unit
Ends (c ∷ s) = is_digit c ≡ false

digits_from-Ends : (s : Bytes) (v : ℕ) → Ends s → digits_from s v ≡ (v, s)
unfolding digits_from
digits_from-Ends [] v h = refl
digits_from-Ends (c ∷ s) v h = ground arith

digit-is_digit : (d : ℕ) → d < 10 → is_digit (b'0' + d) ≡ true
unfolding is_digit
digit-is_digit d h = ground arith

-- One more digit.
digits_from-digit :
    (d v : ℕ) (s : Bytes)
    → d < 10
    → v * 10 + d ≤ u32_max
    → digits_from ((b'0' + d) ∷ s) v ≡ digits_from s (v * 10 + d)
unfolding digits_from is_digit saturate
digits_from-digit d v s h k = ground (arith, ap (digits_from s) (value h k))
  where
    value : d < 10 → v * 10 + d ≤ u32_max → v * 10 + (b'0' + d - b'0') ≡ v * 10 + d
    value h k = omega arith

digits_from-last :
    (n : ℕ) (s : Bytes) → n ≤ u32_max → digits_from ((b'0' + n % 10) ∷ s) (n / 10) ≡ digits_from s n
digits_from-last n s k =
    digits_from-digit (n % 10) (n / 10) s (omega arith) (omega arith)
    ∙ ap (digits_from s) (omega arith)

digits_from-digits_before :
    (fuel n : ℕ) (out rest : Bytes)
    → n < 10 ^ fuel
    → n ≤ u32_max
    → digits_from (digits_before fuel n out ++ rest) 0 ≡ digits_from (out ++ rest) n
unfolding digits_before
digits_from-digits_before zero n out rest h k = ap (digits_from (out ++ rest)) (omega arith)
digits_from-digits_before (suc fuel) n out rest h k = elim (Bool-cases (n / 10 == 0)) [
  | inl e ↦ rw e (
      ap (digits_from (((b'0' + n % 10) ∷ out) ++ rest)) (omega (arith, ==→eq (n / 10) 0 e))
      ∙ digits_from-last n (out ++ rest) k)
  | inr e ↦ rw e (
      digits_from-digits_before fuel (n / 10) ((b'0' + n % 10) ∷ out) rest
        (omega (arith, pow-suc 10 fuel)) (omega arith)
      ∙ digits_from-last n (out ++ rest) k)
]

-- The first byte is a digit.
abbrev pub StartsDigit : Bytes → Type 0
StartsDigit [] = ⊥
StartsDigit (c ∷ s) = is_digit c ≡ true

digits_before-StartsDigit :
    (fuel n : ℕ) (out : Bytes) → StartsDigit out → StartsDigit (digits_before fuel n out)
unfolding digits_before
digits_before-StartsDigit zero n out h = h
digits_before-StartsDigit (suc fuel) n out h = ground (
  arith,
  digits_before-StartsDigit fuel (n / 10) ((b'0' + n % 10) ∷ out),
  digit-is_digit (n % 10),
)

digits_before-suc-StartsDigit :
    (fuel n : ℕ) (out : Bytes) → StartsDigit (digits_before (suc fuel) n out)
unfolding digits_before
digits_before-suc-StartsDigit fuel n out = ground (
  arith,
  digits_before-StartsDigit fuel (n / 10) ((b'0' + n % 10) ∷ out),
  digit-is_digit (n % 10),
)

pub decimal-StartsDigit : (n : ℕ) → StartsDigit (decimal n)
unfolding decimal
decimal-StartsDigit n = digits_before-suc-StartsDigit 19 n []

parse_u32-StartsDigit :
    (s rest : Bytes) → StartsDigit s → parse_u32 (s ++ rest) ≡ some (digits_from (s ++ rest) 0)
unfolding parse_u32
parse_u32-StartsDigit [] rest h = absurd h
parse_u32-StartsDigit (c ∷ s) rest h = rw h

-- `parse_u32` reads back what was printed, up to the first byte that is no digit.
pub parse_u32-decimal :
    (n : ℕ) (rest : Bytes)
    → n ≤ u32_max
    → Ends rest
    → parse_u32 (decimal n ++ rest) ≡ some (n, rest)
unfolding decimal
parse_u32-decimal n rest k h = rw (
  parse_u32-StartsDigit (decimal n) rest (decimal-StartsDigit n),
  digits_from-digits_before 20 n [] rest (omega arith) k,
  digits_from-Ends rest n h,
)

pub skip_spaces-StartsDigit : (s rest : Bytes) → StartsDigit s → skip_spaces (s ++ rest) ≡ s ++ rest
unfolding skip_spaces is_digit
skip_spaces-StartsDigit [] rest h = absurd h
skip_spaces-StartsDigit (c ∷ s) rest h = ground arith

skip_spaces-decimal :
    (n : ℕ) (rest : Bytes) → skip_spaces (b' ' ∷ (decimal n ++ rest)) ≡ decimal n ++ rest
unfolding skip_spaces
skip_spaces-decimal n rest = skip_spaces-StartsDigit (decimal n) rest (decimal-StartsDigit n)

-- A field behind a space is read back.
pub parse_u32-spaced :
    (n : ℕ) (rest : Bytes)
    → n ≤ u32_max
    → Ends rest
    → parse_u32 (skip_spaces (b' ' ∷ (decimal n ++ rest))) ≡ some (n, rest)
parse_u32-spaced n rest k h = rw (skip_spaces-decimal n rest) (parse_u32-decimal n rest k h)
