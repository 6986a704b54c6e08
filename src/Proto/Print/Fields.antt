-- ===== src/Proto/Print/Fields.antt =====
-- A list of decimal fields: `parse_tail` undoes the printer, and what the fields take.
use native.Mathlib.Nat.{pow-suc}
use openport_j.Base.{
  ℕ, zero, suc, ◌+◌, ◌*◌, ◌/◌, ◌%◌, ◌^◌, ◌≤◌, ◌<◌, ◌≡◌, refl, sym, List, [], ◌∷◌, ◌++◌,
  append_assoc, some, none, Bytes, arith, length, length-append, append-nil, ap, ◌∙◌,
}
use openport_j.Base.All.{All}
use openport_j.Proto.Number.{
  u32_max, is_digit, parse_u32, skip_spaces, store_token, tail_from, parse_tail, tail_cap,
}
use openport_j.Proto.Print.{digits_before, decimal, spaced}
use openport_j.Proto.Print.ReadBack.{
  Ends, StartsDigit, decimal-StartsDigit, parse_u32-decimal, skip_spaces-StartsDigit,
  parse_u32-spaced,
}

pub spaced-Ends : (ns : List ℕ) (s : Bytes) → Ends s → Ends (spaced ns ++ s)
unfolding spaced is_digit
spaced-Ends [] s h = h
spaced-Ends (n ∷ ns) s h = refl

length-spaced : (ns : List ℕ) → length ns ≤ length (spaced ns)
unfolding spaced
length-spaced [] = omega arith
length-spaced (n ∷ ns) = omega (arith, length-append (decimal n) (spaced ns), length-spaced ns)

-- What `parse_tail` stops at: the end, or a byte that is neither a space nor a digit.
abbrev pub Stops : Bytes → Type 0
Stops s = Ends s × (parse_u32 (skip_spaces s) ≡ none)

tail_from_next :
    (fuel : ℕ) (s : Bytes) (ts : List ℕ) (v : ℕ) (rest : Bytes)
    → parse_u32 (skip_spaces s) ≡ some (v, rest)
    → tail_from (suc fuel) s ts ≡ tail_from fuel rest (store_token ts v)
unfolding tail_from
tail_from_next fuel s ts v rest e = rw (e, tail_from)

tail_from_end :
    (fuel : ℕ) (s : Bytes) (ts : List ℕ)
    → parse_u32 (skip_spaces s) ≡ none
    → tail_from (suc fuel) s ts ≡ ts
unfolding tail_from
tail_from_end fuel s ts e = rw (e, tail_from)

store_token_room : (ts : List ℕ) (n : ℕ) → length ts < tail_cap → store_token ts n ≡ ts ++ (n ∷ [])
unfolding store_token
store_token_room ts n h = ground arith

tail_from-spaced :
    (ns : List ℕ) (fuel : ℕ) (ts : List ℕ) (s : Bytes)
    → All (λ n. n ≤ u32_max) ns
    → length ns < fuel
    → length ts + length ns ≤ tail_cap
    → Stops s
    → tail_from fuel (spaced ns ++ s) ts ≡ ts ++ ns
unfolding spaced
tail_from-spaced ns zero ts s a f l h = absurd (omega arith)
tail_from-spaced [] (suc fuel) ts s a f l h = tail_from_end fuel s ts h.1 ∙ sym (append-nil ts)
tail_from-spaced (n ∷ ns) (suc fuel) ts s (an, ans) f l h =
    ap (λ r. tail_from (suc fuel) (b' ' ∷ r) ts) (append_assoc (decimal n) (spaced ns) s)
    ∙ tail_from_next fuel (b' ' ∷ (decimal n ++ (spaced ns ++ s))) ts n (spaced ns ++ s)
        (parse_u32-spaced n (spaced ns ++ s) an (spaced-Ends ns s h.0))
    ∙ ap (tail_from fuel (spaced ns ++ s)) (store_token_room ts n (omega arith))
    ∙ tail_from-spaced ns fuel (ts ++ (n ∷ [])) s ans (omega arith)
        (omega (arith, length-append ts (n ∷ []))) h
    ∙ append_assoc ts (n ∷ []) ns

-- `parse_tail` reads back up to eight printed numbers.
pub parse_tail-spaced :
    (ns : List ℕ) (s : Bytes)
    → All (λ n. n ≤ u32_max) ns
    → length ns ≤ tail_cap
    → Stops s
    → parse_tail (spaced ns ++ s) ≡ ns
unfolding parse_tail
parse_tail-spaced ns s a l h =
    tail_from-spaced ns (suc (length (spaced ns ++ s))) [] s a
      (omega (arith, length-append (spaced ns) s, length-spaced ns)) (omega arith) h

pub crlf-Stops : (s : Bytes) → Stops (b'\r' ∷ s)
unfolding skip_spaces parse_u32 is_digit
crlf-Stops s = (refl, refl)

pub nil-Stops : Stops []
unfolding skip_spaces parse_u32
nil-Stops = (tt, refl)

length-StartsDigit : (s : Bytes) → StartsDigit s → 0 < length s
length-StartsDigit [] h = absurd h
length-StartsDigit (c ∷ s) h = omega arith

length-decimal_pos : (n : ℕ) → 0 < length (decimal n)
length-decimal_pos n = length-StartsDigit (decimal n) (decimal-StartsDigit n)

-- `parse_tail` reads a first number with no space in front of it as well.
pub parse_tail-decimal :
    (n : ℕ) (ns : List ℕ) (s : Bytes)
    → All (λ n. n ≤ u32_max) (n ∷ ns)
    → length ns < tail_cap
    → Stops s
    → parse_tail (decimal n ++ (spaced ns ++ s)) ≡ n ∷ ns
unfolding parse_tail
parse_tail-decimal n ns s (an, ans) l h =
    tail_from_next _ (decimal n ++ (spaced ns ++ s)) [] n (spaced ns ++ s) (
      ap parse_u32 (skip_spaces-StartsDigit (decimal n) _ (decimal-StartsDigit n))
      ∙ parse_u32-decimal n _ an (spaced-Ends ns s h.0))
    ∙ ap (tail_from _ (spaced ns ++ s)) (store_token_room [] n (omega arith))
    ∙ tail_from-spaced ns _ (n ∷ []) s ans
        (omega (
          arith,
          length-append (decimal n) (spaced ns ++ s),
          length-append (spaced ns) s,
          length-spaced ns,
          length-decimal_pos n,
        ))
        (omega arith) h

length-digits_before :
    (k fuel n : ℕ) (out : Bytes)
    → n < 10 ^ suc k
    → length (digits_before fuel n out) ≤ suc k + length out
unfolding digits_before
length-digits_before k zero n out h = omega arith
length-digits_before zero (suc fuel) n out h = ground arith
length-digits_before (suc k) (suc fuel) n out h = ground (
  arith,
  length-digits_before k fuel (n / 10) ((b'0' + n % 10) ∷ out) (omega (arith, pow-suc 10 (suc k))),
)

-- A 32-bit number has at most ten digits.
pub length-decimal : (n : ℕ) → n ≤ u32_max → length (decimal n) ≤ 10
unfolding decimal
length-decimal n h = omega (arith, length-digits_before 9 20 n [] (omega arith))

pub length-spaced_le :
    (ns : List ℕ) → All (λ n. n ≤ u32_max) ns → length (spaced ns) ≤ 11 * length ns
unfolding spaced
length-spaced_le [] a = omega arith
length-spaced_le (n ∷ ns) (an, ans) =
    omega
      (arith, length-append (decimal n) (spaced ns), length-decimal n an, length-spaced_le ns ans)
