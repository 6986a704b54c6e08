-- ===== src/Tools/Replay/Numbers.antt =====
-- The replay reads back the numbers and the bytes that src/op_j2534.c records.
use native.Mathlib.Nat.{pow-suc}
use openport_j.Base.{
  ℕ, zero, suc, ◌+◌, ◌-◌, ◌*◌, ◌/◌, ◌%◌, ◌^◌, ◌≤◌, ◌<◌, ◌≡◌, refl, ap, ap₂, ◌∙◌, [], ◌∷◌, ◌++◌,
  append-nil, sym, some, Bytes, arith, ◌==◌, ==→eq, Bool-cases, inl, inr, length,
}
use openport_j.Base.All.{AreBytes}
use openport_j.Proto.Number.{is_digit}
use openport_j.Proto.Print.{digits_before, decimal}
use openport_j.Proto.Print.ReadBack.{Ends}
use openport_j.Api.Record.{hex_digit, hex, rec_hex}
use openport_j.Tools.Replay.{
  digits_value, strtoul, hex_value, hex_loop, then_bytes, hex_pair, hex_to_bytes,
}

digits_value-last :
    (n : ℕ) (out : Bytes) → digits_value (n / 10) ((b'0' + n % 10) ∷ out) ≡ digits_value n out
unfolding digits_value is_digit
digits_value-last n out = ground (arith, ap (λ v. digits_value v out) value)
  where
    value : n / 10 * 10 + (b'0' + n % 10 - b'0') ≡ n
    value = omega arith

digits_value-digits_before :
    (fuel n : ℕ) (out rest : Bytes)
    → n < 10 ^ fuel
    → digits_value 0 (digits_before fuel n out ++ rest) ≡ digits_value n (out ++ rest)
unfolding digits_before
digits_value-digits_before zero n out rest h = ap (λ v. digits_value v (out ++ rest)) (omega arith)
digits_value-digits_before (suc fuel) n out rest h = elim (Bool-cases (n / 10 == 0)) [
  | inl e ↦ rw e (
      ap (λ v. digits_value v ((b'0' + n % 10) ∷ (out ++ rest))) (omega (arith, ==→eq (n / 10) 0 e))
      ∙ digits_value-last n (out ++ rest))
  | inr e ↦ rw e (
      digits_value-digits_before fuel (n / 10) ((b'0' + n % 10) ∷ out) rest
        (omega (arith, pow-suc 10 fuel))
      ∙ digits_value-last n (out ++ rest))
]

digits_value-Ends : (v : ℕ) (s : Bytes) → Ends s → digits_value v s ≡ v
unfolding digits_value
digits_value-Ends v [] e = refl
digits_value-Ends v (c ∷ s) e = ground arith

-- A printed 64-bit number is read back in front of anything but a digit.
pub strtoul-decimal-append :
    (n : ℕ) (rest : Bytes) → n < 2 ^ 64 → Ends rest → strtoul (decimal n ++ rest) ≡ n
unfolding strtoul decimal
strtoul-decimal-append n rest h e =
    omega (arith, digits_value-digits_before 20 n [] rest (omega arith), digits_value-Ends n rest e)

pub strtoul-decimal : (n : ℕ) → n < 2 ^ 64 → strtoul (decimal n) ≡ n
strtoul-decimal n h = ap strtoul (sym (append-nil (decimal n))) ∙ strtoul-decimal-append n [] h tt

hex_value-hex_digit : (d : ℕ) → d < 16 → hex_value (hex_digit d) ≡ some d
unfolding hex_value is_digit
hex_value-hex_digit d h = ground arith

hex_loop-hex : (cap : ℕ) (s : Bytes) → length s ≤ cap → AreBytes s → hex_loop cap (hex s) ≡ s
unfolding hex_loop hex
hex_loop-hex zero [] l a = refl
hex_loop-hex (suc cap) [] l a = refl
hex_loop-hex zero (b ∷ s) l a = absurd (omega arith)
hex_loop-hex (suc cap) (b ∷ s) l (small, a) =
    ap₂ (λ h k. then_bytes (hex_pair h k) (hex_loop cap (hex s)))
      (hex_value-hex_digit (b / 16) (omega arith)) (hex_value-hex_digit (b % 16) (omega arith))
    ∙ ap₂ ◌∷◌ (omega arith) (hex_loop-hex cap s (omega arith) a)

-- Recorded data is read back.
pub hex_to_bytes-rec_hex :
    (cap : ℕ) (s : Bytes) → length s ≤ cap → AreBytes s → hex_to_bytes cap (rec_hex s) ≡ s
unfolding hex_to_bytes rec_hex
hex_to_bytes-rec_hex cap [] l a = refl
hex_to_bytes-rec_hex cap (b ∷ s) l a = unfold hex in hex_loop-hex cap (b ∷ s) l a
