-- ===== src/Tools/Replay/Tokens.antt =====
-- The words of a recorded line are the tokens of the replay.
use openport_j.Base.{
  ℕ, zero, suc, ◌+◌, ◌/◌, ◌%◌, ◌<◌, ◌≡◌, refl, sym, ap, ◌∙◌, true, false, [], ◌∷◌, ◌++◌,
  append_assoc, append-nil, Bytes, arith, ◌==◌, if_either, length,
}
use openport_j.Base.All.{All}
use openport_j.Proto.Number.{is_digit}
use openport_j.Proto.Print.{digits_before, decimal}
use openport_j.Proto.Print.ReadBack.{StartsDigit, decimal-StartsDigit}
use openport_j.Api.Record.{hex_digit, hex, rec_hex}
use openport_j.Tools.Replay.{is_separator, flush, tokens}

abbrev pub IsWord : Bytes → Type 0
IsWord = All (λ c. is_separator c ≡ false)

-- The next byte ends a word.
abbrev pub StartsSeparator : Bytes → Type 0
StartsSeparator [] = ⊥
StartsSeparator (c ∷ s) = is_separator c ≡ true

tokens-separator :
    (word : Bytes) (c : ℕ) (s : Bytes)
    → is_separator c ≡ true
    → tokens word (c ∷ s) ≡ flush word (tokens [] s)
unfolding tokens
tokens-separator word c s h = rw (h, tokens) refl

tokens-letter :
    (word : Bytes) (c : ℕ) (s : Bytes)
    → is_separator c ≡ false
    → tokens word (c ∷ s) ≡ tokens (word ++ (c ∷ [])) s
unfolding tokens
tokens-letter word c s h = rw (h, tokens) refl

-- A separator with no word before it is passed over.
pub tokens-skip : (c : ℕ) (s : Bytes) → is_separator c ≡ true → tokens [] (c ∷ s) ≡ tokens [] s
tokens-skip c s h = tokens-separator [] c s h

tokens_same :
    (s : Bytes) → StartsSeparator s → (begun : Bytes) → tokens begun s ≡ flush begun (tokens [] s)
tokens_same [] e begun = absurd e
tokens_same (c ∷ s) e begun =
    tokens-separator begun c s e ∙ ap (flush begun) (sym (tokens-skip c s e))

tokens_word :
    (begun word s : Bytes)
    → IsWord word
    → StartsSeparator s
    → tokens begun (word ++ s) ≡ flush (begun ++ word) (tokens [] s)
tokens_word begun [] s w e =
    tokens_same s e begun ∙ ap (λ l. flush l (tokens [] s)) (sym (append-nil begun))
tokens_word begun (b ∷ word) s (n, w) e =
    tokens-letter begun b (word ++ s) n
    ∙ tokens_word (begun ++ (b ∷ [])) word s w e
    ∙ ap (λ l. flush l (tokens [] s)) (append_assoc begun (b ∷ []) word)

-- A word in front of a separator is the next token.
pub tokens_next :
    (b : ℕ) (word s : Bytes)
    → IsWord (b ∷ word)
    → StartsSeparator s
    → tokens [] ((b ∷ word) ++ s) ≡ (b ∷ word) ∷ tokens [] s
tokens_next b word s w e = tokens_word [] (b ∷ word) s w e

module _ (P : ℕ → Type 0) (digit : (d : ℕ) → d < 10 → P (b'0' + d)) where
  digits_before-All : (fuel n : ℕ) (out : Bytes) → All P out → All P (digits_before fuel n out)
  unfolding digits_before
  digits_before-All zero n out w = w
  digits_before-All (suc fuel) n out w =
      if_either (All P) (n / 10 == 0) _ _ (digit (n % 10) (omega arith), w)
        (digits_before-All fuel (n / 10) ((b'0' + n % 10) ∷ out) (digit (n % 10) (omega arith), w))

  decimal-All : (n : ℕ) → All P (decimal n)
  unfolding decimal
  decimal-All n = digits_before-All 20 n [] tt

pub decimal-IsWord : (n : ℕ) → IsWord (decimal n)
decimal-IsWord = decimal-All (λ c. is_separator c ≡ false) (λ d h. ground arith)

abbrev pub AreDigits : Bytes → Type 0
AreDigits = All (λ c. is_digit c ≡ true)

pub decimal-AreDigits : (n : ℕ) → AreDigits (decimal n)
unfolding is_digit
decimal-AreDigits = decimal-All (λ c. is_digit c ≡ true) (λ d h. ground arith)

hex_digit-is_separator : (d : ℕ) → is_separator (hex_digit d) ≡ false
hex_digit-is_separator d = ground arith

hex-IsWord : (s : Bytes) → IsWord (hex s)
unfolding hex
hex-IsWord [] = tt
hex-IsWord (b ∷ s) =
    (hex_digit-is_separator (b / 16), (hex_digit-is_separator (b % 16), hex-IsWord s))

pub rec_hex-IsWord : (s : Bytes) → IsWord (rec_hex s)
unfolding rec_hex
rec_hex-IsWord [] = (refl, tt)
rec_hex-IsWord (b ∷ s) = hex-IsWord (b ∷ s)

-- A word behind a space.
pub spaced_token :
    (word s : Bytes)
    → 0 < length word
    → IsWord word
    → StartsSeparator s
    → tokens [] (b' ' ∷ (word ++ s)) ≡ word ∷ tokens [] s
spaced_token [] s l w e = absurd (omega arith)
spaced_token (b ∷ word) s l w e = tokens-skip b' ' ((b ∷ word) ++ s) refl ∙ tokens_next b word s w e

pub decimal_pos : (n : ℕ) → 0 < length (decimal n)
decimal_pos n = digit_pos (decimal n) (decimal-StartsDigit n)
  where
    digit_pos : (s : Bytes) → StartsDigit s → 0 < length s
    digit_pos [] h = absurd h
    digit_pos (c ∷ s) h = omega arith
