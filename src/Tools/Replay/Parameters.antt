-- ===== src/Tools/Replay/Parameters.antt =====
-- The parameters of a recorded PassThruIoctl are those of its replay.
use openport_j.Base.{
  ℕ, zero, suc, ◌^◌, ◌≤◌, ◌<◌, ◌≡◌, refl, ap, ap₂, ◌∙◌, false, List, [], ◌∷◌, ◌++◌, Bytes, arith,
  length,
}
use openport_j.Base.All.{All, All-append}
use openport_j.Proto.Number.{is_digit}
use openport_j.Proto.Print.{decimal}
use openport_j.Proto.Print.ReadBack.{StartsDigit, decimal-StartsDigit}
use openport_j.Api.Record.{rec_pairs}
use openport_j.Tools.Replay.{is_separator, tokens, strtoul}
use openport_j.Tools.Replay.Numbers.{strtoul-decimal, strtoul-decimal-append}
use openport_j.Tools.Replay.Tokens.{
  StartsSeparator, spaced_token, decimal_pos, decimal-IsWord, AreDigits, decimal-AreDigits,
}
use openport_j.Tools.Replay.Lines.{after_digits, after_equals, config_pairs}

abbrev pair_word : ℕ → ℕ → Bytes
pair_word parameter value = decimal parameter ++ (b'=' ∷ decimal value)

abbrev pub pair_words : List (ℕ × ℕ) → List Bytes
pair_words [] = []
pair_words ((parameter, value) ∷ cfg) = pair_word parameter value ∷ pair_words cfg

pub rec_pairs-StartsSeparator : (cfg : List (ℕ × ℕ)) → StartsSeparator (rec_pairs cfg)
unfolding rec_pairs
rec_pairs-StartsSeparator [] = refl
rec_pairs-StartsSeparator ((parameter, value) ∷ cfg) = refl

append_pos : (s t : Bytes) → 0 < length s → 0 < length (s ++ t)
append_pos [] t h = absurd (omega arith)
append_pos (b ∷ s) t h = omega arith

pub tokens-rec_pairs : (cfg : List (ℕ × ℕ)) → tokens [] (rec_pairs cfg) ≡ pair_words cfg
unfolding rec_pairs
tokens-rec_pairs [] = unfold tokens in refl
tokens-rec_pairs ((parameter, value) ∷ cfg) =
    spaced_token (pair_word parameter value) (rec_pairs cfg)
      (append_pos (decimal parameter) (b'=' ∷ decimal value) (decimal_pos parameter))
      (All-append (λ c. is_separator c ≡ false) (decimal parameter) (b'=' ∷ decimal value)
        (decimal-IsWord parameter) (refl, decimal-IsWord value))
      (rec_pairs-StartsSeparator cfg)
    ∙ ap (λ ts. pair_word parameter value ∷ ts) (tokens-rec_pairs cfg)

after_digits_append : (s r : Bytes) → AreDigits s → after_digits (s ++ (b'=' ∷ r)) ≡ r
unfolding is_digit
after_digits_append [] r a = refl
after_digits_append (c ∷ s) r (h, a) = ground (arith, after_digits_append s r a)

after_equals_append :
    (s r : Bytes) → StartsDigit s → AreDigits s → after_equals (s ++ (b'=' ∷ r)) ≡ r
after_equals_append [] r h a = absurd h
after_equals_append (c ∷ s) r h (_, a) = rw h (after_digits_append s r a)

-- The fields are 64-bit numbers.
abbrev pub ArePairs : List (ℕ × ℕ) → Type 0
ArePairs = All (λ p. (p.0 < 2 ^ 64) × (p.1 < 2 ^ 64))

pub config_pairs-pair_words :
    (left : ℕ) (cfg : List (ℕ × ℕ))
    → length cfg ≤ left
    → ArePairs cfg
    → config_pairs left (pair_words cfg) ≡ cfg
unfolding is_digit
config_pairs-pair_words zero [] l a = refl
config_pairs-pair_words (suc left) [] l a = refl
config_pairs-pair_words zero (p ∷ cfg) l a = absurd (omega arith)
config_pairs-pair_words (suc left) ((parameter, value) ∷ cfg) l ((p, v), a) =
    ap₂ ◌∷◌
      (ap₂ (λ a b. (a, b)) (strtoul-decimal-append parameter (b'=' ∷ decimal value) p refl)
        (ap strtoul (
            after_equals_append (decimal parameter) (decimal value) (decimal-StartsDigit parameter)
              (decimal-AreDigits parameter))
          ∙ strtoul-decimal value v))
      (config_pairs-pair_words left cfg (omega arith) a)
