-- ===== src/Tools/Replay/Heads.antt =====
-- The head of a recorded line: its verb and its numbers.
use openport_j.Base.{
  ℕ, ◌+◌, ◌*◌, ◌≤◌, ◌≡◌, refl, ap, ◌∙◌, List, [], ◌∷◌, ◌++◌, append_assoc, Bytes, arith, length,
  length-append, take_short,
}
use openport_j.Base.All.{All}
use openport_j.Proto.Number.{u32_max}
use openport_j.Proto.Print.{decimal, spaced}
use openport_j.Proto.Print.Fields.{length-spaced_le}
use openport_j.Api.Record.{head_text}
use openport_j.Tools.Replay.{tokens}
use openport_j.Tools.Replay.Tokens.{
  IsWord, StartsSeparator, tokens_next, decimal-IsWord, spaced_token, decimal_pos,
}

abbrev pub decimals : List ℕ → List Bytes
decimals [] = []
decimals (n ∷ ns) = decimal n ∷ decimals ns

spaced-StartsSeparator :
    (ns : List ℕ) (r : Bytes) → StartsSeparator r → StartsSeparator (spaced ns ++ r)
unfolding spaced
spaced-StartsSeparator [] r e = e
spaced-StartsSeparator (n ∷ ns) r e = refl

tokens-spaced :
    (ns : List ℕ) (r : Bytes)
    → StartsSeparator r
    → tokens [] (spaced ns ++ r) ≡ decimals ns ++ tokens [] r
unfolding spaced
tokens-spaced [] r e = refl
tokens-spaced (n ∷ ns) r e =
    ap (λ s. tokens [] (b' ' ∷ s)) (append_assoc (decimal n) (spaced ns) r)
    ∙ spaced_token (decimal n) (spaced ns ++ r) (decimal_pos n) (decimal-IsWord n)
        (spaced-StartsSeparator ns r e)
    ∙ ap (λ ts. decimal n ∷ ts) (tokens-spaced ns r e)

-- A verb and numbers, in front of the rest of a line.
pub tokens_head :
    (b : ℕ) (verb : Bytes) (ns : List ℕ) (r : Bytes)
    → IsWord (b ∷ verb)
    → StartsSeparator r
    → tokens [] ((b ∷ verb) ++ (spaced ns ++ r)) ≡ (b ∷ verb) ∷ (decimals ns ++ tokens [] r)
tokens_head b verb ns r w e =
    tokens_next b verb (spaced ns ++ r) w (spaced-StartsSeparator ns r e)
    ∙ ap (λ ts. (b ∷ verb) ∷ ts) (tokens-spaced ns r e)

-- The same from the recorder's buffer, which 32-bit numbers do not fill.
pub tokens_buffer :
    (b : ℕ) (verb : Bytes) (ns : List ℕ) (r : Bytes)
    → length (b ∷ verb) + length ns * 11 ≤ 63
    → All (λ n. n ≤ u32_max) ns
    → IsWord (b ∷ verb)
    → StartsSeparator r
    → tokens [] (head_text (b ∷ verb) ns ++ r) ≡ (b ∷ verb) ∷ (decimals ns ++ tokens [] r)
tokens_buffer b verb ns r l u w e =
    ap (λ h. tokens [] (h ++ r))
      (take_short 63 ((b ∷ verb) ++ spaced ns)
        (omega (arith, length-append (b ∷ verb) (spaced ns), length-spaced_le ns u)))
    ∙ ap (tokens []) (append_assoc (b ∷ verb) (spaced ns) r)
    ∙ tokens_head b verb ns r w e
