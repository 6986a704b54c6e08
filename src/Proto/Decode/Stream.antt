-- ===== src/Proto/Decode/Stream.antt =====
-- `op_parse` on a growing buffer: the reader calls it after every read.
use openport_j.Base.{
  ℕ, ◌+◌, ◌*◌, ◌≤◌, ◌≡◌, ◌≢◌, ◌⊎◌, inl, inr, refl, [], ◌∷◌, ◌++◌, Option, none, some, Bytes, arith,
  length, length-append, take-append_le, Option-cases,
}
use openport_j.Proto.Reply.{Reply, junk}
use openport_j.Proto.Line.{parse_ascii}
use openport_j.Proto.Decode.{
  cmd_max, parse_binary, split_line, parse_line, parse_scanned, parse_text, parse,
}

-- More bytes behind a line that has ended stay behind it.
abbrev extend : Bytes → Option (Bytes × Bytes) → Option (Bytes × Bytes)
extend more none = none
extend more (some (l, rest)) = some (l, rest ++ more)

split_line-append :
    (s more : Bytes) → split_line s ≢ none → split_line (s ++ more) ≡ extend more (split_line s)
unfolding split_line
split_line-append [] more h = absurd (h refl)
split_line-append (c ∷ []) more h = absurd (h refl)
split_line-append (c ∷ d ∷ s) more h = ground (arith, split_line-append (d ∷ s) more)

none-ne-some {ℓ} : {A : Type ℓ} {o : Option A} {a : A} → o ≡ some a → o ≢ none
none-ne-some e n = cc

-- The answer holds for every buffer that begins with this one.
abbrev Settled : ℕ → ℕ × Reply → Type 0
Settled len out = (out.0 ≢ 0) × ((len ≤ cmd_max * 4) ⊎ (out.1.kind ≢ junk))

parse_binary-append :
    (digit : ℕ) (s more : Bytes)
    → (parse_binary digit s).0 ≢ 0
    → parse_binary digit (s ++ more) ≡ parse_binary digit s
unfolding parse_binary
parse_binary-append digit [] more h = absurd (h refl)
parse_binary-append digit (n ∷ s) more h =
    ground (arith, length-append s more, take-append_le n s more)

parse_line-append :
    (l rest more : Bytes)
    → (parse_line l rest).0 ≢ 0
    → parse_line l (rest ++ more) ≡ parse_line l rest
unfolding parse_line
parse_line-append l rest more h =
    ground (arith, length-append rest more, take-append_le (parse_ascii l).a rest more)

parse_scanned-append :
    (o : Option (Bytes × Bytes)) (n m : ℕ) (more : Bytes)
    → Settled (n + 2) (parse_scanned n o)
    → parse_scanned m (extend more o) ≡ parse_scanned n o
unfolding parse_scanned
parse_scanned-append none n m more h = ground arith
parse_scanned-append (some (l, rest)) n m more h = parse_line-append l rest more h.0

parse_text-append :
    (s more : Bytes) → Settled (length s + 2) (parse_text s) → parse_text (s ++ more) ≡ parse_text s
unfolding parse_text
parse_text-append s more h = elim (Option-cases (split_line s)) [
  | inl e ↦ absurd (unsettled e)
  | inr (x, e) ↦
      rw (split_line-append s more (λ n. none-ne-some e n))
        (parse_scanned-append (split_line s) _ _ more h)
]
  where
    unsettled : split_line s ≡ none → ⊥
    unsettled e = unfold parse_scanned in ground (arith, h)

-- Once `op_parse` has decided, bytes that arrive later change neither the reply nor the number
-- of bytes consumed; junk alone is excepted, in a buffer of more than 256 bytes (a line that
-- has not ended is given up there).
pub parse-append :
    (buf more : Bytes)
    → (parse buf).0 ≢ 0
    → (length buf ≤ cmd_max * 4) ⊎ ((parse buf).1.kind ≢ junk)
    → parse (buf ++ more) ≡ parse buf
unfolding parse
parse-append [] more h k = absurd (h refl)
parse-append (c ∷ []) [] h k = refl
parse-append (c ∷ []) (d ∷ []) h k = ground arith
parse-append (c ∷ []) (d ∷ e ∷ s) h k = ground arith
parse-append (c ∷ d ∷ []) [] h k = refl
parse-append (c ∷ d ∷ []) (e ∷ s) h k = ground arith
parse-append (c ∷ d ∷ e ∷ s) more h k =
    ground (arith, parse_binary-append e s more, parse_text-append (e ∷ s) more)
