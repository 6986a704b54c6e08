-- ===== src/Proto/Decode/Bounds.antt =====
-- How much of its buffer `op_parse` consumes, and when it asks for more.
use openport_j.Base.{
  ℕ, ◌+◌, ◌≤◌, ◌≡◌, ◌≢◌, ap, [], ◌∷◌, ◌++◌, Option, none, some, Bytes, arith, length, length-take,
  length-drop, length-append, take,
}
use openport_j.Proto.Number.{skip_spaces}
use openport_j.Proto.Reply.{Reply, incomplete}
use openport_j.Proto.Line.{
  parse_ok, parse_error, parse_info, parse_pin, parse_periodic, parse_filter, parse_config,
  parse_fast, parse_five, parse_verb, parse_ascii,
}
use openport_j.Proto.Decode.{
  parse_frame, parse_binary, split_line, parse_line, parse_scanned, parse_text, parse,
}

-- `data_len` and `text_len`
abbrev pub bytes_len : Option Bytes → ℕ
bytes_len none = 0
bytes_len (some s) = length s

-- What every verb's function gives a reply: a kind, no raw bytes, and text from its own input.
abbrev IsDecided : ℕ → Option Reply → Type 0
IsDecided n none = Unit
IsDecided n (some r) = (r.kind ≢ incomplete) × (r.body ≡ none) × (bytes_len r.text ≤ n)

length-skip_spaces : (s : Bytes) → length (skip_spaces s) ≤ length s
unfolding skip_spaces
length-skip_spaces [] = omega arith
length-skip_spaces (c ∷ s) = ground (arith, length-skip_spaces s)

parse_error-IsDecided : (s : Bytes) → IsDecided (length s) (parse_error s)
unfolding parse_error
parse_error-IsDecided s = ground arith

parse_pin-IsDecided : (s : Bytes) → IsDecided (length s) (parse_pin s)
unfolding parse_pin
parse_pin-IsDecided s = ground arith

parse_config-IsDecided : (s : Bytes) → IsDecided (length s) (parse_config s)
unfolding parse_config
parse_config-IsDecided s = ground arith

parse_fast-IsDecided : (s : Bytes) → IsDecided (length s) (parse_fast s)
unfolding parse_fast
parse_fast-IsDecided s = ground arith

parse_five-IsDecided : (s : Bytes) → IsDecided (length s) (parse_five s)
unfolding parse_five
parse_five-IsDecided s = ground arith

parse_verb-IsDecided : (verb : ℕ) (s : Bytes) → IsDecided (length s) (parse_verb verb s)
unfolding parse_verb parse_ok parse_info parse_periodic parse_filter
parse_verb-IsDecided verb s = ground (
  arith,
  length-skip_spaces s,
  parse_error-IsDecided s,
  parse_pin-IsDecided s,
  parse_config-IsDecided s,
  parse_fast-IsDecided s,
  parse_five-IsDecided s,
)

-- The same for a whole line.
pub parse_ascii-kind :
    (l : Bytes)
    → ((parse_ascii l).kind ≢ incomplete)
      × ((parse_ascii l).body ≡ none)
      × (bytes_len (parse_ascii l).text ≤ length l)
unfolding parse_ascii
parse_ascii-kind [] = ground arith
parse_ascii-kind (verb ∷ s) = ground (arith, parse_verb-IsDecided verb s)

-- The line and what is behind it make up the input.
abbrev pub Splits : Bytes → Option (Bytes × Bytes) → Type 0
Splits s none = Unit
Splits s (some (l, rest)) = s ≡ l ++ (b'\r' ∷ b'\n' ∷ rest)

pub split_line-Splits : (s : Bytes) → Splits s (split_line s)
unfolding split_line
split_line-Splits [] = tt
split_line-Splits (c ∷ []) = tt
split_line-Splits (c ∷ d ∷ s) = ground (arith, split_line-Splits (d ∷ s))

-- What is true of every answer of `op_parse`.
pub record IsSound (buf : Bytes) (out : ℕ × Reply) : Type 0 where
  pub within : out.0 ≤ length buf
  pub waits : out.0 ≡ 0 → out.1.kind ≡ incomplete
  pub decided : out.1.kind ≡ incomplete → out.0 ≡ 0
  pub inside : bytes_len out.1.body + bytes_len out.1.text ≤ out.0

parse_frame-IsSound :
    (digit n : ℕ) (body buf : Bytes)
    → length body ≡ n
    → 4 + n ≤ length buf
    → IsSound buf (parse_frame digit n body)
unfolding parse_frame
parse_frame-IsSound digit n [] buf h e = ground arith
parse_frame-IsSound digit n (st ∷ body) buf h e = ground (arith, length-drop 4 body)

parse_binary-IsSound :
    (digit : ℕ) (s buf : Bytes) → length buf ≡ 3 + length s → IsSound buf (parse_binary digit s)
unfolding parse_binary
parse_binary-IsSound digit [] buf h = ground arith
parse_binary-IsSound digit (n ∷ s) buf h =
    ground (arith, length-take n s, parse_frame-IsSound digit n (take n s) buf)

parse_line-IsSound :
    (l rest buf : Bytes) → length buf ≡ 4 + length l + length rest → IsSound buf (parse_line l rest)
unfolding parse_line
parse_line-IsSound l rest buf h =
    ground (arith, parse_ascii-kind l, length-take (parse_ascii l).a rest)

parse_scanned-IsSound :
    (s : Bytes) (o : Option (Bytes × Bytes)) (buf : Bytes)
    → Splits s o
    → length buf ≡ 2 + length s
    → IsSound buf (parse_scanned (length s) o)
unfolding parse_scanned
parse_scanned-IsSound s none buf h e = ground arith
parse_scanned-IsSound s (some (l, rest)) buf h e =
    parse_line-IsSound l rest buf
      (omega (arith, ap length h, length-append l (b'\r' ∷ b'\n' ∷ rest)))

parse_text-IsSound : (s buf : Bytes) → length buf ≡ 2 + length s → IsSound buf (parse_text s)
unfolding parse_text
parse_text-IsSound s buf h = parse_scanned-IsSound s (split_line s) buf (split_line-Splits s) h

pub parse-IsSound : (buf : Bytes) → IsSound buf (parse buf)
unfolding parse
parse-IsSound [] = ground arith
parse-IsSound (c ∷ []) = ground arith
parse-IsSound (c ∷ d ∷ []) = ground arith
parse-IsSound (c ∷ d ∷ e ∷ s) =
    ground
      (arith, parse_binary-IsSound e s (c ∷ d ∷ e ∷ s), parse_text-IsSound (e ∷ s) (c ∷ d ∷ e ∷ s))
