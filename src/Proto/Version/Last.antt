-- ===== src/Proto/Version/Last.antt =====
-- The version that `op_parse_version` finds behind any prefix.
use openport_j.Base.{
  ℕ, zero, suc, ◌+◌, ◌-◌, ◌≤◌, ◌<◌, ◌≡◌, ◌≢◌, refl, ap, true, false, ◌&&◌, [], ◌∷◌, ◌++◌, Option,
  none, some, Bytes, arith, ltb, ◌==◌, if◌then◌else◌, length, length-append, take, get_or,
}
use openport_j.Base.All.{All}
use openport_j.Proto.Number.{skip_spaces}
use openport_j.Proto.Version.{after_last_colon, is_blank, trim_end, parse_version}

-- Without a colon nothing more is found.
no_colon :
    (s : Bytes) (found : Option Bytes) → All (λ c. c ≢ b':') s → after_last_colon s found ≡ found
unfolding after_last_colon
no_colon [] found h = refl
no_colon (c ∷ []) found h = refl
no_colon (c ∷ d ∷ s) found (hc, h) =
    let other : (c == b':' && d == b' ') ≡ false = ground arith in
    rw other (no_colon (d ∷ s) found h)

last_found :
    (pre v : Bytes) (found : Option Bytes)
    → All (λ c. c ≢ b':') v
    → after_last_colon (pre ++ (b':' ∷ b' ' ∷ v)) found ≡ some v
unfolding after_last_colon
last_found [] [] found h = refl
last_found [] (c ∷ v) found h = no_colon (b' ' ∷ c ∷ v) (some (c ∷ v)) (omega arith, h)
last_found (c ∷ []) v found h =
    last_found [] v (if c == b':' && b':' == b' ' then some (b' ' ∷ v) else found) h
last_found (c ∷ d ∷ pre) v found h =
    last_found (d ∷ pre) v
      (if c == b':' && d == b' ' then some (pre ++ (b':' ∷ b' ' ∷ v)) else found) h

trim_end-solid : (w : Bytes) (c : ℕ) → is_blank c ≡ false → trim_end (w ++ (c ∷ [])) ≡ w ++ (c ∷ [])
unfolding trim_end
trim_end-solid [] c h = rw h refl
trim_end-solid (x ∷ w) c h =
    let whole = trim_end-solid w c h in
    let solid : (is_blank x && length (trim_end (w ++ (c ∷ []))) == 0) ≡ false =
      ground (arith, ap length whole, length-append w (c ∷ [])) in
    rw solid (ap (λ t. x ∷ t) whole)

skip_spaces-solid : (s : Bytes) → get_or s 0 0 ≢ b' ' → skip_spaces s ≡ s
unfolding skip_spaces
skip_spaces-solid [] h = refl
skip_spaces-solid (c ∷ s) h = ground arith

take_all : (n : ℕ) (s : Bytes) → length s ≤ n → take n s ≡ s
take_all zero [] h = refl
take_all zero (c ∷ s) h = absurd (omega arith)
take_all (suc n) [] h = refl
take_all (suc n) (c ∷ s) h = ap (λ t. c ∷ t) (take_all n s (omega arith))

parse_version-found :
    (text s : Bytes) (out_sz : ℕ)
    → after_last_colon text none ≡ some s
    → let t = take (out_sz - 1) (trim_end (skip_spaces s)) in
      parse_version text out_sz ≡ (t, ltb 0 (length t))
unfolding parse_version
parse_version-found text s out_sz e = rw (e, parse_version) refl

-- Whatever stands before the last ": " of the reply, the version behind it is read as it stands,
-- if it has no colon, begins with no space, ends in no blank and fits the buffer with its NUL.
pub parse_version-last :
    (pre w : Bytes) (c out_sz : ℕ)
    → All (λ x. x ≢ b':') (w ++ (c ∷ []))
    → get_or (w ++ (c ∷ [])) 0 0 ≢ b' '
    → is_blank c ≡ false
    → length w + 1 < out_sz
    → parse_version (pre ++ (b':' ∷ b' ' ∷ (w ++ (c ∷ [])))) out_sz ≡ (w ++ (c ∷ []), true)
parse_version-last pre w c out_sz a f l h =
    let v = w ++ (c ∷ []) in
    let len = length-append w (c ∷ []) in
    let filled : ltb 0 (length v) ≡ true = ground (arith, len) in
    rw
      (
        parse_version-found (pre ++ (b':' ∷ b' ' ∷ v)) v out_sz (last_found pre v none a),
        skip_spaces-solid v f,
        trim_end-solid w c l,
        take_all (out_sz - 1) v (omega (arith, len)),
        filled,
      )
      refl
