-- ===== src/Proto/Command/Numbering.antt =====
-- `op_cmd_number`: the sequence number becomes the last field of the line.
use openport_j.Base.{
  ℕ, suc, ◌+◌, ◌-◌, ◌≤◌, ◌<◌, ◌≡◌, refl, sym, ap, ◌∙◌, List, [], ◌∷◌, ◌++◌, append_assoc, Bytes,
  arith, length, length-append, take, take-length, get_or, get_or-length, get_or-length-suc,
}
use openport_j.Proto.Print.{decimal, spaced, crlf}
use openport_j.Proto.Command.{channel_line, cmd_number}

-- On any line that ends in CR LF with two bytes or more before, if the longer line and its NUL fit.
pub cmd_number_lem :
    (body : Bytes) (out_sz seq : ℕ)
    → 2 ≤ length body
    → length body + length (spaced (seq ∷ [])) + 3 ≤ out_sz
    → cmd_number (body ++ crlf) out_sz seq ≡ body ++ (spaced (seq ∷ []) ++ crlf)
unfolding cmd_number
cmd_number_lem body out_sz seq h k = ground (arith, back, cr, lf, front, length-append body crlf)
  where
    back : length (body ++ crlf) - 2 ≡ length body
    back = omega (arith, length-append body crlf)

    last : length (body ++ crlf) - 1 ≡ suc (length body)
    last = omega (arith, length-append body crlf)

    cr : get_or (body ++ crlf) (length (body ++ crlf) - 2) 0 ≡ b'\r'
    cr = ap (λ i. get_or (body ++ crlf) i 0) back ∙ get_or-length body _ _ 0

    lf : get_or (body ++ crlf) (length (body ++ crlf) - 1) 0 ≡ b'\n'
    lf = ap (λ i. get_or (body ++ crlf) i 0) last ∙ get_or-length-suc body _ _ _ 0

    front : take (length (body ++ crlf) - 2) (body ++ crlf) ≡ body
    front = ap (λ i. take i (body ++ crlf)) back ∙ take-length body crlf

spaced-append : (ns ms : List ℕ) → spaced (ns ++ ms) ≡ spaced ns ++ spaced ms
unfolding spaced
spaced-append [] ms = refl
spaced-append (n ∷ ns) ms = simp (spaced-append ns ms, append_assoc)

-- A numbered command carries one more field, the last: its sequence number. (A line that leaves
-- too little room for the number is refused.)
pub cmd_number-channel_line :
    (verb ch : ℕ) (args : List ℕ) (out_sz seq : ℕ)
    → length (channel_line verb ch args) + length (spaced (seq ∷ [])) < out_sz
    → cmd_number (channel_line verb ch args) out_sz seq ≡ channel_line verb ch (args ++ (seq ∷ []))
cmd_number-channel_line verb ch args out_sz seq h =
    ap (λ l. cmd_number l out_sz seq) (sym whole)
    ∙ cmd_number_lem body out_sz seq (omega arith)
        (omega (arith, ap length whole, length-append body crlf))
    ∙ simp (spaced-append, append_assoc)
  where
    body : Bytes
    body = b'a' ∷ b't' ∷ verb ∷ (decimal ch ++ spaced args)

    whole : body ++ crlf ≡ channel_line verb ch args
    whole = ap (λ l. b'a' ∷ b't' ∷ verb ∷ l) (append_assoc (decimal ch) (spaced args) crlf)
