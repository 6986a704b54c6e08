-- ===== src/Api/Errors/Names.antt =====
-- The text of an error tells its code.
use openport_j.Base.{
  ℕ, ◌≤◌, ◌<◌, ◌≡◌, refl, sym, ap, ◌∙◌, Bool, true, false, not, ◌&&◌, List, [], ◌∷◌, ◌++◌, Option,
  none, some, Bytes, codes, arith, leb, ◌==◌, length, length-append, append-nil, take, take_short,
  drop, drop-length,
}
use openport_j.Proto.Number.{u32_max, parse_u32}
use openport_j.Proto.Print.ReadBack.{parse_u32-decimal}
use openport_j.Proto.Print.{decimal}
use openport_j.Proto.Print.Fields.{length-decimal}
use openport_j.Transport.Select.{same_bytes}
use openport_j.Api.Errors.{
  code_names, case_of, op_err_name, told, op_err_set, op_err_get, op_err_clear, fail, failed,
  pass_thru_get_last_error,
}

same_bytes_refl : (s : Bytes) → same_bytes s s ≡ true
same_bytes_refl [] = refl
same_bytes_refl (b ∷ s) = ground (arith, same_bytes_refl s)

starts_small : Bytes → Bool
starts_small [] = true
starts_small (c ∷ s) = c == b'e'

-- The name is short, is not the one of unknown codes, and does not start like "error".
is_name : Bytes → Bool
is_name s = leb (length s) 26 && not (same_bytes s (codes "ERR_UNKNOWN")) && not (starts_small s)

is_new : Bytes → List (ℕ × Bytes) → Bool
is_new name [] = true
is_new name ((code, other) ∷ cases) = not (same_bytes name other) && is_new name cases

are_names : List (ℕ × Bytes) → Bool
are_names [] = true
are_names ((code, name) ∷ cases) = is_name name && is_new name cases && are_names cases

code_names-are_names : are_names code_names ≡ true
unfolding are_names is_new is_name starts_small
code_names-are_names = refl

case_of-is_name :
    (cases : List (ℕ × Bytes)) (code : ℕ) (name : Bytes)
    → are_names cases ≡ true
    → case_of cases code ≡ some name
    → is_name name ≡ true
unfolding are_names case_of
case_of-is_name [] code name h e = absurd (cc e)
case_of-is_name ((known, other) ∷ cases) code name h e =
    ground (arith, case_of-is_name cases code name)

case_of-is_new :
    (cases : List (ℕ × Bytes)) (code : ℕ) (name : Bytes)
    → is_new name cases ≡ true
    → case_of cases code ≡ some name
    → ⊥
unfolding is_new case_of
case_of-is_new [] code name h e = cc e
case_of-is_new ((known, other) ∷ cases) code name h e =
    ground (arith, case_of-is_new cases code name, same_bytes_refl name)

case_of-injective :
    (cases : List (ℕ × Bytes)) (a b : ℕ) (name : Bytes)
    → are_names cases ≡ true
    → case_of cases a ≡ some name
    → case_of cases b ≡ some name
    → a ≡ b
unfolding are_names case_of
case_of-injective [] a b name h e f = absurd (cc e)
case_of-injective ((known, other) ∷ cases) a b name h e f = ground (
  arith,
  case_of-injective cases a b name,
  case_of-is_new cases a name,
  case_of-is_new cases b name,
)

told-known :
    (code : ℕ) (name : Bytes)
    → case_of code_names code ≡ some name
    → told (op_err_name code) code ≡ name
unfolding told op_err_name is_name
told-known code name e =
    let h = case_of-is_name code_names code name code_names-are_names e in rw e (ground (arith, h))

told-unknown :
    (code : ℕ)
    → case_of code_names code ≡ none
    → told (op_err_name code) code ≡ codes "error " ++ decimal code
unfolding told op_err_name
told-unknown code e = rw e refl

-- Either the code has a case or it has not.
told-cases :
    (code : ℕ) (f : Option Bytes)
    → case_of code_names code ≡ f
    → code ≤ u32_max
    → length (told (op_err_name code) code) ≤ 26
unfolding is_name
told-cases code none e u = omega (
  arith,
  ap length (told-unknown code e),
  length-append (codes "error ") (decimal code),
  length-decimal code u,
)
told-cases code (some name) e u = omega (
  arith,
  ap length (told-known code name e),
  name_short name (case_of-is_name code_names code name code_names-are_names e),
)
  where
    name_short : (name : Bytes) → is_name name ≡ true → length name ≤ 26
    name_short name h = ground arith

-- The code behind "error ".
code_behind : Bytes → ℕ
code_behind s = read (parse_u32 (drop 6 s))
  where
    read : Option (ℕ × Bytes) → ℕ
    read none = 0
    read (some (n, rest)) = n

code_behind-error :
    (code : ℕ) → code ≤ u32_max → code_behind (codes "error " ++ decimal code) ≡ code
unfolding code_behind
code_behind-error code u = rw (sym (append-nil (decimal code)), parse_u32-decimal code [] u tt) refl

error_no_name : (rest : Bytes) → is_name (b'e' ∷ rest) ≡ true → ⊥
unfolding is_name starts_small
error_no_name rest h = ground arith

unlike_error : (name rest : Bytes) → is_name name ≡ true → name ≡ codes "error " ++ rest → ⊥
unlike_error name rest h e =
    error_no_name (drop 1 (codes "error " ++ rest)) (sym (ap is_name e) ∙ h)

same-told :
    (a b : ℕ) (f g : Option Bytes)
    → a ≤ u32_max
    → b ≤ u32_max
    → case_of code_names a ≡ f
    → case_of code_names b ≡ g
    → told (op_err_name a) a ≡ told (op_err_name b) b
    → a ≡ b
same-told a b none none u v e f h =
    sym (code_behind-error a u)
    ∙ ap code_behind (sym (told-unknown a e) ∙ h ∙ told-unknown b f)
    ∙ code_behind-error b v
same-told a b none (some name) u v e f h = absurd (
    unlike_error name (decimal a) (case_of-is_name code_names b name code_names-are_names f)
      (sym (told-known b name f) ∙ sym h ∙ told-unknown a e))
same-told a b (some name) none u v e f h = absurd (
    unlike_error name (decimal b) (case_of-is_name code_names a name code_names-are_names e)
      (sym (told-known a name e) ∙ h ∙ told-unknown b f))
same-told a b (some name) (some other) u v e f h =
    case_of-injective code_names a b name code_names-are_names e
      (f ∙ ap some (sym (told-known b other f) ∙ sym h ∙ told-known a name e))

abbrev behind : ℕ → Bytes
behind code = codes ": " ++ told (op_err_name code) code

take-whole :
    (what : Bytes) (code : ℕ)
    → length what ≤ 51
    → code ≤ u32_max
    → take 79 (what ++ behind code) ≡ what ++ behind code
take-whole what code l u = take_short 79 (what ++ behind code) (
    omega
      (arith, length-append what (behind code), told-cases code (case_of code_names code) refl u))

fail-whole :
    (what : Bytes) (code : ℕ)
    → length what ≤ 51
    → code ≤ u32_max
    → (fail [] code what).0 ≡ what ++ behind code
unfolding fail op_err_set
fail-whole = take-whole

fail-TellsCode :
    (what : Bytes) (a b : ℕ)
    → length what ≤ 51
    → a ≤ u32_max
    → b ≤ u32_max
    → (fail [] a what).0 ≡ (fail [] b what).0
    → a ≡ b
fail-TellsCode what a b l u v h =
    same-told a b (case_of code_names a) (case_of code_names b) u v refl refl (
      ap (drop 2) (
        sym (drop-length what (behind a))
        ∙ ap (drop (length what)) whole
        ∙ drop-length what (behind b)))
  where
    whole : what ++ behind a ≡ what ++ behind b
    whole = sym (fail-whole what a l u) ∙ h ∙ fail-whole what b l v

-- What PassThruGetLastError hands out after a call that returned `code` and gave no reason.
abbrev pub last_error : Bytes → ℕ → Bytes
last_error what code = (pass_thru_get_last_error (failed op_err_clear code what).0 true).1

op_err_get-append :
    (what : Bytes) (c : ℕ) (s : Bytes) → op_err_get (what ++ (c ∷ s)) ≡ what ++ (c ∷ s)
unfolding op_err_get
op_err_get-append [] c s = refl
op_err_get-append (b ∷ what) c s = refl

last_error-fail :
    (what : Bytes) (code : ℕ)
    → length what ≤ 51
    → 0 < code
    → code ≤ u32_max
    → last_error what code ≡ (fail [] code what).0
unfolding failed pass_thru_get_last_error
last_error-fail what code l p u = rw (not_zero code p) (
    ap (λ s. take 79 (op_err_get s)) (fail-whole what code l u)
    ∙ ap (take 79) (op_err_get-append what b':' (drop 1 (behind code)))
    ∙ take-whole what code l u
    ∙ sym (fail-whole what code l u))
  where
    not_zero : (n : ℕ) → 0 < n → (n == 0) ≡ false
    not_zero n h = ground arith

-- A call that fails and gives no reason of its own leaves a text that tells its code: where the
-- name of the call has at most 51 bytes, two 32-bit codes but STATUS_NOERROR for which
-- `PassThruGetLastError` hands out the same text are the same, whether they have names or not.
pub last_error-TellsCode :
    (what : Bytes) (a b : ℕ)
    → length what ≤ 51
    → (0 < a) × (a ≤ u32_max)
    → (0 < b) × (b ≤ u32_max)
    → last_error what a ≡ last_error what b
    → a ≡ b
last_error-TellsCode what a b l (p, u) (q, v) h =
    fail-TellsCode what a b l u v
      (sym (last_error-fail what a l p u) ∙ h ∙ last_error-fail what b l q v)
