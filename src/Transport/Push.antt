-- ===== src/Transport/Push.antt =====
-- The loop by which both transports write: src/op_usb.c `usb_write` and src/op_serial.c `ser_write`
-- hand the rest of the bytes to the system until all are out or an answer ends the loop.
use openport_j.Base.{
  ℕ, ◌+◌, ◌≤◌, ◌≡◌, ◌≢◌, refl, ap, ◌∙◌, List, [], ◌∷◌, ◌++◌, append_assoc, Option, some, none,
  Bytes, arith, if◌then◌else◌, length, take, drop, take-append-drop, length-drop, ◌==◌,
}
use mathlib.Core.Path.{subst}
use openport_j.Codes.{OpStatus}

abbrev pub Written : Type 0
Written = Option (OpStatus × Bytes)

-- One round: it ends the loop with a status, or `rest` is what the other rounds do.
abbrev pub push_on : Option OpStatus → Bytes → Written → Written
push_on (some st) out rest = some (st, out)
push_on none out none = none
push_on none out (some (st, more)) = some (st, out ++ more)

-- The statuses with which an answer ends the loop: the deadline of a write is OP_ERR_STALLED.
abbrev pub IsFailure : OpStatus → Type 0
IsFailure st = (st ≢ OpStatus.fine) × (st ≢ OpStatus.timeout)

-- The bytes that are left where a write ends; none where it ends with OP_OK.
abbrev pub Leaves : Bytes → Written → Type 0
Leaves s none = Unit
Leaves s (some (st, out)) =
    (left : Bytes) × (out ++ left ≡ s) × (st ≡ OpStatus.fine → left ≡ []) × (st ≢ OpStatus.timeout)

push_on-Leaves :
    (e : Option OpStatus) (out : Bytes) (rest : Written) (s : Bytes)
    → ((st : OpStatus) → e ≡ some st → IsFailure st)
    → Leaves s rest
    → Leaves (out ++ s) (push_on e out rest)
push_on-Leaves (some st) out rest s bad l =
    (s, refl, (λ f. absurd ((bad st refl).0 f)), (bad st refl).1)
push_on-Leaves none out none s bad l = tt
push_on-Leaves none out (some (st, more)) s bad (left, eq, full, late) =
    (left, append_assoc out more left ∙ ap (λ r. out ++ r) eq, full, late)

push_on_total :
    (e : Option OpStatus) (out : Bytes) (rest : Written)
    → (e ≡ none → (o : OpStatus × Bytes) × (rest ≡ some o))
    → (o : OpStatus × Bytes) × (push_on e out rest ≡ some o)
push_on_total (some st) out rest h = ((st, out), refl)
push_on_total none out rest h = let (o, eq) = h refl in ((o.0, out ++ o.1), rw eq refl)

-- Whether an answer brings the loop on.
abbrev pub works : Option OpStatus → ℕ → ℕ
works (some st) m = 1
works none m = if m == 0 then 0 else 1

-- `ends` says with what status an answer ends the loop, `moved` how many bytes it took. The result
-- is the status and what went out; there is none where the answers are over before the loop is.
module _ {A : Type 0} (ends : A → Option OpStatus) (moved : A → ℕ) where
  unfoldable pub push : List A → Bytes → Written
  push ts [] = some (OpStatus.fine, [])
  push [] (b ∷ s) = none
  push (t ∷ ts) (b ∷ s) =
      push_on (ends t) (take (moved t) (b ∷ s)) (push ts (drop (moved t) (b ∷ s)))

  -- How many answers bring the loop on.
  abbrev pub work : List A → ℕ
  work [] = 0
  work (t ∷ ts) = works (ends t) (moved t) + work ts

  pub push-Leaves :
      ((t : A) (st : OpStatus) → ends t ≡ some st → IsFailure st)
      → (ts : List A) (s : Bytes) → Leaves s (push ts s)
  unfolding push
  push-Leaves h ts [] = ([], refl, (λ _. refl), λ e. cc)
  push-Leaves h [] (b ∷ s) = tt
  push-Leaves h (t ∷ ts) (b ∷ s) =
      subst (λ r. Leaves r (push (t ∷ ts) (b ∷ s))) (take-append-drop (moved t) (b ∷ s))
        (push_on-Leaves (ends t) (take (moved t) (b ∷ s)) _ (drop (moved t) (b ∷ s)) (h t)
          (push-Leaves h ts (drop (moved t) (b ∷ s))))

  -- As many answers that bring it on as there are bytes are enough.
  pub push_total :
      (ts : List A) (s : Bytes) → length s ≤ work ts → (o : OpStatus × Bytes) × (push ts s ≡ some o)
  unfolding push
  push_total ts [] h = ((OpStatus.fine, []), refl)
  push_total [] (b ∷ s) h = absurd (omega arith)
  push_total (t ∷ ts) (b ∷ s) h = push_on_total (ends t) _ _ (λ on.
      push_total ts (drop (moved t) (b ∷ s))
        (ground (arith, length-drop (moved t) (b ∷ s), (rw on at h))))

-- What op_transport.h wants of a write over the system's answers: what goes out is the beginning of
-- the bytes, in order; all of them where it returns OP_OK; it ends for its deadline as
-- OP_ERR_STALLED only; and it returns where enough of the answers bring it on.
pub record IsWrite {A : Type 0} (write : List A → Bytes → Written) (work_of : List A → ℕ)
    : Type 0 where
  pub leaves : (ts : List A) (s : Bytes) → Leaves s (write ts s)
  pub returns :
      (ts : List A) (s : Bytes)
      → length s ≤ work_of ts
      → (o : OpStatus × Bytes) × (write ts s ≡ some o)
