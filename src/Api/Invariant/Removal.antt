-- ===== src/Api/Invariant/Removal.antt =====
-- What `periodic_stop` takes out of the table of periodic messages.
use openport_j.Base.{
  ℕ, zero, suc, ◌+◌, ◌-◌, ◌≤◌, ◌<◌, ◌≡◌, refl, ap, List, [], ◌∷◌, arith, ◌==◌, if◌then◌else◌,
  length, length-take, length-set, get_or, set, take,
}
use openport_j.Api.Periodic.{remove_swap, find_id}

-- How often a number stands in a list.
unfoldable pub count : ℕ → List ℕ → ℕ
count x [] = 0
count x (y ∷ ys) = (if x == y then 1 else 0) + count x ys

abbrev pub one_if : ℕ → ℕ → ℕ
one_if x y = if x == y then 1 else 0

count-set :
    (x v : ℕ) (ids : List ℕ) (slot : ℕ)
    → slot < length ids
    → count x (set ids slot v) + one_if x (get_or ids slot 0) ≡ count x ids + one_if x v
unfolding count
count-set x v [] slot h = absurd (omega arith)
count-set x v (y ∷ ys) zero h = omega arith
count-set x v (y ∷ ys) (suc slot) h = omega (arith, count-set x v ys slot (omega arith))

count-take :
    (x : ℕ) (n : ℕ) (ys : List ℕ)
    → length ys ≡ suc n
    → count x (take n ys) + one_if x (get_or ys n 0) ≡ count x ys
unfolding count
count-take x zero [] h = absurd (omega arith)
count-take x zero (y ∷ []) h = omega arith
count-take x zero (y ∷ z ∷ ys) h = absurd (omega arith)
count-take x (suc n) [] h = absurd (omega arith)
count-take x (suc n) (y ∷ ys) h = omega (arith, count-take x n ys (omega arith))

get_or-set-same :
    (ids : List ℕ) (slot n : ℕ) → get_or (set ids slot (get_or ids n 0)) n 0 ≡ get_or ids n 0
get_or-set-same [] slot n = refl
get_or-set-same (y ∷ ys) zero zero = refl
get_or-set-same (y ∷ ys) zero (suc n) = refl
get_or-set-same (y ∷ ys) (suc slot) zero = refl
get_or-set-same (y ∷ ys) (suc slot) (suc n) = get_or-set-same ys slot n

-- Stopping removes the message in an occupied slot from the table, once, and keeps every other: the
-- table counts each id as often as before, but for the removed one.
pub count-remove_swap :
    (x : ℕ) (ids : List ℕ) (slot : ℕ)
    → slot < length ids
    → (count x (remove_swap ids slot) + one_if x (get_or ids slot 0) ≡ count x ids)
      × (length (remove_swap ids slot) + 1 ≡ length ids)
unfolding remove_swap
count-remove_swap x ids slot h =
    let n = length ids - 1 in
    let v = get_or ids n 0 in
    let len = length-set ids slot v in
    (
      omega (
        arith,
        count-set x v ids slot h,
        count-take x n (set ids slot v) (omega arith),
        ap (one_if x) (get_or-set-same ids slot n),
      ),
      omega (arith, length-take n (set ids slot v)),
    )

-- The search of `PassThruStopPeriodicMsg` finds the first slot of the id, or the end.
pub find_id_lem :
    (ids : List ℕ) (id : ℕ)
    → (find_id ids id ≤ length ids)
      × (find_id ids id < length ids → get_or ids (find_id ids id) 0 ≡ id)
      × (find_id ids id ≡ length ids → count id ids ≡ 0)
unfolding find_id count
find_id_lem [] id = (omega arith, (λ h. absurd (omega arith)), λ _. refl)
find_id_lem (x ∷ xs) id = ground (arith, find_id_lem xs id)
