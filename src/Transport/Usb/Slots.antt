-- ===== src/Transport/Usb/Slots.antt =====
-- The marks of the posted reads of src/op_usb.c: how many are flying.
use openport_j.Base.{
  ℕ, zero, suc, ◌+◌, ◌≤◌, ◌<◌, ◌≡◌, refl, Bool, true, false, List, [], ◌∷◌, arith, ◌==◌,
  if◌then◌else◌, length, get_or, set,
}

abbrev pub one : Bool → ℕ
one b = if b then 1 else 0

unfoldable pub count_flying : List Bool → ℕ
count_flying [] = 0
count_flying (b ∷ bs) = one b + count_flying bs

pub count_flying-set :
    (bs : List Bool) (i : ℕ) (v : Bool)
    → i < length bs
    → count_flying (set bs i v) + one (get_or bs i false) ≡ count_flying bs + one v
unfolding count_flying
count_flying-set [] i v h = absurd (omega arith)
count_flying-set (b ∷ bs) zero v h = omega arith
count_flying-set (b ∷ bs) (suc i) v h = omega (arith, count_flying-set bs i v (omega arith))

-- A slot out of range is not flying.
pub flying_in : (bs : List Bool) (i : ℕ) → get_or bs i false ≡ true → i < length bs
flying_in [] i h = cc
flying_in (b ∷ bs) zero h = omega arith
flying_in (b ∷ bs) (suc i) h = omega (arith, flying_in bs i h)

pub get_or-set :
    (bs : List Bool) (i j : ℕ) (v : Bool)
    → i < length bs
    → get_or (set bs i v) j false ≡ (if j == i then v else get_or bs j false)
get_or-set [] i j v h = absurd (omega arith)
get_or-set (b ∷ bs) zero zero v h = refl
get_or-set (b ∷ bs) zero (suc j) v h = ground arith
get_or-set (b ∷ bs) (suc i) zero v h = ground arith
get_or-set (b ∷ bs) (suc i) (suc j) v h = ground (arith, get_or-set bs i j v (omega arith))

pub count_flying_full :
    (bs : List Bool)
    → ((j : ℕ) → j < length bs → get_or bs j false ≡ true)
    → count_flying bs ≡ length bs
unfolding count_flying
count_flying_full [] h = refl
count_flying_full (b ∷ bs) h =
    ground (arith, h 0, count_flying_full bs (λ j l. h (suc j) (omega arith)))

count_flying_le : (bs : List Bool) → count_flying bs ≤ length bs
unfolding count_flying
count_flying_le [] = omega arith
count_flying_le (true ∷ bs) = omega (arith, count_flying_le bs)
count_flying_le (false ∷ bs) = omega (arith, count_flying_le bs)

pub flying_full :
    (bs : List Bool) (j : ℕ)
    → count_flying bs ≡ length bs
    → j < length bs
    → get_or bs j false ≡ true
unfolding count_flying
flying_full [] j h l = absurd (omega arith)
flying_full (b ∷ bs) zero h l = ground (arith, count_flying_le bs)
flying_full (b ∷ bs) (suc j) h l =
    flying_full bs j (ground (arith, count_flying_le bs)) (omega arith)
