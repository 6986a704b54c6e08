-- ===== src/Base/All.antt =====
-- A predicate on every element of a list, and the strings whose elements are bytes.
use openport_j.Base.{ℕ, zero, suc, take, ◌<◌, List, [], ◌∷◌, ◌++◌, Bytes}

module _ {ℓ κ} {A : Type ℓ} (P : A → Type κ) where
  abbrev pub All : List A → Type κ
  All [] = Unit
  All (x ∷ xs) = P x × All xs

  pub All-append : (xs ys : List A) → All xs → All ys → All (xs ++ ys)
  All-append [] ys _ hy = hy
  All-append (x ∷ xs) ys (px, hx) hy = (px, All-append xs ys hx hy)

  pub All-take : (n : ℕ) (xs : List A) → All xs → All (take n xs)
  All-take zero xs h = tt
  All-take (suc n) [] h = tt
  All-take (suc n) (x ∷ xs) (px, hx) = (px, All-take n xs hx)

abbrev pub AreBytes : Bytes → Type 0
AreBytes = All (λ b. b < 256)
