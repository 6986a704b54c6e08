-- ===== src/Device/Ring/Window.antt =====
-- What the ring holds from an index on, going round at its end.
use openport_j.Base.{
  ℕ, zero, suc, ◌+◌, ◌-◌, ◌%◌, ◌≤◌, ◌<◌, ◌≡◌, ◌≢◌, refl, sym, ap, ap₂, ◌∙◌, [], ◌∷◌, ◌++◌,
  append_assoc, append-nil, Bytes, arith, length, take, drop, take-append-drop, length-take,
  length-drop, ltb, ltb→lt, ltb→le, Bool-cases, inl, inr,
}
use openport_j.Device.Ring.{
  rxq_bytes, Memory, store, copy_in, copy_out, first_part, ring_put, ring_get,
}

unfoldable pub window : Memory → ℕ → ℕ → Bytes
window mem h zero = []
window mem h (suc n) = mem h ∷ window mem ((h + 1) % rxq_bytes) n

pub length-window : (mem : Memory) (h n : ℕ) → length (window mem h n) ≡ n
unfolding window
length-window mem h zero = refl
length-window mem h (suc n) = ap suc (length-window mem ((h + 1) % rxq_bytes) n)

-- A window is read in two parts.
pub window-add :
    (mem : Memory) (h a b : ℕ)
    → h < rxq_bytes
    → window mem h (a + b) ≡ window mem h a ++ window mem ((h + a) % rxq_bytes) b
unfolding window
window-add mem h zero b l = ap₂ (window mem) (omega arith) (omega arith)
window-add mem h (suc a) b l =
    ap (window mem h) {y = suc (a + b)} (omega arith)
    ∙ ap (λ s. mem h ∷ s)
        (window-add mem ((h + 1) % rxq_bytes) a b (omega arith)
          ∙ ap (λ k. window mem ((h + 1) % rxq_bytes) a ++ window mem k b) (omega arith))

-- Short of the end the window is plain memory.
copy_out-window : (mem : Memory) (h n : ℕ) → h + n ≤ rxq_bytes → copy_out mem h n ≡ window mem h n
unfolding copy_out window
copy_out-window mem h zero l = refl
copy_out-window mem h (suc zero) l = refl
copy_out-window mem h (suc (suc n)) l =
    ap (λ s. mem h ∷ s)
      (copy_out-window mem (h + 1) (suc n) (omega arith)
        ∙ ap (λ k. window mem k (suc n)) (omega arith))

-- `ring_get` returns the window.
pub ring_get-window :
    (mem : Memory) (h n : ℕ)
    → h < rxq_bytes
    → n ≤ rxq_bytes
    → ring_get mem h n ≡ (window mem h n, (h + n) % rxq_bytes)
unfolding ring_get first_part copy_out
ring_get-window mem h n l k = elim (Bool-cases (ltb n (rxq_bytes - h))) [
  | inl e ↦ rw e (ap (λ s. (s, (h + n) % rxq_bytes)) (whole (ltb→lt n (rxq_bytes - h) e)))
  | inr e ↦ rw e (ap (λ s. (s, (h + n) % rxq_bytes)) (parts (ltb→le n (rxq_bytes - h) e)))
]
  where
    whole : n < rxq_bytes - h → copy_out mem h n ++ copy_out mem 0 (n - n) ≡ window mem h n
    whole lt =
        ap (λ k. copy_out mem h n ++ copy_out mem 0 k) {y = 0} (omega arith)
        ∙ append-nil (copy_out mem h n)
        ∙ copy_out-window mem h n (omega arith)

    parts :
        rxq_bytes - h ≤ n
        → copy_out mem h (rxq_bytes - h) ++ copy_out mem 0 (n - (rxq_bytes - h)) ≡ window mem h n
    parts le =
        ap₂ ◌++◌ (copy_out-window mem h (rxq_bytes - h) (omega arith)) (
          copy_out-window mem 0 (n - (rxq_bytes - h)) (omega arith)
          ∙ ap (λ k. window mem k (n - (rxq_bytes - h))) (omega arith))
        ∙ sym (window-add mem h (rxq_bytes - h) (n - (rxq_bytes - h)) l)
        ∙ ap (window mem h) (omega arith)

store_self : (mem : Memory) (i j v : ℕ) → j ≡ i → store mem i v j ≡ v
unfolding store
store_self mem i j v e = ground arith

store_other : (mem : Memory) (i j v : ℕ) → j ≢ i → store mem i v j ≡ mem j
unfolding store
store_other mem i j v e = ground arith

-- Writing just behind a window extends it by that byte.
window-store :
    (mem : Memory) (h n i v : ℕ)
    → h < rxq_bytes
    → n < rxq_bytes
    → i ≡ (h + n) % rxq_bytes
    → window (store mem i v) h (suc n) ≡ window mem h n ++ (v ∷ [])
unfolding window
window-store mem h zero i v l k e = ap (λ b. b ∷ []) (store_self mem i h v (omega arith))
window-store mem h (suc n) i v l k e =
    ap₂ ◌∷◌ (store_other mem i h v (omega arith))
      (window-store mem ((h + 1) % rxq_bytes) n i v (omega arith) (omega arith) (omega arith))

-- The bytes of `src` from index `t` on, going round.
put_round : Memory → ℕ → Bytes → Memory
put_round mem t [] = mem
put_round mem t (b ∷ src) = put_round (store mem t b) ((t + 1) % rxq_bytes) src

put_round-append :
    (mem : Memory) (t : ℕ) (src more : Bytes)
    → t < rxq_bytes
    → put_round mem t (src ++ more)
      ≡ put_round (put_round mem t src) ((t + length src) % rxq_bytes) more
unfolding put_round
put_round-append mem t [] more l = ap (λ k. put_round mem k more) (omega arith)
put_round-append mem t (b ∷ src) more l =
    put_round-append (store mem t b) ((t + 1) % rxq_bytes) src more (omega arith)
    ∙ ap (λ k. put_round (put_round (store mem t b) ((t + 1) % rxq_bytes) src) k more) (omega arith)

copy_in-put_round :
    (mem : Memory) (t : ℕ) (src : Bytes)
    → t + length src ≤ rxq_bytes
    → copy_in mem t src ≡ put_round mem t src
unfolding copy_in put_round
copy_in-put_round mem t [] l = refl
copy_in-put_round mem t (b ∷ []) l = refl
copy_in-put_round mem t (b ∷ c ∷ src) l =
    copy_in-put_round (store mem t b) (t + 1) (c ∷ src) (omega arith)
    ∙ ap (λ k. put_round (store mem t b) k (c ∷ src)) (omega arith)

window-put_round :
    (mem : Memory) (h n t : ℕ) (src : Bytes)
    → h < rxq_bytes
    → n + length src ≤ rxq_bytes
    → t ≡ (h + n) % rxq_bytes
    → window (put_round mem t src) h (n + length src) ≡ window mem h n ++ src
unfolding put_round
window-put_round mem h n t [] l k e = ap (window mem h) (omega arith) ∙ sym (append-nil _)
window-put_round mem h n t (b ∷ src) l k e =
    ap (window (put_round (store mem t b) ((t + 1) % rxq_bytes) src) h) (omega arith)
    ∙ window-put_round (store mem t b) h (suc n) ((t + 1) % rxq_bytes) src l (omega arith)
        (omega arith)
    ∙ ap (λ s. s ++ src) (window-store mem h n t b l (omega arith) e)
    ∙ append_assoc (window mem h n) (b ∷ []) src

take_all : (s : Bytes) → take (length s) s ≡ s
take_all [] = refl
take_all (b ∷ s) = ap (λ r. b ∷ r) (take_all s)

drop_all : (s : Bytes) → drop (length s) s ≡ []
drop_all [] = refl
drop_all (b ∷ s) = drop_all s

two_copies :
    (mem : Memory) (t : ℕ) (src : Bytes)
    → t < rxq_bytes
    → length src ≤ rxq_bytes
    → copy_in
        (copy_in mem t (take (first_part t (length src)) src))
        0
        (drop (first_part t (length src)) src)
      ≡ put_round mem t src
unfolding first_part
two_copies mem t src l k = elim (Bool-cases (ltb (length src) (rxq_bytes - t))) [
  | inl e ↦ rw (e, take_all, drop_all) (one (ltb→lt _ _ e))
  | inr e ↦ rw e (two (ltb→le _ _ e))
]
  where
    f : ℕ
    f = rxq_bytes - t

    one : length src < f → copy_in (copy_in mem t src) 0 [] ≡ put_round mem t src
    one lt = unfold copy_in in copy_in-put_round mem t src (omega arith)

    two : f ≤ length src → copy_in (copy_in mem t (take f src)) 0 (drop f src) ≡ put_round mem t src
    two le =
        copy_in-put_round (copy_in mem t (take f src)) 0 (drop f src)
          (omega (arith, length-drop f src))
        ∙ ap (λ m. put_round m 0 (drop f src))
            (copy_in-put_round mem t (take f src) (omega (arith, length-take f src)))
        ∙ ap (λ i. put_round (put_round mem t (take f src)) i (drop f src))
            {y = (t + length (take f src)) % rxq_bytes} (omega (arith, length-take f src))
        ∙ sym (put_round-append mem t (take f src) (drop f src) l)
        ∙ ap (put_round mem t) (take-append-drop f src)

-- `ring_put` behind a window that leaves room extends it by the bytes put.
pub ring_put-window :
    (mem : Memory) (h n t : ℕ) (src : Bytes)
    → h < rxq_bytes
    → n + length src ≤ rxq_bytes
    → t ≡ (h + n) % rxq_bytes
    → (window (ring_put mem t src).0 h (n + length src) ≡ window mem h n ++ src)
      × ((ring_put mem t src).1 ≡ (h + (n + length src)) % rxq_bytes)
unfolding ring_put first_part
ring_put-window mem h n t src l k e = (
  ap (λ m. window m h (n + length src)) (two_copies mem t src (omega arith) (omega arith))
      ∙ window-put_round mem h n t src l k e,
  omega arith,
)
