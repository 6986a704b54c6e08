-- ===== src/Transport/Usb/Reattach.antt =====
-- What a close gives back to the kernel: the loop of `usb_close` in src/op_usb.c.
use openport_j.Base.{
  ℕ, zero, suc, ◌+◌, ◌≤◌, ◌<◌, ◌≡◌, Bool, true, false, not, List, [], ◌∷◌, ◌++◌, arith, if_cases,
  Bool-cases, inl, inr, sym, ==→eq, ◌==◌,
}
use mathlib.Core.Path.{subst}
use openport_j.Base.All.{All, All-append}
use openport_j.Transport.Usb.Stop.{Kernel, reattach_one, reattach}

module _ (k : Kernel) (bound : ℕ → Bool) where
  -- A driver that is bound stays so when another interface is attached, and attaching binds.
  pub record IsSteady : Type 0 where
    pub stays :
        (done : List ℕ) (n m : ℕ) → k.active done n ≡ true → k.active (done ++ (m ∷ [])) n ≡ true
    pub binds : (done : List ℕ) (n : ℕ) → k.active (done ++ (n ∷ [])) n ≡ true
    pub succeeds : (done : List ℕ) (n : ℕ) → k.active done n ≡ false → k.attaches done n ≡ true

  one_stays :
      IsSteady
      → (done : List ℕ) (num n : ℕ) → k.active done n ≡ true
      → k.active (reattach_one k bound done num) n ≡ true
  one_stays s done num n h =
      if_cases P (not (bound num)) _ _ (λ _. h)
        (λ _.
          if_cases P (k.active done num) _ _ (λ _. h)
            (λ _. if_cases P (k.attaches done num) _ _ (λ _. s.stays done n num h) (λ _. h)))
    where
      P : List ℕ → Type 0
      P l = k.active l n ≡ true

  one_binds :
      IsSteady
      → (done : List ℕ) (num : ℕ) → bound num ≡ true
      → k.active (reattach_one k bound done num) num ≡ true
  one_binds s done num b =
      if_cases P (not (bound num)) _ _ (λ off. absurd (ground arith))
        (λ _.
          if_cases P (k.active done num) _ _ (λ on. on)
            (λ off.
              if_cases P (k.attaches done num) _ _ (λ _. s.binds done num)
                (λ fails. absurd (ground (arith, s.succeeds done num off)))))
    where
      P : List ℕ → Type 0
      P l = k.active l num ≡ true

  each_stays :
      IsSteady
      → (left num : ℕ) (done : List ℕ) (n : ℕ) → k.active done n ≡ true
      → k.active (reattach k bound done left num) n ≡ true
  unfolding reattach
  each_stays s zero num done n h = h
  each_stays s (suc left) num done n h =
      each_stays s left (num + 1) (reattach_one k bound done num) n (one_stays s done num n h)

  each_binds :
      IsSteady
      → (left num : ℕ) (done : List ℕ) (n : ℕ) → num ≤ n
      → n < num + left
      → bound n ≡ true
      → k.active (reattach k bound done left num) n ≡ true
  unfolding reattach
  each_binds s zero num done n l h b = absurd (omega arith)
  each_binds s (suc left) num done n l h b = elim (Bool-cases (n == num)) [
    | inl e ↦
        subst
          (λ j. k.active (reattach k bound (reattach_one k bound done num) left (num + 1)) j ≡ true)
          (sym (==→eq n num e))
          (each_stays s left (num + 1) (reattach_one k bound done num) num
            (one_binds s done num (rw (sym (==→eq n num e)) b)))
    | inr ne ↦
        each_binds s left (num + 1) (reattach_one k bound done num) n (ground arith) (omega arith) b
  ]

  -- Only what the kernel had is attached.
  only_bound :
      (left num : ℕ) (done : List ℕ)
      → All (λ n. bound n ≡ true) done
      → All (λ n. bound n ≡ true) (reattach k bound done left num)
  unfolding reattach
  only_bound zero num done a = a
  only_bound (suc left) num done a = only_bound left (num + 1) (reattach_one k bound done num) (
      if_cases P (not (bound num)) _ _ (λ _. a)
        (λ had.
          if_cases P (k.active done num) _ _ (λ _. a)
            (λ _.
              if_cases P (k.attaches done num) _ _
                (λ _. All-append (λ n. bound n ≡ true) done (num ∷ []) a (ground arith, tt))
                (λ _. a))))
    where
      P : List ℕ → Type 0
      P = All (λ n. bound n ≡ true)

  -- A close gives the kernel back what it had: where attaching an interface that has no driver
  -- succeeds and drivers stay bound, as on Linux, where one attach may bind other interfaces too,
  -- every interface below 32 that had a driver at the open has one after the loop, and no other
  -- interface is attached.
  pub reattach-Restores :
      IsSteady
      → ((n : ℕ) → n < 32 → bound n ≡ true → k.active (reattach k bound [] 32 0) n ≡ true)
        × All (λ n. bound n ≡ true) (reattach k bound [] 32 0)
  reattach-Restores s =
      ((λ n l b. each_binds s 32 0 [] n (omega arith) (omega arith) b), only_bound 32 0 [] tt)
