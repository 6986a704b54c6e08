-- ===== src/Proto/Resync.antt =====
-- `op_resync_offset` of src/op_proto.c: where to go on after junk.
use openport_j.Base.{
  ℕ, suc, ◌+◌, ◌≤◌, ◌<◌, ◌≡◌, Bool, ◌&&◌, ◌||◌, [], ◌∷◌, Bytes, arith, ◌==◌, length, drop, true,
  false, ◌⊎◌, inl, inr, zero, ◌-◌, Bool-cases, ◌∙◌, ap,
}
use openport_j.Proto.Number.{is_digit}

-- "ar" and a byte that a reply can have next.
unfoldable pub starts_reply : Bytes → Bool
starts_reply (c ∷ d ∷ e ∷ _) =
    c == b'a'
    && d == b'r'
    && (is_digit e
        || e == b'o'
        || e == b'e'
        || e == b'i'
        || e == b'r'
        || e == b'f'
        || e == b'g'
        || e == b'y'
        || e == b'w'
        || e == b'm')
starts_reply _ = false

-- The loop, at offset `i` with the bytes from there on.
unfoldable pub scan_reply : Bytes → ℕ → ℕ
scan_reply [] i = i
scan_reply (c ∷ s) i = elim (starts_reply (c ∷ s)) [ true ↦ i | false ↦ scan_reply s (i + 1) ]

unfoldable pub resync_offset : Bytes → ℕ
resync_offset [] = 0
resync_offset (c ∷ s) = scan_reply s 1

-- The place found: the end, or the first place at or behind `i` that starts a reply.
pub record IsNext (s : Bytes) (i r : ℕ) : Type 0 where
  pub from_i : i ≤ r
  pub within : r ≤ i + length s
  pub starts : (r ≡ i + length s) ⊎ (starts_reply (drop (r - i) s) ≡ true)
  pub first : (k : ℕ) → i + k < r → starts_reply (drop k s) ≡ false

IsNext-here : (c : ℕ) (s : Bytes) (i : ℕ) → starts_reply (c ∷ s) ≡ true → IsNext (c ∷ s) i i
IsNext-here c s i e = record {
  from_i = omega arith;
  within = omega arith;
  starts = inr (ap (λ k. starts_reply (drop k (c ∷ s))) none_skipped ∙ e);
  first = λ k h. absurd (omega arith);
}
  where
    none_skipped : i - i ≡ 0
    none_skipped = omega arith

IsNext-later :
    (c : ℕ) (s : Bytes) (i r : ℕ)
    → starts_reply (c ∷ s) ≡ false
    → IsNext s (i + 1) r
    → IsNext (c ∷ s) i r
IsNext-later c s i r e n = record {
  from_i = omega arith;
  within = omega arith;
  starts = later n.starts;
  first = skipped;
}
  where
    one_more : r - i ≡ suc (r - (i + 1))
    one_more = omega arith

    later :
        (r ≡ i + 1 + length s) ⊎ (starts_reply (drop (r - (i + 1)) s) ≡ true)
        → (r ≡ i + suc (length s)) ⊎ (starts_reply (drop (r - i) (c ∷ s)) ≡ true)
    later (inl h) = inl (omega arith)
    later (inr h) = inr (ap (λ k. starts_reply (drop k (c ∷ s))) one_more ∙ h)

    skipped : (k : ℕ) → i + k < r → starts_reply (drop k (c ∷ s)) ≡ false
    skipped zero h = e
    skipped (suc k) h = n.first k (omega arith)

scan_reply-IsNext : (s : Bytes) (i : ℕ) → IsNext s i (scan_reply s i)
unfolding scan_reply
scan_reply-IsNext [] i = record {
  from_i = omega arith;
  within = omega arith;
  starts = inl (omega arith);
  first = λ k h. absurd (omega arith);
}
scan_reply-IsNext (c ∷ s) i = elim (Bool-cases (starts_reply (c ∷ s))) [
  | inl e ↦ rw (e, scan_reply) (IsNext-here c s i e)
  | inr e ↦ rw (e, scan_reply) (IsNext-later c s i _ e (scan_reply-IsNext s (i + 1)))
]

-- On a buffer that holds a byte, `op_resync_offset` skips at least that byte and stays in the
-- buffer; it stops at the first later place that starts a reply, or at the end if there is none.
pub resync_offset-IsNext : (c : ℕ) (s : Bytes) → IsNext s 1 (resync_offset (c ∷ s))
unfolding resync_offset
resync_offset-IsNext c s = scan_reply-IsNext s 1

pub resync_offset_bounds :
    (c : ℕ) (s : Bytes) → (1 ≤ resync_offset (c ∷ s)) × (resync_offset (c ∷ s) ≤ length (c ∷ s))
resync_offset_bounds c s = let n = resync_offset-IsNext c s in (n.from_i, omega (arith, n.within))
