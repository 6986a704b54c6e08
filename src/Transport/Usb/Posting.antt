-- ===== src/Transport/Usb/Posting.antt =====
-- The loops of src/op_usb.c that post the reads: `rx_start` and the end of `usb_read`.
use openport_j.Base.{
  ℕ, zero, suc, ◌+◌, ◌≤◌, ◌<◌, ◌≡◌, refl, ◌∙◌, true, false, arith, if_cases, get_or,
}
use mathlib.Core.Path.{subst}
use openport_j.Codes.{is_fine}
use openport_j.Transport.Usb.{Usb, LibusbCode, usb_rx_transfers}
use openport_j.Transport.Usb.Slots.{count_flying_full, get_or-set}
use openport_j.Transport.Usb.Receive.{rx_submit, for_slots, repost_slot, rx_repost, rx_post}
use openport_j.Transport.Usb.Posted.{Counted, rx_submit-Counted, rx_submit_fine}
use openport_j.Transport.Usb.Completions.{Posted}

-- The rule of the loop: it ends early only on an error.
pub for_slots_inv :
    (P : ℕ → Usb → Type 0) (body : Usb → ℕ → Usb)
    → ((i : ℕ) (u : Usb)
        → i < usb_rx_transfers
        → is_fine u.rx_error ≡ true
        → P i u
        → P (i + 1) (body u i))
    → ((i : ℕ) (u : Usb) → is_fine u.rx_error ≡ false → P i u → P usb_rx_transfers u)
    → (k i : ℕ) (u : Usb) → i + k ≡ usb_rx_transfers
    → P i u
    → P usb_rx_transfers (for_slots body k i u)
unfolding for_slots
for_slots_inv P body step early zero i u e p = subst (λ n. P n u) (omega arith) p
for_slots_inv P body step early (suc k) i u e p =
    if_cases (P usb_rx_transfers) (is_fine u.rx_error) _ _
      (λ fine.
        for_slots_inv P body step early k (i + 1) (body u i) (omega arith)
          (step i u (omega arith) fine p))
      (λ bad. early i u bad p)

-- With no error the reads of the slots below `i` are flying.
abbrev FirstPosted : ℕ → Usb → Type 0
FirstPosted i u =
    Counted u × (is_fine u.rx_error ≡ true → (j : ℕ) → j < i → get_or u.flying j false ≡ true)

submit-FirstPosted :
    (i : ℕ) (u : Usb) (r : LibusbCode)
    → i < usb_rx_transfers
    → is_fine u.rx_error ≡ true
    → get_or u.flying i false ≡ false
    → FirstPosted i u
    → FirstPosted (i + 1) (rx_submit u i r)
submit-FirstPosted i u r l fine off (c, first) = (
  rx_submit-Counted u i r c l off,
  λ now j k.
      let ok = rx_submit_fine u i r now in
      rw ok.0 (
        unfold rx_submit in
        ground (arith, get_or-set u.flying i j true (omega (arith, c.slots)), first fine j)),
)

repost-FirstPosted :
    (answer : ℕ → LibusbCode) (i : ℕ) (u : Usb)
    → i < usb_rx_transfers
    → is_fine u.rx_error ≡ true
    → FirstPosted i u
    → FirstPosted (i + 1) (repost_slot answer u i)
repost-FirstPosted answer i u l fine p =
    if_cases (FirstPosted (i + 1)) (get_or u.flying i false) _ _
      (λ on. (p.0, λ now j k. ground (arith, p.1 fine j, on)))
      (λ off. submit-FirstPosted i u (answer i) l fine off p)

all_first : (u : Usb) → FirstPosted usb_rx_transfers u → Posted u
all_first u (c, first) = (
  c,
  λ fine _.
      c.counted
      ∙ count_flying_full u.flying (λ j l. first fine j (omega (arith, c.slots)))
      ∙ c.slots,
)

pub repost-Posted : (answer : ℕ → LibusbCode) (u : Usb) → Counted u → Posted (rx_repost answer u)
unfolding rx_repost
repost-Posted answer u c = all_first _ (
    for_slots_inv FirstPosted (repost_slot answer) (repost-FirstPosted answer)
      (λ i v bad p. (p.0, λ fine. cc)) usb_rx_transfers 0 u refl
      (c, λ fine j l. absurd (omega arith)))

-- The same where none is flying at first.
abbrev NoneAfter : ℕ → Usb → Type 0
NoneAfter i u =
    FirstPosted i u
    × (is_fine u.rx_error ≡ true → (j : ℕ) → i ≤ j → get_or u.flying j false ≡ false)

post-NoneAfter :
    (answer : ℕ → LibusbCode) (i : ℕ) (u : Usb)
    → i < usb_rx_transfers
    → is_fine u.rx_error ≡ true
    → NoneAfter i u
    → NoneAfter (i + 1) (rx_submit u i (answer i))
post-NoneAfter answer i u l fine p = (
  submit-FirstPosted i u (answer i) l fine (p.1 fine i (omega arith)) p.0,
  λ now j k.
      let ok = rx_submit_fine u i (answer i) now in
      rw ok.0 (
        unfold rx_submit in
        ground (
          arith,
          get_or-set u.flying i j true (omega (arith, p.0.0.slots)),
          p.1 fine j (omega arith),
        )),
)

pub post-Posted :
    (answer : ℕ → LibusbCode) (u : Usb)
    → Counted u
    → ((j : ℕ) → get_or u.flying j false ≡ false)
    → Posted (rx_post answer u)
unfolding rx_post
post-Posted answer u c none_on =
    let out =
      for_slots_inv NoneAfter (λ v i. rx_submit v i (answer i)) (post-NoneAfter answer)
        (λ i v bad p. ((p.0.0, λ fine. cc), λ fine. cc)) usb_rx_transfers 0 u refl
        ((c, λ fine j l. absurd (omega arith)), λ fine j l. none_on j) in
    all_first _ out.0
