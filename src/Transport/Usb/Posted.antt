-- ===== src/Transport/Usb/Posted.antt =====
-- What holds of the posted reads of src/op_usb.c whatever completes.
use openport_j.Base.{
  ℕ, ◌+◌, ◌<◌, ◌≡◌, refl, sym, ap, ◌∙◌, true, false, List, [], ◌∷◌, Bytes, arith, ltb, if_either,
  length, length-set, get_or, set, ltb→lt, Bool-cases, inl, inr,
}
use openport_j.Codes.{OpStatus, is_fine}
use openport_j.Transport.Usb.{Usb, LibusbCode, from_libusb, usb_rx_transfers, usb_ring_bytes}
use openport_j.Transport.Usb.Buffer.{usb_ring_put}
use openport_j.Transport.Usb.Pending.{HasRing, put_fits, put_full}
use openport_j.Transport.Usb.Slots.{count_flying, count_flying-set, flying_in}
use openport_j.Transport.Usb.Receive.{
  is_gone, rx_fail, rx_submit, cancelled, Event, done, polled, rx_landed, put_some, rx_event,
}

-- The ring is valid, and the count of the flying reads is right.
pub record Counted (u : Usb) : Type 0 where
  pub has_ring : HasRing u
  pub slots : length u.flying ≡ usb_rx_transfers
  pub counted : u.rx_flying ≡ count_flying u.flying

-- With no error to report and no close under way, every read is posted.
abbrev pub AllPosted : Usb → Type 0
AllPosted u = is_fine u.rx_error ≡ true → u.stopping ≡ false → u.rx_flying ≡ usb_rx_transfers

-- What the event thread hands over: a transfer that is flying, cancelled only by a close.
abbrev pub Comes : Usb → Event → Type 0
Comes u (done i c r) = (get_or u.flying i false ≡ true) × (c ≡ cancelled → u.stopping ≡ true)
Comes u polled = Unit

abbrev pub AllCome : Usb → List Event → Type 0
AllCome u [] = Unit
AllCome u (e ∷ es) = Comes u e × AllCome (rx_event u e) es

pub rx_fail-Counted : (u : Usb) (st : OpStatus) → Counted u → Counted (rx_fail u st)
unfolding rx_fail
rx_fail-Counted u st c = if_either Counted (is_gone u.rx_error) _ _ c (record {
  has_ring = record { head_in = c.has_ring.head_in; used_le = c.has_ring.used_le };
  slots = c.slots;
  counted = c.counted;
})

pub rx_fail_lem :
    (u : Usb) (st : OpStatus) → is_fine st ≡ false → is_fine (rx_fail u st).rx_error ≡ false
unfolding rx_fail
rx_fail_lem u st h = ground arith

pub posted-Counted :
    (u : Usb) (i : ℕ)
    → Counted u
    → i < usb_rx_transfers
    → get_or u.flying i false ≡ false
    → Counted (record u { flying = set u.flying i true; rx_flying = u.rx_flying + 1 })
posted-Counted u i c l off = record {
  has_ring = record { head_in = c.has_ring.head_in; used_le = c.has_ring.used_le };
  slots = length-set u.flying i true ∙ c.slots;
  counted = ground (arith, count_flying-set u.flying i true (omega (arith, c.slots)), c.counted);
}

-- Posting one read, whatever libusb answers: it is flying, or an error is to be reported.
pub rx_submit_cases :
    (P : Usb → Type 0) (u : Usb) (i : ℕ) (r : LibusbCode)
    → P (record u { flying = set u.flying i true; rx_flying = u.rx_flying + 1 })
    → ((st : OpStatus) → is_fine st ≡ false → P (rx_fail u st))
    → P (rx_submit u i r)
unfolding rx_submit from_libusb
rx_submit_cases P u i LibusbCode.success on bad = on
rx_submit_cases P u i LibusbCode.error_timeout on bad = bad _ refl
rx_submit_cases P u i LibusbCode.error_no_device on bad = bad _ refl
rx_submit_cases P u i LibusbCode.error_not_found on bad = bad _ refl
rx_submit_cases P u i LibusbCode.error_access on bad = bad _ refl
rx_submit_cases P u i LibusbCode.error_busy on bad = bad _ refl
rx_submit_cases P u i LibusbCode.error_overflow on bad = bad _ refl
rx_submit_cases P u i LibusbCode.error_invalid_param on bad = bad _ refl
rx_submit_cases P u i LibusbCode.other on bad = bad _ refl

pub rx_submit-Counted :
    (u : Usb) (i : ℕ) (r : LibusbCode)
    → Counted u
    → i < usb_rx_transfers
    → get_or u.flying i false ≡ false
    → Counted (rx_submit u i r)
rx_submit-Counted u i r c l off =
    rx_submit_cases Counted u i r (posted-Counted u i c l off) (λ st _. rx_fail-Counted u st c)

-- With no error to report afterwards there was none before, and the read is flying.
pub rx_submit_fine :
    (u : Usb) (i : ℕ) (r : LibusbCode)
    → is_fine (rx_submit u i r).rx_error ≡ true
    → (r ≡ LibusbCode.success) × (is_fine u.rx_error ≡ true)
unfolding rx_submit from_libusb rx_fail
rx_submit_fine u i r h = ground arith

pub landed-Counted :
    (u : Usb) (i : ℕ) → Counted u → get_or u.flying i false ≡ true → Counted (rx_landed u i)
unfolding rx_landed
landed-Counted u i c on = record {
  has_ring = record { head_in = c.has_ring.head_in; used_le = c.has_ring.used_le };
  slots = length-set u.flying i false ∙ c.slots;
  counted = ground (arith, count_flying-set u.flying i false (flying_in u.flying i on), c.counted);
}

-- The fields that the ring does not touch.
abbrev pub SameReads : Usb → Usb → Type 0
SameReads u v =
    (v.flying ≡ u.flying)
    × (v.rx_flying ≡ u.rx_flying)
    × (v.rx_error ≡ u.rx_error)
    × (v.stopping ≡ u.stopping)

put-SameReads : (u : Usb) (src : Bytes) → SameReads u (usb_ring_put u src)
unfolding usb_ring_put
put-SameReads u src =
    if_either (SameReads u) _ _ _ (refl, refl, refl, refl) (refl, refl, refl, refl)

put-HasRing : (u : Usb) (src : Bytes) → HasRing u → HasRing (usb_ring_put u src)
put-HasRing u src h = elim (Bool-cases (ltb usb_ring_bytes (u.ring_used + length src))) [
  | inl full ↦
      rw (put_full u src h (ltb→lt _ _ full)) (record { head_in = h.head_in; used_le = h.used_le })
  | inr room ↦ (put_fits u src h (ground arith)).1
]

pub put_some-Counted : (u : Usb) (src : Bytes) → Counted u → Counted (put_some u src)
unfolding put_some
put_some-Counted u src c =
    if_either Counted (ltb 0 (length src)) _ _
      (record {
        has_ring = put-HasRing u src c.has_ring;
        slots = ap length (put-SameReads u src).0 ∙ c.slots;
        counted =
            (put-SameReads u src).1 ∙ c.counted ∙ ap count_flying (sym (put-SameReads u src).0);
      })
      c

pub put_some-SameReads : (u : Usb) (src : Bytes) → SameReads u (put_some u src)
unfolding put_some
put_some-SameReads u src =
    if_either (SameReads u) (ltb 0 (length src)) _ _ (put-SameReads u src) (refl, refl, refl, refl)

-- A read that is posted again: the counts stay right, and all are posted where all were.
pub resubmit-Counted :
    (u : Usb) (i : ℕ) (r : LibusbCode)
    → Counted u
    → i < usb_rx_transfers
    → get_or u.flying i false ≡ false
    → (is_fine u.rx_error ≡ true → u.stopping ≡ false → u.rx_flying + 1 ≡ usb_rx_transfers)
    → Counted (rx_submit u i r) × AllPosted (rx_submit u i r)
resubmit-Counted u i r c l off all = (
  rx_submit-Counted u i r c l off,
  λ fine running.
      let ok = rx_submit_fine u i r fine in
      rw ok.0 (unfold rx_submit in all ok.1 (rw ok.0 at running)),
)
