-- ===== src/Transport/Usb/Pending.antt =====
-- The bytes that the receive ring of src/op_usb.c holds.
use openport_j.Base.{
  ℕ, ◌+◌, ◌-◌, ◌%◌, ◌≤◌, ◌<◌, ◌≡◌, refl, sym, ap, ◌∙◌, ◌++◌, Bytes, arith, length, ltb,
  if◌then◌else◌, le→ltb, lt→ltb,
}
use openport_j.Device.Ring.{ring_put, ring_get, first_part}
use openport_j.Device.Ring.Window.{
  window, length-window, ring_put-window, ring_get-window, window-add,
}
use openport_j.Transport.Usb.{Usb, usb_ring_bytes}
use openport_j.Transport.Usb.Buffer.{usb_first_part, usb_ring_put, usb_ring_get}

-- The indices are in range.
pub record HasRing (u : Usb) : Type 0 where
  pub head_in : u.ring_head < usb_ring_bytes
  pub used_le : u.ring_used ≤ usb_ring_bytes

-- What has arrived and not been read, oldest first.
abbrev pub pending : Usb → Bytes
pending u = window u.ring u.ring_head u.ring_used

-- Bytes that fit go behind the others.
pub put_fits :
    (u : Usb) (src : Bytes)
    → HasRing u
    → u.ring_used + length src ≤ usb_ring_bytes
    → (pending (usb_ring_put u src) ≡ pending u ++ src) × HasRing (usb_ring_put u src)
unfolding usb_ring_put usb_first_part ring_put first_part
put_fits u src h room =
    let put =
      ring_put-window u.ring u.ring_head u.ring_used ((u.ring_head + u.ring_used) % usb_ring_bytes)
        src h.head_in room refl in
    rw (le→ltb (usb_ring_bytes - u.ring_used) (length src) (omega arith))
      (put.0, record { head_in = h.head_in; used_le = room })

-- Bytes that do not fit are counted and change nothing.
pub put_full :
    (u : Usb) (src : Bytes)
    → HasRing u
    → usb_ring_bytes < u.ring_used + length src
    → usb_ring_put u src ≡ record u { ring_dropped = u.ring_dropped + length src }
unfolding usb_ring_put
put_full u src h full =
    rw (lt→ltb (usb_ring_bytes - u.ring_used) (length src) (omega (arith, h.used_le))) refl

abbrev pub taken : Usb → ℕ → ℕ
taken u cap = if ltb u.ring_used cap then u.ring_used else cap

taken-le : (u : Usb) (cap : ℕ) → taken u cap ≤ u.ring_used
taken-le u cap = ground arith

-- The oldest bytes come out and the others stay.
pub get_splits :
    (u : Usb) (cap : ℕ)
    → HasRing u
    → ((usb_ring_get u cap).1 ++ pending (usb_ring_get u cap).0 ≡ pending u)
      × (length (usb_ring_get u cap).1 ≡ taken u cap)
      × HasRing (usb_ring_get u cap).0
unfolding usb_ring_get usb_first_part ring_get first_part
get_splits u cap h = (
  ap (λ s. s ++ pending (usb_ring_get u cap).0) read
      ∙ sym (window-add u.ring u.ring_head n (u.ring_used - n) h.head_in)
      ∙ ap (window u.ring u.ring_head) (omega (arith, taken-le u cap)),
  ap length read ∙ length-window u.ring u.ring_head n,
  record { head_in = omega arith; used_le = omega (arith, h.used_le) },
)
  where
    n : ℕ
    n = taken u cap

    read : (usb_ring_get u cap).1 ≡ window u.ring u.ring_head n
    read =
        ap (λ (p : Bytes × ℕ). p.0)
          (ring_get-window u.ring u.ring_head n h.head_in
            (omega (arith, taken-le u cap, h.used_le)))
