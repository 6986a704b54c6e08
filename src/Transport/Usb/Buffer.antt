-- ===== src/Transport/Usb/Buffer.antt =====
-- The receive ring of src/op_usb.c: `ring_put` and `ring_get`.
use openport_j.Base.{ℕ, ◌+◌, ◌-◌, ◌%◌, ◌++◌, Bytes, ltb, if◌then◌else◌, length, take, drop}
use openport_j.Device.Ring.{copy_in, copy_out}
use openport_j.Transport.Usb.{Usb, usb_ring_bytes}

-- `first = USB_RING_BYTES - pos; if (first > n) first = n;`
unfoldable pub usb_first_part : ℕ → ℕ → ℕ
usb_first_part pos n = let first = usb_ring_bytes - pos in if ltb n first then n else first

-- A read whose bytes do not fit is dropped whole.
unfoldable pub usb_ring_put : Usb → Bytes → Usb
usb_ring_put u src =
    let tail = (u.ring_head + u.ring_used) % usb_ring_bytes in
    let first = usb_first_part tail (length src) in
    if ltb (usb_ring_bytes - u.ring_used) (length src)
    then record u { ring_dropped = u.ring_dropped + length src }
    else record u {
      ring = copy_in (copy_in u.ring tail (take first src)) 0 (drop first src);
      ring_used = u.ring_used + length src;
    }

unfoldable pub usb_ring_get : Usb → ℕ → Usb × Bytes
usb_ring_get u cap =
    let n = if ltb u.ring_used cap then u.ring_used else cap in
    let first = usb_first_part u.ring_head n in
    (
      record u { ring_head = (u.ring_head + n) % usb_ring_bytes; ring_used = u.ring_used - n },
      copy_out u.ring u.ring_head first ++ copy_out u.ring 0 (n - first),
    )
