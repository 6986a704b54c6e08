-- ===== src/Transport/Usb/Write.antt =====
-- `usb_write` of src/op_usb.c.
use openport_j.Base.{
  ℕ, ◌-◌, ◌^◌, List, [], Option, some, none, Bytes, ltb, ◌==◌, if◌then◌else◌, length,
}
use openport_j.Transport.Push.{Written, push}
use openport_j.Codes.{OpStatus}
use openport_j.Transport.Usb.{LibusbCode, from_libusb}

-- The answer of one libusb_bulk_transfer: its code and the bytes that it moved.
pub record Transfer : Type 0 where
  pub code : LibusbCode
  pub moved : ℕ

-- What one answer makes of the loop: the status with which it ends, or another round.
unfoldable pub transfer_ends : Transfer → Option OpStatus
transfer_ends t = elim t.code [
  | LibusbCode.success ↦ if t.moved == 0 then some OpStatus.io else none
  | LibusbCode.error_timeout ↦ if ltb 0 t.moved then none else some OpStatus.stalled
  | r ↦ some (from_libusb r)
]

-- INT_MAX
abbrev pub int_max : ℕ
int_max = 2 ^ 31 - 1

-- The status and what went out, one answer for each round.
unfoldable pub usb_write : List Transfer → Bytes → Written
usb_write ts s =
    if ltb int_max (length s)
    then some (OpStatus.param, [])
    else push transfer_ends (λ t. t.moved) ts s
