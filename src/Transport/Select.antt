-- ===== src/Transport/Select.antt =====
-- Which transport is opened, `op_transport_open` of src/op_usb.c; the serial device of the cable,
-- `op_serial_find` of src/op_serial.c; and the calls through the table of src/op_transport.h.
use openport_j.Base.{
  ℕ, Bool, true, false, ◌&&◌, List, [], ◌∷◌, Option, none, some, Bytes, codes, ◌==◌, if◌then◌else◌,
}
use openport_j.Codes.{OpStatus}
use openport_j.Transport.Push.{Written}
use openport_j.Transport.Usb.Open.{op_vid, op_pid}

-- `op_write` through a table that may be missing.
unfoldable pub op_write {ℓ} : {A : Type ℓ} → Option (A → Bytes → Written) → A → Bytes → Written
op_write none answers s = some (OpStatus.param, [])
op_write (some write) answers s = write answers s

-- `op_read` for a transport whose read takes what the system answers.
unfoldable pub op_read {ℓ} : {A : Type ℓ} → Option (A → OpStatus × Bytes) → A → OpStatus × Bytes
op_read none answers = (OpStatus.param, [])
op_read (some read) answers = read answers

-- A serial service of macOS: the USB ids of its device (`none` for -1) and its callout path, where
-- that is a text that fits the caller's buffer.
pub record Service : Type 0 where
  pub id_vendor : Option ℕ
  pub id_product : Option ℕ
  pub callout : Option Bytes

abbrev pub is_id : Option ℕ → ℕ → Bool
is_id none k = false
is_id (some n) k = n == k

abbrev pub or_next : Option Bytes → Option Bytes → Option Bytes
or_next (some path) rest = some path
or_next none rest = rest

-- The path that is found on macOS; elsewhere there is none.
unfoldable pub op_serial_find : ℕ → ℕ → List Service → Option Bytes
op_serial_find vid pid [] = none
op_serial_find vid pid (s ∷ rest) =
    or_next (if is_id s.id_vendor vid && is_id s.id_product pid then s.callout else none)
      (op_serial_find vid pid rest)

pub data Choice : Type 0 where
  over_usb : Choice
  over_serial : Bytes → Choice

abbrev pub same_bytes : Bytes → Bytes → Bool
same_bytes [] [] = true
same_bytes (a ∷ s) (b ∷ t) = (a == b) && same_bytes s t
same_bytes _ _ = false

abbrev pub by_node : Option Bytes → Choice
by_node none = over_usb
by_node (some path) = over_serial path

-- `device` is OPENPORT_DEVICE.
unfoldable pub op_transport_open : Option Bytes → List Service → Choice
op_transport_open none services = by_node (op_serial_find op_vid op_pid services)
op_transport_open (some []) services = by_node (op_serial_find op_vid op_pid services)
op_transport_open (some (b ∷ s)) services =
    if same_bytes (b ∷ s) (codes "usb") then over_usb else over_serial (b ∷ s)
