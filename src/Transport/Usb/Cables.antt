-- ===== src/Transport/Usb/Cables.antt =====
-- What `op_usb_open` of src/op_usb.c opens, and that it leaves nothing open otherwise.
use openport_j.Base.{◌≡◌, ◌⊎◌, false, List, ◌∷◌, ◌++◌, some, none}
use openport_j.Codes.{OpStatus, is_fine}
use openport_j.Transport.Usb.{Usb}
use openport_j.Transport.Usb.Find.{Descriptor, Found, find_bulk_interface}
use openport_j.Transport.Usb.Open.{op_vid, op_pid, Attached, Scan, UsbOpened, Next, next, ends}
use openport_j.Transport.Usb.Opens.{IsOpen}

-- A device with the cable's ids and a bulk pair.
abbrev pub IsCable : Attached → Found → Type 0
IsCable a f =
    (dd : Descriptor) × (a.device.descriptor ≡ some dd)
    × (dd.vendor ≡ op_vid)
    × (dd.product ≡ op_pid)
    × ((find_bulk_interface a.device).0 ≡ some f)

abbrev pub OpensCable : Attached → UsbOpened → Type 0
OpensCable a o =
    (o.status ≡ OpStatus.fine)
    × ((f : Found) × (u : Usb) × IsCable a f × (o.usb ≡ some u) × IsOpen f u)
    × (o.handles ≡ 1)

abbrev pub OpensNone : UsbOpened → Type 0
OpensNone o = (is_fine o.status ≡ false) × (o.usb ≡ none) × (o.handles ≡ 0)

-- While the search goes on: an error is at hand, and no handle is open.
abbrev IsScan : Scan → Type 0
IsScan s = (is_fine s.status ≡ false) × (s.handles ≡ 0)

abbrev IsNext : Attached → Next → Type 0
IsNext a (next s) = IsScan s
IsNext a (ends o) = OpensCable a o ⊎ OpensNone o

-- The outcome over a whole bus.
abbrev pub Opens : List Attached → UsbOpened → Type 0
Opens bus o =
    ((pre : List Attached) × (a : Attached) × (post : List Attached) × (bus ≡ pre ++ (a ∷ post))
      × OpensCable a o)
    ⊎ OpensNone o
