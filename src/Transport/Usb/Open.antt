-- ===== src/Transport/Usb/Open.antt =====
-- `op_usb_open` of src/op_usb.c: the search for a cable that can be driven.
use openport_j.Base.{
  ℕ, ◌+◌, ◌-◌, Bool, true, false, not, ◌||◌, ◌&&◌, List, [], ◌∷◌, Option, some, none, ◌==◌,
  if◌then◌else◌, replicate,
}
use openport_j.Codes.{OpStatus, is_fine}
use openport_j.Transport.Usb.{Usb, LibusbCode, from_libusb, usb_rx_transfers}
use openport_j.Transport.Usb.Receive.{is_gone}
use openport_j.Transport.Usb.Stop.{Means, rx_start}
use openport_j.Transport.Usb.Find.{
  Descriptor, UsbDevice, Found, Config, Search, find_bulk_interface, kernel_bound_interfaces,
}

-- OP_VID, OP_PID, OP_PID_STORAGE and OP_PID_BOOTLOADER
abbrev pub op_vid : ℕ
op_vid = 0x0403

abbrev pub op_pid : ℕ
op_pid = 0xCC4D

abbrev pub op_pid_storage : ℕ
op_pid_storage = 0xCC4C

abbrev pub op_pid_bootloader : ℕ
op_pid_bootloader = 0xCC4B

-- A device on the bus, and what the system answers when it is opened: libusb_open, the active
-- configuration and which interfaces have a kernel driver, libusb_claim_interface, whether there is memory, and how the reads start.
pub record Attached : Type 0 where
  pub device : UsbDevice
  pub opens : LibusbCode
  pub active_config : Option Config
  pub driver : ℕ → Bool
  pub claims : LibusbCode
  pub room : Bool
  pub means : Means
  pub posts : ℕ → LibusbCode

-- The texts of `set_detail`.
pub data Detail : Type 0 where
  init_failed list_failed bootloader open_failed busy out_of_memory not_posted mass_storage_seen
        none_found :
      Detail

-- The variables of the search, with the number of device handles that are open.
pub record Scan : Type 0 where
  pub status : OpStatus
  pub storage : Bool
  pub detail : Option Detail
  pub handles : ℕ

-- How an open ends: the status, the session, the text and the handles that are open.
pub record UsbOpened : Type 0 where
  pub status : OpStatus
  pub usb : Option Usb
  pub detail : Option Detail
  pub handles : ℕ

-- What `calloc` and the assignments make.
abbrev pub new_usb : Found → (ℕ → Bool) → Usb
new_usb f bound = record {
  interface_num = f.intf;
  claimed = true;
  kernel_bound = bound;
  ep_in = f.ep_in;
  ep_out = f.ep_out;
  flying = replicate usb_rx_transfers false;
  rx_flying = 0;
  rx_batch = 0;
  rx_batch_most = 0;
  rx_error = OpStatus.fine;
  stopping = false;
  ring = λ _. 0;
  ring_head = 0;
  ring_used = 0;
  ring_dropped = 0;
  events_started = false;
  events_stop = false;
}

-- The reads are posted; where that fails the session is closed again, its handle with it.
unfoldable pub open_started : Scan → Usb × OpStatus → UsbOpened
open_started s (u, st) =
    if is_fine st
    then record { status = OpStatus.fine; usb = some u; detail = s.detail; handles = s.handles }
    else record { status = st; usb = none; detail = some not_posted; handles = s.handles - 1 }

-- A device that has been claimed ends the search.
unfoldable pub open_claimed : Attached → Found → Scan → UsbOpened
open_claimed a f s =
    if a.room
    then open_started s
        (rx_start (new_usb f (kernel_bound_interfaces a.active_config a.driver)) a.means a.posts)
    else record {
      status = OpStatus.io;
      usb = none;
      detail = some out_of_memory;
      handles = s.handles - 1;
    }

-- The variables where the search goes on.
abbrev pub go_on : Scan → OpStatus → Detail → Scan
go_on s st text = record s { status = st; detail = some text }

-- A cable with a bulk pair: `inl` goes on to the next device, `inr` ends the search.
pub data Next : Type 0 where
  next : Scan → Next
  ends : UsbOpened → Next

abbrev pub is_success : LibusbCode → Bool
is_success LibusbCode.success = true
is_success _ = false

unfoldable pub open_found : Attached → Found → Scan → Next
open_found a f s =
    let opened = record s { handles = s.handles + 1 } in
    if not (is_success a.opens)
    then next (go_on s (from_libusb a.opens) open_failed)
    else if not (is_success a.claims)
    then next (record (go_on s (from_libusb a.claims) busy) { handles = opened.handles - 1 })
    else ends (open_claimed a f opened)

abbrev pub see_storage : Scan → Bool → Scan
see_storage s saw = record s { storage = s.storage || saw }

unfoldable pub open_searched : Attached → Search → Scan → Next
open_searched a (none, saw) s = next (see_storage s saw)
open_searched a (some f, saw) s = open_found a f (see_storage s saw)

unfoldable pub open_described : Attached → Descriptor → Scan → Next
open_described a dd s =
    if not (dd.vendor == op_vid)
    then next s
    else if dd.product == op_pid_storage
    then next (see_storage s true)
    else if dd.product == op_pid_bootloader
    then next (go_on s OpStatus.no_device bootloader)
    else if not (dd.product == op_pid)
    then next s
    else open_searched a (find_bulk_interface a.device) s

unfoldable pub open_told : Attached → Option Descriptor → Scan → Next
open_told a none s = next s
open_told a (some dd) s = open_described a dd s

unfoldable pub open_one : Attached → Scan → Next
open_one a s = open_told a a.device.descriptor s

abbrev pub has_detail : Option Detail → Bool
has_detail none = false
has_detail (some t) = true

-- Nothing was opened.
unfoldable pub open_failed_with : Scan → UsbOpened
open_failed_with s =
    if is_gone s.status && s.storage
    then record {
      status = OpStatus.mass_storage;
      usb = none;
      detail = some mass_storage_seen;
      handles = s.handles;
    }
    else record {
      status = s.status;
      usb = none;
      detail = if is_gone s.status && not (has_detail s.detail) then some none_found else s.detail;
      handles = s.handles;
    }

abbrev pub go_next : Next → (Scan → UsbOpened) → UsbOpened
go_next (next s) rest = rest s
go_next (ends o) rest = o

unfoldable pub open_scan : List Attached → Scan → UsbOpened
open_scan [] s = open_failed_with s
open_scan (a ∷ bus) s = go_next (open_one a s) (λ s'. open_scan bus s')

abbrev pub first_scan : Scan
first_scan = record { status = OpStatus.no_device; storage = false; detail = none; handles = 0 }

-- `inited` is the answer of libusb_init; the list of devices is there, or its error.
unfoldable pub op_usb_open : LibusbCode → LibusbCode → List Attached → UsbOpened
op_usb_open inited listed bus =
    if not (is_success inited)
    then record { status = from_libusb inited; usb = none; detail = some init_failed; handles = 0 }
    else if not (is_success listed)
    then record { status = from_libusb listed; usb = none; detail = some list_failed; handles = 0 }
    else open_scan bus first_scan
