-- ===== src/Tests/Transport.antt =====
-- Opening, closing and writing of the transports at concrete inputs.
use openport_j.Base.{
  ℕ, ◌<◌, ◌≡◌, refl, Bool, true, false, ◌||◌, ◌&&◌, List, [], ◌∷◌, ◌++◌, some, arith, ◌==◌,
}
use openport_j.Base.All.{All}
use openport_j.Codes.{OpStatus}
use openport_j.Transport.Push.{push}
use openport_j.Transport.Serial.{
  Poll, ready, Errno, wrote, ser_write, wait_ready, round_ends, round_moved, ready_ends, write_ends,
  poll_status, write_failed,
}
use openport_j.Transport.Usb.{LibusbCode, from_libusb}
use openport_j.Transport.Usb.Write.{usb_write, transfer_ends}
use openport_j.Transport.Usb.Stop.{Kernel, reattach}
use openport_j.Transport.Usb.Reattach.{reattach-Restores}
use openport_j.Transport.Usb.Find.{
  AltSetting, Descriptor, UsbDevice, find_bulk_interface, class_mass_storage, find_configs,
  find_interfaces, find_alts, alt_found, scan_endpoints,
}
use openport_j.Transport.Usb.Pairs.{FirstUsable, all_alts, find_bulk_interface-FirstUsable}
use openport_j.Transport.Usb.Open.{
  Attached, op_usb_open, open_scan, open_one, open_told, open_described, open_searched, open_found,
  open_failed_with,
}
use openport_j.Tests.Receive.{bulk_pair, all_posted}

-- Linux: attaching the comm interface 0 binds the data interface 1 as well.
abbrev holds_num : List ℕ → ℕ → Bool
holds_num [] n = false
holds_num (m ∷ l) n = n == m || (n == 1 && m == 0) || holds_num l n

abbrev linux : Kernel
linux = record { active = holds_num; attaches = λ l n. true }

holds-append : (l : List ℕ) (n m : ℕ) → holds_num l n ≡ true → holds_num (l ++ (m ∷ [])) n ≡ true
holds-append [] n m h = cc
holds-append (k ∷ l) n m h = ground (arith, holds-append l n m)

holds_last : (l : List ℕ) (n : ℕ) → holds_num (l ++ (n ∷ [])) n ≡ true
holds_last [] n = ground arith
holds_last (k ∷ l) n = ground (arith, holds_last l n)

abbrev both : ℕ → Bool
both n = n == 0 || n == 1

-- The comm interface alone is attached.
linux_attaches : reattach linux both [] 32 0 ≡ 0 ∷ []
unfolding reattach
linux_attaches = refl

reattach-Restores_example :
    ((n : ℕ) → n < 32 → both n ≡ true → holds_num (reattach linux both [] 32 0) n ≡ true)
    × All (λ n. both n ≡ true) (reattach linux both [] 32 0)
reattach-Restores_example =
    reattach-Restores linux both
      (record { stays = holds-append; binds = holds_last; succeeds = λ l n h. refl })

-- The cable: a comm interface with an interrupt endpoint and a data interface with a bulk pair.
abbrev cable_ids : Descriptor
cable_ids = record { device_class = 2; vendor = 0x0403; product = 0xCC4D }

abbrev comm : AltSetting
comm = record {
  number = 0;
  interface_class = 2;
  endpoints = record { attributes = 3; address = 0x81; max_packet = 8 } ∷ [];
}

abbrev two_ends : AltSetting
two_ends = record {
  number = 1;
  interface_class = 10;
  endpoints =
      record { attributes = 2; address = 0x02; max_packet = 64 }
      ∷ record { attributes = 2; address = 0x82; max_packet = 0 }
      ∷ [];
}

abbrev cable : UsbDevice
cable = record {
  descriptor = some cable_ids;
  configs = some ((comm ∷ []) ∷ (two_ends ∷ []) ∷ []) ∷ [];
}

cable_found : find_bulk_interface cable ≡ (some bulk_pair, false)
unfolding find_bulk_interface find_configs find_interfaces find_alts alt_found scan_endpoints
cable_found = refl

find_bulk_interface-FirstUsable_example :
    FirstUsable
      (all_alts cable.configs)
      (cable_ids.device_class == class_mass_storage)
      (find_bulk_interface cable)
find_bulk_interface-FirstUsable_example = find_bulk_interface-FirstUsable cable cable_ids refl

-- A bus with the cable, when another program has it.
abbrev busy_cable : Attached
busy_cable = record {
  device = cable;
  opens = LibusbCode.success;
  active_config = some ((comm ∷ []) ∷ (two_ends ∷ []) ∷ []);
  driver = both;
  claims = LibusbCode.error_busy;
  room = true;
  means = record { ring_room = true; buffers_room = true; thread_starts = true };
  posts = all_posted;
}

busy_refused :
    (op_usb_open LibusbCode.success LibusbCode.success (busy_cable ∷ [])).status ≡ OpStatus.access
unfolding op_usb_open open_scan open_one open_told open_described open_searched open_found
    open_failed_with find_bulk_interface find_configs find_interfaces find_alts alt_found
    scan_endpoints from_libusb
busy_refused = refl

-- Three bytes in two transfers, the second one after its deadline.
usb_write_halves :
    usb_write
      (record { code = LibusbCode.success; moved = 2 }
        ∷ record { code = LibusbCode.error_timeout; moved = 1 }
        ∷ [])
      (1 ∷ 2 ∷ 3 ∷ [])
    ≡ some (OpStatus.fine, 1 ∷ 2 ∷ 3 ∷ [])
unfolding usb_write push transfer_ends
usb_write_halves = refl

abbrev writable : Poll
writable = ready false false false

-- A signal, two bytes, and then a device that takes no more.
ser_write_stalls :
    ser_write
      (record { interrupted = 1; poll = writable; answer = write_failed Errno.eintr }
        ∷ record { interrupted = 0; poll = writable; answer = wrote 2 }
        ∷ record { interrupted = 0; poll = Poll.expired; answer = wrote 0 }
        ∷ [])
      (1 ∷ 2 ∷ 3 ∷ [])
    ≡ some (OpStatus.stalled, 1 ∷ 2 ∷ [])
unfolding ser_write push round_ends round_moved wait_ready poll_status ready_ends write_ends
ser_write_stalls = refl
