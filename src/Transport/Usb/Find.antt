-- ===== src/Transport/Usb/Find.antt =====
-- `find_bulk_interface` of src/op_usb.c over the descriptors of a device.
use openport_j.Base.{
  ℕ, ◌%◌, Bool, false, not, ◌&&◌, ◌||◌, List, [], ◌∷◌, Option, some, none, has_bit, ltb, ◌==◌,
  if◌then◌else◌,
}

-- bmAttributes, bEndpointAddress and wMaxPacketSize.
pub record Endpoint : Type 0 where
  pub attributes : ℕ
  pub address : ℕ
  pub max_packet : ℕ

-- bInterfaceNumber, bInterfaceClass and the endpoints of one alternate setting.
pub record AltSetting : Type 0 where
  pub number : ℕ
  pub interface_class : ℕ
  pub endpoints : List Endpoint

-- An interface is its alternate settings, a configuration its interfaces.
abbrev pub Config : Type 0
Config = List (List AltSetting)

-- The device descriptor: bDeviceClass, idVendor and idProduct.
pub record Descriptor : Type 0 where
  pub device_class : ℕ
  pub vendor : ℕ
  pub product : ℕ

-- What libusb tells of a device; `none` is a descriptor that cannot be read.
pub record UsbDevice : Type 0 where
  pub descriptor : Option Descriptor
  pub configs : List (Option Config)

-- LIBUSB_CLASS_MASS_STORAGE
abbrev pub class_mass_storage : ℕ
class_mass_storage = 8

pub record Found : Type 0 where
  pub intf : ℕ
  pub ep_in : ℕ
  pub ep_out : ℕ
  pub max_in : ℕ

-- LIBUSB_TRANSFER_TYPE_MASK, LIBUSB_TRANSFER_TYPE_BULK and LIBUSB_ENDPOINT_IN
abbrev pub is_bulk : Endpoint → Bool
is_bulk e = e.attributes % 4 == 2

abbrev pub is_in : Endpoint → Bool
is_in e = has_bit e.address 0x80

abbrev pub packet_size : Endpoint → ℕ
packet_size e = if e.max_packet == 0 then 64 else e.max_packet

-- The first one is kept.
abbrev pub keep_first {ℓ} : {A : Type ℓ} → Option A → A → Option A
keep_first (some x) y = some x
keep_first none y = some y

-- The loop over the endpoints: address and packet size of the IN endpoint, address of the OUT one.
unfoldable pub scan_endpoints :
    List Endpoint → Option (ℕ × ℕ) → Option ℕ → Option (ℕ × ℕ) × Option ℕ
scan_endpoints [] ins out = (ins, out)
scan_endpoints (e ∷ es) ins out =
    scan_endpoints es
      (if is_bulk e && is_in e then keep_first ins (e.address, packet_size e) else ins)
      (if is_bulk e && not (is_in e) then keep_first out e.address else out)

abbrev pub is_storage : AltSetting → Bool
is_storage a = a.interface_class == class_mass_storage

abbrev pub pair_found : ℕ → Option (ℕ × ℕ) × Option ℕ → Option Found
pair_found number (some (address, size), some out) =
    some (record { intf = number; ep_in = address; ep_out = out; max_in = size })
pair_found number (some i, none) = none
pair_found number (none, out) = none

-- A storage interface has a bulk pair too, and is passed over.
unfoldable pub alt_found : AltSetting → Option Found
alt_found a =
    if is_storage a then none else pair_found a.number (scan_endpoints a.endpoints none none)

-- What was found, and whether storage was seen on the way.
abbrev pub Search : Type 0
Search = Option Found × Bool

abbrev pub return_found : Option Found → Bool → Search → Search
return_found (some f) saw rest = (some f, saw)
return_found none saw rest = rest

unfoldable pub find_alts : List AltSetting → Bool → Search
find_alts [] saw = (none, saw)
find_alts (a ∷ alts) saw =
    return_found (alt_found a) (saw || is_storage a) (find_alts alts (saw || is_storage a))

unfoldable pub find_interfaces : Config → Bool → Search
find_interfaces [] saw = (none, saw)
find_interfaces (i ∷ is) saw =
    let r = find_alts i saw in return_found r.0 r.1 (find_interfaces is r.1)

-- A configuration that cannot be read is passed over.
unfoldable pub find_configs : List (Option Config) → Bool → Search
find_configs [] saw = (none, saw)
find_configs (none ∷ cs) saw = find_configs cs saw
find_configs (some c ∷ cs) saw =
    let r = find_interfaces c saw in return_found r.0 r.1 (find_configs cs r.1)

unfoldable pub find_bulk_interface : UsbDevice → Search
find_bulk_interface d = elim d.descriptor [
  | none ↦ (none, false)
  | some dd ↦ find_configs d.configs (dd.device_class == class_mass_storage)
]

-- Whether an interface of the active configuration has this number, by its first setting, and a
-- kernel driver.
abbrev pub is_bound : List AltSetting → (ℕ → Bool) → ℕ → Bool
is_bound [] driver num = false
is_bound (a ∷ alts) driver num = a.number == num && driver num

abbrev pub any_bound : Config → (ℕ → Bool) → ℕ → Bool
any_bound [] driver num = false
any_bound (i ∷ is) driver num = is_bound i driver num || any_bound is driver num

-- The bit of interface `num`; the mask has 32.
unfoldable pub kernel_bound_interfaces : Option Config → (ℕ → Bool) → ℕ → Bool
kernel_bound_interfaces none driver num = false
kernel_bound_interfaces (some c) driver num = ltb num 32 && any_bound c driver num
