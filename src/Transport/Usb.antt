-- ===== src/Transport/Usb.antt =====
-- src/op_usb.c: the constants, libusb's codes and `op_usb`.
pub mod Buffer
pub mod Receive
pub mod Pending
pub mod Slots
pub mod Posted
pub mod Completions
pub mod Posting
pub mod History
pub mod Reads
pub mod Delivery
pub mod Feed
pub mod Write
pub mod Stop
pub mod Reattach
pub mod Freed
pub mod Find
pub mod Pairs
pub mod Open
pub mod Opens
pub mod Cables
use openport_j.Base.{ℕ, ◌*◌, Bool, List}
use openport_j.Codes.{OpStatus, fine, timeout, io, no_device, access, param, overflow}
use openport_j.Device.Ring.{Memory}

-- USB_RX_TRANSFERS, USB_RX_LEN and USB_RING_BYTES
abbrev pub usb_rx_transfers : ℕ
usb_rx_transfers = 256

abbrev pub usb_rx_len : ℕ
usb_rx_len = 256

abbrev pub usb_ring_bytes : ℕ
usb_ring_bytes = 1024 * 1024

-- The codes of libusb that the driver tells apart; `other` is any other error.
pub data LibusbCode : Type 0 where
  success error_timeout error_no_device error_not_found error_access error_busy error_overflow
        error_invalid_param other :
      LibusbCode

unfoldable pub from_libusb : LibusbCode → OpStatus
from_libusb LibusbCode.success = OpStatus.fine
from_libusb LibusbCode.error_timeout = OpStatus.timeout
from_libusb LibusbCode.error_no_device = OpStatus.no_device
from_libusb LibusbCode.error_not_found = OpStatus.no_device
from_libusb LibusbCode.error_access = OpStatus.access
from_libusb LibusbCode.error_busy = OpStatus.access
from_libusb LibusbCode.error_overflow = OpStatus.overflow
from_libusb LibusbCode.error_invalid_param = OpStatus.param
from_libusb LibusbCode.other = OpStatus.io

-- `flying` has one mark for each posted read, in the order of the slots.
pub record Usb : Type 0 where
  pub interface_num : ℕ
  pub claimed : Bool
  pub kernel_bound : ℕ → Bool
  pub ep_in : ℕ
  pub ep_out : ℕ
  pub flying : List Bool
  pub rx_flying : ℕ
  pub rx_batch : ℕ
  pub rx_batch_most : ℕ
  pub rx_error : OpStatus
  pub stopping : Bool
  pub ring : Memory
  pub ring_head : ℕ
  pub ring_used : ℕ
  pub ring_dropped : ℕ
  pub events_started : Bool
  pub events_stop : Bool
