-- ===== src/Transport/Usb/Stop.antt =====
-- Starting and stopping the posted reads of src/op_usb.c, and closing: `rx_start`, `rx_stop` and
-- `usb_close`.
use openport_j.Base.{
  ℕ, zero, suc, ◌+◌, Bool, true, false, not, ◌&&◌, List, [], ◌∷◌, ◌++◌, ltb, if◌then◌else◌,
}
use openport_j.Codes.{OpStatus}
use openport_j.Transport.Usb.{Usb, LibusbCode}
use openport_j.Transport.Usb.Receive.{Event, events, Wait, rx_post}

-- Whether the ring, the buffers of all transfers and the thread can be had.
pub record Means : Type 0 where
  pub ring_room : Bool
  pub buffers_room : Bool
  pub thread_starts : Bool

unfoldable pub rx_start : Usb → Means → (ℕ → LibusbCode) → Usb × OpStatus
rx_start u m answer =
    let posted = rx_post answer (record u { events_started = true }) in
    if not (m.ring_room && m.buffers_room)
    then (u, OpStatus.io)
    else if not m.thread_starts
    then (u, OpStatus.io)
    else (posted, posted.rx_error)

-- Whether a close goes on waiting for the reads that it cancelled.
abbrev pub awaits : Usb → Bool
awaits u = ltb 0 u.rx_flying && u.events_started

unfoldable pub stop_await : Usb → List (List Event) → List Event → Usb
stop_await u [] last = if awaits u then events u last else u
stop_await u (w ∷ ws) last =
    let rest = stop_await (events u w) ws last in if awaits u then rest else u

-- The event thread runs until it is joined; a thread that was never started completes nothing.
unfoldable pub stop_join : Usb → List Event → Usb
stop_join u late =
    if u.events_started
    then record (events u late) { events_stop = true; events_started = false }
    else u

-- The loop that frees the transfers that are not flying.
unfoldable pub free_marks : List Bool → List Bool
free_marks [] = []
free_marks (flies ∷ bs) = not flies ∷ free_marks bs

-- The state, and for each slot whether its transfer is freed.
unfoldable pub rx_stop : Usb → Wait → List Event → Usb × List Bool
rx_stop u w late =
    let joined = stop_join (stop_await (record u { stopping = true }) w.wakes w.last) late in
    (joined, free_marks joined.flying)

-- What the kernel answers as the interfaces are given back: `active` for the interfaces that have
-- been attached so far and one interface (libusb_kernel_driver_active is not 0), and `attaches`.
pub record Kernel : Type 0 where
  pub active : List ℕ → ℕ → Bool
  pub attaches : List ℕ → ℕ → Bool

abbrev pub reattach_one : Kernel → (ℕ → Bool) → List ℕ → ℕ → List ℕ
reattach_one k bound done num =
    if not (bound num)
    then done
    else if k.active done num
    then done
    else if k.attaches done num
    then done ++ (num ∷ [])
    else done

-- `for (num = 0; num < 32; num++)`, from `num` on: the interfaces attached, in order.
unfoldable pub reattach : Kernel → (ℕ → Bool) → List ℕ → ℕ → ℕ → List ℕ
reattach k bound done zero num = done
reattach k bound done (suc left) num =
    reattach k bound (reattach_one k bound done num) left (num + 1)

-- What a close does, in order.
pub data Action : Type 0 where
  frees : List Bool → Action
  releases : ℕ → Action
  attaches_all : List ℕ → Action
  closes_handle : Action
  exits : Action

unfoldable pub usb_close : Usb → Wait → List Event → Kernel → List Action
usb_close u w late k =
    let stopped = rx_stop u w late in
    frees stopped.1
    ∷ ((if u.claimed then releases u.interface_num ∷ [] else [])
        ++ (attaches_all (reattach k u.kernel_bound [] 32 0) ∷ closes_handle ∷ exits ∷ []))
