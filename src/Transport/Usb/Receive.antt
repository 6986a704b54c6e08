-- ===== src/Transport/Usb/Receive.antt =====
-- The posted reads of src/op_usb.c: `rx_fail`, `rx_submit`, `rx_done`, the loops that post reads,
-- and `usb_read`.
use openport_j.Base.{
  ℕ, zero, suc, ◌+◌, ◌-◌, Bool, true, false, not, ◌||◌, List, [], ◌∷◌, Bytes, ltb, ◌==◌,
  if◌then◌else◌, length, get_or, set,
}
use openport_j.Codes.{OpStatus, is_fine}
use openport_j.Transport.Usb.{Usb, LibusbCode, from_libusb, usb_rx_transfers}
use openport_j.Transport.Usb.Buffer.{usb_ring_put, usb_ring_get}

abbrev pub is_gone : OpStatus → Bool
is_gone OpStatus.no_device = true
is_gone _ = false

-- That the cable is gone stays; the broadcast wakes `usb_read`, which `Wait` has.
unfoldable pub rx_fail : Usb → OpStatus → Usb
rx_fail u st = if is_gone u.rx_error then u else record u { rx_error = st }

-- `r` is the answer of libusb_submit_transfer.
unfoldable pub rx_submit : Usb → ℕ → LibusbCode → Usb
rx_submit u i LibusbCode.success = record u {
  flying = set u.flying i true;
  rx_flying = u.rx_flying + 1;
}
rx_submit u i r = rx_fail u (from_libusb r)

-- The statuses of a transfer, with the bytes of one that is complete; `failed` is any other.
pub data Completion : Type 0 where
  completed : Bytes → Completion
  cancelled : Completion
  gone : Completion
  failed : Completion

-- What the event thread does: a slot's transfer ends, with the answer where it is submitted
-- again; or one round of `rx_events` is over.
pub data Event : Type 0 where
  done : ℕ → Completion → LibusbCode → Event
  polled : Event

-- The transfer is back.
unfoldable pub rx_landed : Usb → ℕ → Usb
rx_landed u i = record u {
  flying = set u.flying i false;
  rx_flying = u.rx_flying - 1;
  rx_batch = u.rx_batch + 1;
}

-- The bytes of a completed read, where there are any.
unfoldable pub put_some : Usb → Bytes → Usb
put_some u src = if ltb 0 (length src) then usb_ring_put u src else u

unfoldable pub rx_completed : Usb → ℕ → Bytes → LibusbCode → Usb
rx_completed u i src r = let put = put_some u src in if put.stopping then put else rx_submit put i r

unfoldable pub rx_done : Usb → ℕ → Completion → LibusbCode → Usb
rx_done u i (completed src) r = rx_completed (rx_landed u i) i src r
rx_done u i cancelled r = rx_landed u i
rx_done u i gone r = rx_fail (rx_landed u i) OpStatus.no_device
rx_done u i failed r = rx_fail (rx_landed u i) OpStatus.io

-- The most reads that completed in one round, for the log.
unfoldable pub rx_polled : Usb → Usb
rx_polled u = record u {
  rx_batch_most = if ltb u.rx_batch_most u.rx_batch then u.rx_batch else u.rx_batch_most;
  rx_batch = 0;
}

abbrev pub rx_event : Usb → Event → Usb
rx_event u (done i c r) = rx_done u i c r
rx_event u polled = rx_polled u

-- What the event thread does meanwhile.
abbrev pub events : Usb → List Event → Usb
events u [] = u
events u (e ∷ es) = events (rx_event u e) es

-- `for (i = 0; i < USB_RX_TRANSFERS && u->rx_error == OP_OK; i++)`, from slot `i` on.
unfoldable pub for_slots : (Usb → ℕ → Usb) → ℕ → ℕ → Usb → Usb
for_slots body zero i u = u
for_slots body (suc k) i u =
    let rest = for_slots body k (i + 1) (body u i) in if is_fine u.rx_error then rest else u

-- The loop of `rx_start`; `answer` has libusb's answer for each slot.
unfoldable pub rx_post : (ℕ → LibusbCode) → Usb → Usb
rx_post answer = for_slots (λ u i. rx_submit u i (answer i)) usb_rx_transfers 0

abbrev pub repost_slot : (ℕ → LibusbCode) → Usb → ℕ → Usb
repost_slot answer u i = if get_or u.flying i false then u else rx_submit u i (answer i)

-- The loop of `usb_read`.
unfoldable pub rx_repost : (ℕ → LibusbCode) → Usb → Usb
rx_repost answer = for_slots (repost_slot answer) usb_rx_transfers 0

-- The wait of `usb_read`: what completes up to each wake-up before the deadline, and up to the
-- deadline.
pub record Wait : Type 0 where
  pub wakes : List (List Event)
  pub last : List Event

abbrev pub has_news : Usb → Bool
has_news u = not (u.ring_used == 0) || not (is_fine u.rx_error)

unfoldable pub usb_await : Usb → List (List Event) → List Event → Usb
usb_await u [] last = if has_news u then u else events u last
usb_await u (w ∷ ws) last =
    let rest = usb_await (events u w) ws last in if has_news u then u else rest

-- An error is reported once, and the reads are posted again; that the cable is gone stays.
unfoldable pub report : Usb → (ℕ → LibusbCode) → Usb × OpStatus
report u answer =
    if is_fine u.rx_error
    then (u, OpStatus.timeout)
    else if is_gone u.rx_error
    then (u, u.rx_error)
    else (rx_repost answer (record u { rx_error = OpStatus.fine }), u.rx_error)

abbrev pub forget_dropped : Usb → Usb
forget_dropped u = record u { ring_dropped = 0 }

-- `usb_read` behind its wait.
unfoldable pub usb_drain : Usb → ℕ → (ℕ → LibusbCode) → Usb × OpStatus × Bytes
usb_drain u cap answer =
    if ltb 0 u.ring_used
    then (let got = usb_ring_get u cap in (forget_dropped got.0, OpStatus.fine, got.1))
    else (let out = report u answer in (forget_dropped out.0, out.1, []))

-- The state, the status and the bytes read.
unfoldable pub usb_read : Usb → ℕ → Wait → (ℕ → LibusbCode) → Usb × OpStatus × Bytes
usb_read u cap w answer =
    if cap == 0 then (u, OpStatus.param, []) else usb_drain (usb_await u w.wakes w.last) cap answer
