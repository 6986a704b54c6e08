-- ===== src/Tests/Receive.antt =====
-- The receive side of the USB transport, and the reader, at concrete inputs.
use openport_j.Base.{
  ℕ, ◌+◌, ◌≤◌, ◌<◌, ◌≡◌, refl, sym, true, ◌||◌, List, [], ◌∷◌, ◌++◌, none, some, arith, ◌==◌,
  length,
}
use openport_j.Codes.{OpStatus}
use openport_j.Transport.Usb.{Usb, LibusbCode, usb_rx_transfers}
use openport_j.Transport.Usb.Receive.{
  completed, cancelled, Event, done, rx_event, Wait, rx_post, for_slots, rx_submit, usb_await,
  usb_read, rx_done, rx_completed, rx_landed, put_some, usb_drain,
}
use openport_j.Transport.Usb.Buffer.{usb_ring_put, usb_ring_get, usb_first_part}
use openport_j.Device.Ring.{copy_in, copy_out, store}
use openport_j.Transport.Usb.Posted.{AllCome, Comes}
use openport_j.Transport.Usb.Completions.{Posted}
use openport_j.Transport.Usb.Posting.{post-Posted}
use openport_j.Transport.Usb.History.{kept, kept_all}
use openport_j.Transport.Usb.Reads.{waited}
use openport_j.Transport.Usb.Delivery.{begins, completes, reads, Delivers, Session-Delivers}
use openport_j.Transport.Usb.Find.{Found}
use openport_j.Transport.Usb.Open.{new_usb}
use openport_j.Transport.Usb.Opens.{none_flying, length-replicate, count_none}
use openport_j.Device.State.{fresh_device}
use openport_j.Transport.Usb.Pending.{pending}
use openport_j.Transport.Usb.Feed.{
  feed_begins, feed_completes, feed_reads, read_max, brought, Feed-Reads,
}
use openport_j.Device.Reader.{
  ReadResult, failures_max, reader_main, reader_main-failures, arrived, Reads,
}

abbrev pub bulk_pair : Found
bulk_pair = record { intf = 1; ep_in = 0x82; ep_out = 0x02; max_in = 64 }

abbrev idle_usb : Usb
idle_usb = new_usb bulk_pair (λ n. n == 0 || n == 1)

abbrev pub all_posted : ℕ → LibusbCode
all_posted i = LibusbCode.success

-- A cable with all reads posted.
abbrev posted_usb : Usb
posted_usb = rx_post all_posted idle_usb

posted_usb-Posted : Posted posted_usb
posted_usb-Posted =
    post-Posted all_posted idle_usb
      (record {
        has_ring = record { head_in = omega arith; used_le = omega arith };
        slots = length-replicate usb_rx_transfers;
        counted = sym (count_none usb_rx_transfers);
      })
      (none_flying usb_rx_transfers)

-- "ar", then "o\r\n".
abbrev first_bytes : Event
first_bytes = done 0 (completed (b'a' ∷ b'r' ∷ [])) LibusbCode.success

abbrev more_bytes : Event
more_bytes = done 1 (completed (b'o' ∷ b'\r' ∷ b'\n' ∷ [])) LibusbCode.success

first-Comes : Comes posted_usb first_bytes
unfolding rx_post for_slots rx_submit
first-Comes = (refl, λ e. cc)

abbrev short_wait : Wait
short_wait = record { wakes = (first_bytes ∷ []) ∷ []; last = more_bytes ∷ [] }

abbrev empty_wait : Wait
empty_wait = record { wakes = []; last = more_bytes ∷ [] }

-- The first read comes up to the first wake-up, and a one-byte buffer takes its first byte.
one_read : (usb_read posted_usb 1 short_wait all_posted).2 ≡ b'a' ∷ []
unfolding rx_post for_slots rx_submit rx_done rx_completed rx_landed put_some usb_ring_put
    usb_first_part copy_in copy_out store usb_ring_get usb_drain usb_await usb_read
one_read = refl

-- A completion, then a read.
abbrev landed : Usb
landed = rx_event posted_usb first_bytes

empty-Comes : AllCome landed (waited landed empty_wait.wakes empty_wait.last)
unfolding rx_post for_slots rx_submit rx_done rx_completed rx_landed put_some usb_ring_put
empty-Comes = tt

Session-Delivers_example :
    Delivers posted_usb
      (([] ++ kept posted_usb first_bytes) ++ kept_all landed (waited landed [] (more_bytes ∷ [])))
      ([] ++ (usb_read landed 8 empty_wait all_posted).2)
      (usb_read landed 8 empty_wait all_posted).0
Session-Delivers_example = Session-Delivers posted_usb-Posted (
    reads (completes begins first_bytes first-Comes) 8 empty_wait all_posted (omega arith)
      empty-Comes)

-- One cancelled read comes back in time.
abbrev cancel_wait : Wait
cancel_wait = record { wakes = []; last = done 0 cancelled LibusbCode.success ∷ [] }

-- An error read, twice.
abbrev broken : List ReadResult
broken = (OpStatus.io, []) ∷ (OpStatus.io, []) ∷ []

reader_main-failures_example :
    (48 + length broken < failures_max
      → reader_main fresh_device 48 broken ≡ (fresh_device, some (48 + length broken)))
    × (failures_max ≤ 48 + length broken
        → reader_main fresh_device 48 (broken ++ []) ≡ (record fresh_device { lost = true }, none))
reader_main-failures_example =
    reader_main-failures fresh_device 48 broken []
      (((λ e. cc), (λ e. cc), λ e. cc), (((λ e. cc), (λ e. cc), λ e. cc), tt)) (omega arith)

-- The reader thread: a completion, then a read.
abbrev fed : ReadResult
fed = (
  (usb_read landed read_max empty_wait all_posted).1,
  (usb_read landed read_max empty_wait all_posted).2,
)

Feed-Reads_example :
    (pending posted_usb
        ++ (([] ++ kept posted_usb first_bytes)
            ++ kept_all landed (waited landed [] (more_bytes ∷ [])))
      ≡ brought (arrived (fed ∷ [])) ++ pending (usb_read landed read_max empty_wait all_posted).0)
    × Reads fresh_device (arrived (fed ∷ [])) (reader_main fresh_device 0 (fed ∷ []))
Feed-Reads_example = Feed-Reads fresh_device 0 posted_usb-Posted (
    feed_reads (feed_completes feed_begins first_bytes first-Comes) empty_wait all_posted
      empty-Comes)
