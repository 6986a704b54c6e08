-- ===== src/Transport/Usb/Feed.antt =====
-- The reader thread of src/op_device.c on the reads of src/op_usb.c.
use mathlib.Core.Path.{subst}
use openport_j.Base.{
  ℕ, ◌≡◌, refl, sym, ap, ◌∙◌, ◌==◌, List, [], ◌∷◌, ◌++◌, append_assoc, append-nil, Bytes, arith,
  if_cases, ltb,
}
use openport_j.Codes.{OpStatus}
use openport_j.Device.State.{Device}
use openport_j.Device.World.{Step, arrives}
use openport_j.Device.Reader.{
  ReadResult, arrived_one, arrived, Reads, reader_main, reader_main-Reads,
}
use openport_j.Transport.Usb.{Usb, LibusbCode}
use openport_j.Transport.Usb.Pending.{pending}
use openport_j.Transport.Usb.Receive.{Event, rx_event, Wait, usb_await, usb_drain, usb_read}
use openport_j.Transport.Usb.Posted.{Comes, AllCome}
use openport_j.Transport.Usb.Completions.{Posted}
use openport_j.Transport.Usb.History.{kept, kept_all}
use openport_j.Transport.Usb.Reads.{waited}
use openport_j.Transport.Usb.Delivery.{Session, begins, completes, reads, Session-Delivers}

-- `sizeof tmp`
abbrev pub read_max : ℕ
read_max = 1024

-- The thread's reads over a session: what the ring has taken of the transfers, and the results.
pub data Feed (u : Usb) : Bytes → List ReadResult → Usb → Type 0 where
  feed_begins : Feed u [] [] u
  feed_completes :
      {came : Bytes} {rs : List ReadResult} {v : Usb}
      → Feed u came rs v
      → (e : Event) → Comes v e
      → Feed u (came ++ kept v e) rs (rx_event v e)
  feed_reads :
      {came : Bytes} {rs : List ReadResult} {v : Usb}
      → Feed u came rs v
      → (w : Wait) (answer : ℕ → LibusbCode) → AllCome v (waited v w.wakes w.last)
      → Feed u
          (came ++ kept_all v (waited v w.wakes w.last))
          (rs ++ (((usb_read v read_max w answer).1, (usb_read v read_max w answer).2) ∷ []))
          (usb_read v read_max w answer).0

-- The bytes that the steps bring in.
abbrev pub brought : List Step → Bytes
brought [] = []
brought (arrives s ∷ ss) = s ++ brought ss
brought (s ∷ ss) = brought ss

brought-append : (ss ts : List Step) → brought (ss ++ ts) ≡ brought ss ++ brought ts
brought-append [] ts = refl
brought-append (Step.arrives s ∷ ss) ts =
    ap (λ r. s ++ r) (brought-append ss ts) ∙ sym (append_assoc s (brought ss) (brought ts))
brought-append (Step.vanishes ∷ ss) ts = brought-append ss ts
brought-append (Step.shuts ∷ ss) ts = brought-append ss ts
brought-append (Step.pops i ∷ ss) ts = brought-append ss ts
brought-append (Step.flushes i ∷ ss) ts = brought-append ss ts

arrived-append : (rs qs : List ReadResult) → arrived (rs ++ qs) ≡ arrived rs ++ arrived qs
arrived-append [] qs = refl
arrived-append (r ∷ rs) qs =
    ap (λ ss. arrived_one r ++ ss) (arrived-append rs qs)
    ∙ sym (append_assoc (arrived_one r) (arrived rs) (arrived qs))

-- No bytes are handed out but with OP_OK, so the thread takes them all.
abbrev Brings : Usb × OpStatus × Bytes → Type 0
Brings out = brought (arrived_one (out.1, out.2)) ≡ out.2

no_bytes : (st : OpStatus) → brought (arrived_one (st, [])) ≡ []
no_bytes OpStatus.fine = refl
no_bytes OpStatus.timeout = refl
no_bytes OpStatus.no_device = refl
no_bytes OpStatus.io = refl
no_bytes OpStatus.access = refl
no_bytes OpStatus.mass_storage = refl
no_bytes OpStatus.param = refl
no_bytes OpStatus.overflow = refl
no_bytes OpStatus.protocol = refl
no_bytes OpStatus.stalled = refl

all_bytes : (s : Bytes) → brought (arrived_one (OpStatus.fine, s)) ≡ s
all_bytes [] = refl
all_bytes (b ∷ s) = ap (λ r. b ∷ r) (append-nil s)

usb_read-Brings :
    (u : Usb) (cap : ℕ) (w : Wait) (answer : ℕ → LibusbCode) → Brings (usb_read u cap w answer)
unfolding usb_read usb_drain
usb_read-Brings u cap w answer =
    if_cases Brings (cap == 0) _ _ (λ _. no_bytes OpStatus.param)
      (λ _.
        if_cases Brings (ltb 0 (usb_await u w.wakes w.last).ring_used) _ _ (λ _. all_bytes _)
          (λ _. no_bytes _))

Feed-Session :
    {u v : Usb} {came : Bytes} {rs : List ReadResult}
    → Feed u came rs v
    → Session u came (brought (arrived rs)) v
Feed-Session feed_begins = begins
Feed-Session (feed_completes f e c) = completes (Feed-Session f) e c
Feed-Session {u} (feed_reads {came} {rs} {v} f w answer come) =
    let out = usb_read v read_max w answer in
    subst (λ read. Session u (came ++ kept_all v (waited v w.wakes w.last)) read out.0)
      (sym (
        ap brought (arrived-append rs ((out.1, out.2) ∷ []))
        ∙ brought-append (arrived rs) (arrived ((out.1, out.2) ∷ []))
        ∙ ap (λ s. brought (arrived rs) ++ s)
            (ap brought (append-nil (arrived_one (out.1, out.2)))
              ∙ usb_read-Brings v read_max w answer)))
      (reads (Feed-Session f) read_max w answer (omega arith) come)

-- The reader thread over any session of completions and reads of a cable whose reads are posted.
-- What the reads hand it is, byte for byte and in order, what the ring held at first and has taken
-- of the transfers, without what it still holds. And the driver's state is what the steps that
-- bring these bytes in make of it: the thread runs on after all of them, or it has lost the cable
-- after a beginning of them.
pub Feed-Reads :
    {u v : Usb} {came : Bytes} {rs : List ReadResult} (d : Device) (failures : ℕ)
    → Posted u
    → Feed u came rs v
    → (pending u ++ came ≡ brought (arrived rs) ++ pending v)
      × Reads d (arrived rs) (reader_main d failures rs)
Feed-Reads d failures p f =
    ((Session-Delivers p (Feed-Session f)).1, reader_main-Reads d failures _)
