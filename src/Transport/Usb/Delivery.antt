-- ===== src/Transport/Usb/Delivery.antt =====
-- What the reads of src/op_usb.c hand out over a whole session.
use openport_j.Base.{ℕ, ◌<◌, ◌≡◌, sym, ap, ◌∙◌, [], ◌++◌, append_assoc, append-nil, Bytes}
use openport_j.Transport.Usb.{Usb, LibusbCode}
use openport_j.Transport.Usb.Pending.{pending}
use openport_j.Transport.Usb.Receive.{Event, rx_event, Wait, usb_read}
use openport_j.Transport.Usb.Posted.{Comes, AllCome}
use openport_j.Transport.Usb.Completions.{Posted, rx_event-Posted}
use openport_j.Transport.Usb.History.{kept, kept_all, rx_event-pending, events-pending}
use openport_j.Transport.Usb.Reads.{waited, usb_await-events, usb_read-Returns}

-- A session: what the ring has taken of the transfers, and what the reads have handed out.
pub data Session (u : Usb) : Bytes → Bytes → Usb → Type 0 where
  begins : Session u [] [] u
  completes :
      {came read : Bytes} {v : Usb}
      → Session u came read v
      → (e : Event) → Comes v e
      → Session u (came ++ kept v e) read (rx_event v e)
  reads :
      {came read : Bytes} {v : Usb}
      → Session u came read v
      → (cap : ℕ) (w : Wait) (answer : ℕ → LibusbCode) → 0 < cap
      → AllCome v (waited v w.wakes w.last)
      → Session u
          (came ++ kept_all v (waited v w.wakes w.last))
          (read ++ (usb_read v cap w answer).2)
          (usb_read v cap w answer).0

abbrev pub Delivers : Usb → Bytes → Bytes → Usb → Type 0
Delivers u came read v = Posted v × (pending u ++ came ≡ read ++ pending v)

completes-Delivers :
    (u : Usb) (came read : Bytes) (v : Usb) (e : Event)
    → Delivers u came read v
    → Comes v e
    → Delivers u (came ++ kept v e) read (rx_event v e)
completes-Delivers u came read v e (p, eq) c = (
  rx_event-Posted v e p c,
  sym (append_assoc (pending u) came (kept v e))
      ∙ ap (λ s. s ++ kept v e) eq
      ∙ append_assoc read (pending v) (kept v e)
      ∙ ap (λ s. read ++ s) (sym (rx_event-pending v e p.0.has_ring)),
)

reads-Delivers :
    (u : Usb) (came read : Bytes) (v : Usb) (cap : ℕ) (w : Wait) (answer : ℕ → LibusbCode)
    → Delivers u came read v
    → 0 < cap
    → AllCome v (waited v w.wakes w.last)
    → Delivers u
        (came ++ kept_all v (waited v w.wakes w.last))
        (read ++ (usb_read v cap w answer).2)
        (usb_read v cap w answer).0
reads-Delivers u came read v cap w answer (p, eq) l come =
    let es = waited v w.wakes w.last in
    let out = usb_read-Returns v cap w answer p come l in
    (
      out.0,
      sym (append_assoc (pending u) came (kept_all v es))
          ∙ ap (λ s. s ++ kept_all v es) eq
          ∙ append_assoc read (pending v) (kept_all v es)
          ∙ ap (λ s. read ++ s)
              (sym (events-pending v es p come)
                ∙ ap pending (sym (usb_await-events v w.wakes w.last))
                ∙ sym out.1)
          ∙ sym
              (append_assoc read (usb_read v cap w answer).2 (pending (usb_read v cap w answer).0)),
    )

-- Over any session of completions and reads, from a state in which the reads are posted: what the
-- ring held at first and has taken of the transfers since is, byte for byte and in order, what the
-- reads have handed out and what the ring still holds. A transfer is taken whole or, where it does
-- not fit, not at all. And whenever no error is to be reported and no close is under way, all 256
-- reads are posted.
pub Session-Delivers :
    {u v : Usb} {came read : Bytes} → Posted u → Session u came read v → Delivers u came read v
Session-Delivers {u} p begins = (p, append-nil _)
Session-Delivers {u} p (completes {came} {read} {v} s e c) =
    completes-Delivers u came read v e (Session-Delivers p s) c
Session-Delivers {u} p (reads {came} {read} {v} s cap w answer l come) =
    reads-Delivers u came read v cap w answer (Session-Delivers p s) l come
