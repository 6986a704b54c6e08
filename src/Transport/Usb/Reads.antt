-- ===== src/Transport/Usb/Reads.antt =====
-- `usb_read` of src/op_usb.c on every branch, and what a reader gets over a whole session.
use openport_j.Base.{
  ℕ, ◌<◌, ◌≡◌, ◌⊎◌, refl, sym, true, false, List, [], ◌∷◌, ◌++◌, Bytes, arith, if_cases, length,
  ltb, if◌then◌else◌, ◌==◌, inl, inr,
}
use mathlib.Core.Path.{subst}
use openport_j.Codes.{OpStatus, is_fine}
use openport_j.Transport.Usb.{Usb, LibusbCode, usb_rx_transfers}
use openport_j.Transport.Usb.Buffer.{usb_ring_get}
use openport_j.Transport.Usb.Pending.{pending, taken, get_splits}
use openport_j.Transport.Usb.Receive.{
  is_gone, has_news, Event, rx_event, events, report, forget_dropped, Wait, usb_await, usb_drain,
  usb_read,
}
use openport_j.Transport.Usb.Posted.{Counted, AllCome}
use openport_j.Transport.Usb.Completions.{Posted, events-Posted}
use openport_j.Transport.Usb.Posting.{repost-Posted}
use openport_j.Transport.Usb.History.{rx_repost-pending}

-- The completions that a wait lets by: those up to the first news, or up to the deadline.
abbrev pub waited : Usb → List (List Event) → List Event → List Event
waited u [] last = if has_news u then [] else last
waited u (w ∷ ws) last = if has_news u then [] else w ++ waited (events u w) ws last

events-append : (u : Usb) (es fs : List Event) → events u (es ++ fs) ≡ events (events u es) fs
events-append u [] fs = refl
events-append u (e ∷ es) fs = events-append (rx_event u e) es fs

pub usb_await-events :
    (u : Usb) (ws : List (List Event)) (last : List Event)
    → usb_await u ws last ≡ events u (waited u ws last)
unfolding usb_await
usb_await-events u [] last = ground arith
usb_await-events u (w ∷ ws) last =
    ground (
      arith,
      usb_await-events (events u w) ws last,
      events-append u w (waited (events u w) ws last),
    )

copy-Posted : (u : Usb) → Posted u → Posted (forget_dropped u)
copy-Posted u (c, all) = (
  record {
    has_ring = record { head_in = c.has_ring.head_in; used_le = c.has_ring.used_le };
    slots = c.slots;
    counted = c.counted;
  },
  all,
)

get-Posted : (u : Usb) (cap : ℕ) → Posted u → Posted (usb_ring_get u cap).0
unfolding usb_ring_get
get-Posted u cap (c, all) = (
  record { has_ring = (get_splits u cap c.has_ring).2; slots = c.slots; counted = c.counted },
  all,
)

-- What a read that finds nothing leaves: with no error it has timed out; that the cable is gone
-- stays; any other error is reported once, and with no new one every read is posted again.
abbrev pub Reports : Usb → Usb × OpStatus → Type 0
Reports u o =
    ((is_fine u.rx_error ≡ true) × (o ≡ (forget_dropped u, OpStatus.timeout)))
    ⊎ ((is_gone u.rx_error ≡ true) × (o ≡ (forget_dropped u, u.rx_error)))
    ⊎ ((is_fine u.rx_error ≡ false)
        × (o.1 ≡ u.rx_error)
        × (is_fine o.0.rx_error ≡ true → o.0.stopping ≡ false → o.0.rx_flying ≡ usb_rx_transfers))

bare-Counted : (u : Usb) → Counted u → Counted (record u { rx_error = OpStatus.fine })
bare-Counted u c = record {
  has_ring = record { head_in = c.has_ring.head_in; used_le = c.has_ring.used_le };
  slots = c.slots;
  counted = c.counted;
}

report_lem :
    (u : Usb) (answer : ℕ → LibusbCode)
    → Posted u
    → Posted (report u answer).0
      × (pending (report u answer).0 ≡ pending u)
      × Reports u (forget_dropped (report u answer).0, (report u answer).1)
unfolding report
report_lem u answer p =
    if_cases P (is_fine u.rx_error) _ _ (λ fine. (p, refl, inl (fine, refl)))
      (λ bad.
        if_cases P (is_gone u.rx_error) _ _ (λ off. (p, refl, inr (inl (off, refl))))
          (λ _.
            let again =
              repost-Posted answer (record u { rx_error = OpStatus.fine }) (bare-Counted u p.0) in
            (again, rx_repost-pending answer _, inr (inr (bad, refl, again.1)))))
  where
    P : Usb × OpStatus → Type 0
    P o = Posted o.0 × (pending o.0 ≡ pending u) × Reports u (forget_dropped o.0, o.1)

-- A read of `u`, the state when the wait is over.
abbrev pub Returns : Usb → ℕ → Usb × OpStatus × Bytes → Type 0
Returns u cap o =
    Posted o.0
    × (o.2 ++ pending o.0 ≡ pending u)
    × (0 < u.ring_used → (o.1 ≡ OpStatus.fine) × (length o.2 ≡ taken u cap))
    × (u.ring_used ≡ 0 → (o.2 ≡ []) × Reports u (o.0, o.1))

usb_drain-Returns :
    (u : Usb) (cap : ℕ) (answer : ℕ → LibusbCode)
    → Posted u
    → Returns u cap (usb_drain u cap answer)
unfolding usb_drain
usb_drain-Returns u cap answer p =
    if_cases (Returns u cap) (ltb 0 u.ring_used) _ _
      (λ some_in.
        let got = get_splits u cap p.0.has_ring in
        (
          copy-Posted _ (get-Posted u cap p),
          got.0,
          (λ _. (refl, got.1)),
          λ empty. absurd (ground arith),
        ))
      (λ empty.
        let out = report_lem u answer p in
        (copy-Posted _ out.0, out.1, (λ some_in. absurd (ground arith)), λ _. (refl, out.2)))

awaited-Posted :
    (u : Usb) (w : Wait)
    → Posted u
    → AllCome u (waited u w.wakes w.last)
    → Posted (usb_await u w.wakes w.last)
awaited-Posted u w p come =
    subst Posted (sym (usb_await-events u w.wakes w.last))
      (events-Posted u (waited u w.wakes w.last) p come)

pub usb_read-Returns :
    (u : Usb) (cap : ℕ) (w : Wait) (answer : ℕ → LibusbCode)
    → Posted u
    → AllCome u (waited u w.wakes w.last)
    → 0 < cap
    → Returns (usb_await u w.wakes w.last) cap (usb_read u cap w answer)
unfolding usb_read
usb_read-Returns u cap w answer p come l =
    if_cases (Returns (usb_await u w.wakes w.last) cap) (cap == 0) _ _
      (λ none. absurd (ground arith))
      (λ _. usb_drain-Returns _ cap answer (awaited-Posted u w p come))
