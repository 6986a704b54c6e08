-- ===== src/Transport/Usb/History.antt =====
-- What `usb_read` of src/op_usb.c hands out against what the cable sent.
use openport_j.Base.{
  ℕ, suc, ◌+◌, ◌≡◌, refl, sym, ap, ◌∙◌, List, [], ◌∷◌, ◌++◌, append_assoc, append-nil, Bytes, arith,
  if_either, length, leb, lt→ltb, if◌then◌else◌, Bool-cases, inl, inr,
}
use openport_j.Codes.{OpStatus}
use openport_j.Transport.Usb.{Usb, LibusbCode, usb_ring_bytes, usb_rx_transfers}
use openport_j.Transport.Usb.Buffer.{usb_ring_put}
use openport_j.Transport.Usb.Pending.{HasRing, pending, put_fits, put_full}
use openport_j.Transport.Usb.Receive.{
  is_gone, rx_fail, rx_submit, put_some, completed, cancelled, gone, failed, Event, done, polled,
  rx_landed, rx_completed, rx_done, rx_polled, rx_event, events, repost_slot, rx_repost,
}
use openport_j.Transport.Usb.Posted.{AllCome, rx_submit_cases}
use openport_j.Transport.Usb.Completions.{Posted, rx_event-Posted}
use openport_j.Transport.Usb.Posting.{for_slots_inv}

rx_fail-pending : (u : Usb) (st : OpStatus) → pending (rx_fail u st) ≡ pending u
unfolding rx_fail
rx_fail-pending u st = if_either (λ v. pending v ≡ pending u) (is_gone u.rx_error) _ _ refl refl

rx_submit-pending : (u : Usb) (i : ℕ) (r : LibusbCode) → pending (rx_submit u i r) ≡ pending u
rx_submit-pending u i r =
    rx_submit_cases (λ v. pending v ≡ pending u) u i r refl (λ st _. rx_fail-pending u st)

pub rx_repost-pending :
    (answer : ℕ → LibusbCode) (u : Usb) → pending (rx_repost answer u) ≡ pending u
unfolding rx_repost
rx_repost-pending answer u =
    for_slots_inv (λ _ v. pending v ≡ pending u) (repost_slot answer)
      (λ i v _ _ e.
        if_either (λ x. pending x ≡ pending u) _ _ _ e (rx_submit-pending v i (answer i) ∙ e))
      (λ i v _ e. e) usb_rx_transfers 0 u refl refl

-- What the ring takes of a transfer: its bytes where they fit, and nothing else.
abbrev pub kept : Usb → Event → Bytes
kept u (done i (completed src) r) =
    if leb (u.ring_used + length src) usb_ring_bytes then src else []
kept u _ = []

abbrev pub kept_all : Usb → List Event → Bytes
kept_all u [] = []
kept_all u (e ∷ es) = kept u e ++ kept_all (rx_event u e) es

put-pending :
    (u : Usb) (src : Bytes)
    → HasRing u
    → pending (usb_ring_put u src)
      ≡ pending u ++ (if leb (u.ring_used + length src) usb_ring_bytes then src else [])
put-pending u src h = elim (Bool-cases (leb (u.ring_used + length src) usb_ring_bytes)) [
  | inl room ↦ rw room ((put_fits u src h (ground arith)).0)
  | inr full ↦ rw (full, put_full u src h (ground arith)) (sym (append-nil (pending u)))
]

put_some-pending :
    (u : Usb) (src : Bytes)
    → HasRing u
    → pending (put_some u src)
      ≡ pending u ++ (if leb (u.ring_used + length src) usb_ring_bytes then src else [])
unfolding put_some
put_some-pending u [] h = sym (
    if_either (λ s. pending u ++ s ≡ pending u) (leb (u.ring_used + 0) usb_ring_bytes) _ _
      (append-nil (pending u)) (append-nil (pending u)))
put_some-pending u (b ∷ src) h =
    rw (lt→ltb 0 (suc (length src)) (omega arith)) (put-pending u (b ∷ src) h)

-- A completion adds what the ring takes behind the rest.
pub rx_event-pending :
    (u : Usb) (e : Event) → HasRing u → pending (rx_event u e) ≡ pending u ++ kept u e
unfolding rx_done rx_completed rx_landed rx_polled
rx_event-pending u (done i (completed src) r) h =
    let v = put_some (rx_landed u i) src in
    if_either (λ x. pending x ≡ pending u ++ kept u (done i (completed src) r)) v.stopping _ _
      (put_some-pending (rx_landed u i) src (record { head_in = h.head_in; used_le = h.used_le }))
      (rx_submit-pending v i r
        ∙ put_some-pending (rx_landed u i) src
            (record { head_in = h.head_in; used_le = h.used_le }))
rx_event-pending u (done i cancelled r) h = sym (append-nil (pending u))
rx_event-pending u (done i gone r) h =
    rx_fail-pending (rx_landed u i) _ ∙ sym (append-nil (pending u))
rx_event-pending u (done i failed r) h =
    rx_fail-pending (rx_landed u i) _ ∙ sym (append-nil (pending u))
rx_event-pending u polled h = sym (append-nil (pending u))

pub events-pending :
    (u : Usb) (es : List Event)
    → Posted u
    → AllCome u es
    → pending (events u es) ≡ pending u ++ kept_all u es
events-pending u [] p c = sym (append-nil (pending u))
events-pending u (e ∷ es) p (c, cs) =
    events-pending (rx_event u e) es (rx_event-Posted u e p c) cs
    ∙ ap (λ s. s ++ kept_all (rx_event u e) es) (rx_event-pending u e p.0.has_ring)
    ∙ append_assoc (pending u) (kept u e) (kept_all (rx_event u e) es)
