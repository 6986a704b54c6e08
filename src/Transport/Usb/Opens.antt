-- ===== src/Transport/Usb/Opens.antt =====
-- A session that `op_usb_open` of src/op_usb.c has started.
use openport_j.Base.{
  ℕ, suc, zero, ◌≡◌, refl, sym, ap, Bool, true, false, not, ◌&&◌, arith, if_either, if_cases,
  get_or, length, replicate,
}
use openport_j.Codes.{OpStatus, is_fine}
use openport_j.Transport.Usb.{Usb, LibusbCode, usb_rx_transfers}
use openport_j.Transport.Usb.Slots.{count_flying}
use openport_j.Transport.Usb.Receive.{is_gone, rx_fail, rx_submit, rx_post}
use openport_j.Transport.Usb.Posted.{rx_submit_cases}
use openport_j.Transport.Usb.Completions.{Posted}
use openport_j.Transport.Usb.Posting.{for_slots_inv, post-Posted}
use openport_j.Transport.Usb.Stop.{Means, rx_start}
use openport_j.Transport.Usb.Find.{Found}
use openport_j.Transport.Usb.Open.{new_usb}

-- What posting a read leaves alone.
abbrev SameLink : Usb → Usb → Type 0
SameLink u v =
    (v.interface_num ≡ u.interface_num)
    × (v.claimed ≡ u.claimed)
    × (v.ep_in ≡ u.ep_in)
    × (v.ep_out ≡ u.ep_out)
    × (v.stopping ≡ u.stopping)

fail-SameLink : (u v : Usb) (st : OpStatus) → SameLink u v → SameLink u (rx_fail v st)
unfolding rx_fail
fail-SameLink u v st h = if_either (SameLink u) (is_gone v.rx_error) _ _ h h

post-SameLink : (answer : ℕ → LibusbCode) (u : Usb) → SameLink u (rx_post answer u)
unfolding rx_post
post-SameLink answer u =
    for_slots_inv (λ _ v. SameLink u v) (λ v i. rx_submit v i (answer i))
      (λ i v _ _ h. rx_submit_cases (SameLink u) v i (answer i) h (λ st _. fail-SameLink u v st h))
      (λ i v _ h. h) usb_rx_transfers 0 u refl (refl, refl, refl, refl, refl)

pub none_flying : (n j : ℕ) → get_or (replicate n false) j false ≡ false
none_flying zero j = refl
none_flying (suc n) zero = refl
none_flying (suc n) (suc j) = none_flying n j

pub length-replicate : (n : ℕ) → length (replicate n false) ≡ n
length-replicate zero = refl
length-replicate (suc n) = ap suc (length-replicate n)

pub count_none : (n : ℕ) → count_flying (replicate n false) ≡ 0
unfolding count_flying
count_none zero = refl
count_none (suc n) = omega (arith, count_none n)

-- A session over the endpoints that were found, with every read posted.
abbrev pub IsOpen : Found → Usb → Type 0
IsOpen f u =
    Posted u
    × (u.rx_flying ≡ usb_rx_transfers)
    × (u.claimed ≡ true)
    × (u.interface_num ≡ f.intf)
    × (u.ep_in ≡ f.ep_in)
    × (u.ep_out ≡ f.ep_out)

pub started-IsOpen :
    (f : Found) (bound : ℕ → Bool) (m : Means) (answer : ℕ → LibusbCode)
    → is_fine (rx_start (new_usb f bound) m answer).1 ≡ true
    → IsOpen f (rx_start (new_usb f bound) m answer).0
unfolding rx_start
started-IsOpen f bound m answer =
    if_cases P (not (m.ring_room && m.buffers_room)) _ _ (λ _ bad. cc)
      (λ _.
        if_cases P (not m.thread_starts) _ _ (λ _ bad. cc)
          (λ _ fine. (posted, posted.1 fine same.4, same.1, same.0, same.2, same.3)))
  where
    P : Usb × OpStatus → Type 0
    P o = is_fine o.1 ≡ true → IsOpen f o.0

    u : Usb
    u = record (new_usb f bound) { events_started = true }

    same : SameLink u (rx_post answer u)
    same = post-SameLink answer u

    posted : Posted (rx_post answer u)
    posted =
        post-Posted answer u
          (record {
            has_ring = record { head_in = omega arith; used_le = omega arith };
            slots = length-replicate usb_rx_transfers;
            counted = sym (count_none usb_rx_transfers);
          })
          (none_flying usb_rx_transfers)
