-- ===== src/Api/Invariant.antt =====
-- What holds of the session between two calls: channels, periodic messages and pins.
pub mod Calls
pub mod Pins
pub mod Periodics
pub mod Removal
pub mod Stops
pub mod Others
pub mod Traffic
pub mod Transfers
pub mod Reachable
use openport_j.Base.{
  ℕ, zero, suc, ◌+◌, ◌≤◌, ◌<◌, ◌≡◌, ◌≢◌, ◌⊎◌, inl, inr, refl, sym, ap, ◌∙◌, Bool, true, false, not,
  ◌&&◌, ◌||◌, List, [], Option, none, some, arith, ltb, leb, ◌==◌, ==→eq, if◌then◌else◌, if_either,
  if_cases, length, Bool-cases,
}
use openport_j.Device.Protocol.{protocol_channel}
use openport_j.Device.Queue.{Channel}
use openport_j.Device.State.{Device, put_channel}
use openport_j.Device.Absorb.Isolation.{Keeps, IsBounded}
use openport_j.Device.World.Anchored.{Anchored, AllBounded, Anchors}
use openport_j.Api.Simple.{protocol_uses_pin, any_below}
use openport_j.Api.Channels.{line_taken}
use openport_j.Api.Periodic.{periodic_per_ch}

-- What an open channel at index `i` satisfies, the grounded pins given.
pub record IsHome (grounded : ℕ → Bool) (i : ℕ) (c : Channel) : Type 0 where
  pub home : protocol_channel c.protocol ≡ some i
  pub ring : c.rq_alloc ≡ true
  pub ungrounded : (pin : ℕ) → grounded pin ≡ true → protocol_uses_pin c.protocol pin ≡ false

-- Open channels are at home, K and L carry one channel each, no channel has more periodic
-- messages than its table, and the pins are those of one supply.
pub record Sound (d : Device) : Type 0 where
  pub homes : (i : ℕ) → (d.ch i).is_open ≡ true → IsHome d.pins_grounded i (d.ch i)
  pub k_line : ((d.ch 3).is_open && (d.ch 4).is_open) ≡ false
  pub l_line : ((d.ch 7).is_open && (d.ch 8).is_open) ≡ false
  pub limited : (i : ℕ) → length (d.ch i).periodic ≤ periodic_per_ch
  pub bounded : AllBounded d
  pub one_power : (p q : ℕ) → d.pins_powered p ≡ true → d.pins_powered q ≡ true → p ≡ q
  pub disjoint : (p : ℕ) → d.pins_grounded p ≡ true → d.pins_powered p ≡ false
  pub in_mask : (p : ℕ) → 32 ≤ p → (d.pins_grounded p ≡ false) × (d.pins_powered p ≡ false)

Keeps-IsHome : (g : ℕ → Bool) (i : ℕ) (c c' : Channel) → Keeps c c' → IsHome g i c → IsHome g i c'
Keeps-IsHome g i c c' k h = record {
  home = rw k.protocol_eq h.home;
  ring = k.alloc_eq ∙ h.ring;
  ungrounded = λ pin e. rw k.protocol_eq (h.ungrounded pin e);
}

-- What other threads and the commands do keeps the session sound.
pub Anchors-Sound : (d d' : Device) → Sound d → Anchors d d' → Sound d'
Anchors-Sound d d' s h =
    let (a, b) = h s.bounded in
    record {
      homes = λ i o. rw a.grounded_eq (
          Keeps-IsHome d.pins_grounded i (d.ch i) (d'.ch i) (a.channels i)
            (s.homes i (sym (a.channels i).open_eq ∙ o)));
      k_line = rw ((a.channels 3).open_eq, (a.channels 4).open_eq) s.k_line;
      l_line = rw ((a.channels 7).open_eq, (a.channels 8).open_eq) s.l_line;
      limited = λ i. rw (a.channels i).periodic_eq (s.limited i);
      bounded = b;
      one_power = rw a.powered_eq s.one_power;
      disjoint = rw (a.grounded_eq, a.powered_eq) s.disjoint;
      in_mask = rw (a.grounded_eq, a.powered_eq) s.in_mask;
    }

put_channel-all :
    (d : Device) (i : ℕ) (c : Channel) (P : ℕ → Channel → Type 0)
    → P i c
    → ((j : ℕ) → j ≢ i → P j (d.ch j))
    → (j : ℕ) → P j ((put_channel d i c).ch j)
put_channel-all d i c P own rest j =
    if_cases (P j) (j == i) c (d.ch j) (λ e. rw (==→eq j i e) own) (λ e. rest j (λ q. ground arith))

put_channel-lines :
    (d : Device) (i : ℕ) (c : Channel)
    → Sound d
    → (c.is_open ≡ true → line_taken d i ≡ false)
    → ((((put_channel d i c).ch 3).is_open && ((put_channel d i c).ch 4).is_open) ≡ false)
      × ((((put_channel d i c).ch 7).is_open && ((put_channel d i c).ch 8).is_open) ≡ false)
unfolding line_taken
put_channel-lines d i c s h = ground (arith, s.k_line, s.l_line)

-- The line of an open channel carries no other.
pub open-line_taken :
    (d : Device) (i : ℕ) → Sound d → (d.ch i).is_open ≡ true → line_taken d i ≡ false
unfolding line_taken
open-line_taken d i s o = ground (arith, s.k_line, s.l_line)

-- A new state of channel `i`, which may be open only at home and on a free line.
pub put_channel-Sound :
    (d : Device) (i : ℕ) (c : Channel)
    → Sound d
    → IsBounded c
    → length c.periodic ≤ periodic_per_ch
    → (c.is_open ≡ true → IsHome d.pins_grounded i c × (line_taken d i ≡ false))
    → Sound (put_channel d i c)
put_channel-Sound d i c s b l h =
    let lines = put_channel-lines d i c s (λ o. (h o).1) in
    record {
      homes =
          put_channel-all d i c (λ j x. x.is_open ≡ true → IsHome d.pins_grounded j x)
            (λ o. (h o).0) (λ j _. s.homes j);
      k_line = lines.0;
      l_line = lines.1;
      limited =
          put_channel-all d i c (λ j x. length x.periodic ≤ periodic_per_ch) l (λ j _. s.limited j);
      bounded = put_channel-all d i c (λ j x. IsBounded x) b (λ j _. s.bounded j);
      one_power = s.one_power;
      disjoint = s.disjoint;
      in_mask = s.in_mask;
    }

pub any_below-false : (n : ℕ) (f : ℕ → Bool) (k : ℕ) → any_below n f ≡ false → k < n → f k ≡ false
unfolding any_below
any_below-false zero f k h l = absurd (omega arith)
any_below-false (suc n) f k h l = ground (arith, any_below-false n f k)
