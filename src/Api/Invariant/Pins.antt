-- ===== src/Api/Invariant/Pins.antt =====
-- PassThruSetProgrammingVoltage on a sound session.
use openport_j.Base.{
  zero, suc, ap₂, ℕ, ◌<◌, ◌≡◌, ◌≢◌, refl, ◌∙◌, Bool, true, false, not, ◌&&◌, [], some, arith, ltb,
  ◌==◌, ==→eq, ltb→lt, if◌then◌else◌, if_either, if_cases,
}
use openport_j.Codes.{short_to_ground, voltage_off}
use openport_j.Proto.Decode.{cmd_max}
use openport_j.Proto.Command.{cmd_voltage}
use openport_j.Device.Protocol.{protocol_channel}
use openport_j.Device.State.{Device, max_channels}
use openport_j.Device.World.Anchored.{Anchors}
use openport_j.Device.Exchange.{Timing}
use openport_j.Api.Simple.{simple_cmd, protocol_uses_pin, any_below}
use openport_j.Api.Pins.{
  other_powered, pin_carries, switch_pin, send_voltage, pass_thru_set_programming_voltage,
}
use openport_j.Api.Invariant.{IsHome, Sound, any_below-false}
use openport_j.Api.Invariant.Calls.{simple_cmd-Anchors, simple_cmd-Sound}

-- What the guards of the call say of a pin and a voltage.
abbrev Allowed : Device → ℕ → ℕ → Type 0
Allowed d pin voltage =
    (voltage ≢ voltage_off → voltage ≢ short_to_ground → other_powered d pin ≡ false)
    × (voltage ≡ short_to_ground → pin_carries d pin ≡ false)

channel-lt : (p i : ℕ) → protocol_channel p ≡ some i → i < max_channels
unfolding protocol_channel
channel-lt p i h = ground arith

-- No other pin has voltage.
none_other :
    (d : Device) (pin q : ℕ)
    → Sound d
    → other_powered d pin ≡ false
    → q ≢ pin
    → d.pins_powered q ≡ false
unfolding other_powered
none_other d pin q s h n =
    ground (arith, s.in_mask q, any_below-false 32 (λ p. d.pins_powered p && not (p == pin)) q h)

-- No open channel drives the pin.
none_carries :
    (d : Device) (pin i : ℕ)
    → pin_carries d pin ≡ false
    → i < max_channels
    → (d.ch i).is_open ≡ true
    → protocol_uses_pin (d.ch i).protocol pin ≡ false
unfolding pin_carries
none_carries d pin i h l o = ground (
  arith,
  any_below-false max_channels (λ i. (d.ch i).is_open && protocol_uses_pin (d.ch i).protocol pin) i
      h l,
)

switched-IsHome :
    (d : Device) (pin voltage i : ℕ)
    → Sound d
    → Allowed d pin voltage
    → (d.ch i).is_open ≡ true
    → IsHome (λ p. if p == pin then voltage == short_to_ground else d.pins_grounded p) i (d.ch i)
switched-IsHome d pin voltage i s a o =
    let h = s.homes i o in
    record {
      home = h.home;
      ring = h.ring;
      ungrounded = λ p.
          if_cases (λ b. b ≡ true → protocol_uses_pin (d.ch i).protocol p ≡ false) (p == pin)
            (voltage == short_to_ground) (d.pins_grounded p)
            (λ e g. rw (==→eq p pin e) (
              none_carries d pin i (a.1 (==→eq voltage short_to_ground g)) (channel-lt _ i h.home)
                o))
            (λ _ g. h.ungrounded p g);
    }

switched-one :
    (d : Device) (pin voltage p q : ℕ)
    → Sound d
    → Allowed d pin voltage
    → (if p == pin
        then not (voltage == short_to_ground) && not (voltage == voltage_off)
        else d.pins_powered p)
      ≡ true
    → (if q == pin
        then not (voltage == short_to_ground) && not (voltage == voltage_off)
        else d.pins_powered q)
      ≡ true
    → p ≡ q
switched-one d pin voltage p q s a hp hq =
    ground (arith, s.one_power p q, none_other d pin p s, none_other d pin q s, a.0)

switch_pin-Sound :
    (d : Device) (pin voltage : ℕ)
    → Sound d
    → (pin < 32 → Allowed d pin voltage)
    → Sound (switch_pin d pin voltage)
unfolding switch_pin
switch_pin-Sound d pin voltage s h =
    if_cases Sound (ltb pin 32) _ _
      (λ inside.
        let a = h (ltb→lt pin 32 inside) in
        record {
          homes = λ i o. switched-IsHome d pin voltage i s a o;
          k_line = s.k_line;
          l_line = s.l_line;
          limited = s.limited;
          bounded = s.bounded;
          one_power = λ p q. switched-one d pin voltage p q s a;
          disjoint = λ p. ground (arith, s.disjoint p);
          in_mask = λ p l. ground (arith, s.in_mask p l);
        })
      (λ _. s)

any_below-any_below :
    (n : ℕ) (f g : ℕ → Bool) → ((k : ℕ) → f k ≡ g k) → any_below n f ≡ any_below n g
unfolding any_below
any_below-any_below zero f g h = refl
any_below-any_below (suc n) f g h = rw (h n, any_below-any_below n f g h) refl

Allowed-Anchors :
    (d d' : Device) (pin voltage : ℕ)
    → Sound d
    → Anchors d d'
    → Allowed d pin voltage
    → Allowed d' pin voltage
unfolding other_powered pin_carries
Allowed-Anchors d d' pin voltage s h (other, carried) =
    let a = (h s.bounded).0 in
    (
      λ n m. rw a.powered_eq (other n m),
      λ e.
          any_below-any_below max_channels
            (λ i. (d'.ch i).is_open && protocol_uses_pin (d'.ch i).protocol pin)
            (λ i. (d.ch i).is_open && protocol_uses_pin (d.ch i).protocol pin)
            (λ i.
              ap₂ (λ o p. o && protocol_uses_pin p pin) (a.channels i).open_eq
                (a.channels i).protocol_eq)
          ∙ carried e,
    )

send_voltage-Sound :
    (d : Device) (pin voltage : ℕ) (t : Timing)
    → Sound d
    → (pin < 32 → Allowed d pin voltage)
    → Sound (send_voltage d pin voltage t).0
unfolding send_voltage
send_voltage-Sound d pin voltage t s h =
    let line = cmd_voltage cmd_max pin voltage in
    let a = simple_cmd d line [] t in
    let s' = simple_cmd-Sound d line [] t s in
    if_either (λ (o : Device × ℕ). Sound o.0) _ _ _ s
      (if_either (λ (o : Device × ℕ). Sound o.0) _ _ _
        (switch_pin-Sound a.device pin voltage s'
          (λ l. Allowed-Anchors d a.device pin voltage s (simple_cmd-Anchors d line [] t) (h l)))
        s')

pub set_programming_voltage-Sound :
    (d : Device) (id pin voltage : ℕ) (t : Timing)
    → Sound d
    → Sound (pass_thru_set_programming_voltage d id pin voltage t).0
unfolding pass_thru_set_programming_voltage
set_programming_voltage-Sound d id pin voltage t s = if_either P _ _ _ s (
    if_cases P shared _ _ (λ _. s)
      (λ alone.
        if_cases P (voltage == short_to_ground && pin_carries d pin) _ _ (λ _. s)
          (λ free. send_voltage-Sound d pin voltage t s (allowed alone free))))
  where
    P : Device × ℕ → Type 0
    P o = Sound o.0

    shared : Bool
    shared =
        not (voltage == voltage_off)
        && (not (voltage == short_to_ground) && (ltb pin 32 && other_powered d pin))

    allowed :
        shared ≡ false
        → (voltage == short_to_ground && pin_carries d pin) ≡ false
        → pin < 32
        → Allowed d pin voltage
    allowed alone free l = (λ n m. ground arith, λ e. ground arith)
