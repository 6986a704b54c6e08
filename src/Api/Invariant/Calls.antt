-- ===== src/Api/Invariant/Calls.antt =====
-- PassThruConnect and PassThruDisconnect on a sound session.
use openport_j.Base.{
  ℕ, ◌%◌, ◌^◌, ◌≡◌, refl, Bool, true, false, not, ◌&&◌, ◌||◌, [], Option, none, some, Bytes, arith,
  leb, ◌==◌, if_either, if_cases,
}
use openport_j.Codes.{OpStatus}
use openport_j.Proto.Decode.{cmd_max}
use openport_j.Proto.Command.{cmd_open}
use openport_j.Device.Protocol.{protocol_channel}
use openport_j.Device.Queue.{flush_locked}
use openport_j.Device.State.{Device, max_channels}
use openport_j.Device.World.Anchored.{Anchors}
use openport_j.Device.Exchange.{Timing}
use openport_j.Device.Exchange.Anchor.{cmd_exchange-Anchors}
use openport_j.Device.Lifecycle.{op_device_open_channel, op_device_close_channel}
use openport_j.Api.Simple.{Answer, simple_cmd, protocol_uses_pin, has_channel}
use openport_j.Api.Channels.{
  line_taken, pin_shorted, connect_opened, connect_send, connect_on, connect_any, pass_thru_connect,
  pass_thru_disconnect,
}
use openport_j.Api.Invariant.{Sound, Anchors-Sound, put_channel-Sound, any_below-false}

pub simple_cmd-Anchors :
    (d : Device) (line payload : Bytes) (t : Timing)
    → Anchors d (simple_cmd d line payload t).device
unfolding simple_cmd
simple_cmd-Anchors d line payload t =
    let h = cmd_exchange-Anchors d line payload true t in
    if_either (λ (a : Answer). Anchors d a.device) _ _ _ h h

pub simple_cmd-Sound :
    (d : Device) (line payload : Bytes) (t : Timing)
    → Sound d
    → Sound (simple_cmd d line payload t).device
simple_cmd-Sound d line payload t s = Anchors-Sound d _ s (simple_cmd-Anchors d line payload t)

-- A protocol may be opened on its channel.
abbrev CanOpen : Device → ℕ → ℕ → Type 0
CanOpen d fw p =
    (protocol_channel p ≡ some fw) × (line_taken d fw ≡ false) × (pin_shorted d p ≡ false)

protocol-u32 : (p fw : ℕ) → protocol_channel p ≡ some fw → p % 2 ^ 32 ≡ p
unfolding protocol_channel
protocol-u32 p fw h = ground arith

pin_shorted-false :
    (d : Device) (p : ℕ)
    → Sound d
    → pin_shorted d p ≡ false
    → (pin : ℕ) → d.pins_grounded pin ≡ true
    → protocol_uses_pin p pin ≡ false
unfolding pin_shorted
pin_shorted-false d p s h pin g = ground (
  arith,
  s.in_mask pin,
  any_below-false 32 (λ pin. d.pins_grounded pin && protocol_uses_pin p pin) pin h,
)

CanOpen-Anchors :
    (d d' : Device) (fw p : ℕ) → Sound d → Anchors d d' → CanOpen d fw p → CanOpen d' fw p
unfolding line_taken pin_shorted
CanOpen-Anchors d d' fw p s h (e, l, g) =
    let a = (h s.bounded).0 in
    (
      e,
      rw
          (
            (a.channels 3).open_eq,
            (a.channels 4).open_eq,
            (a.channels 7).open_eq,
            (a.channels 8).open_eq,
          )
          l,
      rw a.grounded_eq g,
    )

op_device_open_channel-Sound :
    (d : Device) (fw p : ℕ) (room : Bool)
    → Sound d
    → CanOpen d fw p
    → Sound (op_device_open_channel d fw p room).0
unfolding op_device_open_channel
op_device_open_channel-Sound d fw p room s (e, l, g) = if_either P (leb max_channels fw) _ _ s (
    if_either P ((d.ch fw).rq_alloc || room) _ _
      (put_channel-Sound d fw _ s (omega arith) (omega arith)
        (λ _. (record { home = e; ring = refl; ungrounded = pin_shorted-false d p s g }, l)))
      (put_channel-Sound d fw _ s (omega arith) (omega arith) (λ o. absurd (ground arith))))
  where
    P : Device × OpStatus → Type 0
    P o = Sound o.0

connect_opened-Sound :
    (d : Device) (fw p : ℕ) (room : Bool) (t : Timing)
    → Sound d
    → CanOpen d fw p
    → Sound (connect_opened d fw p room t).0
unfolding connect_opened
connect_opened-Sound d fw p room t s (e, l, g) =
    let opened : Sound (op_device_open_channel d fw (p % 2 ^ 32) room).0 =
      rw (protocol-u32 p fw e) (op_device_open_channel-Sound d fw p room s (e, l, g)) in
    if_either (λ (o : Device × ℕ × Option ℕ). Sound o.0) _ _ _ opened
      (simple_cmd-Sound _ _ [] t opened)

connect_send-Sound :
    (d : Device) (fw p flags baud : ℕ) (room : Bool) (t undo : Timing)
    → Sound d
    → CanOpen d fw p
    → Sound (connect_send d fw p flags baud room t undo).0
unfolding connect_send
connect_send-Sound d fw p flags baud room t undo s can =
    let line = cmd_open cmd_max fw (flags % 2 ^ 32) (baud % 2 ^ 32) in
    let a = simple_cmd d line [] t in
    let s' = simple_cmd-Sound d line [] t s in
    if_either (λ (o : Device × ℕ × Option ℕ). Sound o.0) _ _ _ s
      (if_either (λ (o : Device × ℕ × Option ℕ). Sound o.0) _ _ _
        (connect_opened-Sound a.device fw p room undo s'
          (CanOpen-Anchors d a.device fw p s (simple_cmd-Anchors d line [] t) can))
        s')

connect_on-Sound :
    (d : Device) (fw p flags baud : ℕ) (room : Bool) (t undo : Timing)
    → Sound d
    → protocol_channel p ≡ some fw
    → Sound (connect_on d fw p flags baud room t undo).0
unfolding connect_on
connect_on-Sound d fw p flags baud room t undo s e =
    if_cases P ((d.ch fw).is_open || line_taken d fw) _ _ (λ _. s)
      (λ free. if_either P (baud == 0) _ _ s (
        if_cases P (pin_shorted d p) _ _ (λ _. s)
          (λ clear. connect_send-Sound d fw p flags baud room t undo s (e, ground arith, clear))))
  where
    P : Device × ℕ × Option ℕ → Type 0
    P o = Sound o.0

connect_any-Sound :
    (d : Device) (p flags baud : ℕ) (room : Bool) (t undo : Timing) (o : Option ℕ)
    → Sound d
    → protocol_channel p ≡ o
    → Sound (connect_any d p flags baud room t undo o).0
unfolding connect_any
connect_any-Sound d p flags baud room t undo none s e = s
connect_any-Sound d p flags baud room t undo (some fw) s e =
    connect_on-Sound d fw p flags baud room t undo s e

pub connect-Sound :
    (d : Device) (id p flags baud : ℕ) (has_out room : Bool) (t undo : Timing)
    → Sound d
    → Sound (pass_thru_connect d id p flags baud has_out room t undo).0
unfolding pass_thru_connect
connect-Sound d id p flags baud has_out room t undo s = if_either P _ _ _ s (
    if_either P (not has_out) _ _ s
      (connect_any-Sound d p flags baud room t undo (protocol_channel p) s refl))
  where
    P : Device × ℕ × Option ℕ → Type 0
    P o = Sound o.0

op_device_close_channel-Sound : (d : Device) (i : ℕ) → Sound d → Sound (op_device_close_channel d i)
unfolding op_device_close_channel flush_locked
op_device_close_channel-Sound d i s =
    if_either Sound (leb max_channels i) _ _ s
      (put_channel-Sound d i _ s (s.bounded i) (omega arith) (λ o. absurd (ground arith)))

pub disconnect-Sound :
    (d : Device) (i : ℕ) (t : Timing) → Sound d → Sound (pass_thru_disconnect d i t).0
unfolding pass_thru_disconnect
disconnect-Sound d i t s = if_either P (not d.is_open) _ _ s (
    if_either P (not (has_channel d i)) _ _ s
      (op_device_close_channel-Sound _ i (simple_cmd-Sound d _ [] t s)))
  where
    P : Device × ℕ → Type 0
    P o = Sound o.0
