-- ===== src/Device/World/Anchored.antt =====
-- The channels and the pins under the steps of other threads.
use openport_j.Base.{
  ℕ, zero, suc, ◌≡◌, inl, inr, refl, ◌∙◌, Bool, List, [], ◌∷◌, ◌++◌, Option, none, some, Bytes,
  arith, ◌==◌, ==→eq, if_either, if_cases, take, length, ◌-◌,
}
use openport_j.Codes.{OpStatus}
use openport_j.Proto.Reply.{Reply}
use openport_j.Device.Message.{Message}
use openport_j.Device.Queue.{Channel, queue_pop, pop_sized, flush_locked}
use openport_j.Device.State.{Device, put_channel}
use openport_j.Device.Absorb.{absorb_frame, absorb_echo}
use openport_j.Device.Absorb.Isolation.{
  Keeps, Keeps-trans, IsBounded, absorb_open-Keeps, queue_frame-Keeps, queue_frame-partial,
}
use openport_j.Device.Slot.{stash_data, stash_reply, init_data}
use openport_j.Device.Stream.{deliver, round, consume, consume_accum, reader_take, accum_cap}
use openport_j.Device.Stream.Chunks.{consume-round, consume_stop, parse_cases}
use openport_j.Device.World.{
  Step, arrives, vanishes, shuts, pops, flushes, pop_now, step, steps, await,
}

-- The channels stay open or closed, with their protocol, ring and periodic messages; the pins
-- and the version stay as they are.
pub record Anchored (d d' : Device) : Type 0 where
  pub channels : (i : ℕ) → Keeps (d.ch i) (d'.ch i)
  pub grounded_eq : d'.pins_grounded ≡ d.pins_grounded
  pub powered_eq : d'.pins_powered ≡ d.pins_powered
  pub version_eq : d'.fw_version ≡ d.fw_version

abbrev pub AllBounded : Device → Type 0
AllBounded d = (i : ℕ) → IsBounded (d.ch i)

abbrev pub Anchors : Device → Device → Type 0
Anchors d d' = AllBounded d → Anchored d d' × AllBounded d'

Keeps-refl : (c : Channel) → Keeps c c
Keeps-refl c = record { open_eq = refl; protocol_eq = refl; alloc_eq = refl; periodic_eq = refl }

-- The same channels and pins.
pub same-Anchors :
    (d d' : Device)
    → d'.ch ≡ d.ch
    → d'.pins_grounded ≡ d.pins_grounded
    → d'.pins_powered ≡ d.pins_powered
    → d'.fw_version ≡ d.fw_version
    → Anchors d d'
same-Anchors d d' c g p v b = (
  record {
    channels = λ i. rw c (Keeps-refl (d.ch i));
    grounded_eq = g;
    powered_eq = p;
    version_eq = v;
  },
  λ i. rw c (b i),
)

pub Anchors-trans : {d e f : Device} → Anchors d e → Anchors e f → Anchors d f
Anchors-trans h k b =
    let (h1, b1) = h b in
    let (k1, b2) = k b1 in
    (
      record {
        channels = λ i. Keeps-trans (h1.channels i) (k1.channels i);
        grounded_eq = k1.grounded_eq ∙ h1.grounded_eq;
        powered_eq = k1.powered_eq ∙ h1.powered_eq;
        version_eq = k1.version_eq ∙ h1.version_eq;
      },
      b2,
    )

pub put_channel-Anchors :
    (d : Device) (k : ℕ) (c : Channel)
    → (IsBounded (d.ch k) → Keeps (d.ch k) c × IsBounded c)
    → Anchors d (put_channel d k c)
put_channel-Anchors d k c h b = (
  record {
    channels = λ i.
        if_cases (Keeps (d.ch i)) (i == k) c (d.ch i) (λ e. rw (==→eq i k e) (h (b k)).0)
          (λ _. Keeps-refl (d.ch i));
    grounded_eq = refl;
    powered_eq = refl;
    version_eq = refl;
  },
  λ i. if_either IsBounded (i == k) c (d.ch i) (h (b k)).1 (b i),
)

absorb_echo-Keeps :
    (c : Channel) (r : Reply)
    → IsBounded c
    → Keeps c (absorb_echo c r) × IsBounded (absorb_echo c r)
unfolding absorb_echo
absorb_echo-Keeps c r h = (queue_frame-Keeps c _ r _ _ _, rw (queue_frame-partial c _ r _ _ _) h)

absorb_frame-Anchors : (d : Device) (r : Reply) → Anchors d (absorb_frame d r)
unfolding absorb_frame
absorb_frame-Anchors d r = if_either (Anchors d) _ _ _ same (
    if_either (Anchors d) _ _ _
      (put_channel-Anchors d r.channel _ (absorb_open-Keeps (d.ch r.channel) r))
      (if_either (Anchors d) _ _ _ (put_channel-Anchors d 6 _ (absorb_echo-Keeps (d.ch 6) r)) same))
  where
    same : Anchors d d
    same = same-Anchors d d refl refl refl refl

stash_data-Anchors :
    (d : Device) (r : Reply) (o : Option (Option Bytes)) → Anchors d (stash_data d r o)
unfolding stash_data
stash_data-Anchors d r none = same-Anchors d _ refl refl refl refl
stash_data-Anchors d r (some s) = same-Anchors d _ refl refl refl refl

stash_reply-Anchors : (d : Device) (r : Reply) → Anchors d (stash_reply d r)
unfolding stash_reply
stash_reply-Anchors d r =
    if_either (Anchors d) _ _ _ (same-Anchors d d refl refl refl refl)
      (stash_data-Anchors d r (init_data d.seq_pending r))

deliver-Anchors : (d : Device) (r : Reply) → Anchors d (deliver d r)
unfolding deliver
deliver-Anchors d r =
    ground (
      arith,
      absorb_frame-Anchors d r,
      stash_reply-Anchors d r,
      same-Anchors d d refl refl refl refl,
    )

round-Anchors : (d : Device) (s : Bytes) → Anchors d (round d s).0
unfolding round
round-Anchors d s = deliver-Anchors d _

consume-Anchors : (fuel : ℕ) (d : Device) (s : Bytes) → Anchors d (consume fuel d s).0
consume-Anchors zero d s = unfold consume in same-Anchors d d refl refl refl refl
consume-Anchors (suc fuel) d [] = unfold consume in same-Anchors d d refl refl refl refl
consume-Anchors (suc fuel) d (b ∷ s) =
    let rest = consume-Anchors fuel (round d (b ∷ s)).0 (round d (b ∷ s)).1 in
    elim (parse_cases (b ∷ s)) [
      | inl e ↦ rw (consume_stop fuel d b s e) (same-Anchors d d refl refl refl refl)
      | inr n ↦ rw (consume-round fuel d b s n) (Anchors-trans (round-Anchors d (b ∷ s)) rest)
    ]

reader_take-Anchors : (d : Device) (got : Bytes) → Anchors d (reader_take d got)
unfolding reader_take consume_accum
reader_take-Anchors d got =
    let d' = record d { accum = d.accum ++ take (accum_cap - length d.accum) got } in
    let out = consume (suc (length d'.accum)) d' d'.accum in
    Anchors-trans (same-Anchors d d' refl refl refl refl) (
      Anchors-trans (consume-Anchors (suc (length d'.accum)) d' d'.accum)
        (same-Anchors out.0 _ refl refl refl refl))

queue_pop-Keeps : (c : Channel) → IsBounded c → Keeps c (queue_pop c).1 × IsBounded (queue_pop c).1
unfolding queue_pop pop_sized
queue_pop-Keeps c h =
    (record { open_eq = refl; protocol_eq = refl; alloc_eq = refl; periodic_eq = refl }, h)

flush_locked-Keeps :
    (c : Channel) → IsBounded c → Keeps c (flush_locked c) × IsBounded (flush_locked c)
unfolding flush_locked
flush_locked-Keeps c h =
    (record { open_eq = refl; protocol_eq = refl; alloc_eq = refl; periodic_eq = refl }, h)

pub pop_now-Anchors : (d : Device) (i : ℕ) → Anchors d (pop_now d i).0
unfolding pop_now
pop_now-Anchors d i =
    if_either (λ (o : Device × OpStatus × Option Message). Anchors d o.0) _ _ _
      (same-Anchors d d refl refl refl refl)
      (if_either (λ (o : Device × OpStatus × Option Message). Anchors d o.0) _ _ _
        (put_channel-Anchors d i _ (queue_pop-Keeps (d.ch i)))
        (same-Anchors d d refl refl refl refl))

pub flush-Anchors : (d : Device) (i : ℕ) → Anchors d (put_channel d i (flush_locked (d.ch i)))
flush-Anchors d i = put_channel-Anchors d i _ (flush_locked-Keeps (d.ch i))

step-Anchors : (d : Device) (s : Step) → Anchors d (step d s)
unfolding step
step-Anchors d (arrives got) = reader_take-Anchors d got
step-Anchors d vanishes = same-Anchors d _ refl refl refl refl
step-Anchors d shuts = same-Anchors d _ refl refl refl refl
step-Anchors d (pops i) = pop_now-Anchors d i
step-Anchors d (flushes i) = flush-Anchors d i

pub steps-Anchors : (d : Device) (ss : List Step) → Anchors d (steps d ss)
unfolding steps
steps-Anchors d [] = same-Anchors d d refl refl refl refl
steps-Anchors d (s ∷ ss) = Anchors-trans (step-Anchors d s) (steps-Anchors (step d s) ss)

pub await-Anchors :
    (done : Device → Bool) (d : Device) (wakes : List (List Step)) (last : List Step)
    → Anchors d (await done d wakes last)
unfolding await
await-Anchors done d [] last =
    if_either (Anchors d) (done d) _ _ (same-Anchors d d refl refl refl refl) (steps-Anchors d last)
await-Anchors done d (w ∷ ws) last =
    if_either (Anchors d) (done d) _ _ (same-Anchors d d refl refl refl refl)
      (Anchors-trans (steps-Anchors d w) (await-Anchors done (steps d w) ws last))
