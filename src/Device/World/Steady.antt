-- ===== src/Device/World/Steady.antt =====
-- The slot of a waiting command under the steps of other threads.
use openport_j.Base.{
  ℕ, zero, suc, ◌≡◌, ◌≢◌, inl, inr, refl, ◌∙◌, Bool, true, false, not, ◌||◌, List, [], ◌∷◌, Option,
  none, some, ◌++◌, Bytes, arith, if_either, Bool-cases, take, length, ◌-◌,
}
use openport_j.Proto.Reply.{Reply, is_init}
use openport_j.Device.State.{Device}
use openport_j.Device.Absorb.{absorb_frame}
use openport_j.Device.Slot.{
  last_token, is_empty, wrong_init, wrong_number, copy_reply, init_data, stash_data, stash_reply,
}
use openport_j.Device.Stream.{deliver, round, consume, consume_accum, reader_take, accum_cap}
use openport_j.Device.Stream.Chunks.{consume-round, consume_stop, parse_cases}
use openport_j.Device.World.{
  Step, arrives, vanishes, shuts, pops, flushes, pop_now, step, steps, await,
}

-- The slot's owner and the numbers are the command's own, and a closed session stays closed.
pub record Steady (d d' : Device) : Type 0 where
  pub waiting_eq : d'.cmd_waiting ≡ d.cmd_waiting
  pub next_eq : d'.seq_next ≡ d.seq_next
  pub pending_eq : d'.seq_pending ≡ d.seq_pending
  pub verb_eq : d'.cmd_verb ≡ d.cmd_verb
  pub stays_closed : d.is_open ≡ false → d'.is_open ≡ false

-- The reply that waits in the slot ends in the number of the numbered command, and is no init
-- reply.
abbrev pub Fits : Device → Type 0
Fits d =
    d.reply_valid ≡ true
    → (is_init d.reply.kind ≡ false) × (d.reply.tail ≢ []) × (last_token d.reply ≡ d.seq_pending)

-- A numbered command that is no init.
abbrev pub IsPlain : Device → Type 0
IsPlain d = (d.seq_pending ≢ 0) × (d.cmd_verb ≢ b'y') × (d.cmd_verb ≢ b'w')

abbrev pub Follows : Device → Device → Type 0
Follows d d' = Steady d d' × (IsPlain d → Fits d → Fits d')

same-Steady : (d : Device) → Steady d d
same-Steady d = record {
  waiting_eq = refl;
  next_eq = refl;
  pending_eq = refl;
  verb_eq = refl;
  stays_closed = λ c. c;
}

pub Steady-trans : {d e f : Device} → Steady d e → Steady e f → Steady d f
Steady-trans h k = record {
  waiting_eq = k.waiting_eq ∙ h.waiting_eq;
  next_eq = k.next_eq ∙ h.next_eq;
  pending_eq = k.pending_eq ∙ h.pending_eq;
  verb_eq = k.verb_eq ∙ h.verb_eq;
  stays_closed = λ c. k.stays_closed (h.stays_closed c);
}

pub Follows-trans : {d e f : Device} → Follows d e → Follows e f → Follows d f
Follows-trans {d} {e} {f} (h, p) (k, q) =
    (Steady-trans h k, λ plain fits. q (still plain) (p plain fits))
  where
    still : IsPlain d → IsPlain e
    still (n, y, w) = rw (h.pending_eq, h.verb_eq) (n, y, w)

absorb_frame-Follows : (d : Device) (r : Reply) → Follows d (absorb_frame d r)
unfolding absorb_frame
absorb_frame-Follows d r = ground arith

stash_data-Steady :
    (d : Device) (r : Reply) (o : Option (Option Bytes)) → Steady d (stash_data d r o)
unfolding stash_data
stash_data-Steady d r none = record {
  waiting_eq = refl;
  next_eq = refl;
  pending_eq = refl;
  verb_eq = refl;
  stays_closed = λ c. c;
}
stash_data-Steady d r (some s) = record {
  waiting_eq = refl;
  next_eq = refl;
  pending_eq = refl;
  verb_eq = refl;
  stays_closed = λ c. c;
}

-- On the replies that a plain command takes.
plain_taken :
    (d : Device) (r : Reply)
    → IsPlain d
    → (wrong_init d r || wrong_number d r) ≡ false
    → (is_init r.kind ≡ false) × (is_empty r.tail ≡ false) × (last_token r ≡ d.seq_pending)
unfolding wrong_init wrong_number
plain_taken d r p h = ground arith

plain-init_data : (seq : ℕ) (r : Reply) → is_init r.kind ≡ false → init_data seq r ≡ some none
unfolding init_data
plain-init_data seq r h = rw h refl

stash_data-Fits :
    (d : Device) (r : Reply)
    → (is_init r.kind ≡ false) × (is_empty r.tail ≡ false) × (last_token r ≡ d.seq_pending)
    → Fits (stash_data d r (some none))
unfolding stash_data copy_reply
stash_data-Fits d r (k, t, e) v = (k, (λ n. cc), e)

stash_reply-Follows : (d : Device) (r : Reply) → Follows d (stash_reply d r)
unfolding stash_reply
stash_reply-Follows d r =
    elim (Bool-cases (not d.cmd_waiting || (wrong_init d r || wrong_number d r))) [
      | inl e ↦ rw e (same-Steady d, λ p f. f)
      | inr e ↦ rw e (stash_data-Steady d r (init_data d.seq_pending r), λ p f. taken p e)
    ]
  where
    taken :
        IsPlain d
        → (not d.cmd_waiting || (wrong_init d r || wrong_number d r)) ≡ false
        → Fits (stash_data d r (init_data d.seq_pending r))
    taken p e =
        let fit = plain_taken d r p (ground arith) in
        rw (plain-init_data d.seq_pending r fit.0) (stash_data-Fits d r fit)

deliver-Follows : (d : Device) (r : Reply) → Follows d (deliver d r)
unfolding deliver
deliver-Follows d r = ground (arith, absorb_frame-Follows d r, stash_reply-Follows d r)

round-Follows : (d : Device) (s : Bytes) → Follows d (round d s).0
unfolding round
round-Follows d s = deliver-Follows d _

consume-Follows : (fuel : ℕ) (d : Device) (s : Bytes) → Follows d (consume fuel d s).0
consume-Follows zero d s = unfold consume in (same-Steady d, λ p f. f)
consume-Follows (suc fuel) d [] = unfold consume in (same-Steady d, λ p f. f)
consume-Follows (suc fuel) d (b ∷ s) =
    let rest = consume-Follows fuel (round d (b ∷ s)).0 (round d (b ∷ s)).1 in
    elim (parse_cases (b ∷ s)) [
      | inl e ↦ rw (consume_stop fuel d b s e) (same-Steady d, λ p f. f)
      | inr n ↦ rw (consume-round fuel d b s n) (Follows-trans (round-Follows d (b ∷ s)) rest)
    ]

reader_take-Follows : (d : Device) (got : Bytes) → Follows d (reader_take d got)
unfolding reader_take consume_accum
reader_take-Follows d got =
    let d' = record d { accum = d.accum ++ take (accum_cap - length d.accum) got } in
    let (h, k) = consume-Follows (suc (length d'.accum)) d' d'.accum in
    (
      record {
        waiting_eq = h.waiting_eq;
        next_eq = h.next_eq;
        pending_eq = h.pending_eq;
        verb_eq = h.verb_eq;
        stays_closed = h.stays_closed;
      },
      k,
    )

pop_now-Follows : (d : Device) (i : ℕ) → Follows d (pop_now d i).0
unfolding pop_now
pop_now-Follows d i = ground arith

step-Follows : (d : Device) (s : Step) → Follows d (step d s)
unfolding step
step-Follows d (arrives got) = reader_take-Follows d got
step-Follows d vanishes = ground arith
step-Follows d shuts = ground arith
step-Follows d (pops i) = pop_now-Follows d i
step-Follows d (flushes i) = ground arith

pub steps-Follows : (d : Device) (ss : List Step) → Follows d (steps d ss)
unfolding steps
steps-Follows d [] = (same-Steady d, λ p f. f)
steps-Follows d (s ∷ ss) = Follows-trans (step-Follows d s) (steps-Follows (step d s) ss)

pub await-Follows :
    (done : Device → Bool) (d : Device) (wakes : List (List Step)) (last : List Step)
    → Follows d (await done d wakes last)
unfolding await
await-Follows done d [] last =
    if_either (Follows d) (done d) _ _ (same-Steady d, λ p f. f) (steps-Follows d last)
await-Follows done d (w ∷ ws) last =
    if_either (Follows d) (done d) _ _ (same-Steady d, λ p f. f)
      (Follows-trans (steps-Follows d w) (await-Follows done (steps d w) ws last))
