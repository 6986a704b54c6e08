-- ===== src/Device/Absorb/Isolation.antt =====
-- What `absorb_frame` of src/op_device.c changes on which channel.
use openport_j.Base.{
  ◌∙◌, if_either, ℕ, ◌-◌, ◌≤◌, ◌≡◌, Bool, true, false, arith, ◌==◌, length, length-append,
  length-take, take, drop,
}
use openport_j.Codes.{can, msg_data_max}
use openport_j.Proto.Reply.{Reply}
use openport_j.Device.Protocol.{protocol_base}
use openport_j.Device.Message.{Message}
use openport_j.Device.Queue.{Channel, queue_push, append_stored}
use openport_j.Device.State.{Device}
use openport_j.Device.Absorb.{
  frame_data, queue_frame, indicate, is_ext, announce, begin_partial, extend_partial, chunk_skip,
  started, finish_chunk, fold_chunk, absorb_open, is_tx_ind, tx_ind_status, can_status,
  is_announcement,
}

-- What an operation on a channel leaves as it was.
pub record Keeps (c c' : Channel) : Type 0 where
  pub open_eq : c'.is_open ≡ c.is_open
  pub protocol_eq : c'.protocol ≡ c.protocol
  pub alloc_eq : c'.rq_alloc ≡ c.rq_alloc
  pub periodic_eq : c'.periodic ≡ c.periodic

queue_push-Keeps : (c : Channel) (m : Message) → Keeps c (queue_push c m)
unfolding queue_push append_stored
queue_push-Keeps c m = ground arith

queue_push-partial :
    (c : Channel) (m : Message)
    → ((queue_push c m).partial ≡ c.partial) × ((queue_push c m).partial_active ≡ c.partial_active)
unfolding queue_push append_stored
queue_push-partial c m = ground arith

pub Keeps-trans : {c c' c'' : Channel} → Keeps c c' → Keeps c' c'' → Keeps c c''
Keeps-trans h k = record {
  open_eq = k.open_eq ∙ h.open_eq;
  protocol_eq = k.protocol_eq ∙ h.protocol_eq;
  alloc_eq = k.alloc_eq ∙ h.alloc_eq;
  periodic_eq = k.periodic_eq ∙ h.periodic_eq;
}

-- The message in reassembly is within the 4128 bytes of its buffer.
abbrev pub IsBounded : Channel → Type 0
IsBounded c = length c.partial.body ≤ msg_data_max

pub queue_frame-Keeps :
    (c : Channel) (p : ℕ) (r : Reply) (st : ℕ) (ind keep : Bool)
    → Keeps c (queue_frame c p r st ind keep)
unfolding queue_frame
queue_frame-Keeps c p r st ind keep = queue_push-Keeps c _

pub queue_frame-partial :
    (c : Channel) (p : ℕ) (r : Reply) (st : ℕ) (ind keep : Bool)
    → (queue_frame c p r st ind keep).partial ≡ c.partial
unfolding queue_frame
queue_frame-partial c p r st ind keep = (queue_push-partial c _).0

-- An announcement queues one indication on a channel whose reassembly is dropped.
announce-Keeps :
    (c : Channel) (base : ℕ) (r : Reply)
    → Keeps c (announce c base r) × ((announce c base r).partial ≡ c.partial)
unfolding announce indicate
announce-Keeps c base r =
    if_either (λ x. Keeps c x × (x.partial ≡ c.partial)) _ _ _
      (
        Keeps-trans (ground arith) (queue_frame-Keeps c' c.protocol r _ _ _),
        queue_frame-partial c' c.protocol r _ _ _,
      )
      (
        Keeps-trans (ground arith) (queue_frame-Keeps c' c.protocol r _ _ _),
        queue_frame-partial c' c.protocol r _ _ _,
      )
  where
    c' : Channel
    c' = record c { partial_active = false; ext_announced = is_ext base r }

started-Keeps : (c : Channel) → Keeps c (started c)
unfolding begin_partial
started-Keeps c = ground arith

started-IsBounded : (c : Channel) → IsBounded c → IsBounded (started c)
unfolding begin_partial
started-IsBounded c h = ground arith

extend_partial-le :
    (p : Message) (base : ℕ) (r : Reply) (skip : ℕ)
    → length p.body ≤ msg_data_max
    → length (extend_partial p base r skip).body ≤ msg_data_max
unfolding extend_partial
extend_partial-le p base r skip h = omega (
  arith,
  length-append p.body (take (msg_data_max - length p.body) (drop skip (frame_data r))),
  length-take (msg_data_max - length p.body) (drop skip (frame_data r)),
)

with_partial-Keeps :
    (c c' : Channel) (p : Message)
    → Keeps c c'
    → length p.body ≤ msg_data_max
    → let pushed = record (queue_push (record c' { partial = p }) p) { partial_active = false } in
      (Keeps c pushed × IsBounded pushed)
      × (Keeps c (record c' { partial = p }) × IsBounded (record c' { partial = p }))
with_partial-Keeps c c' p k h = ground (
  arith,
  queue_push-Keeps (record c' { partial = p }) p,
  queue_push-partial (record c' { partial = p }) p,
)

fold_chunk-Keeps :
    (c : Channel) (base : ℕ) (r : Reply)
    → IsBounded c
    → Keeps c (fold_chunk c base r) × IsBounded (fold_chunk c base r)
unfolding fold_chunk finish_chunk
fold_chunk-Keeps c base r h = if_either (λ x. Keeps c x × IsBounded x) _ _ _ both.0 both.1
  where
    p : Message
    p = extend_partial (started c).partial base r (chunk_skip c base r)

    both :
        let pushed = record (queue_push (record (started c) { partial = p }) p) {
          partial_active = false;
        } in
        (Keeps c pushed × IsBounded pushed)
        × (Keeps c (record (started c) { partial = p })
            × IsBounded (record (started c) { partial = p }))
    both =
        with_partial-Keeps c (started c) p (started-Keeps c)
          (extend_partial-le (started c).partial base r _ (started-IsBounded c h))

-- Taking a frame in leaves the channel open, with its protocol, its ring and its periodic
-- messages, and the message in reassembly stays within its 4128 bytes.
pub absorb_open-Keeps :
    (c : Channel) (r : Reply)
    → IsBounded c
    → Keeps c (absorb_open c r) × IsBounded (absorb_open c r)
unfolding absorb_open indicate
absorb_open-Keeps c r h =
    if_either P (is_tx_ind base r) _ _ (framed (tx_ind_status base r) true true) (
      if_either P (base == can) _ _ (framed (can_status base r) false true)
        (if_either P (is_announcement r) _ _ announced (fold_chunk-Keeps c base r h)))
  where
    base : ℕ
    base = protocol_base c.protocol

    P : Channel → Type 0
    P x = Keeps c x × IsBounded x

    framed : (st : ℕ) (ind keep : Bool) → P (queue_frame c c.protocol r st ind keep)
    framed st ind keep =
        (queue_frame-Keeps c _ r st ind keep, rw (queue_frame-partial c c.protocol r st ind keep) h)

    announced : P (announce c base r)
    announced = ((announce-Keeps c base r).0, rw ((announce-Keeps c base r).1) h)
