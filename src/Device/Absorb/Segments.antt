-- ===== src/Device/Absorb/Segments.antt =====
-- A segmented ISO 15765 message, chunk by chunk.
use openport_j.Base.{
  ℕ, ◌-◌, ◌≤◌, ◌≡◌, refl, ap, ap₂, ◌∙◌, Bool, true, false, List, [], ◌∷◌, ◌++◌, append_assoc,
  append-nil, Bytes, arith, if◌then◌else◌, has_bit, length, take, drop, take-append_fill,
}
use openport_j.Base.All.{All}
use openport_j.Codes.{iso15765, msg_data_max, iso15765_addr_type}
use openport_j.Proto.Reply.{Reply}
use openport_j.Proto.Decode.{sts_start, sts_end, sts_tx_ind, sts_ext_addr}
use openport_j.Device.Protocol.{protocol_base}
use openport_j.Device.Message.{Message, empty_message}
use openport_j.Device.Queue.{Channel, queue_push}
use openport_j.Device.Absorb.{
  frame_data, is_ext, begin_partial, address_size, chunk_skip, extend_partial, started,
  finish_chunk, fold_chunk, absorb_open,
}

-- A frame with data of a message whose address takes four bytes; `last` says whether it ends it.
pub record IsChunk (last : Bool) (r : Reply) : Type 0 where
  pub no_ind : has_bit r.status sts_tx_ind ≡ false
  pub no_start : has_bit r.status sts_start ≡ false
  pub ends : has_bit r.status sts_end ≡ last
  pub no_ext : has_bit r.status sts_ext_addr ≡ false
  pub addressed : 4 ≤ length (frame_data r)

-- A channel in the middle of a message.
abbrev middle : Channel → Message → Channel
middle c p = record c { partial = p; partial_active = true; ext_announced = false }

-- What the channel becomes when the message is complete.
abbrev pub completed : Channel → Message → Channel
completed c m = record (queue_push (middle c m) m) { partial_active = false }

pub absorb_all : Channel → List Reply → Channel
absorb_all c [] = c
absorb_all c (r ∷ rs) = absorb_all (absorb_open c r) rs

-- The data behind the address of each chunk.
abbrev pub payloads : List Reply → Bytes
payloads [] = []
payloads (r ∷ rs) = drop 4 (frame_data r) ++ payloads rs

module _ (c : Channel) (iso : protocol_base c.protocol ≡ iso15765) where
  -- The partial message holds what came so far, cut at 4128 bytes.
  record Gathered (p : Message) (s : Bytes) : Type 0 where
    bytes : p.body ≡ take msg_data_max s
    whose : p.protocol_id ≡ c.protocol
    no_ext : has_bit p.rx_status iso15765_addr_type ≡ false
    index : p.extra_data_index ≡ length p.body

  absorb_open_fold :
      (d : Channel) (r : Reply) (last : Bool)
      → d.protocol ≡ c.protocol
      → IsChunk last r
      → absorb_open d r ≡ fold_chunk d iso15765 r
  unfolding absorb_open
  absorb_open_fold d r last e k = ground (arith, ap protocol_base e, iso)

  chunk_skip_later :
      (p : Message) (r : Reply) (last : Bool)
      → IsChunk last r
      → has_bit p.rx_status iso15765_addr_type ≡ false
      → chunk_skip (middle c p) iso15765 r ≡ 4
  unfolding chunk_skip address_size is_ext
  chunk_skip_later p r last k e = ground arith

  fold_chunk_later :
      (p : Message) (r : Reply) (last : Bool)
      → IsChunk last r
      → chunk_skip (middle c p) iso15765 r ≡ 4
      → fold_chunk (middle c p) iso15765 r ≡ (
          if last
          then completed c (extend_partial p iso15765 r 4)
          else middle c (extend_partial p iso15765 r 4))
  unfolding fold_chunk finish_chunk
  fold_chunk_later p r true k e = rw (k.ends, e)
  fold_chunk_later p r false k e = rw (k.ends, e)

  absorb_chunk :
      (p : Message) (r : Reply) (last : Bool)
      → IsChunk last r
      → has_bit p.rx_status iso15765_addr_type ≡ false
      → absorb_open (middle c p) r ≡ (
          if last
          then completed c (extend_partial p iso15765 r 4)
          else middle c (extend_partial p iso15765 r 4))
  absorb_chunk p r last k e =
      absorb_open_fold (middle c p) r last refl k
      ∙ fold_chunk_later p r last k (chunk_skip_later p r last k e)

  abbrev blank_message : Message
  blank_message = record empty_message { protocol_id = c.protocol }

  start_first :
      c.partial_active ≡ false → c.ext_announced ≡ false → started c ≡ middle c blank_message
  unfolding begin_partial
  start_first a e = ground arith

  chunk_skip_first : (r : Reply) → c.partial_active ≡ false → chunk_skip c iso15765 r ≡ 0
  unfolding chunk_skip
  chunk_skip_first r a = ground arith

  absorb_first :
      (r : Reply)
      → IsChunk false r
      → c.partial_active ≡ false
      → c.ext_announced ≡ false
      → absorb_open c r ≡ middle c (extend_partial blank_message iso15765 r 0)
  unfolding fold_chunk finish_chunk
  absorb_first r k a e =
      absorb_open_fold c r false refl k
      ∙ ap₂ (λ d n. finish_chunk d (extend_partial d.partial iso15765 r n) r) (start_first a e)
          (chunk_skip_first r a)
      ∙ rw (k.ends)

  extend_partial-Gathered :
      (p : Message) (s : Bytes) (r : Reply) (last : Bool) (skip : ℕ)
      → IsChunk last r
      → Gathered p s
      → Gathered (extend_partial p iso15765 r skip) (s ++ drop skip (frame_data r))
  unfolding extend_partial is_ext
  extend_partial-Gathered p s r last skip k g = record {
    bytes =
        ap (λ b. b ++ take (msg_data_max - length b) (drop skip (frame_data r))) g.bytes
        ∙ take-append_fill msg_data_max s (drop skip (frame_data r));
    whose = g.whose;
    no_ext = ground (arith, g.no_ext);
    index = refl;
  }

  absorb_middle :
      (rs : List Reply) (p : Message) (s : Bytes)
      → All (IsChunk false) rs
      → Gathered p s
      → (p' : Message) × (absorb_all (middle c p) rs ≡ middle c p') × Gathered p' (s ++ payloads rs)
  unfolding absorb_all
  absorb_middle [] p s k g = (p, refl, rw append-nil g)
  absorb_middle (r ∷ rs) p s (k, ks) g =
      let (p', e, g') =
        absorb_middle rs (extend_partial p iso15765 r 4) (s ++ drop 4 (frame_data r)) ks
          (extend_partial-Gathered p s r false 4 k g) in
      (p', ap (λ d. absorb_all d rs) (absorb_chunk p r false k g.no_ext) ∙ e, rw append_assoc at g')

  blank-Gathered : Gathered blank_message []
  blank-Gathered = record { bytes = refl; whose = refl; no_ext = ground arith; index = refl }

  absorb_all-append :
      (d : Channel) (rs : List Reply) (r : Reply)
      → absorb_all d (rs ++ (r ∷ [])) ≡ absorb_open (absorb_all d rs) r
  unfolding absorb_all
  absorb_all-append d [] r = refl
  absorb_all-append d (q ∷ rs) r = absorb_all-append (absorb_open d q) rs r

  absorb_all_first :
      (first : Reply) (rs : List Reply)
      → IsChunk false first
      → c.partial_active ≡ false
      → c.ext_announced ≡ false
      → absorb_all c (first ∷ rs)
        ≡ absorb_all (middle c (extend_partial blank_message iso15765 first 0)) rs
  unfolding absorb_all
  absorb_all_first first rs k a e = ap (λ d. absorb_all d rs) (absorb_first first k a e)

  -- On an ISO 15765 channel that is not in the middle of a message, a first chunk, any number of
  -- middle ones and a last one make exactly one message, queued when the last one arrives: the
  -- channel's protocol, the data of the first chunk and of the others behind their four address
  -- bytes, cut at 4128 bytes, and the data's length as ExtraDataIndex. The reassembly is then over.
  pub segments-completed :
      (first : Reply) (rs : List Reply) (final : Reply)
      → c.partial_active ≡ false
      → c.ext_announced ≡ false
      → IsChunk false first
      → All (IsChunk false) rs
      → IsChunk true final
      → (m : Message) × (absorb_all c (first ∷ (rs ++ (final ∷ []))) ≡ completed c m)
        × (m.body
            ≡ take msg_data_max (frame_data first ++ (payloads rs ++ drop 4 (frame_data final))))
        × (m.protocol_id ≡ c.protocol)
        × (m.extra_data_index ≡ length m.body)
  segments-completed first rs final a e kf ks kl =
      let p1 = extend_partial blank_message iso15765 first 0 in
      let g1 = extend_partial-Gathered blank_message [] first false 0 kf blank-Gathered in
      let (p2, e2, g2) = absorb_middle rs p1 (frame_data first) ks g1 in
      let g3 = extend_partial-Gathered p2 (frame_data first ++ payloads rs) final true 4 kl g2 in
      (
        extend_partial p2 iso15765 final 4,
        absorb_all-append c (first ∷ rs) final
            ∙ ap (λ d. absorb_open d final) (absorb_all_first first rs kf a e ∙ e2)
            ∙ absorb_chunk p2 final true kl g2.no_ext,
        g3.bytes ∙ ap (take msg_data_max) (append_assoc (frame_data first) (payloads rs) _),
        g3.whose,
        g3.index,
      )
