-- ===== src/Device/Queue/Fifo.antt =====
-- The byte ring of a channel against the queue of messages that it stands for.
use openport_j.Base.{
  ℕ, ◌+◌, ◌%◌, ◌≤◌, ◌<◌, ◌≡◌, ◌^◌, refl, sym, ap, ◌∙◌, true, List, [], ◌∷◌, ◌++◌, append_assoc,
  append-nil, Bytes, arith, length, length-append, take,
}
use openport_j.Base.All.{All, All-append}
use openport_j.Device.Message.{Message}
use openport_j.Device.Ring.{Memory, rxq_bytes, ring_put}
use openport_j.Device.Ring.Window.{window, ring_put-window}
use openport_j.Device.Queue.{Channel, header_size, header, stored_size, append_stored, queue_push}
use openport_j.Device.Queue.Header.{IsU32, length-header}

-- What a message takes in the ring: its header and its data.
abbrev pub stored : Message → Bytes
stored m = header m (length m.body) ++ m.body

abbrev pub stored_all : List Message → Bytes
stored_all [] = []
stored_all (m ∷ q) = stored m ++ stored_all q

-- The channel's ring holds exactly the messages of `q`, oldest first.
pub record Holds (c : Channel) (q : List Message) : Type 0 where
  pub alloc : c.rq_alloc ≡ true
  pub head_in : c.rq_head < rxq_bytes
  pub tail_at : c.rq_tail ≡ (c.rq_head + c.rq_used) % rxq_bytes
  pub used_le : c.rq_used ≤ rxq_bytes
  pub counted : c.qcount ≡ length q
  pub contents : window c.rq c.rq_head c.rq_used ≡ stored_all q
  pub words : All IsU32 q

stored_all-append :
    (q : List Message) (m : Message) → stored_all (q ++ (m ∷ [])) ≡ stored_all q ++ stored m
stored_all-append [] m = append-nil (stored m)
stored_all-append (n ∷ q) m =
    ap (λ s. stored n ++ s) (stored_all-append q m)
    ∙ sym (append_assoc (stored n) (stored_all q) (stored m))

pub length-stored : (m : Message) → length (stored m) ≡ header_size + length m.body
length-stored m =
    omega (arith, length-append (header m (length m.body)) m.body, length-header m (length m.body))

take_all : (s : Bytes) → take (length s) s ≡ s
take_all [] = refl
take_all (b ∷ s) = ap (λ r. b ∷ r) (take_all s)

-- Where there is room, the message goes to the end of the queue.
append_stored-Holds :
    (c : Channel) (q : List Message) (m : Message)
    → Holds c q
    → IsU32 m
    → c.rq_used + header_size + length m.body ≤ rxq_bytes
    → Holds (append_stored c m (length m.body)) (q ++ (m ∷ []))
unfolding append_stored
append_stored-Holds c q m h v room = record {
  alloc = h.alloc;
  head_in = h.head_in;
  tail_at = put2.1 ∙ ap (λ k. (c.rq_head + k) % rxq_bytes) sizes;
  used_le = omega arith;
  counted = omega (arith, length-append q (m ∷ []), h.counted);
  contents =
      ap (window rq2 c.rq_head) (sym sizes)
      ∙ put2.0
      ∙ ap (λ s. s ++ take (length m.body) m.body) (put1.0 ∙ ap (λ s. s ++ hd) h.contents)
      ∙ ap (λ s. (stored_all q ++ hd) ++ s) (take_all m.body)
      ∙ append_assoc (stored_all q) hd m.body
      ∙ sym (stored_all-append q m);
  words = All-append IsU32 q (m ∷ []) h.words (v, tt);
}
  where
    hd : Bytes
    hd = header m (length m.body)

    put1 :
        (window (ring_put c.rq c.rq_tail hd).0 c.rq_head (c.rq_used + length hd)
          ≡ window c.rq c.rq_head c.rq_used ++ hd)
        × ((ring_put c.rq c.rq_tail hd).1 ≡ (c.rq_head + (c.rq_used + length hd)) % rxq_bytes)
    put1 =
        ring_put-window c.rq c.rq_head c.rq_used c.rq_tail hd h.head_in
          (omega (arith, length-header m (length m.body))) h.tail_at

    rq1 : Memory
    rq1 = (ring_put c.rq c.rq_tail hd).0

    tail1 : ℕ
    tail1 = (ring_put c.rq c.rq_tail hd).1

    rq2 : Memory
    rq2 = (ring_put rq1 tail1 (take (length m.body) m.body)).0

    sizes :
        c.rq_used + length hd + length (take (length m.body) m.body)
        ≡ c.rq_used + (header_size + length m.body)
    sizes = omega (arith, length-header m (length m.body), ap length (take_all m.body))

    put2 :
        (window rq2 c.rq_head (c.rq_used + length hd + length (take (length m.body) m.body))
          ≡ window rq1 c.rq_head (c.rq_used + length hd) ++ take (length m.body) m.body)
        × ((ring_put rq1 tail1 (take (length m.body) m.body)).1
            ≡ (c.rq_head + (c.rq_used + length hd + length (take (length m.body) m.body)))
              % rxq_bytes)
    put2 =
        ring_put-window rq1 c.rq_head (c.rq_used + length hd) tail1 (take (length m.body) m.body)
          h.head_in (omega (arith, sizes)) put1.1

stored_size_fits : (m : Message) → IsU32 m → stored_size m ≡ length m.body
unfolding stored_size
stored_size_fits m v = ground arith

queue_push_room :
    (c : Channel) (m : Message)
    → c.rq_alloc ≡ true
    → IsU32 m
    → c.rq_used + header_size + length m.body ≤ rxq_bytes
    → queue_push c m ≡ append_stored c m (length m.body)
unfolding queue_push
queue_push_room c m a v room = ground (arith, stored_size_fits m v)

queue_push_full :
    (c : Channel) (m : Message)
    → IsU32 m
    → rxq_bytes < c.rq_used + header_size + length m.body
    → queue_push c m ≡ record c { dropped = (c.dropped + 1) % 2 ^ 32 }
unfolding queue_push
queue_push_full c m v full = ground (arith, stored_size_fits m v)

pub dropped-Holds :
    (c : Channel) (q : List Message) (n : ℕ) → Holds c q → Holds (record c { dropped = n }) q
dropped-Holds c q n h = record {
  alloc = h.alloc;
  head_in = h.head_in;
  tail_at = h.tail_at;
  used_le = h.used_le;
  counted = h.counted;
  contents = h.contents;
  words = h.words;
}

-- `queue_push` on a valid queue: where the header and the data fit into the ring's free space the
-- message becomes the newest of the queue and no loss is counted; where they do not fit, the
-- queue stays as it is and the loss count goes up by one (modulo 2^32).
pub queue_push-Holds :
    (c : Channel) (q : List Message) (m : Message)
    → Holds c q
    → IsU32 m
    → (c.rq_used + header_size + length m.body ≤ rxq_bytes
        → Holds (queue_push c m) (q ++ (m ∷ [])) × ((queue_push c m).dropped ≡ c.dropped))
      × (rxq_bytes < c.rq_used + header_size + length m.body
          → Holds (queue_push c m) q × ((queue_push c m).dropped ≡ (c.dropped + 1) % 2 ^ 32))
queue_push-Holds c q m h v = (
  λ room.
      rw (queue_push_room c m h.alloc v room)
        (append_stored-Holds c q m h v room, unfold append_stored in refl),
  λ full. rw (queue_push_full c m v full) (dropped-Holds c q _ h, refl),
)
