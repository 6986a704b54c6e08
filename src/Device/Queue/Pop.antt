-- ===== src/Device/Queue/Pop.antt =====
-- Taking the oldest message out of the byte ring of a channel.
use openport_j.Base.{
  ℕ, ◌+◌, ◌-◌, ◌%◌, ◌≡◌, refl, sym, ap, ◌∙◌, List, ◌∷◌, ◌++◌, append_assoc, Bytes, arith, length,
  length-append, append_inj, drop,
}
use openport_j.Device.Message.{Message}
use openport_j.Device.Ring.{rxq_bytes}
use openport_j.Device.Ring.Window.{window, window-add, length-window, ring_get-window}
use openport_j.Device.Queue.{
  Channel, header_size, header, pop_sized, queue_pop, read_message, rd_le32,
}
use openport_j.Device.Queue.Header.{length-header, read_message-header, size-header}
use openport_j.Device.Queue.Fifo.{Holds, stored, stored_all, length-stored}

-- What is left in the ring behind a message with a body of `n` bytes.
abbrev rest : Channel → ℕ → ℕ
rest c n = c.rq_used - (header_size + n)

-- Where the body of the oldest message starts.
abbrev body_at : Channel → ℕ
body_at c = (c.rq_head + header_size) % rxq_bytes

-- The channel behind the oldest message.
abbrev skipped : Channel → ℕ → Channel
skipped c n = record c {
  rq_head = (body_at c + n) % rxq_bytes;
  rq_used = rest c n;
  qcount = c.qcount - 1;
}

module _ (c : Channel) (m : Message) (q : List Message) (h : Holds c (m ∷ q)) where
  used_split : c.rq_used ≡ header_size + length m.body + rest c (length m.body)
  used_split = omega (
    arith,
    ap length h.contents,
    length-window c.rq c.rq_head c.rq_used,
    length-append (stored m) (stored_all q),
    length-stored m,
  )

  -- The ring's bytes start with the header of the oldest message.
  header_cut :
      (window c.rq c.rq_head header_size ≡ header m (length m.body))
      × (window c.rq (body_at c) (length m.body + rest c (length m.body)) ≡ m.body ++ stored_all q)
  header_cut =
      append_inj (window c.rq c.rq_head header_size) (header m (length m.body)) whole
        (length-window c.rq c.rq_head header_size ∙ sym (length-header m (length m.body)))
    where
      whole :
          window c.rq c.rq_head header_size
            ++ window c.rq (body_at c) (length m.body + rest c (length m.body))
          ≡ header m (length m.body) ++ (m.body ++ stored_all q)
      whole =
          sym (
            window-add c.rq c.rq_head header_size (length m.body + rest c (length m.body))
              h.head_in)
          ∙ ap (window c.rq c.rq_head) {y = c.rq_used} (omega (arith, used_split))
          ∙ h.contents
          ∙ append_assoc (header m (length m.body)) m.body (stored_all q)

  -- Behind the header come its body and the later messages.
  body_cut :
      (window c.rq (body_at c) (length m.body) ≡ m.body)
      × (window c.rq ((body_at c + length m.body) % rxq_bytes) (rest c (length m.body))
          ≡ stored_all q)
  body_cut =
      append_inj (window c.rq (body_at c) (length m.body)) m.body
        (sym (window-add c.rq (body_at c) (length m.body) (rest c (length m.body)) (omega arith))
          ∙ header_cut.1)
        (length-window c.rq (body_at c) (length m.body))

  queue_pop-skipped : queue_pop c ≡ (m, skipped c (length m.body))
  unfolding queue_pop pop_sized
  queue_pop-skipped =
      ap (λ (g : Bytes × ℕ). pop_sized c g.0 g.1 (rd_le32 (drop 16 g.0)))
        (ring_get-window c.rq c.rq_head header_size h.head_in (omega (arith, used_split))
          ∙ ap (λ s. (s, body_at c)) header_cut.0)
      ∙ ap (pop_sized c (header m (length m.body)) (body_at c)) (size-header m h.words.0)
      ∙ ap
          (λ (g : Bytes × ℕ). (
            read_message (header m (length m.body)) g.0,
            record c { rq_head = g.1; rq_used = rest c (length m.body); qcount = c.qcount - 1 },
          ))
          (ring_get-window c.rq (body_at c) (length m.body) (omega arith)
              (omega (arith, used_split, h.used_le))
            ∙ ap (λ s. (s, (body_at c + length m.body) % rxq_bytes)) body_cut.0)
      ∙ ap (λ n. (n, skipped c (length m.body))) (read_message-header m h.words.0)

  skipped-Holds : Holds (skipped c (length m.body)) q
  skipped-Holds = record {
    alloc = h.alloc;
    head_in = omega arith;
    tail_at = omega (arith, h.tail_at, used_split);
    used_le = omega arith;
    counted = omega (arith, h.counted);
    contents = body_cut.1;
    words = h.words.1;
  }

pub queue_pop-Holds :
    (c : Channel) (m : Message) (q : List Message)
    → Holds c (m ∷ q)
    → ((queue_pop c).0 ≡ m) × Holds (queue_pop c).1 q
queue_pop-Holds c m q h = rw (queue_pop-skipped c m q h) (refl, skipped-Holds c m q h)
