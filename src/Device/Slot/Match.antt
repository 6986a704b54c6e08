-- ===== src/Device/Slot/Match.antt =====
-- Which replies a waiting command takes.
use openport_j.Base.{
  ℕ, ◌≤◌, ◌<◌, ◌≡◌, ◌≢◌, ◌⊎◌, inl, inr, refl, ap, ◌∙◌, true, false, List, [], ◌∷◌, none, some,
  Bytes, arith,
}
use openport_j.Proto.Reply.{Reply, is_init}
use openport_j.Device.State.{Device}
use openport_j.Device.Slot.{
  last_token, is_empty, wrong_init, wrong_number, copy_reply, token_data, raw_data, line_data,
  init_data, stash_data, stash_reply, is_info,
}

-- The reply may answer the waiting command: the command carries no number; or the reply is no
-- init reply and its last number is the command's; or an init reply answers an init, and its
-- last number is the command's, missing, or small enough for a key byte.
abbrev pub Answers : Device → Reply → Type 0
Answers d r =
    (d.seq_pending ≡ 0)
    ⊎ ((is_init r.kind ≡ false) × (r.tail ≢ []) × (last_token r ≡ d.seq_pending))
    ⊎ ((is_init r.kind ≡ true)
        × ((d.cmd_verb ≡ b'y') ⊎ (d.cmd_verb ≡ b'w'))
        × ((r.tail ≡ []) ⊎ (last_token r ≡ d.seq_pending) ⊎ (last_token r ≤ 255)))

pub is_empty_eq : (ts : List ℕ) → is_empty ts ≡ true → ts ≡ []
is_empty_eq [] h = refl
is_empty_eq (t ∷ ts) h = cc

pub not_empty : (ts : List ℕ) → ts ≢ [] → is_empty ts ≡ false
not_empty [] h = absurd (h refl)
not_empty (t ∷ ts) h = refl

token_data-other :
    (seq : ℕ) (r : Reply)
    → seq ≢ 0
    → last_token r ≢ seq
    → 255 < last_token r
    → token_data seq r ≡ none
unfolding token_data
token_data-other seq r n o h = ground arith

init_data-other :
    (seq : ℕ) (r : Reply)
    → seq ≢ 0
    → is_init r.kind ≡ true
    → is_empty r.tail ≡ false
    → last_token r ≢ seq
    → 255 < last_token r
    → init_data seq r ≡ none
unfolding init_data line_data raw_data
init_data-other seq r n k t o h = ground (arith, token_data-other seq r n o h)

stash_data-none : (d : Device) (r : Reply) → (stash_data d r none).reply_valid ≡ d.reply_valid
unfolding stash_data
stash_data-none d r = refl

-- A numbered command takes the reply that ends in its own number, of whatever kind but an `ari`
-- or an init reply; the slot then holds that reply's kind, fields and numbers.
pub stash_reply-taken :
    (d : Device) (r : Reply)
    → d.cmd_waiting ≡ true
    → d.seq_pending ≢ 0
    → is_init r.kind ≡ false
    → is_info r.kind ≡ false
    → r.tail ≢ []
    → last_token r ≡ d.seq_pending
    → ((stash_reply d r).reply_valid ≡ true)
      × ((stash_reply d r).reply.kind ≡ r.kind)
      × ((stash_reply d r).reply.error_code ≡ r.error_code)
      × ((stash_reply d r).reply.a ≡ r.a)
      × ((stash_reply d r).reply.b ≡ r.b)
unfolding stash_reply wrong_init wrong_number init_data stash_data copy_reply
stash_reply-taken d r w n k i t e = ground (arith, not_empty r.tail t)

-- A reply that ends in a number above 255 other than the pending one never sets the slot, and
-- neither does any reply while no command waits.
pub stash_reply-stale :
    (d : Device) (r : Reply)
    → (d.cmd_waiting ≡ false)
      ⊎ ((d.seq_pending ≢ 0)
          × (r.tail ≢ [])
          × (last_token r ≢ d.seq_pending)
          × (255 < last_token r))
    → (stash_reply d r).reply_valid ≡ d.reply_valid
unfolding stash_reply wrong_init wrong_number
stash_reply-stale d r (inl w) = rw w
stash_reply-stale d r (inr (n, t, o, h)) =
    ground (arith, not_empty r.tail t, init_data-other d.seq_pending r n, stash_data-none d r)

raw_data-other :
    (seq : ℕ) (r : Reply) (b : ℕ) (s : Bytes)
    → seq ≢ 0
    → is_init r.kind ≡ true
    → r.body ≡ some (b ∷ s)
    → is_empty r.tail ≡ false
    → last_token r ≢ seq
    → init_data seq r ≡ none
unfolding init_data raw_data
raw_data-other seq r b s n k e t o = ground arith

stash_reply_reached :
    (d : Device) (r : Reply)
    → d.cmd_waiting ≡ true
    → (d.cmd_verb ≡ b'y') ⊎ (d.cmd_verb ≡ b'w')
    → is_init r.kind ≡ true
    → stash_reply d r ≡ stash_data d r (init_data d.seq_pending r)
unfolding stash_reply wrong_init wrong_number
stash_reply_reached d r w verb k = ground arith

-- While an init command waits, an init reply with raw bytes and another command's number is
-- dropped only after it has replaced the reply in the slot: one that was there before and that
-- the command has not fetched yet is lost, and is handed out with the other reply's data.
pub stash_reply-overwritten :
    (d : Device) (r : Reply) (b : ℕ) (s : Bytes)
    → d.cmd_waiting ≡ true
    → d.reply_valid ≡ true
    → (d.cmd_verb ≡ b'y') ⊎ (d.cmd_verb ≡ b'w')
    → d.seq_pending ≢ 0
    → is_init r.kind ≡ true
    → r.body ≡ some (b ∷ s)
    → r.tail ≢ []
    → last_token r ≢ d.seq_pending
    → ((stash_reply d r).reply_valid ≡ true) × ((stash_reply d r).reply.body ≡ some (b ∷ s))
stash_reply-overwritten d r b s w v verb n k e t o =
    let eq : stash_reply d r ≡ stash_data d r none =
      stash_reply_reached d r w verb k
      ∙ ap (stash_data d r) (raw_data-other d.seq_pending r b s n k e (not_empty r.tail t) o) in
    rw eq (unfold stash_data copy_reply in (v, e))
