-- ===== src/Device/Exchange/Outcomes.antt =====
-- What a command leaves behind and hands out, on every path of `cmd_exchange`.
use openport_j.Base.{
  ℕ, ◌+◌, ◌≡◌, ◌≢◌, ◌⊎◌, inl, inr, refl, sym, ◌∙◌, Bool, true, false, not, ◌&&◌, ◌||◌, [], ◌∷◌,
  ◌++◌, none, some, Bytes, arith, if_cases, length, Bool-cases, get_or, ◌-◌,
}
use openport_j.Codes.{OpStatus, fine, timeout, no_device, param, is_fine}
use openport_j.Proto.Reply.{Reply, is_init}
use openport_j.Proto.Print.{spaced}
use openport_j.Proto.Command.{cmd_is_numbered, cmd_number}
use openport_j.Device.State.{Device}
use openport_j.Device.Slot.{last_token, is_empty}
use openport_j.Device.World.{steps, await}
use openport_j.Device.World.Steady.{
  Fits, IsPlain, Follows, steps-Follows, await-Follows, Follows-trans,
}
use openport_j.Device.Exchange.Cases.{
  exchange_open_cases, cmd_exchange_cases, numbered_line, counted,
}
use openport_j.Device.Exchange.{
  Timing, Outcome, refused, numbered_size, claim, answered, collect, transmit, cmd_exchange,
}

-- No command waits any more.
abbrev pub IsReleased : Outcome → Type 0
IsReleased o = o.device.cmd_waiting ≡ false

collect-IsReleased : (d : Device) (bytes : Bytes) → IsReleased (collect d bytes)
unfolding collect
collect-IsReleased d bytes = ground arith

transmit-IsReleased :
    (d : Device) (line payload : Bytes) (wait : Bool) (t : Timing)
    → IsReleased (transmit d line payload wait t)
unfolding transmit
transmit-IsReleased d line payload wait t =
    ground (
      arith,
      collect-IsReleased (await answered (steps d t.during) t.wakes t.last) (line ++ payload),
    )

-- Where no command waits, whatever happens around a command, the slot is nobody's when it
-- returns: a reply that comes later finds no command waiting.
pub cmd_exchange-IsReleased :
    (d : Device) (line payload : Bytes) (wait : Bool) (t : Timing)
    → d.cmd_waiting ≡ false
    → IsReleased (cmd_exchange d line payload wait t)
cmd_exchange-IsReleased d line payload wait t h =
    cmd_exchange_cases line payload wait t IsReleased d h (λ _. h)
      (λ _ _ _.
        exchange_open_cases line payload wait t IsReleased (steps d t.before)
          (λ _ _. (steps-Follows d t.before).0.waiting_eq ∙ h)
          (λ _ _. transmit-IsReleased _ _ payload wait t)
          (λ _. transmit-IsReleased _ line payload wait t))

-- The command's verb survives its numbering; in the shortest line it becomes a space.
verb-cmd_number :
    (line : Bytes) (out_sz seq : ℕ)
    → is_empty (cmd_number line out_sz seq) ≡ false
    → (get_or (cmd_number line out_sz seq) 2 0 ≡ get_or line 2 0)
      ⊎ (get_or (cmd_number line out_sz seq) 2 0 ≡ b' ')
unfolding cmd_number spaced
verb-cmd_number [] out_sz seq h = ground arith
verb-cmd_number (a ∷ []) out_sz seq h = ground arith
verb-cmd_number (a ∷ b ∷ []) out_sz seq h = ground arith
verb-cmd_number (a ∷ b ∷ c ∷ []) out_sz seq h = ground arith
verb-cmd_number (a ∷ b ∷ c ∷ e ∷ []) out_sz seq h = ground arith
verb-cmd_number (a ∷ b ∷ c ∷ e ∷ f ∷ s) out_sz seq h =
    let cut : length (a ∷ b ∷ c ∷ e ∷ f ∷ s) - 2 ≡ 3 + length s = omega arith in ground (arith, cut)

-- A reply to the command of this number.
abbrev pub IsReplyTo : ℕ → Reply → Type 0
IsReplyTo seq r = (is_init r.kind ≡ false) × (r.tail ≢ []) × (last_token r ≡ seq)

collect-IsReplyTo :
    (d : Device) (bytes : Bytes)
    → Fits d
    → (collect d bytes).status ≡ fine
    → (r : Reply) × ((collect d bytes).reply ≡ some r) × IsReplyTo d.seq_pending r
unfolding collect
collect-IsReplyTo d bytes f e = elim (Bool-cases d.reply_valid) [
  | inl v ↦ (d.reply, rw v refl, f v)
  | inr v ↦ absurd (ground arith)
]

transmit-IsReplyTo :
    (d : Device) (line payload : Bytes) (t : Timing)
    → IsPlain d
    → d.reply_valid ≡ false
    → (transmit d line payload true t).status ≡ fine
    → (r : Reply) × ((transmit d line payload true t).reply ≡ some r) × IsReplyTo d.seq_pending r
unfolding transmit
transmit-IsReplyTo d line payload t plain empty =
    if_cases P (is_fine t.written && true) _ _
      (λ _ e.
        let (r, given, fits) = collect-IsReplyTo ended (line ++ payload) fit e in
        (r, given, (fits.0, fits.1, fits.2 ∙ ahead.0.pending_eq)))
      (λ off e. absurd (unsent e off))
  where
    P : Outcome → Type 0
    P o = o.status ≡ fine → (r : Reply) × (o.reply ≡ some r) × IsReplyTo d.seq_pending r

    ended : Device
    ended = await answered (steps d t.during) t.wakes t.last

    ahead : Follows d ended
    ahead =
        Follows-trans (steps-Follows d t.during)
          (await-Follows answered (steps d t.during) t.wakes t.last)

    fit : Fits ended
    fit = ahead.1 plain (λ v. absurd (ground arith))

    unsent : t.written ≡ fine → (is_fine t.written && true) ≡ false → ⊥
    unsent e off = let sent : is_fine t.written ≡ true = rw e refl in ground arith

-- A numbered command other than an init, of a session whose next number is not 0, that returns
-- OP_OK hands out a reply that ends in its own number, whatever replies of other commands, frames and garbage arrive meanwhile, however
-- the bytes are cut into reads, and whatever other threads do with the queues.
pub cmd_exchange-IsReplyTo :
    (d : Device) (line payload : Bytes) (t : Timing)
    → cmd_is_numbered line ≡ true
    → get_or line 2 0 ≢ b'y'
    → get_or line 2 0 ≢ b'w'
    → d.seq_next ≢ 0
    → (cmd_exchange d line payload true t).status ≡ fine
    → (r : Reply) × ((cmd_exchange d line payload true t).reply ≡ some r) × IsReplyTo d.seq_next r
cmd_exchange-IsReplyTo d line payload t numbered y w n =
    cmd_exchange_cases line payload true t P d refusal (λ _ e. cc)
      (λ _ _ _.
        exchange_open_cases line payload true t P d' (λ _ _ e. cc) (λ _ fits. kept fits)
          (λ bare. absurd (ground arith)))
  where
    P : Outcome → Type 0
    P o = o.status ≡ fine → (r : Reply) × (o.reply ≡ some r) × IsReplyTo d.seq_next r

    refusal : P (refused d param)
    refusal e = cc

    d' : Device
    d' = steps d t.before

    same : d'.seq_next ≡ d.seq_next
    same = (steps-Follows d t.before).0.next_eq

    claimed : Device
    claimed = claim (counted d') (numbered_line d' line) d'.seq_next true

    kept :
        is_empty (numbered_line d' line) ≡ false
        → P (transmit claimed (numbered_line d' line) payload true t)
    kept fits e =
        let verb = verb-cmd_number line numbered_size d'.seq_next fits in
        let (r, given, (i, tl, num)) =
          transmit-IsReplyTo claimed (numbered_line d' line) payload t
            ((λ z. n (sym same ∙ z)), ground arith, ground arith) refl e in
        (r, given, (i, tl, num ∙ same))

-- The ways in which a command that waits can end.
abbrev pub Explains : Timing → Outcome → Type 0
Explains t o =
    ((o.status ≡ param) × (o.sent ≡ none) × (o.reply ≡ none))
    ⊎ ((o.status ≡ no_device)
        × (o.sent ≡ none)
        × (o.reply ≡ none)
        × ((not o.device.is_open || o.device.lost) ≡ true))
    ⊎ ((o.status ≡ t.written) × (t.written ≢ fine) × (o.reply ≡ none))
    ⊎ ((o.status ≡ fine) × (t.written ≡ fine) × (o.reply ≢ none))
    ⊎ ((o.status ≡ no_device) × (o.reply ≡ none) × ((not o.device.is_open || o.device.lost) ≡ true))
    ⊎ ((o.status ≡ timeout)
        × (o.reply ≡ none)
        × (o.device.is_open ≡ true)
        × (o.device.lost ≡ false))

collect-Explains :
    (t : Timing) (d : Device) (bytes : Bytes) → t.written ≡ fine → Explains t (collect d bytes)
unfolding collect
collect-Explains t d bytes h = ground arith

is_fine_eq : (st : OpStatus) → is_fine st ≡ true → st ≡ fine
is_fine_eq st h = ground arith

not_fine : (st : OpStatus) → is_fine st ≡ false → st ≢ fine
not_fine st h e = ground arith

transmit-Explains :
    (d : Device) (line payload : Bytes) (t : Timing) → Explains t (transmit d line payload true t)
unfolding transmit
transmit-Explains d line payload t =
    if_cases (Explains t) (is_fine t.written && true) _ _
      (λ on. collect-Explains t _ (line ++ payload) (is_fine_eq t.written (ground arith)))
      (λ off. inr (inr (inl (refl, not_fine t.written (ground arith), refl))))

-- How a command that waits ends: refused for its arguments, or because the session is closed or
-- lost, with nothing sent; with the error of the write; answered; with the session found closed
-- or lost; or timed out with the session open. A reply is handed out with OP_OK and only then.
pub cmd_exchange-Explains :
    (d : Device) (line payload : Bytes) (t : Timing)
    → Explains t (cmd_exchange d line payload true t)
cmd_exchange-Explains d line payload t =
    cmd_exchange_cases line payload true t (Explains t) d (inl (refl, refl, refl))
      (λ gone. inr (inl (refl, refl, refl, gone)))
      (λ _ _ _.
        exchange_open_cases line payload true t (Explains t) (steps d t.before)
          (λ _ _. inl (refl, refl, refl)) (λ _ _. transmit-Explains _ _ payload t)
          (λ _. transmit-Explains _ line payload t))
