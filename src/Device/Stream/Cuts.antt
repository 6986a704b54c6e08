-- ===== src/Device/Stream/Cuts.antt =====
-- `consume_accum` of src/op_device.c on a part of the stream, and then on what it left and the
-- bytes that follow.
use openport_j.Base.{
  ℕ, zero, suc, ◌<◌, ◌≡◌, ◌≢◌, inl, inr, refl, sym, ap, ◌∙◌, [], ◌∷◌, ◌++◌, Bytes, arith, length,
  length-append, drop, drop-append_le,
}
use openport_j.Proto.Reply.{Reply, junk}
use openport_j.Proto.Decode.{parse}
use openport_j.Proto.Decode.Bounds.{parse-IsSound}
use openport_j.Proto.Decode.Stream.{parse-append}
use openport_j.Device.State.{Device}
use openport_j.Device.Stream.{deliver, advance, round, consume}
use openport_j.Device.Stream.Chunks.{
  consume-round, length-round, parse_cases, consume_stop, consume-Waits,
}

-- The loop meets no junk in these bytes.
unfoldable pub Clean : ℕ → Bytes → Type 0
Clean zero s = Unit
Clean (suc fuel) [] = Unit
Clean (suc fuel) (b ∷ s) =
    (parse (b ∷ s)).0 ≢ 0
    → ((parse (b ∷ s)).1.kind ≢ junk) × Clean fuel (drop (parse (b ∷ s)).0 (b ∷ s))

advance-clean : (s : Bytes) (used : ℕ) (r : Reply) → r.kind ≢ junk → advance s used r ≡ used
unfolding advance
advance-clean s used r h = ground arith

round-clean :
    (d : Device) (s : Bytes)
    → (parse s).1.kind ≢ junk
    → round d s ≡ (deliver d (parse s).1, drop (parse s).0 s)
unfolding round
round-clean d s h = rw (advance-clean s (parse s).0 (parse s).1 h) refl

round-append :
    (d : Device) (s more : Bytes)
    → (parse s).0 ≢ 0
    → (parse s).1.kind ≢ junk
    → round d (s ++ more) ≡ ((round d s).0, (round d s).1 ++ more)
round-append d s more n h =
    let e = parse-append s more n (inr h) in
    let k : (parse (s ++ more)).1.kind ≢ junk = λ q. h (ap (λ o. o.1.kind) (sym e) ∙ q) in
    round-clean d (s ++ more) k
    ∙ ap (λ o. (deliver d o.1, drop o.0 (s ++ more))) e
    ∙ ap (λ t. (deliver d (parse s).1, t))
        (drop-append_le (parse s).0 s more (parse-IsSound s).within)
    ∙ ap (λ o. (o.0, o.1 ++ more)) (sym (round-clean d s h))

-- More fuel changes nothing.
consume_fuel :
    (fuel more : ℕ) (d : Device) (s : Bytes)
    → length s < fuel
    → length s < more
    → consume fuel d s ≡ consume more d s
unfolding consume
consume_fuel zero more d s h k = absurd (omega arith)
consume_fuel (suc fuel) zero d s h k = absurd (omega arith)
consume_fuel (suc fuel) (suc more) d [] h k = refl
consume_fuel (suc fuel) (suc more) d (b ∷ s) h k = elim (parse_cases (b ∷ s)) [
  | inl e ↦ rw (e, consume) refl
  | inr n ↦
      consume-round fuel d b s n
      ∙ consume_fuel fuel more (round d (b ∷ s)).0 (round d (b ∷ s)).1
          (omega (arith, length-round d b s n)) (omega (arith, length-round d b s n))
      ∙ sym (consume-round more d b s n)
]

Clean-next :
    (fuel b : ℕ) (s : Bytes)
    → Clean (suc fuel) (b ∷ s)
    → (parse (b ∷ s)).0 ≢ 0
    → ((parse (b ∷ s)).1.kind ≢ junk) × Clean fuel (drop (parse (b ∷ s)).0 (b ∷ s))
unfolding Clean
Clean-next fuel b s c n = c n

Clean-round :
    (fuel b : ℕ) (d : Device) (s : Bytes)
    → Clean (suc fuel) (b ∷ s)
    → (parse (b ∷ s)).0 ≢ 0
    → Clean fuel (round d (b ∷ s)).1
Clean-round fuel b d s c n =
    let (k, next) = Clean-next fuel b s c n in rw (round-clean d (b ∷ s) k) next

round_next :
    (fuel b : ℕ) (d : Device) (s more : Bytes)
    → (parse (b ∷ s)).0 ≢ 0
    → (parse (b ∷ s)).1.kind ≢ junk
    → consume (suc fuel) d (b ∷ (s ++ more))
      ≡ consume fuel (round d (b ∷ s)).0 ((round d (b ∷ s)).1 ++ more)
round_next fuel b d s more n k =
    let e = parse-append (b ∷ s) more n (inr k) in
    consume-round fuel d b (s ++ more) (λ q. n (ap (λ o. o.0) (sym e) ∙ q))
    ∙ ap (λ o. consume fuel o.0 o.1) (round-append d (b ∷ s) more n k)

-- A stream in two reads is consumed as in one: the loop on the whole does what it does on the
-- first part and then, from the state that leaves, on what is left of it and the second part.
-- The fuels are longer than the bytes, and the first part holds no junk where the loop looks.
pub consume-append :
    (fuel less : ℕ) (d : Device) (s more : Bytes)
    → length (s ++ more) < fuel
    → length s < less
    → Clean less s
    → consume fuel d (s ++ more) ≡ consume fuel (consume less d s).0 ((consume less d s).1 ++ more)
consume-append fuel zero d s more h k c = absurd (omega arith)
consume-append zero (suc less) d s more h k c = absurd (omega arith)
consume-append (suc fuel) (suc less) d [] more h k c = unfold consume in refl
consume-append (suc fuel) (suc less) d (b ∷ s) more h k c = elim (parse_cases (b ∷ s)) [
  | inl e ↦
      ap (λ o. consume (suc fuel) o.0 (o.1 ++ more)) {x = (d, b ∷ s)}
        (sym (consume_stop less d b s e))
  | inr n ↦
      let o = round d (b ∷ s) in
      let left = length-append o.1 more in
      let whole = length-append s more in
      let shorter = length-round d b s n in
      let ended = (consume-Waits less o.0 o.1 (omega arith)).1 in
      let joined = length-append (consume less o.0 o.1).1 more in
      round_next fuel b d s more n (Clean-next less b s c n).0
      ∙ consume-append fuel less o.0 o.1 more (omega arith) (omega arith)
          (Clean-round less b d s c n)
      ∙ consume_fuel fuel (suc fuel) (consume less o.0 o.1).0 ((consume less o.0 o.1).1 ++ more)
          (omega arith) (omega arith)
      ∙ ap (λ o. consume (suc fuel) o.0 (o.1 ++ more)) (sym (consume-round less d b s n))
]
