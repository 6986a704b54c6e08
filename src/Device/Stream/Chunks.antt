-- ===== src/Device/Stream/Chunks.antt =====
-- Where the loop of `consume_accum` of src/op_device.c stops, and how many bytes it leaves.
use openport_j.Base.{
  ℕ, zero, suc, ◌-◌, ◌≤◌, ◌<◌, ◌≡◌, ◌≢◌, ◌⊎◌, inl, inr, refl, false, [], ◌∷◌, ◌++◌, Bytes, arith,
  ◌==◌, length, length-append, length-drop, length-take, take,
}
use openport_j.Proto.Decode.{parse}
use openport_j.Proto.Decode.Bounds.{parse-IsSound}
use openport_j.Proto.Resync.{resync_offset_bounds}
use openport_j.Device.State.{Device}
use openport_j.Device.Stream.{
  accum_cap, advance, round, consume, keep_rest, consume_accum, reader_take,
}

-- A round moves on, and not past the end.
advance_bounds :
    (b : ℕ) (s : Bytes)
    → (parse (b ∷ s)).0 ≢ 0
    → let n = advance (b ∷ s) (parse (b ∷ s)).0 (parse (b ∷ s)).1 in (1 ≤ n) × (n ≤ length (b ∷ s))
unfolding advance
advance_bounds b s h = ground (arith, resync_offset_bounds b s, (parse-IsSound (b ∷ s)).within)

-- The loop stops only where nothing is left or `op_parse` asks for more bytes.
abbrev pub Waits : Bytes → Type 0
Waits s = (s ≡ []) ⊎ ((parse s).0 ≡ 0)

pub consume_stop :
    (fuel : ℕ) (d : Device) (b : ℕ) (s : Bytes)
    → (parse (b ∷ s)).0 ≡ 0
    → consume (suc fuel) d (b ∷ s) ≡ (d, b ∷ s)
unfolding consume
consume_stop fuel d b s e = rw (e, consume)

pub consume-round :
    (fuel : ℕ) (d : Device) (b : ℕ) (s : Bytes)
    → (parse (b ∷ s)).0 ≢ 0
    → consume (suc fuel) d (b ∷ s) ≡ consume fuel (round d (b ∷ s)).0 (round d (b ∷ s)).1
unfolding consume
consume-round fuel d b s h =
    let e : ((parse (b ∷ s)).0 == 0) ≡ false = ground arith in rw (e, consume)

pub length-round :
    (d : Device) (b : ℕ) (s : Bytes) → (parse (b ∷ s)).0 ≢ 0 → length (round d (b ∷ s)).1 ≤ length s
unfolding round
length-round d b s h = omega (
  arith,
  advance_bounds b s h,
  length-drop (advance (b ∷ s) (parse (b ∷ s)).0 (parse (b ∷ s)).1) (b ∷ s),
)

pub parse_cases : (s : Bytes) → ((parse s).0 ≡ 0) ⊎ ((parse s).0 ≢ 0)
parse_cases s = ground arith

-- With as much fuel as there are bytes the loop of `consume_accum` ends by itself: nothing is
-- left, or `op_parse` asks for more bytes. What is left is no longer than what was there.
pub consume-Waits :
    (fuel : ℕ) (d : Device) (s : Bytes)
    → length s < fuel
    → Waits (consume fuel d s).1 × (length (consume fuel d s).1 ≤ length s)
consume-Waits zero d s h = absurd (omega arith)
consume-Waits (suc fuel) d [] h = unfold consume in (inl refl, omega arith)
consume-Waits (suc fuel) d (b ∷ s) h = elim (parse_cases (b ∷ s)) [
  | inl e ↦ rw (consume_stop fuel d b s e) (inr e, omega arith)
  | inr n ↦
      let (w, l) =
        consume-Waits fuel (round d (b ∷ s)).0 (round d (b ∷ s)).1
          (omega (arith, length-round d b s n)) in
      rw (consume-round fuel d b s n) (w, omega (arith, length-round d b s n))
]

consume_accum-accum :
    (d : Device) → (consume_accum d).accum ≡ keep_rest (consume (suc (length d.accum)) d d.accum).1
unfolding consume_accum
consume_accum-accum d = refl

length-keep_rest : (s : Bytes) → length s ≤ accum_cap → length (keep_rest s) < accum_cap
unfolding keep_rest
length-keep_rest s h = ground arith

consume_accum_bounds :
    (d : Device) → length d.accum ≤ accum_cap → length (consume_accum d).accum < accum_cap
consume_accum_bounds d h = rw (consume_accum-accum d) (
    length-keep_rest (consume (suc (length d.accum)) d d.accum).1
      (omega (arith, (consume-Waits (suc (length d.accum)) d d.accum (omega arith)).1)))

-- The accumulator never overflows and always has room for another byte: whatever one read
-- brings, fewer than OP_ACCUM_CAP bytes are left when the reader has consumed what it could.
pub reader_take_bounds :
    (d : Device) (got : Bytes)
    → length d.accum ≤ accum_cap
    → length (reader_take d got).accum < accum_cap
unfolding reader_take
reader_take_bounds d got h =
    let kept = take (accum_cap - length d.accum) got in
    consume_accum_bounds (record d { accum = d.accum ++ kept })
      (omega (arith, length-append d.accum kept, length-take (accum_cap - length d.accum) got))
