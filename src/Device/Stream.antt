-- ===== src/Device/Stream.antt =====
-- The inbound byte stream: `consume_accum` and the reading part of `reader_main` of
-- src/op_device.c. The bytes from `off` on are the list of what is left of the accumulator.
pub mod Chunks
pub mod Cuts
use openport_j.Base.{
  ℕ, zero, suc, ◌+◌, ◌-◌, Bool, true, false, [], ◌∷◌, ◌++◌, Bytes, ltb, ◌==◌, if◌then◌else◌, length,
  take, drop,
}
use openport_j.Proto.Reply.{Reply, ReplyKind}
use openport_j.Proto.Decode.{parse, msg_max, frame_max}
use openport_j.Proto.Resync.{resync_offset}
use openport_j.Device.State.{Device}
use openport_j.Device.Absorb.{absorb_frame}
use openport_j.Device.Slot.{stash_reply}

-- OP_ACCUM_CAP
abbrev pub accum_cap : ℕ
accum_cap = msg_max + frame_max

abbrev pub is_junk : ReplyKind → Bool
is_junk ReplyKind.junk = true
is_junk _ = false

-- Where a parsed reply goes.
unfoldable pub deliver : Device → Reply → Device
deliver d r = elim r.kind [
  | ReplyKind.frame ↦ absorb_frame d r
  | ReplyKind.junk ↦ d
  | _ ↦ stash_reply d r
]

-- How far the loop goes on: after junk to the next place where a reply can start.
unfoldable pub advance : Bytes → ℕ → Reply → ℕ
advance s used r =
    if is_junk r.kind then if ltb used (resync_offset s) then resync_offset s else used else used

-- One round, at bytes that hold a whole reply or junk.
unfoldable pub round : Device → Bytes → Device × Bytes
round d s = let out = parse s in (deliver d out.1, drop (advance s out.0 out.1) s)

-- The loop, on fuel: each round consumes a byte at least.
unfoldable pub consume : ℕ → Device → Bytes → Device × Bytes
consume zero d s = (d, s)
consume (suc fuel) d [] = (d, [])
consume (suc fuel) d (b ∷ s) = elim ((parse (b ∷ s)).0 == 0) [
  | true ↦ (d, b ∷ s)
  | false ↦ consume fuel (round d (b ∷ s)).0 (round d (b ∷ s)).1
]

-- A full accumulator with no reply in it is discarded.
unfoldable pub keep_rest : Bytes → Bytes
keep_rest rest = if length rest == accum_cap then [] else rest

unfoldable pub consume_accum : Device → Device
consume_accum d =
    let out = consume (suc (length d.accum)) d d.accum in record out.0 { accum = keep_rest out.1 }

-- What the reader does with the bytes of one read, under the lock.
unfoldable pub reader_take : Device → Bytes → Device
reader_take d got =
    consume_accum (record d { accum = d.accum ++ take (accum_cap - length d.accum) got })
