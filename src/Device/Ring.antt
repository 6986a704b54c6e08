-- ===== src/Device/Ring.antt =====
-- The byte ring of a channel: `ring_put` and `ring_get` of src/op_device.c. The OP_RXQ_BYTES of
-- memory are a function from the index; the two copies of the C code are kept apart.
pub mod Window
use openport_j.Base.{
  ℕ, zero, suc, ◌+◌, ◌-◌, ◌*◌, ◌%◌, [], ◌∷◌, ◌++◌, Bytes, ltb, ◌==◌, if◌then◌else◌, length, take,
  drop,
}

abbrev pub rxq_bytes : ℕ
rxq_bytes = 1024 * 1024

abbrev pub Memory : Type 0
Memory = ℕ → ℕ

unfoldable pub store : Memory → ℕ → ℕ → Memory
store mem i v j = if j == i then v else mem j

-- `memcpy(mem + pos, src, …)`
unfoldable pub copy_in : Memory → ℕ → Bytes → Memory
copy_in mem pos [] = mem
copy_in mem pos (b ∷ src) = copy_in (store mem pos b) (pos + 1) src

-- `memcpy(dst, mem + pos, n)`
unfoldable pub copy_out : Memory → ℕ → ℕ → Bytes
copy_out mem pos zero = []
copy_out mem pos (suc n) = mem pos ∷ copy_out mem (pos + 1) n

-- `size_t first = OP_RXQ_BYTES - pos; if (first > n) first = n;`
unfoldable pub first_part : ℕ → ℕ → ℕ
first_part pos n = if ltb n (rxq_bytes - pos) then n else rxq_bytes - pos

-- The memory and the new `rq_tail`.
unfoldable pub ring_put : Memory → ℕ → Bytes → Memory × ℕ
ring_put mem tail src =
    let first = first_part tail (length src) in
    (
      copy_in (copy_in mem tail (take first src)) 0 (drop first src),
      (tail + length src) % rxq_bytes,
    )

-- The bytes read and the new `rq_head`.
unfoldable pub ring_get : Memory → ℕ → ℕ → Bytes × ℕ
ring_get mem head n =
    let first = first_part head n in
    (copy_out mem head first ++ copy_out mem 0 (n - first), (head + n) % rxq_bytes)
