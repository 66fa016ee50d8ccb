-- ===== src/Elf/Memory/Malloc.antt =====
-- The blocks that program_malloc gives out.
use os_from_zero.Base.{
  ℕ, ◌+◌, ◌-◌, ◌%◌, ◌^◌, ◌<◌, ◌≤◌, ◌≡◌, none, some, arith, ltb, add64, ◌⊎◌, inl, inr, Bool-cases,
  ltb→lt,
}
use os_from_zero.Elf.Memory.{program_size, align8, program_malloc}

-- Up to 2 ^ 63 the size is rounded up to a multiple of 8, by less than 8.
pub align8_lem :
    (size : ℕ)
    → size ≤ 2 ^ 63
    → (size ≤ align8 size) × (align8 size < size + 8) × (align8 size % 8 ≡ 0)
unfolding align8
align8_lem size h = omega arith

-- A block that program_malloc gives out for a size of at most 2 ^ 63 starts at the old offset, lies
-- in memory with all its bytes, and ends at or before the new offset, where the next block starts.
-- The offset stays a multiple of 8 and within memory.
pub program_malloc-fresh :
    (offset size at : ℕ)
    → offset ≤ program_size
    → offset % 8 ≡ 0
    → size ≤ 2 ^ 63
    → (program_malloc offset size).0 ≡ some at
    → let next = (program_malloc offset size).1 in
      (at ≡ offset) × (at + size ≤ next) × (next ≤ program_size) × (next % 8 ≡ 0)
unfolding program_malloc
program_malloc-fresh offset size at fits whole small e = ground (arith, align8_lem size small)

-- program_malloc returns NULL, and leaves the offset, when a size of at most 2 ^ 63, rounded up,
-- does not fit.
pub program_malloc-null :
    (offset size : ℕ)
    → offset ≤ program_size
    → size ≤ 2 ^ 63
    → program_size < offset + align8 size
    → program_malloc offset size ≡ (none, offset)
unfolding program_malloc
program_malloc-null offset size fits small h = ground (arith, align8_lem size small)

-- From an aligned offset above 0, within memory, a size below 2 ^ 64 whose sum with
-- the offset is 2 ^ 64 or more is not refused: the block is given out at the offset. The last seven of these sizes are
-- taken for 0, and the offset stays; for the others the sum with the offset wraps, and the offset
-- goes back.
pub program_malloc-wraps :
    (offset size : ℕ)
    → 0 < offset
    → offset ≤ program_size
    → offset % 8 ≡ 0
    → 2 ^ 64 - offset ≤ size
    → size < 2 ^ 64
    → ((2 ^ 64 - 7 ≤ size) × (program_malloc offset size ≡ (some offset, offset)))
      ⊎ ((size < 2 ^ 64 - 7)
          × ((next : ℕ) × (program_malloc offset size ≡ (some offset, next)) × (next < offset)))
unfolding program_malloc align8
program_malloc-wraps offset size pos fits whole large h =
    elim (Bool-cases (ltb size (2 ^ 64 - 7))) [
      | inl low ↦ inr (ltb→lt _ _ low, (add64 offset (align8 size), ground arith, ground arith))
      | inr high ↦ inl (ground (arith, high), ground (arith, high))
    ]

-- The same for both results at once.
pub program_malloc-frame :
    (offset size next : ℕ)
    → offset ≤ program_size
    → offset % 8 ≡ 0
    → size ≤ 2 ^ 63
    → program_malloc offset size ≡ (some offset, next)
    → (offset + size ≤ next) × (next ≤ program_size) × (next % 8 ≡ 0)
unfolding program_malloc
program_malloc-frame offset size next fits whole small e = ground (arith, align8_lem size small)

-- Either NULL with the offset unchanged, as the rounded size does not fit, or the block at the
-- offset.
pub program_malloc-cases :
    (offset size : ℕ)
    → offset ≤ program_size
    → size ≤ 2 ^ 63
    → ((program_malloc offset size ≡ (none, offset)) × (program_size < offset + align8 size))
      ⊎ ((next : ℕ) × (program_malloc offset size ≡ (some offset, next)))
unfolding program_malloc
program_malloc-cases offset size fits small =
    elim (Bool-cases (ltb program_size (add64 offset (align8 size)))) [
      | inl e ↦ inl (rw e, ground (arith, e, align8_lem size small))
      | inr e ↦ inr (add64 offset (align8 size), rw e)
    ]

-- A size that fits is given out.
pub program_malloc-fits :
    (offset size : ℕ)
    → size ≤ 2 ^ 63
    → offset + align8 size ≤ program_size
    → program_malloc offset size ≡ (some offset, offset + align8 size)
unfolding program_malloc
program_malloc-fits offset size small h = ground (arith, align8_lem size small)
