-- ===== src/Elf/Memory.antt =====
-- The memory that programs are loaded into: `program_memory` of kernel/src/elf_loader.c, its
-- allocator, and memset and memcpy of kernel/src/main.c as the loader uses them.
pub mod Blocks
pub mod Malloc
use os_from_zero.Base.{
  ℕ, zero, suc, ◌+◌, ◌-◌, ◌*◌, ◌%◌, Option, none, some, List, ◌==◌, ltb, if◌then◌else◌, get_elem?,
  ◌>>=◌, add64,
}

-- sizeof(program_memory)
abbrev pub program_size : ℕ
program_size = 1024 * 1024

-- The bytes of `program_memory`, by their index.
abbrev pub Bytes : Type 0
Bytes = ℕ → ℕ

-- A write of one byte; outside of `program_memory` it is a fault.
unfoldable pub store : Bytes → ℕ → ℕ → Option Bytes
store m at v = if ltb at program_size then some (λ i. if i == at then v else m i) else none

-- `for (i = 0; i < n; i++) p[i] = (uint8_t)c;`
unfoldable pub memset : Bytes → ℕ → ℕ → ℕ → Option Bytes
unfolding store
memset m dest c zero = some m
memset m dest c (suc n) = do m' ← store m dest (c % 256); memset m' (dest + 1) c n

-- `for (i = 0; i < n; i++) pdest[i] = psrc[i];`, from `source` at `from`.
unfoldable pub memcpy : Bytes → ℕ → List ℕ → ℕ → ℕ → Option Bytes
unfolding store
memcpy m dest source from zero = some m
memcpy m dest source from (suc n) = do
  b ← get_elem? source from
  m' ← store m dest b
  memcpy m' (dest + 1) source (from + 1) n

-- `(size + 7) & ~7` in size_t.
unfoldable pub align8 : ℕ → ℕ
align8 size = let s = add64 size 7 in s - s % 8

-- program_malloc: the index of the block (`none` is NULL), and the new program_memory_offset.
unfoldable pub program_malloc : ℕ → ℕ → Option ℕ × ℕ
unfolding align8
program_malloc offset size =
    let aligned = align8 size in
    if ltb program_size (add64 offset aligned)
    then (none, offset)
    else (some offset, add64 offset aligned)
