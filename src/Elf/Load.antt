-- ===== src/Elf/Load.antt =====
-- elf_load_program and elf_unload_program of kernel/src/elf_loader.c.
pub mod Bounds
pub mod Segments
pub mod Safe
use Prim.Native.String.{String}
use os_from_zero.Base.{
  ℕ, zero, suc, ◌+◌, ◌-◌, ◌*◌, ◌%◌, ◌^◌, Bool, true, false, ◌&&◌, not, Option, none, some, List, [],
  ◌∷◌, ◌==◌, ltb, if◌then◌else◌, ◌>>=◌, add64, sub64,
}
use os_from_zero.Elf.{
  ElfHeader, ElfPhdr, header_size, pt_load, read_header, read_phdr, elf_validate_header,
}
use os_from_zero.Elf.Memory.{Bytes, memset, memcpy, program_malloc}

-- `program_memory` with `program_memory_offset`. The linker chooses its address.
pub record ProgramMemory : Type 0 where
  pub address : ℕ
  pub bytes : Bytes
  pub offset : ℕ

-- program_load_result_t. `allocated_memory` is an address, or `none` for NULL. The messages are
-- literals that `error_msg`, of 128 bytes, has room for.
pub record ProgramLoadResult : Type 0 where
  pub success : Bool
  pub entry_point : ℕ
  pub allocated_memory : Option ℕ
  pub memory_size : ℕ
  pub error_msg : String

pub record Extent : Type 0 where
  pub lowest : ℕ
  pub highest : ℕ

-- What one LOAD segment makes of the two bounds.
unfoldable pub widen : ElfPhdr → Extent → Extent
widen p e =
    let stop = add64 p.p_vaddr p.p_memsz in
    record {
      lowest = if ltb p.p_vaddr e.lowest then p.p_vaddr else e.lowest;
      highest = if ltb e.highest stop then stop else e.highest;
    }

-- The program headers of the file: `e_phnum` of them from index `i` on. `i * e_phentsize` is an
-- `int`, and a fault where it overflows.
unfoldable pub read_phdrs : List ℕ → ElfHeader → ℕ → ℕ → Option (List ElfPhdr)
read_phdrs data_bytes h i zero = some []
read_phdrs data_bytes h i (suc rounds) =
    let rest = read_phdrs data_bytes h (i + 1) rounds in
    if ltb (i * h.e_phentsize) (2 ^ 31)
    then (do
      p ← read_phdr data_bytes (add64 h.e_phoff (i * h.e_phentsize))
      ps ← rest
      some (p ∷ ps))
    else none

-- The first loop.
unfoldable pub measure : List ElfPhdr → Extent → Extent
unfolding widen
measure [] e = e
measure (p ∷ ps) e = measure ps (if p.p_type == pt_load then widen p e else e)

-- One round of the second loop, for a LOAD segment; `base` is the index of the block.
unfoldable pub load_segment : List ℕ → ℕ → ℕ → ElfPhdr → Bytes → Option Bytes
load_segment data_bytes base lowest p m = do
  let dest = add64 base (sub64 p.p_vaddr lowest)
  m' ← if ltb 0 p.p_filesz then memcpy m dest data_bytes p.p_offset p.p_filesz else some m
  if ltb p.p_filesz p.p_memsz
      then memset m' (add64 dest p.p_filesz) 0 (p.p_memsz - p.p_filesz)
      else some m'

-- The second loop.
unfoldable pub load_segments : List ℕ → ℕ → ℕ → List ElfPhdr → Bytes → Option Bytes
unfolding load_segment
load_segments data_bytes base lowest [] m = some m
load_segments data_bytes base lowest (p ∷ ps) m = do
  m' ← if p.p_type == pt_load then load_segment data_bytes base lowest p m else some m
  load_segments data_bytes base lowest ps m'

abbrev pub failed : String → ProgramLoadResult
failed message = record {
  success = false;
  entry_point = 0;
  allocated_memory = none;
  memory_size = 0;
  error_msg = message;
}

abbrev pub no_extent : Extent
no_extent = record { lowest = 2 ^ 64 - 1; highest = 0 }

-- From the allocation on: what program_malloc has returned decides.
unfoldable pub place_at :
    ProgramMemory
    → List ℕ
    → ElfHeader
    → List ElfPhdr
    → Extent
    → Option ℕ × ℕ
    → Option (ProgramLoadResult × ProgramMemory)
unfolding load_segments
place_at pm data_bytes h ps e (none, offset) =
    some (failed "Failed to allocate memory for program", record pm { offset = offset })
place_at pm data_bytes h ps e (some base, offset) = do
  let total = sub64 e.highest e.lowest
  cleared ← memset pm.bytes base 0 total
  loaded ← load_segments data_bytes base e.lowest ps cleared
  some (
    record {
      success = true;
      entry_point = add64 (sub64 h.e_entry e.lowest) (add64 pm.address base);
      allocated_memory = some (add64 pm.address base);
      memory_size = total;
      error_msg = "Program loaded successfully";
    },
    record pm { bytes = loaded; offset = offset },
  )

unfoldable pub place :
    ProgramMemory
    → List ℕ
    → ElfHeader
    → List ElfPhdr
    → Extent
    → Option (ProgramLoadResult × ProgramMemory)
unfolding place_at
place pm data_bytes h ps e =
    place_at pm data_bytes h ps e (program_malloc pm.offset (sub64 e.highest e.lowest))

-- elf_load_program, of the `size` bytes of a file that lies in the buffer `data_bytes`.
unfoldable pub elf_load_program :
    ProgramMemory → List ℕ → ℕ → Option (ProgramLoadResult × ProgramMemory)
unfolding place measure read_phdrs
elf_load_program pm data_bytes size =
    if ltb size header_size then some (failed "File too small for ELF header", pm) else do
      h ← read_header data_bytes
      if not (elf_validate_header h)
          then some (failed "Invalid ELF header", pm)
          else if h.e_phnum == 0
          then some (failed "No program headers found", pm)
          else do
            ps ← read_phdrs data_bytes h 0 h.e_phnum
            place pm data_bytes h ps (measure ps no_extent)

-- elf_unload_program: the memory itself is not given back.
unfoldable pub elf_unload_program : ProgramLoadResult → ProgramLoadResult
elf_unload_program r = elim r.allocated_memory [
  | none ↦ r
  | some at ↦ record r { allocated_memory = none; memory_size = 0; success = false }
]
