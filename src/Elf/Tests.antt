-- ===== src/Elf/Tests.antt =====
-- The loader on memory that is zero, and on small segments.
use os_from_zero.Base.{ℕ, ◌+◌, ◌-◌, ◌^◌, ◌<◌, ◌≤◌, ◌≡◌, ◌⊎◌, refl, some, List, [], ◌∷◌, arith}
use os_from_zero.Elf.{ElfHeader, ElfPhdr}
use os_from_zero.Elf.Memory.{Bytes, program_size, align8, program_malloc}
use os_from_zero.Elf.Memory.Malloc.{program_malloc-wraps}
use os_from_zero.Elf.Load.{ProgramMemory, ProgramLoadResult, Extent, place}
use os_from_zero.Elf.Load.Segments.{IsSound}
use os_from_zero.Elf.Load.Safe.{Loaded, Refused, place-safe}

abbrev block : ℕ
block = 16

given : (program_malloc 16 10).0 ≡ some 16
unfolding program_malloc align8
given = refl

too_large : program_size < 16 + align8 program_size
unfolding align8
too_large = omega arith

program_malloc-wraps_example :
    ((2 ^ 64 - 7 ≤ 2 ^ 64 - 16) × (program_malloc 16 (2 ^ 64 - 16) ≡ (some 16, 16)))
    ⊎ ((2 ^ 64 - 16 < 2 ^ 64 - 7)
        × ((next : ℕ) × (program_malloc 16 (2 ^ 64 - 16) ≡ (some 16, next)) × (next < 16)))
program_malloc-wraps_example =
    program_malloc-wraps 16 (2 ^ 64 - 16) (omega arith) (omega arith) (omega arith) (omega arith)
      (omega arith)

abbrev zeros : Bytes
zeros = λ i. 0

-- Two bytes of a file of three, in four bytes of memory.
abbrev segment : ElfPhdr
segment = record { p_type = 1; p_offset = 1; p_vaddr = 4096; p_filesz = 2; p_memsz = 4 }

abbrev file : List ℕ
file = 9 ∷ 8 ∷ 7 ∷ []

segment-IsSound : IsSound file segment
segment-IsSound = record { in_file = ground arith; no_more = ground arith }

abbrev memory : ProgramMemory
memory = record { address = 1048576; bytes = zeros; offset = 64 }

abbrev header : ElfHeader
header = record {
  magic_0 = 0x7f;
  magic_1 = b'E';
  magic_2 = b'L';
  magic_3 = b'F';
  class = 2;
  byte_order = 1;
  e_type = 2;
  e_machine = 0x3e;
  e_entry = 4096;
  e_phoff = 64;
  e_phentsize = 56;
  e_phnum = 1;
}

abbrev extent : Extent
extent = record { lowest = 4096; highest = 4100 }

place-safe_example :
    (r : ProgramLoadResult × ProgramMemory) × (place memory file header (segment ∷ []) extent
      ≡ some r)
    × (Refused memory extent r ⊎ Loaded memory file header (segment ∷ []) extent r)
place-safe_example =
    place-safe memory file header (segment ∷ []) extent
      (record { fits = omega arith; aligned = omega arith }) (omega arith) (omega arith)
      (omega arith) (λ _. segment-IsSound, tt) (λ _. (omega arith, omega arith), tt)
