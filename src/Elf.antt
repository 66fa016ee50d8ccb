-- ===== src/Elf.antt =====
-- The data of kernel/src/elf_loader.h, and how elf_loader.c reads it from the bytes of a file.
-- The structures are packed and the machine is little-endian, so a field is some bytes at a fixed
-- offset. A read outside the bytes that the caller owns is the fault `none`.
pub mod Memory
pub mod Load
pub mod Image
pub mod Header
mod Tests
use os_from_zero.Base.{
  ℕ, zero, suc, ◌+◌, ◌*◌, ◌/◌, ◌%◌, Bool, true, false, ◌&&◌, not, Option, none, some, List, [], ◌∷◌,
  ◌==◌, if◌then◌else◌, get_elem?, ◌>>=◌,
}

-- `count` bytes from `at` on, as a little-endian number.
unfoldable pub read_le : List ℕ → ℕ → ℕ → Option ℕ
read_le bytes at zero = some 0
read_le bytes at (suc count) = do
  b ← get_elem? bytes at
  rest ← read_le bytes (at + 1) count
  some (b + 256 * rest)

-- elf64_header_t, with the first six bytes of `e_ident`; the fields after `e_phnum` are not read.
pub record ElfHeader : Type 0 where
  pub magic_0 : ℕ
  pub magic_1 : ℕ
  pub magic_2 : ℕ
  pub magic_3 : ℕ
  pub class : ℕ
  pub byte_order : ℕ
  pub e_type : ℕ
  pub e_machine : ℕ
  pub e_entry : ℕ
  pub e_phoff : ℕ
  pub e_phentsize : ℕ
  pub e_phnum : ℕ

-- The fields of elf64_phdr_t that the loader reads.
pub record ElfPhdr : Type 0 where
  pub p_type : ℕ
  pub p_offset : ℕ
  pub p_vaddr : ℕ
  pub p_filesz : ℕ
  pub p_memsz : ℕ

abbrev pub header_size : ℕ
header_size = 64

abbrev pub phdr_size : ℕ
phdr_size = 56

abbrev pub pt_load : ℕ
pt_load = 1

-- `(const elf64_header_t*)elf_data`
unfoldable pub read_header : List ℕ → Option ElfHeader
unfolding read_le
read_header bytes = do
  m0 ← read_le bytes 0 1
  m1 ← read_le bytes 1 1
  m2 ← read_le bytes 2 1
  m3 ← read_le bytes 3 1
  cl ← read_le bytes 4 1
  order ← read_le bytes 5 1
  ty ← read_le bytes 16 2
  machine ← read_le bytes 18 2
  entry ← read_le bytes 24 8
  phoff ← read_le bytes 32 8
  phentsize ← read_le bytes 54 2
  phnum ← read_le bytes 56 2
  some (record {
    magic_0 = m0;
    magic_1 = m1;
    magic_2 = m2;
    magic_3 = m3;
    class = cl;
    byte_order = order;
    e_type = ty;
    e_machine = machine;
    e_entry = entry;
    e_phoff = phoff;
    e_phentsize = phentsize;
    e_phnum = phnum;
  })

-- `(const elf64_phdr_t*)(elf_data + at)`
unfoldable pub read_phdr : List ℕ → ℕ → Option ElfPhdr
unfolding read_le
read_phdr bytes at = do
  ty ← read_le bytes at 4
  offset ← read_le bytes (at + 8) 8
  vaddr ← read_le bytes (at + 16) 8
  filesz ← read_le bytes (at + 32) 8
  memsz ← read_le bytes (at + 40) 8
  some (record {
    p_type = ty;
    p_offset = offset;
    p_vaddr = vaddr;
    p_filesz = filesz;
    p_memsz = memsz;
  })

-- elf_validate_header, test by test.
unfoldable pub elf_validate_header : ElfHeader → Bool
elf_validate_header h =
    if not (h.magic_0 == 0x7f)
    then false
    else if not (h.magic_1 == b'E')
    then false
    else if not (h.magic_2 == b'L')
    then false
    else if not (h.magic_3 == b'F')
    then false
    else if not (h.class == 2)
    then false
    else if not (h.byte_order == 1)
    then false
    else if not (h.e_type == 2)
    then false
    else if not (h.e_machine == 0x3e)
    then false
    else true
