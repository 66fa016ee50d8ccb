-- ===== src/Elf/Header.antt =====
-- Which headers elf_validate_header takes.
use os_from_zero.Base.{arith, ◌↔◌, true, ◌≡◌}
use os_from_zero.Elf.{ElfHeader, elf_validate_header}

-- A 64-bit little-endian x86-64 executable, by its header.
pub record IsExecutable (h : ElfHeader) : Type 0 where
  pub first : h.magic_0 ≡ 0x7f
  pub second : h.magic_1 ≡ b'E'
  pub third : h.magic_2 ≡ b'L'
  pub fourth : h.magic_3 ≡ b'F'
  pub wide : h.class ≡ 2
  pub little : h.byte_order ≡ 1
  pub executable : h.e_type ≡ 2
  pub machine : h.e_machine ≡ 0x3e

validated : (h : ElfHeader) → elf_validate_header h ≡ true → IsExecutable h
unfolding elf_validate_header
validated h v = ground arith

accepted : (h : ElfHeader) → IsExecutable h → elf_validate_header h ≡ true
unfolding elf_validate_header
accepted h e = ground arith

-- elf_validate_header accepts a header exactly when it has the four magic bytes and declares a
-- 64-bit little-endian x86-64 executable.
pub elf_validate_header_iff : (h : ElfHeader) → (elf_validate_header h ≡ true) ↔ IsExecutable h
elf_validate_header_iff h = (validated h, accepted h)
