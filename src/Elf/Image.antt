-- ===== src/Elf/Image.antt =====
-- create_test_elf and create_hello_elf of kernel/src/commands/execution.c: the bytes that they
-- write, which are the first `size` bytes of the caller's buffer of 1024.
pub mod Loads
use os_from_zero.Base.{ℕ, zero, suc, ◌+◌, ◌*◌, ◌/◌, ◌%◌, List, [], ◌∷◌, ◌++◌, replicate, length}
use os_from_zero.Elf.{header_size, phdr_size}

-- The little-endian bytes of a field.
unfoldable pub write_le : ℕ → ℕ → List ℕ
write_le zero value = []
write_le (suc count) value = (value % 256) ∷ write_le count (value / 256)

-- mov rax, 42; ret
abbrev pub simple_program : List ℕ
simple_program = 0x48 ∷ 0xc7 ∷ 0xc0 ∷ 0x2a ∷ 0x00 ∷ 0x00 ∷ 0x00 ∷ 0xc3 ∷ []

-- The sum of 1 to 10 in rax.
abbrev pub hello_program : List ℕ
hello_program =
    0x48 ∷ 0x31 ∷ 0xc0 ∷ 0x48 ∷ 0x31 ∷ 0xc9 ∷ 0x48 ∷ 0xc7 ∷ 0xc1 ∷ 0x01 ∷ 0x00 ∷ 0x00 ∷ 0x00 ∷ 0x48
    ∷ 0x01 ∷ 0xc8 ∷ 0x48 ∷ 0xff ∷ 0xc1 ∷ 0x48 ∷ 0x83 ∷ 0xf9 ∷ 0x0b ∷ 0x75 ∷ 0xf6 ∷ 0xc3 ∷ []

abbrev pub load_address : ℕ
load_address = 0x400000

-- The header and the program header, field by field, for a program of `size` bytes.
unfoldable pub elf_headers : ℕ → List ℕ
unfolding write_le
elf_headers size =
    (0x7f ∷ b'E' ∷ b'L' ∷ b'F' ∷ 2 ∷ 1 ∷ 1 ∷ 0 ∷ replicate 8 0)
    ++ (write_le 2 2
        ++ (write_le 2 0x3e
            ++ (write_le 4 1
                ++ (write_le 8 load_address
                    ++ (write_le 8 header_size
                        ++ (write_le 8 0
                            ++ (write_le 4 0
                                ++ (write_le 2 header_size
                                    ++ (write_le 2 phdr_size
                                        ++ (write_le 2 1
                                            ++ (write_le 2 0
                                                ++ (write_le 2 0
                                                    ++ (write_le 2 0
                                                        ++ (write_le 4 1
                                                            ++ (write_le 4 5
                                                            ++ (write_le 8 (header_size + phdr_size)
                                                            ++ (write_le 8 load_address
                                                            ++ (write_le 8 load_address
                                                            ++ (write_le 8 size
                                                            ++ (write_le 8 size
                                                            ++ write_le 8 0x1000))))))))))))))))))))

unfoldable pub create_test_elf : List ℕ
unfolding elf_headers
create_test_elf = elf_headers (length simple_program) ++ simple_program

unfoldable pub create_hello_elf : List ℕ
unfolding elf_headers
create_hello_elf = elf_headers (length hello_program) ++ hello_program
