-- ===== src/Elf/Image/Loads.antt =====
-- The files that `compile` and `hello` write are loaded by elf_load_program.
use os_from_zero.Elf.Load.Safe.{result_at, place_runs}
use os_from_zero.Elf.{ElfHeader, ElfPhdr, read_header, read_phdr, elf_validate_header}
use os_from_zero.Elf.Load.Segments.{load_segment_lem}
use os_from_zero.Base.{
  ℕ, zero, suc, ◌+◌, ◌-◌, ◌<◌, ◌≤◌, ◌≡◌, refl, ap, ◌∙◌, true, some, List, [], ◌∷◌, arith, length,
  get_or, drop, add64,
}
use os_from_zero.Elf.Memory.{Bytes, program_size, align8}
use os_from_zero.Elf.Load.{
  ProgramMemory, ProgramLoadResult, Extent, elf_load_program, place, load_segment, load_segments,
}
use os_from_zero.Elf.Memory.Blocks.{memset_lem}
use os_from_zero.Elf.Memory.Malloc.{align8_lem, program_malloc-fits}
use os_from_zero.Elf.Image.{
  create_test_elf, create_hello_elf, simple_program, hello_program, load_address,
}

-- What the loader reads from such a file.
abbrev image_header : ElfHeader
image_header = record {
  magic_0 = 0x7f;
  magic_1 = b'E';
  magic_2 = b'L';
  magic_3 = b'F';
  class = 2;
  byte_order = 1;
  e_type = 2;
  e_machine = 0x3e;
  e_entry = load_address;
  e_phoff = 64;
  e_phentsize = 56;
  e_phnum = 1;
}

abbrev image_phdr : ℕ → ElfPhdr
image_phdr size = record {
  p_type = 1;
  p_offset = 120;
  p_vaddr = load_address;
  p_filesz = size;
  p_memsz = size;
}

abbrev image_extent : ℕ → Extent
image_extent size = record { lowest = load_address; highest = load_address + size }

test_place :
    (pm : ProgramMemory)
    → elf_load_program pm create_test_elf 128
      ≡ place pm create_test_elf image_header (image_phdr 8 ∷ []) (image_extent 8)
unfolding elf_load_program create_test_elf read_header elf_validate_header read_phdr
test_place pm = refl

hello_place :
    (pm : ProgramMemory)
    → elf_load_program pm create_hello_elf 146
      ≡ place pm create_hello_elf image_header (image_phdr 26 ∷ []) (image_extent 26)
unfolding elf_load_program create_hello_elf read_header elf_validate_header read_phdr
hello_place pm = refl

get_or-drop : (n : ℕ) (xs : List ℕ) (i : ℕ) → get_or xs (n + i) 0 ≡ get_or (drop n xs) i 0
get_or-drop zero xs i = let e : 0 + i ≡ i = omega arith in ap (λ k. get_or xs k 0) e
get_or-drop (suc n) [] i = refl
get_or-drop (suc n) (x ∷ xs) i =
    let e : suc n + i ≡ suc (n + i) = omega arith in
    ap (λ k. get_or (x ∷ xs) k 0) e ∙ get_or-drop n xs i

one_segment :
    (bytes : List ℕ) (base size : ℕ) (m m' : Bytes)
    → load_segment bytes base load_address (image_phdr size) m ≡ some m'
    → load_segments bytes base load_address (image_phdr size ∷ []) m ≡ some m'
unfolding load_segments
one_segment bytes base size m m' run = rw run

-- A result of loading: success in a fresh block, which holds the program and is entered at its
-- first byte.
pub record Runs (pm : ProgramMemory) (program : ℕ → ℕ) (size : ℕ)
    (r : ProgramLoadResult × ProgramMemory) : Type 0 where
  pub success : r.0.success ≡ true
  pub entry : r.0.entry_point ≡ add64 0 (add64 pm.address pm.offset)
  pub block : r.0.allocated_memory ≡ some (add64 pm.address pm.offset)
  pub length_of : r.0.memory_size ≡ size
  pub bytes : (i : ℕ) → i < size → r.1.bytes (pm.offset + i) ≡ program i
  pub kept : (i : ℕ) → i < pm.offset → r.1.bytes i ≡ pm.bytes i
  pub next : r.1.offset ≡ pm.offset + align8 size

image_Runs :
    (pm : ProgramMemory) (bytes : List ℕ) (size : ℕ)
    → size ≤ 1024
    → 120 + size ≤ length bytes
    → pm.offset + align8 size ≤ program_size
    → (r : ProgramLoadResult × ProgramMemory) × (place pm bytes image_header
          (image_phdr size ∷ [])
          (image_extent size)
        ≡ some r)
      × Runs pm (λ i. get_or bytes (120 + i) 0) size r
image_Runs pm bytes size small enough fits =
    let room = align8_lem size (omega arith) in
    let (m₁, clear, zeros) = memset_lem pm.bytes pm.offset 0 size (omega arith) in
    let (m₂, load, cells) =
      load_segment_lem bytes pm.offset load_address (image_phdr size) m₁
        (record { in_file = enough; no_more = omega arith }) (omega arith) (omega arith)
        (omega arith) in
    (
      (
        result_at pm image_header (image_extent size) pm.offset size,
        record pm { bytes = m₂; offset = pm.offset + align8 size },
      ),
      place_runs pm bytes image_header (image_phdr size ∷ []) (image_extent size) pm.offset size _
          m₁ m₂ (omega arith) (program_malloc-fits pm.offset size (omega arith) fits) clear
          (one_segment bytes pm.offset size m₁ m₂ load),
      record {
        success = refl;
        entry = refl;
        block = refl;
        length_of = refl;
        bytes = λ i h.
            let at : get_or bytes
                  (120 + (pm.offset + i - (pm.offset + (load_address - load_address)))) 0
                ≡ get_or bytes (120 + i) 0 =
              ap (λ k. get_or bytes (120 + k) 0) (omega arith) in
            ground (arith, cells (pm.offset + i), at);
        kept = λ i h. ground (arith, cells i, zeros i);
        next = refl;
      },
    )

test_bytes : (i : ℕ) → get_or create_test_elf (120 + i) 0 ≡ get_or simple_program i 0
unfolding create_test_elf
test_bytes i = get_or-drop 120 create_test_elf i

hello_bytes : (i : ℕ) → get_or create_hello_elf (120 + i) 0 ≡ get_or hello_program i 0
unfolding create_hello_elf
hello_bytes i = get_or-drop 120 create_hello_elf i

renamed :
    (pm : ProgramMemory) (p q : ℕ → ℕ) (size : ℕ) (r : ProgramLoadResult × ProgramMemory)
    → ((i : ℕ) → p i ≡ q i)
    → Runs pm p size r
    → Runs pm q size r
renamed pm p q size r same v = record {
  success = v.success;
  entry = v.entry;
  block = v.block;
  length_of = v.length_of;
  bytes = λ i h. v.bytes i h ∙ same i;
  kept = v.kept;
  next = v.next;
}

-- The file that `compile` writes is loaded, wherever there are 8 free bytes: the block holds the
-- program, the program is entered at its first byte, and earlier programs keep theirs.
pub create_test_elf-Runs :
    (pm : ProgramMemory)
    → pm.offset + 8 ≤ program_size
    → (r : ProgramLoadResult × ProgramMemory) × (elf_load_program pm create_test_elf 128 ≡ some r)
      × Runs pm (λ i. get_or simple_program i 0) 8 r
unfolding create_test_elf align8
create_test_elf-Runs pm fits =
    let (r, run, v) = image_Runs pm create_test_elf 8 (omega arith) (omega arith) fits in
    (r, test_place pm ∙ run, renamed pm _ _ 8 r test_bytes v)

-- So is the file that `hello` writes, wherever there are 32 free bytes.
pub create_hello_elf-Runs :
    (pm : ProgramMemory)
    → pm.offset + 32 ≤ program_size
    → (r : ProgramLoadResult × ProgramMemory) × (elf_load_program pm create_hello_elf 146 ≡ some r)
      × Runs pm (λ i. get_or hello_program i 0) 26 r
unfolding create_hello_elf align8
create_hello_elf-Runs pm fits =
    let (r, run, v) = image_Runs pm create_hello_elf 26 (omega arith) (omega arith) fits in
    (r, hello_place pm ∙ run, renamed pm _ _ 26 r hello_bytes v)
