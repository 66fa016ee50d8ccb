-- ===== src/Elf/Load/Safe.antt =====
-- A sound file is loaded into fresh memory, or refused.
use os_from_zero.Elf.Load.Bounds.{Within}
use os_from_zero.Elf.{ElfHeader, ElfPhdr}
use os_from_zero.Base.{
  ℕ, ◌+◌, ◌-◌, ◌%◌, ◌^◌, ◌<◌, ◌≤◌, ◌≡◌, refl, ap, List, arith, add64, sub64, leb, ltb, ◌&&◌,
  if◌then◌else◌, true, false, some, inl, inr, ◌⊎◌, ◌∙◌,
}
use os_from_zero.Elf.Memory.{Bytes, program_size, align8, memset, program_malloc}
use os_from_zero.Elf.Memory.Blocks.{memset_lem}
use os_from_zero.Elf.Memory.Malloc.{program_malloc-frame, program_malloc-cases}
use os_from_zero.Elf.Load.{ProgramMemory, ProgramLoadResult, Extent, place, load_segments, failed}
use os_from_zero.Elf.Load.Segments.{AllSound, image_byte, load_segments_safe, image_byte-outside}

-- The allocator's offset is aligned and inside of `program_memory`.
pub record IsReady (pm : ProgramMemory) : Type 0 where
  pub fits : pm.offset ≤ program_size
  pub aligned : pm.offset % 8 ≡ 0

-- Memory with a block of zeros.
abbrev pub cleared_byte : Bytes → ℕ → ℕ → ℕ → ℕ
cleared_byte m base size i = if leb base i && ltb i (base + size) then 0 else m i

cleared_outside :
    (m : Bytes) (base size i : ℕ)
    → (i < base) ⊎ (base + size ≤ i)
    → cleared_byte m base size i ≡ m i
cleared_outside m base size i (inl below) = ground arith
cleared_outside m base size i (inr above) = ground arith

-- The result of a load that succeeded: the program has the block from the old offset on, and no
-- byte outside of it has changed. The block was cleared, and holds the LOAD segments.
pub record Loaded (pm : ProgramMemory) (data_bytes : List ℕ) (h : ElfHeader) (ps : List ElfPhdr)
    (e : Extent) (r : ProgramLoadResult × ProgramMemory) : Type 0 where
  pub success : r.0.success ≡ true
  pub block : r.0.allocated_memory ≡ some (add64 pm.address pm.offset)
  pub size : r.0.memory_size ≡ e.highest - e.lowest
  pub entry : r.0.entry_point ≡ add64 (sub64 h.e_entry e.lowest) (add64 pm.address pm.offset)
  pub ready : IsReady r.1
  pub room : pm.offset + r.0.memory_size ≤ r.1.offset
  pub kept :
      (i : ℕ)
      → (i < pm.offset) ⊎ (pm.offset + (e.highest - e.lowest) ≤ i)
      → r.1.bytes i ≡ pm.bytes i
  pub image :
      (i : ℕ)
      → r.1.bytes i
        ≡ image_byte data_bytes pm.offset e.lowest ps i
            (cleared_byte pm.bytes pm.offset (e.highest - e.lowest) i)

-- The result of a load whose extent, rounded up, is more than what is left of the memory.
pub record Refused (pm : ProgramMemory) (e : Extent) (r : ProgramLoadResult × ProgramMemory)
    : Type 0 where
  pub failure : r.0.success ≡ false
  pub message : r.0.error_msg ≡ "Failed to allocate memory for program"
  pub lack : program_size < pm.offset + align8 (e.highest - e.lowest)
  pub unchanged : r.1 ≡ pm

abbrev pub result_at : ProgramMemory → ElfHeader → Extent → ℕ → ℕ → ProgramLoadResult
result_at pm h e base total = record {
  success = true;
  entry_point = add64 (sub64 h.e_entry e.lowest) (add64 pm.address base);
  allocated_memory = some (add64 pm.address base);
  memory_size = total;
  error_msg = "Program loaded successfully";
}

-- The steps of `place` after one another, once each of them is known to run.
pub place_runs :
    (pm : ProgramMemory) (data_bytes : List ℕ) (h : ElfHeader) (ps : List ElfPhdr) (e : Extent)
    (base total next : ℕ) (m₁ m₂ : Bytes)
    → sub64 e.highest e.lowest ≡ total
    → program_malloc pm.offset total ≡ (some base, next)
    → memset pm.bytes base 0 total ≡ some m₁
    → load_segments data_bytes base e.lowest ps m₁ ≡ some m₂
    → place pm data_bytes h ps e
      ≡ some (result_at pm h e base total, record pm { bytes = m₂; offset = next })
unfolding place
place_runs pm data_bytes h ps e base total next m₁ m₂ size alloc clear load =
    rw (size, alloc) (rw (size, clear, load))

module _ (pm : ProgramMemory) (data_bytes : List ℕ) (h : ElfHeader) (ps : List ElfPhdr) (e : Extent)
    (ready : IsReady pm) (ordered : e.lowest ≤ e.highest) (small : e.highest - e.lowest ≤ 2 ^ 63)
    (top : e.highest < 2 ^ 64) (sound : AllSound data_bytes ps)
    (within : Within e.lowest e.highest ps) where
  loaded :
      (next : ℕ)
      → program_malloc pm.offset (e.highest - e.lowest) ≡ (some pm.offset, next)
      → (r : ProgramLoadResult × ProgramMemory) × (place pm data_bytes h ps e ≡ some r)
        × Loaded pm data_bytes h ps e r
  loaded next alloc =
      let fresh =
        program_malloc-frame pm.offset (e.highest - e.lowest) next ready.fits ready.aligned small
          alloc in
      let (m₁, run₁, cells) =
        memset_lem pm.bytes pm.offset 0 (e.highest - e.lowest) (omega arith) in
      let (m₂, run₂, same) =
        load_segments_safe data_bytes pm.offset e.lowest e.highest ps m₁ sound within top
          (omega arith) in
      (
        (
          result_at pm h e pm.offset (e.highest - e.lowest),
          record pm { bytes = m₂; offset = next },
        ),
        place_runs pm data_bytes h ps e pm.offset _ next m₁ m₂ (omega arith) alloc run₁ run₂,
        record {
          success = refl;
          block = refl;
          size = refl;
          entry = refl;
          ready = record { fits = omega arith; aligned = fresh.2 };
          room = fresh.0;
          kept = λ i out.
              same i
              ∙ (image_byte-outside data_bytes pm.offset e.lowest e.highest ps i (m₁ i) sound within
                    out
                  ∙ (cells i ∙ cleared_outside pm.bytes pm.offset (e.highest - e.lowest) i out));
          image = λ i. same i ∙ ap (λ b. image_byte data_bytes pm.offset e.lowest ps i b) (cells i);
        },
      )

  -- From an aligned offset, LOAD segments that are sound and lie between bounds of at most 2 ^ 63
  -- bytes are loaded into the next free block: each segment stands there with its bytes of the
  -- file and zeros up to its size, in a block that was cleared, and no byte elsewhere changes. If
  -- the rounded extent is more than the memory that is left, they are refused, with nothing
  -- changed. There is no fault, and the allocator is ready again.
  pub place-safe :
      (r : ProgramLoadResult × ProgramMemory) × (place pm data_bytes h ps e ≡ some r)
      × (Refused pm e r ⊎ Loaded pm data_bytes h ps e r)
  unfolding place
  place-safe = elim (program_malloc-cases pm.offset (e.highest - e.lowest) ready.fits small) [
    | inl (full, lack) ↦
        let total : sub64 e.highest e.lowest ≡ e.highest - e.lowest = omega arith in
        (
          (failed "Failed to allocate memory for program", pm),
          rw (total, full),
          inl (record { failure = refl; message = refl; lack = lack; unchanged = refl }),
        )
    | inr (next, alloc) ↦ let (r, run, done) = loaded next alloc in (r, run, inr done)
  ]
