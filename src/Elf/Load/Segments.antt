-- ===== src/Elf/Load/Segments.antt =====
-- The second loop of elf_load_program writes inside the block that was allocated.
use os_from_zero.Base.{
  ℕ, ◌+◌, ◌-◌, ◌^◌, ◌<◌, ◌≤◌, ◌≡◌, refl, ap, sym, if_true, if_false, List, [], ◌∷◌, arith, ◌==◌,
  ltb, leb, ◌&&◌, if◌then◌else◌, add64, sub64, some, length, get_or, Bool-cases, inl, inr, ltb→lt,
  ==_iff, ◌⊎◌, ◌∙◌,
}
use os_from_zero.Elf.{ElfPhdr, pt_load}
use os_from_zero.Elf.Memory.{Bytes, program_size, memset, memcpy}
use os_from_zero.Elf.Memory.Blocks.{memset_lem, memcpy_lem}
use os_from_zero.Elf.Load.{load_segment, load_segments}
use os_from_zero.Elf.Load.Bounds.{Within}

-- What the loader needs of a segment, and does not test: its bytes lie in the file, and there are
-- no more of them than the segment has in memory.
pub record IsSound (data_bytes : List ℕ) (p : ElfPhdr) : Type 0 where
  pub in_file : p.p_offset + p.p_filesz ≤ length data_bytes
  pub no_more : p.p_filesz ≤ p.p_memsz

abbrev pub AllSound : List ℕ → List ElfPhdr → Type 0
AllSound data_bytes [] = Unit {0}
AllSound data_bytes (p ∷ ps) = (p.p_type ≡ pt_load → IsSound data_bytes p) × AllSound data_bytes ps

-- The byte at index `i` of memory, which was `old`, when a segment stands at `dest`: the segment has
-- its bytes of the file, then zeros, and the old bytes are around it.
abbrev pub segment_byte : List ℕ → ElfPhdr → ℕ → ℕ → ℕ → ℕ
segment_byte data_bytes p dest i old =
    if leb dest i && ltb i (dest + p.p_filesz)
    then get_or data_bytes (p.p_offset + (i - dest)) 0
    else if leb (dest + p.p_filesz) i && ltb i (dest + p.p_memsz)
    then 0
    else old

-- The byte at index `i` of memory, which was `old`, when the LOAD segments stand at their distances
-- from `lowest` behind `base`. Where two of them overlap, the later one decides.
abbrev pub image_byte : List ℕ → ℕ → ℕ → List ElfPhdr → ℕ → ℕ → ℕ
image_byte data_bytes base lowest [] i old = old
image_byte data_bytes base lowest (p ∷ ps) i old = image_byte data_bytes base lowest ps i (
    if p.p_type == pt_load
    then segment_byte data_bytes p (base + (p.p_vaddr - lowest)) i old
    else old)

copied :
    (data_bytes : List ℕ) (p : ElfPhdr) (dest : ℕ) (m : Bytes)
    → IsSound data_bytes p
    → dest + p.p_memsz ≤ program_size
    → (m' : Bytes) × ((if ltb 0 p.p_filesz
          then memcpy m dest data_bytes p.p_offset p.p_filesz
          else some m)
        ≡ some m')
      × ((i : ℕ)
          → m' i ≡ (
              if leb dest i && ltb i (dest + p.p_filesz)
              then get_or data_bytes (p.p_offset + (i - dest)) 0
              else m i))
copied data_bytes p dest m s h = elim (Bool-cases (ltb 0 p.p_filesz)) [
  | inl e ↦
      let (m', run, cells) =
        memcpy_lem m dest data_bytes p.p_offset p.p_filesz (omega arith) (omega arith) in
      (m', rw e run, cells)
  | inr e ↦ (m, rw e, λ i. ground arith)
]

cleared :
    (p : ElfPhdr) (dest : ℕ) (m : Bytes)
    → p.p_filesz ≤ p.p_memsz
    → dest + p.p_memsz ≤ program_size
    → (m' : Bytes) × ((if ltb p.p_filesz p.p_memsz
          then memset m (add64 dest p.p_filesz) 0 (p.p_memsz - p.p_filesz)
          else some m)
        ≡ some m')
      × ((i : ℕ)
          → m' i ≡ (if leb (dest + p.p_filesz) i && ltb i (dest + p.p_memsz) then 0 else m i))
cleared p dest m le h = elim (Bool-cases (ltb p.p_filesz p.p_memsz)) [
  | inl e ↦
      let at : add64 dest p.p_filesz ≡ dest + p.p_filesz = omega arith in
      let lt = ltb→lt p.p_filesz p.p_memsz e in
      let (m', run, cells) =
        memset_lem m (dest + p.p_filesz) 0 (p.p_memsz - p.p_filesz) (omega arith) in
      (
        m',
        rw e (ap (λ a. memset m a 0 (p.p_memsz - p.p_filesz)) at ∙ run),
        λ i. ground (arith, cells i),
      )
  | inr e ↦ (m, rw e, λ i. ground arith)
]

-- A sound segment whose place lies in memory is loaded there: its bytes of the file, zeros up to
-- its size in memory, and nothing else changes.
pub load_segment_lem :
    (data_bytes : List ℕ) (base lowest : ℕ) (p : ElfPhdr) (m : Bytes)
    → IsSound data_bytes p
    → lowest ≤ p.p_vaddr
    → p.p_vaddr < 2 ^ 64
    → base + (p.p_vaddr - lowest) + p.p_memsz ≤ program_size
    → (m' : Bytes) × (load_segment data_bytes base lowest p m ≡ some m')
      × ((i : ℕ) → m' i ≡ segment_byte data_bytes p (base + (p.p_vaddr - lowest)) i (m i))
unfolding load_segment
load_segment_lem data_bytes base lowest p m s lo small h =
    let dest = base + (p.p_vaddr - lowest) in
    let at : add64 base (sub64 p.p_vaddr lowest) ≡ dest = omega arith in
    let (m₁, run₁, cells₁) = copied data_bytes p dest m s h in
    let (m₂, run₂, cells₂) = cleared p dest m₁ s.no_more h in
    (m₂, rw (at, run₁) run₂, λ i. ground (arith, cells₁ i, cells₂ i))

-- If the block for the extent of the LOAD segments lies in memory, and each of them is sound, the
-- loop runs without a fault, and each byte of memory is then the one of the image.
pub load_segments_safe :
    (data_bytes : List ℕ) (base lowest highest : ℕ) (ps : List ElfPhdr) (m : Bytes)
    → AllSound data_bytes ps
    → Within lowest highest ps
    → highest < 2 ^ 64
    → base + (highest - lowest) ≤ program_size
    → (m' : Bytes) × (load_segments data_bytes base lowest ps m ≡ some m')
      × ((i : ℕ) → m' i ≡ image_byte data_bytes base lowest ps i (m i))
unfolding load_segments
load_segments_safe data_bytes base lowest highest [] m s w hi fits = (m, refl, λ i. refl)
load_segments_safe data_bytes base lowest highest (p ∷ ps) m s w hi fits =
    elim (Bool-cases (p.p_type == pt_load)) [
      | inr e ↦
          let (m', run, same) =
            load_segments_safe data_bytes base lowest highest ps m s.1 w.1 hi fits in
          (
            m',
            rw e run,
            λ i.
                same i
                ∙ ap (λ b. image_byte data_bytes base lowest ps i b)
                    (sym (if_false (p.p_type == pt_load) _ _ e)),
          )
      | inl e ↦
          let load = (==_iff p.p_type pt_load).0 e in
          let bounds = w.0 load in
          let (m₁, run₁, cells) =
            load_segment_lem data_bytes base lowest p m (s.0 load) bounds.0 (omega arith)
              (omega arith) in
          let (m', run, same) =
            load_segments_safe data_bytes base lowest highest ps m₁ s.1 w.1 hi fits in
          (
            m',
            rw (e, run₁) run,
            λ i.
                same i
                ∙ ap (λ b. image_byte data_bytes base lowest ps i b)
                    (cells i ∙ sym (if_true (p.p_type == pt_load) _ _ e)),
          )
    ]

-- A byte outside of the block is in no sound segment that lies between the bounds.
pub image_byte-outside :
    (data_bytes : List ℕ) (base lowest highest : ℕ) (ps : List ElfPhdr) (i old : ℕ)
    → AllSound data_bytes ps
    → Within lowest highest ps
    → (i < base) ⊎ (base + (highest - lowest) ≤ i)
    → image_byte data_bytes base lowest ps i old ≡ old
image_byte-outside data_bytes base lowest highest [] i old s w out = refl
image_byte-outside data_bytes base lowest highest (p ∷ ps) i old s w out =
    ap (λ b. image_byte data_bytes base lowest ps i b) around
    ∙ image_byte-outside data_bytes base lowest highest ps i old s.1 w.1 out
  where
    missed :
        IsSound data_bytes p
        → (lowest ≤ p.p_vaddr) × (p.p_vaddr + p.p_memsz ≤ highest)
        → (i < base) ⊎ (base + (highest - lowest) ≤ i)
        → segment_byte data_bytes p (base + (p.p_vaddr - lowest)) i old ≡ old
    missed sound bounds (inl below) = ground arith
    missed sound bounds (inr above) = ground arith

    around :
        (if p.p_type == pt_load
          then segment_byte data_bytes p (base + (p.p_vaddr - lowest)) i old
          else old)
        ≡ old
    around = elim (Bool-cases (p.p_type == pt_load)) [
      | inl e ↦
          let load = (==_iff p.p_type pt_load).0 e in
          if_true (p.p_type == pt_load) _ _ e ∙ missed (s.0 load) (w.0 load) out
      | inr e ↦ if_false (p.p_type == pt_load) _ _ e
    ]
