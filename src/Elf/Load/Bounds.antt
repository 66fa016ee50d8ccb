-- ===== src/Elf/Load/Bounds.antt =====
-- The bounds that the first loop of elf_load_program finds.
use os_from_zero.Base.{ℕ, ◌+◌, ◌^◌, ◌<◌, ◌≤◌, ◌≡◌, List, [], ◌∷◌, arith, ◌==◌, if◌then◌else◌}
use os_from_zero.Elf.{ElfPhdr, pt_load}
use os_from_zero.Elf.Load.{Extent, widen, measure}

-- The LOAD segments whose bytes lie between two addresses, and end without wrapping.
abbrev pub Within : ℕ → ℕ → List ElfPhdr → Type 0
Within lo hi [] = Unit {0}
Within lo hi (p ∷ ps) =
    (p.p_type ≡ pt_load → (lo ≤ p.p_vaddr) × (p.p_vaddr + p.p_memsz ≤ hi)) × Within lo hi ps

-- No LOAD segment wraps round the address space.
abbrev pub NoWrap : List ElfPhdr → Type 0
NoWrap [] = Unit {0}
NoWrap (p ∷ ps) = (p.p_type ≡ pt_load → p.p_vaddr + p.p_memsz < 2 ^ 64) × NoWrap ps

measure-widens :
    (ps : List ElfPhdr) (e : Extent)
    → ((measure ps e).lowest ≤ e.lowest) × (e.highest ≤ (measure ps e).highest)
unfolding measure
measure-widens [] e = omega arith
measure-widens (p ∷ ps) e =
    ground (arith, measure-widens ps (if p.p_type == pt_load then widen p e else e))

-- Every LOAD segment that does not wrap lies between the bounds that the first loop finds.
pub measure-Within :
    (ps : List ElfPhdr) (e : Extent)
    → NoWrap ps
    → Within (measure ps e).lowest (measure ps e).highest ps
unfolding measure
measure-Within [] e h = tt
measure-Within (p ∷ ps) e h =
    let e' = (if p.p_type == pt_load then widen p e else e) in
    (λ load. let (lo, hi) = measure-widens ps e' in ground arith, measure-Within ps e' h.1)
