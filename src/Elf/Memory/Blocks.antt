-- ===== src/Elf/Memory/Blocks.antt =====
-- What memset and memcpy leave in memory.
use os_from_zero.Base.{
  ℕ, zero, suc, ◌+◌, ◌-◌, ◌%◌, ◌<◌, ◌≤◌, ◌≡◌, refl, ◌&&◌, none, some, List, [], ◌∷◌, arith, ◌==◌,
  ltb, leb, if◌then◌else◌, get_elem?, get_or, length, lt→ltb, ap,
}
use os_from_zero.Elf.Memory.{Bytes, program_size, store, memset, memcpy}

pub store_in :
    (m : Bytes) (at v : ℕ)
    → at < program_size
    → store m at v ≡ some (λ i. if i == at then v else m i)
unfolding store
store_in m at v h = rw (lt→ltb at program_size h)

pub store_out : (m : Bytes) (at v : ℕ) → program_size ≤ at → store m at v ≡ none
unfolding store
store_out m at v h = ground arith

pub get_elem?-eq-get_or :
    (xs : List ℕ) (i : ℕ) → i < length xs → get_elem? xs i ≡ some (get_or xs i 0)
get_elem?-eq-get_or [] i h = absurd (omega arith)
get_elem?-eq-get_or (x ∷ xs) zero h = refl
get_elem?-eq-get_or (x ∷ xs) (suc i) h = get_elem?-eq-get_or xs i (omega arith)

-- memset sets the bytes of the block and no others, if the block lies in memory.
pub memset_lem :
    (m : Bytes) (dest c n : ℕ)
    → dest + n ≤ program_size
    → (m' : Bytes) × (memset m dest c n ≡ some m')
      × ((i : ℕ) → m' i ≡ (if leb dest i && ltb i (dest + n) then c % 256 else m i))
unfolding memset
memset_lem m dest c zero h = (m, refl, λ i. ground arith)
memset_lem m dest c (suc n) h =
    let (m', run, cells) =
      memset_lem (λ i. if i == dest then c % 256 else m i) (dest + 1) c n (omega arith) in
    (m', rw (store_in m dest (c % 256) (omega arith)) run, λ i. ground (arith, cells i))

later :
    (source : List ℕ) (from dest i : ℕ)
    → dest < i
    → get_or source (from + 1 + (i - (dest + 1))) 0 ≡ get_or source (from + (i - dest)) 0
later source from dest i h = ap (λ k. get_or source k 0) (omega arith)

first :
    (source : List ℕ) (from dest i : ℕ)
    → i ≡ dest
    → get_or source from 0 ≡ get_or source (from + (i - dest)) 0
first source from dest i h = ap (λ k. get_or source k 0) (omega arith)

-- memcpy copies the block and changes no other byte, if both blocks lie in their buffers.
pub memcpy_lem :
    (m : Bytes) (dest : ℕ) (source : List ℕ) (from n : ℕ)
    → dest + n ≤ program_size
    → from + n ≤ length source
    → (m' : Bytes) × (memcpy m dest source from n ≡ some m')
      × ((i : ℕ)
          → m' i
            ≡ (if leb dest i && ltb i (dest + n) then get_or source (from + (i - dest)) 0 else m i))
unfolding memcpy
memcpy_lem m dest source from zero h k = (m, refl, λ i. ground arith)
memcpy_lem m dest source from (suc n) h k =
    let b = get_or source from 0 in
    let (m', run, cells) =
      memcpy_lem (λ i. if i == dest then b else m i) (dest + 1) source (from + 1) n (omega arith)
        (omega arith) in
    (
      m',
      rw (get_elem?-eq-get_or source from (omega arith), store_in m dest b (omega arith)) run,
      λ i. ground (arith, cells i, later source from dest i, first source from dest i),
    )
