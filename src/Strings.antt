-- ===== src/Strings.antt =====
-- kernel/src/string.c, and the memory routines of kernel/src/main.c.
-- A C string is the list of the bytes from its pointer on: reading stops at the first 0, and the
-- byte behind the last element of the list is a 0. A buffer that is written to is the list of its
-- bytes, all of them; a write behind its end is the fault `none`.
pub mod Text
pub mod Strncpy
pub mod Compare
mod Tests
use mathlib.Core.Option
use os_from_zero.Base.{
  ℕ, zero, suc, ◌+◌, ◌-◌, Bool, true, false, ◌&&◌, not, Option, none, some, List, [], ◌∷◌, ◌==◌,
  ltb, if◌then◌else◌,
}
use os_from_zero.Base.Int.{ℤ, sub_ℕ, pos, negsuc}

-- `*s` and `s + 1`
abbrev pub head : List ℕ → ℕ
head [] = 0
head (c ∷ s) = c

abbrev pub tail : List ℕ → List ℕ
tail [] = []
tail (c ∷ s) = s

-- The loop stops at the first 0.
unfoldable pub strlen : List ℕ → ℕ
strlen [] = 0
strlen (c ∷ s) = if c == 0 then 0 else suc (strlen s)

-- While both strings agree and the first goes on, step; then subtract the bytes that differ.
unfoldable pub strcmp : List ℕ → List ℕ → ℤ
strcmp [] t = sub_ℕ 0 (head t)
strcmp (c ∷ s) [] = sub_ℕ c 0
strcmp (c ∷ s) (d ∷ t) =
    let rest = strcmp s t in if not (c == 0) && (c == d) then rest else sub_ℕ c d

unfoldable pub strncmp : List ℕ → List ℕ → ℕ → ℤ
strncmp s t zero = pos 0
strncmp s t (suc n) =
    let rest = strncmp (tail s) (tail t) n in
    if not (head s == 0) && (head s == head t) then rest else sub_ℕ (head s) (head t)

-- `dest` is the whole buffer.
unfoldable pub strcpy : List ℕ → List ℕ → Option (List ℕ)
strcpy [] src = none
strcpy (x ∷ dest) [] = some (0 ∷ dest)
strcpy (x ∷ dest) (c ∷ src) =
    let rest = strcpy dest src in if c == 0 then some (0 ∷ dest) else Option.map (λ d. c ∷ d) rest

-- `while (n--) *dest++ = 0;`
unfoldable pub pad : List ℕ → ℕ → Option (List ℕ)
pad dest zero = some dest
pad [] (suc n) = none
pad (x ∷ dest) (suc n) = Option.map (λ d. 0 ∷ d) (pad dest n)

-- The first loop leaves `n` as it is when the byte that it has copied is the 0; the second loop
-- then writes `n` more.
unfoldable pub strncpy : List ℕ → List ℕ → ℕ → Option (List ℕ)
unfolding pad
strncpy dest src zero = some dest
strncpy [] src (suc n) = none
strncpy (x ∷ dest) [] (suc n) = Option.map (λ d. 0 ∷ d) (pad dest (suc n))
strncpy (x ∷ dest) (c ∷ src) (suc n) =
    let rest = strncpy dest src n in
    if c == 0 then Option.map (λ d. 0 ∷ d) (pad dest (suc n)) else Option.map (λ d. c ∷ d) rest

-- The first loop looks for the end of `dest`, the second is that of strcpy.
unfoldable pub strcat : List ℕ → List ℕ → Option (List ℕ)
unfolding strcpy
strcat [] src = none
strcat (x ∷ dest) src =
    let rest = strcat dest src in
    if x == 0 then strcpy (x ∷ dest) src else Option.map (λ d. x ∷ d) rest
