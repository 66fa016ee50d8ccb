-- ===== src/Memory.antt =====
-- kernel/src/main.c: memmove and memcmp. Both blocks of memmove lie in one memory of `size` bytes,
-- and may overlap; an access outside of it is a fault.
mod Tests
pub mod Move
use os_from_zero.Base.{
  ℕ, zero, suc, ◌+◌, ◌-◌, not, Option, none, some, List, ◌==◌, ltb, if◌then◌else◌, get_elem?, ◌>>=◌,
}
use os_from_zero.Base.Int.{ℤ, pos, negsuc}

abbrev pub Bytes : Type 0
Bytes = ℕ → ℕ

module _ (size : ℕ) where
  abbrev pub load : Bytes → ℕ → Option ℕ
  load m i = if ltb i size then some (m i) else none

  abbrev pub store : Bytes → ℕ → ℕ → Option Bytes
  store m i v = if ltb i size then some (λ j. if j == i then v else m j) else none

  -- The first loop, from the front.
  unfoldable pub move_up : Bytes → ℕ → ℕ → ℕ → Option Bytes
  move_up m dest src zero = some m
  move_up m dest src (suc n) = do
    v ← load m src
    m' ← store m dest v
    move_up m' (dest + 1) (src + 1) n

  -- The second loop, from the back.
  unfoldable pub move_down : Bytes → ℕ → ℕ → ℕ → Option Bytes
  move_down m dest src zero = some m
  move_down m dest src (suc n) = do
    v ← load m (src + n)
    m' ← store m (dest + n) v
    move_down m' dest src n

  unfoldable pub memmove : Bytes → ℕ → ℕ → ℕ → Option Bytes
  unfolding move_up move_down
  memmove m dest src n =
      if ltb dest src
      then move_up m dest src n
      else if ltb src dest
      then move_down m dest src n
      else some m

-- `for (size_t i = 0; i < n; i++)`, with the rounds left.
unfoldable pub memcmp_from : List ℕ → List ℕ → ℕ → ℕ → Option ℤ
memcmp_from s1 s2 i zero = some (pos 0)
memcmp_from s1 s2 i (suc rounds) =
    let rest = memcmp_from s1 s2 (i + 1) rounds in
    (do
      a ← get_elem? s1 i
      b ← get_elem? s2 i
      if not (a == b) then some (if ltb a b then negsuc 0 else pos 1) else rest)

unfoldable pub memcmp : List ℕ → List ℕ → ℕ → Option ℤ
unfolding memcmp_from
memcmp s1 s2 n = memcmp_from s1 s2 0 n
