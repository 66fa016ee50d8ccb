-- ===== src/Memory/Move.antt =====
-- memmove on blocks that overlap.
use os_from_zero.Base.{
  ℕ, zero, suc, ◌+◌, ◌-◌, ◌<◌, ◌≤◌, ◌≡◌, refl, ap, ◌∙◌, ◌&&◌, some, arith, ◌==◌, ltb, leb, lt→ltb,
  if◌then◌else◌, if_true, if_false, Bool-cases, inl, inr, ltb→lt,
}
use os_from_zero.Memory.{Bytes, move_up, move_down, memmove}

-- The block of `n` bytes at `src`, as it was, stands at `dest`; nothing else has changed.
abbrev pub IsMoved : Bytes → Bytes → ℕ → ℕ → ℕ → Type 0
IsMoved m m' dest src n =
    (i : ℕ) → m' i ≡ (if leb dest i && ltb i (dest + n) then m (src + (i - dest)) else m i)

module _ (size : ℕ) where
  move_up_lem :
      (m : Bytes) (dest src n : ℕ)
      → dest < src
      → src + n ≤ size
      → (m' : Bytes) × (move_up size m dest src n ≡ some m') × IsMoved m m' dest src n
  unfolding move_up
  move_up_lem m dest src zero lt fits = (m, refl, λ i. ground arith)
  move_up_lem m dest src (suc n) lt fits =
      let m₁ : Bytes = λ j. if j == dest then m src else m j in
      let (m', run, cells) = move_up_lem m₁ (dest + 1) (src + 1) n (omega arith) (omega arith) in
      (
        m',
        rw (lt→ltb src size (omega arith), lt→ltb dest size (omega arith)) run,
        λ i. ground (
          arith,
          cells i,
          (λ (h : dest < i).
              ap m (let e : src + 1 + (i - (dest + 1)) ≡ src + (i - dest) = omega arith in e)),
          (λ (h : i ≡ dest). ap m (let e : src ≡ src + (i - dest) = omega arith in e)),
        ),
      )

  move_down_lem :
      (m : Bytes) (dest src n : ℕ)
      → src < dest
      → dest + n ≤ size
      → (m' : Bytes) × (move_down size m dest src n ≡ some m') × IsMoved m m' dest src n
  unfolding move_down
  move_down_lem m dest src zero lt fits = (m, refl, λ i. ground arith)
  move_down_lem m dest src (suc n) lt fits =
      let m₁ : Bytes = λ j. if j == dest + n then m (src + n) else m j in
      let (m', run, cells) = move_down_lem m₁ dest src n lt (omega arith) in
      (
        m',
        rw (lt→ltb (src + n) size (omega arith), lt→ltb (dest + n) size (omega arith)) run,
        λ i. ground (
          arith,
          cells i,
          (λ (h : i ≡ dest + n). ap m (let e : src + n ≡ src + (i - dest) = omega arith in e)),
        ),
      )

  -- memmove never faults on two blocks that lie in memory, however they overlap: the bytes that
  -- stood at the source stand at the destination, and no other byte has changed.
  pub memmove_lem :
      (m : Bytes) (dest src n : ℕ)
      → dest + n ≤ size
      → src + n ≤ size
      → (m' : Bytes) × (memmove size m dest src n ≡ some m') × IsMoved m m' dest src n
  unfolding memmove
  memmove_lem m dest src n to from = elim (Bool-cases (ltb dest src)) [
    | inl up ↦
        let (m', run, cells) = move_up_lem m dest src n (ltb→lt dest src up) from in
        (m', if_true _ _ _ up ∙ run, cells)
    | inr no_up ↦ elim (Bool-cases (ltb src dest)) [
      | inl down ↦
          let (m', run, cells) = move_down_lem m dest src n (ltb→lt src dest down) to in
          (m', if_false _ _ _ no_up ∙ (if_true _ _ _ down ∙ run), cells)
      | inr no_down ↦ (
        m,
        if_false _ _ _ no_up ∙ if_false _ _ _ no_down,
        λ i.
            ground
              (arith, (λ (h : dest ≤ i). ap m (let e : i ≡ src + (i - dest) = ground arith in e))),
      )
    ]
  ]
