-- ===== src/Strings/Strncpy.antt =====
-- strncpy of string.c: how many bytes it writes, and the text that its callers get.
use os_from_zero.Strings.{strlen, strncpy}
use mathlib.Core.Option
use os_from_zero.Base.{
  ℕ, zero, suc, ◌<◌, ◌≤◌, ◌≡◌, refl, none, some, List, [], ◌∷◌, arith, ◌==◌, length, set, take,
  Bool-cases, Option-cases, inl, inr,
}
use os_from_zero.Strings.Text.{c_text, pad_fits, pad_overflow}

pub strncpy_fits :
    (dest src : List ℕ) (n : ℕ)
    → n < length dest
    → (d : List ℕ) × (strncpy dest src n ≡ some d)
      × (length d ≡ length dest)
      × (c_text (set d n 0) ≡ take n (c_text src))
unfolding strncpy c_text
strncpy_fits [] src zero h = absurd (omega arith)
strncpy_fits (x ∷ dest) src zero h = (x ∷ dest, refl, refl, refl)
strncpy_fits [] src (suc n) h = absurd (omega arith)
strncpy_fits (x ∷ dest) [] (suc n) h =
    let (d, e, l) = pad_fits dest (suc n) (omega arith) in (0 ∷ d, rw e, omega arith, refl)
strncpy_fits (x ∷ dest) (c ∷ src) (suc n) h = elim (Bool-cases (c == 0)) [
  | inl e ↦
      let (d, run, l) = pad_fits dest (suc n) (omega arith) in
      (0 ∷ d, rw (e, run), omega arith, rw e)
  | inr e ↦
      let (d, run, len, text) = strncpy_fits dest src n (omega arith) in
      (c ∷ d, rw (e, run), omega arith, rw (e, text))
]

-- A text shorter than `n` makes strncpy write `n + 1` bytes: a buffer of `n` bytes overflows.
pub strncpy_overflow :
    (dest src : List ℕ) (n : ℕ) → length dest ≤ n → strlen src < n → strncpy dest src n ≡ none
unfolding strncpy strlen
strncpy_overflow dest src zero h k = absurd (omega arith)
strncpy_overflow [] src (suc n) h k = refl
strncpy_overflow (x ∷ dest) [] (suc n) h k = rw (pad_overflow dest (suc n) (omega arith))
strncpy_overflow (x ∷ dest) (c ∷ src) (suc n) h k = elim (Bool-cases (c == 0)) [
  | inl e ↦ rw (e, pad_overflow dest (suc n) (omega arith))
  | inr e ↦ rw (e, strncpy_overflow dest src n (omega arith) (ground arith))
]

strncpy_more :
    (dest src : List ℕ) (n c : ℕ) (d : List ℕ)
    → Option.map (λ (r : List ℕ). c ∷ r) (strncpy dest src n) ≡ some d
    → (d' : List ℕ) × (strncpy dest src n ≡ some d') × (d ≡ c ∷ d')
strncpy_more dest src n c d h = elim (Option-cases (strncpy dest src n)) [
  | inl e ↦ cc
  | inr (d', e) ↦ (d', e, ground arith)
]

-- Once the byte at `n` is set to 0, the buffer holds the first `n` bytes of the text.
pub strncpy_text :
    (dest src : List ℕ) (n : ℕ) (d : List ℕ)
    → strncpy dest src n ≡ some d
    → c_text (set d n 0) ≡ take n (c_text src)
unfolding strncpy c_text
strncpy_text [] src zero d h = ground arith
strncpy_text (x ∷ dest) src zero d h = ground arith
strncpy_text [] src (suc n) d h = ground arith
strncpy_text (x ∷ dest) [] (suc n) d h = ground arith
strncpy_text (x ∷ dest) (c ∷ src) (suc n) d h = elim (Bool-cases (c == 0)) [
  | inl e ↦ ground arith
  | inr e ↦
      let (d', run, same) = strncpy_more dest src n c d (rw e at h) in
      rw (same, e) (ground (arith, strncpy_text dest src n d' run))
]
