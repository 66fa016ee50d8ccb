-- ===== src/Strings/Text.antt =====
-- The text that a buffer holds, and what the copying routines of string.c leave in a buffer.
use os_from_zero.Strings.{pad, strcpy, strlen}
use os_from_zero.Base.{
  ℕ, zero, suc, ◌<◌, ◌≤◌, ◌≡◌, ◌≢◌, refl, none, some, List, [], ◌∷◌, arith, ◌==◌, length,
  Bool-cases, inl, inr, if◌then◌else◌,
}

-- The bytes before the first 0.
unfoldable pub c_text : List ℕ → List ℕ
c_text [] = []
c_text (c ∷ s) = if c == 0 then [] else c ∷ c_text s

-- A text without a 0 in it.
abbrev pub NoNul : List ℕ → Type 0
NoNul [] = Unit {0}
NoNul (c ∷ s) = (c ≢ 0) × NoNul s

-- strlen counts the bytes before the first 0, wherever the buffer goes on behind it.
pub strlen-eq-length : (s : List ℕ) → strlen s ≡ length (c_text s)
unfolding strlen c_text
strlen-eq-length [] = refl
strlen-eq-length (c ∷ s) = ground (arith, strlen-eq-length s)

pub c_text_of_NoNul : (s : List ℕ) → NoNul s → c_text s ≡ s
unfolding c_text
c_text_of_NoNul [] h = refl
c_text_of_NoNul (c ∷ s) h = ground (arith, c_text_of_NoNul s h.1)

pub c_text-NoNul : (s : List ℕ) → NoNul (c_text s)
unfolding c_text
c_text-NoNul [] = tt
c_text-NoNul (c ∷ s) = ground (arith, c_text-NoNul s)

pub pad_fits :
    (dest : List ℕ) (n : ℕ)
    → n ≤ length dest
    → (d : List ℕ) × (pad dest n ≡ some d) × (length d ≡ length dest)
unfolding pad
pad_fits dest zero h = (dest, refl, refl)
pad_fits [] (suc n) h = absurd (omega arith)
pad_fits (x ∷ dest) (suc n) h =
    let (d, e, l) = pad_fits dest n (omega arith) in (0 ∷ d, rw e, omega arith)

pub pad_overflow : (dest : List ℕ) (n : ℕ) → length dest < n → pad dest n ≡ none
unfolding pad
pad_overflow [] zero h = absurd (omega arith)
pad_overflow [] (suc n) h = refl
pad_overflow (x ∷ dest) zero h = absurd (omega arith)
pad_overflow (x ∷ dest) (suc n) h = rw (pad_overflow dest n (omega arith))

-- strcpy succeeds when the text and its 0 fit, and leaves just that text in the buffer.
pub strcpy_lem :
    (dest src : List ℕ)
    → strlen src < length dest
    → (d : List ℕ) × (strcpy dest src ≡ some d) × (c_text d ≡ c_text src) × (length d ≡ length dest)
unfolding strcpy c_text strlen
strcpy_lem [] src h = absurd (omega arith)
strcpy_lem (x ∷ dest) [] h = (0 ∷ dest, refl, refl, refl)
strcpy_lem (x ∷ dest) (c ∷ src) h = elim (Bool-cases (c == 0)) [
  | inl e ↦ (0 ∷ dest, rw e, rw e, refl)
  | inr e ↦
      let (d, run, text, len) = strcpy_lem dest src (ground arith) in
      (c ∷ d, rw (e, run), rw (e, text), omega arith)
]

-- strcpy writes behind the end of the buffer when the text and its 0 do not fit.
pub strcpy_overflow : (dest src : List ℕ) → length dest ≤ strlen src → strcpy dest src ≡ none
unfolding strcpy strlen
strcpy_overflow [] src h = refl
strcpy_overflow (x ∷ dest) [] h = absurd (omega arith)
strcpy_overflow (x ∷ dest) (c ∷ src) h = ground (arith, strcpy_overflow dest src)
