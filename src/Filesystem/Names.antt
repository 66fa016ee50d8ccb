-- ===== src/Filesystem/Names.antt =====
-- When a file that has been given a name answers to a name.
use os_from_zero.Base.{
  ℕ, zero, suc, ◌<◌, ◌≤◌, ◌≡◌, ◌↔◌, refl, true, false, List, [], ◌∷◌, arith, length, take,
  Bool-cases, inl, inr, ap, sym, ◌∙◌,
}
use os_from_zero.Strings.Text.{c_text}
use os_from_zero.Filesystem.{same_name, copy_name}

same-eq : (s t : List ℕ) → same_name s t ≡ true → c_text s ≡ c_text t
unfolding same_name c_text
same-eq [] [] h = refl
same-eq [] (d ∷ t) h = ground arith
same-eq (c ∷ s) [] h = ground arith
same-eq (c ∷ s) (d ∷ t) h = ground (arith, same-eq s t)

eq-same : (s t : List ℕ) → c_text s ≡ c_text t → same_name s t ≡ true
unfolding same_name c_text
eq-same [] [] h = refl
eq-same [] (d ∷ t) h = ground arith
eq-same (c ∷ s) [] h = ground arith
eq-same (c ∷ s) (d ∷ t) h = ground (arith, eq-same s t)

-- Two names are the same exactly when their texts are.
pub same_name_iff : (s t : List ℕ) → (same_name s t ≡ true) ↔ (c_text s ≡ c_text t)
same_name_iff s t = (same-eq s t, eq-same s t)

pub same_name-text : (s n m : List ℕ) → c_text n ≡ c_text m → same_name s n ≡ same_name s m
same_name-text s n m e = elim (Bool-cases (same_name s n)) [
  | inl h ↦ h ∙ sym (eq-same s m (same-eq s n h ∙ e))
  | inr h ↦ elim (Bool-cases (same_name s m)) [
    | inr h' ↦ h ∙ sym h'
    | inl h' ↦ absurd (ground (arith, eq-same s n (same-eq s m h' ∙ sym e)))
  ]
]

-- A name buffer receives as much of the text as it has room for,
pub c_text-copy_name :
    (dest src : List ℕ) → c_text (copy_name dest src) ≡ take (length dest) (c_text src)
unfolding copy_name c_text
c_text-copy_name [] src = refl
c_text-copy_name (x ∷ dest) [] = refl
c_text-copy_name (x ∷ dest) (c ∷ src) = ground (arith, c_text-copy_name dest src)

-- and keeps its length.
pub length-copy_name : (dest src : List ℕ) → length (copy_name dest src) ≡ length dest
unfolding copy_name
length-copy_name [] src = refl
length-copy_name (x ∷ dest) [] = refl
length-copy_name (x ∷ dest) (c ∷ src) = ground (arith, length-copy_name dest src)

pub take-length : (s : List ℕ) (n : ℕ) → length s ≤ n → take n s ≡ s
take-length [] zero h = refl
take-length [] (suc n) h = refl
take-length (c ∷ s) zero h = absurd (omega arith)
take-length (c ∷ s) (suc n) h = ground (arith, take-length s n)

length-take_le : (s : List ℕ) (n : ℕ) → length (take n s) ≤ n
length-take_le s zero = omega arith
length-take_le [] (suc n) = omega arith
length-take_le (c ∷ s) (suc n) = omega (arith, length-take_le s n)

-- A name of at most as many bytes as the buffer has is found again.
pub same-copy_name :
    (dest src : List ℕ)
    → length (c_text src) ≤ length dest
    → same_name (copy_name dest src) src ≡ true
same-copy_name dest src h =
    eq-same (copy_name dest src) src
      (rw (c_text-copy_name dest src) (take-length (c_text src) (length dest) h))

-- A longer one is not: it is cut.
pub same-copy_name_long :
    (dest src : List ℕ)
    → length dest < length (c_text src)
    → same_name (copy_name dest src) src ≡ false
same-copy_name_long dest src h = elim (Bool-cases (same_name (copy_name dest src) src)) [
  | inr e ↦ e
  | inl e ↦
      let cut = same-eq (copy_name dest src) src e in
      absurd (
        omega (
          arith,
          length-take_le (c_text src) (length dest),
          ap length (sym (c_text-copy_name dest src) ∙ cut),
        ))
]
