-- ===== src/Filesystem/Distinct.antt =====
-- No two files in use have the same name.
use os_from_zero.Base.{
  ℕ, zero, suc, ◌≡◌, ◌⊎◌, refl, true, false, none, some, List, [], ◌∷◌, arith, get_elem?, set,
  Bool-cases, inl, inr,
}
use os_from_zero.Filesystem.{File, is_named}
use os_from_zero.Filesystem.Lookup.{lookup}

-- A name of a file is not one of the files behind it.
abbrev pub Distinct : List File → Type 0
Distinct [] = Unit {0}
Distinct (f ∷ fs) = ((n : List ℕ) → is_named n f ≡ true → lookup n fs ≡ none) × Distinct fs

-- The names of `g` are names of `f`, or are new.
abbrev pub Renames : List File → File → File → Type 0
Renames fs f g = (n : List ℕ) → is_named n g ≡ true → (is_named n f ≡ true) ⊎ (lookup n fs ≡ none)

pub lookup-none-get :
    (n : List ℕ) (fs : List File) (k : ℕ) (f : File)
    → lookup n fs ≡ none
    → get_elem? fs k ≡ some f
    → is_named n f ≡ false
lookup-none-get n [] k f h stands = cc
lookup-none-get n (x ∷ fs) zero f h stands = ground arith
lookup-none-get n (x ∷ fs) (suc k) f h stands = ground (arith, lookup-none-get n fs k f)

pub lookup-set_unnamed :
    (n : List ℕ) (fs : List File) (k : ℕ) (g : File)
    → lookup n fs ≡ none
    → is_named n g ≡ false
    → lookup n (set fs k g) ≡ none
lookup-set_unnamed n [] k g h other = refl
lookup-set_unnamed n (x ∷ fs) zero g h other = ground arith
lookup-set_unnamed n (x ∷ fs) (suc k) g h other = ground (arith, lookup-set_unnamed n fs k g)

Renames-tail : (x : File) (fs : List File) (f g : File) → Renames (x ∷ fs) f g → Renames fs f g
Renames-tail x fs f g new n named = elim (new n named) [
  | inl old ↦ inl old
  | inr h ↦ inr (ground arith)
]

pub Distinct-set :
    (fs : List File) (k : ℕ) (f g : File)
    → Distinct fs
    → get_elem? fs k ≡ some f
    → Renames fs f g
    → Distinct (set fs k g)
Distinct-set [] k f g d stands new = cc
Distinct-set (x ∷ fs) zero f g d stands new = (first, d.1)
  where
    first : (n : List ℕ) → is_named n g ≡ true → lookup n fs ≡ none
    first n named = elim (new n named) [ inl old ↦ d.0 n (ground arith) | inr h ↦ ground arith ]
Distinct-set (x ∷ fs) (suc k) f g d stands new =
    (first, Distinct-set fs k f g d.1 stands (Renames-tail x fs f g new))
  where
    first : (n : List ℕ) → is_named n x ≡ true → lookup n (set fs k g) ≡ none
    first n named = lookup-set_unnamed n fs k g (d.0 n named) (elim (Bool-cases (is_named n g)) [
      | inr e ↦ e
      | inl e ↦ elim (new n e) [
        | inl old ↦ ground (arith, lookup-none-get n fs k f (d.0 n named) stands)
        | inr h ↦ ground arith
      ]
    ])

-- Once its file has gone, a name is not found.
pub lookup-set_gone :
    (n : List ℕ) (fs : List File) (k : ℕ) (f g : File)
    → Distinct fs
    → get_elem? fs k ≡ some f
    → is_named n f ≡ true
    → is_named n g ≡ false
    → lookup n (set fs k g) ≡ none
lookup-set_gone n [] k f g d stands named gone = refl
lookup-set_gone n (x ∷ fs) zero f g d stands named gone =
    let rest = d.0 n (ground arith) in ground arith
lookup-set_gone n (x ∷ fs) (suc k) f g d stands named gone = elim (Bool-cases (is_named n x)) [
  | inl e ↦ ground (arith, lookup-none-get n fs k f (d.0 n e) stands)
  | inr e ↦ ground (arith, lookup-set_gone n fs k f g d.1 stands named gone)
]
