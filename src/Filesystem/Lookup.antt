-- ===== src/Filesystem/Lookup.antt =====
-- The first file of a name, and how a change of one slot changes what is found.
use mathlib.Core.Option
use native.Mathlib.Nat.{zero-add}
use os_from_zero.Base.{
  ℕ, zero, suc, ◌+◌, ◌≡◌, refl, ap, sym, ◌∙◌, true, false, Option, none, some, List, [], ◌∷◌, arith,
  if◌then◌else◌, get_elem?, set, take, Bool-cases, Option-cases, inl, inr,
}
use os_from_zero.Strings.Text.{c_text}
use os_from_zero.Filesystem.Names.{same_name-text}
use os_from_zero.Filesystem.{
  File, FileSystem, is_named, find_file_from, find_free_slot_from, read_file,
}

-- The first file in use of this name.
abbrev pub lookup : List ℕ → List File → Option File
lookup name [] = none
lookup name (f ∷ fs) = if is_named name f then some f else lookup name fs

-- A name is as good as another one with its text.
pub lookup-text : (n m : List ℕ) (fs : List File) → c_text n ≡ c_text m → lookup n fs ≡ lookup m fs
lookup-text n m [] e = refl
lookup-text n m (f ∷ fs) e = rw (same_name-text f.name n m e, lookup-text n m fs e)

module _ (name : List ℕ) where
  pub find-lookup-some :
      (fs : List File) (i j : ℕ)
      → find_file_from name fs i ≡ some j
      → (k : ℕ) × (f : File) × (j ≡ i + k)
        × (get_elem? fs k ≡ some f)
        × (is_named name f ≡ true)
        × (lookup name fs ≡ some f)
  unfolding find_file_from
  find-lookup-some [] i j h = cc
  find-lookup-some (f ∷ fs) i j h = elim (Bool-cases (is_named name f)) [
    | inl e ↦ (0, f, ground arith, refl, e, rw e)
    | inr e ↦
        let (k, g, at, stands, named, found) = find-lookup-some fs (i + 1) j (rw e at h) in
        (suc k, g, omega arith, stands, named, rw e found)
  ]

  pub find-lookup-none :
      (fs : List File) (i : ℕ) → find_file_from name fs i ≡ none → lookup name fs ≡ none
  unfolding find_file_from
  find-lookup-none [] i h = refl
  find-lookup-none (f ∷ fs) i h = ground (arith, find-lookup-none fs (i + 1))

  -- A named file is written over the first one of that name.
  pub find-set_found :
      (fs : List File) (i k : ℕ) (g : File)
      → find_file_from name fs i ≡ some (i + k)
      → is_named name g ≡ true
      → (find_file_from name (set fs k g) i ≡ some (i + k)) × (lookup name (set fs k g) ≡ some g)
  unfolding find_file_from
  find-set_found [] i k g h named = cc
  find-set_found (f ∷ fs) i zero g h named = (rw named (ground arith), rw named)
  find-set_found (f ∷ fs) i (suc k) g h named = elim (Bool-cases (is_named name f)) [
    | inl e ↦ absurd (ground arith)
    | inr e ↦
        let step : i + suc k ≡ i + 1 + k = omega arith in
        let (found, first) = find-set_found fs (i + 1) k g (ground arith) named in
        (rw e (found ∙ ap some (sym step)), rw e first)
  ]

  -- A named file is written where there was none of that name.
  pub find-set_new :
      (fs : List File) (i k : ℕ) (f g : File)
      → lookup name fs ≡ none
      → get_elem? fs k ≡ some f
      → is_named name g ≡ true
      → (find_file_from name (set fs k g) i ≡ some (i + k)) × (lookup name (set fs k g) ≡ some g)
  unfolding find_file_from
  find-set_new [] i k f g h at named = cc
  find-set_new (x ∷ fs) i zero f g h at named = (rw named (ground arith), rw named)
  find-set_new (x ∷ fs) i (suc k) f g h at named = elim (Bool-cases (is_named name x)) [
    | inl e ↦ absurd (ground arith)
    | inr e ↦
        let step : i + suc k ≡ i + 1 + k = omega arith in
        let (found, first) = find-set_new fs (i + 1) k f g (ground arith) at named in
        (rw e (found ∙ ap some (sym step)), rw e first)
  ]

  -- A slot that has another name before and after changes nothing for this one.
  pub lookup-set_other :
      (fs : List File) (k : ℕ) (f g : File)
      → get_elem? fs k ≡ some f
      → is_named name f ≡ false
      → is_named name g ≡ false
      → lookup name (set fs k g) ≡ lookup name fs
  lookup-set_other [] k f g at before after = refl
  lookup-set_other (x ∷ fs) zero f g at before after = ground arith
  lookup-set_other (x ∷ fs) (suc k) f g at before after =
      ground (arith, lookup-set_other fs k f g at before after)

  -- read_file returns the contents of the first file of the name.
  pub read_file-lookup :
      (s : FileSystem)
      → s.initialized ≡ true
      → read_file s name ≡ Option.map (λ f. take f.size f.contents) (lookup name s.files)
  unfolding read_file
  read_file-lookup s on = elim (Option-cases (find_file_from name s.files 0)) [
    | inl e ↦ ground (arith, find-lookup-none s.files 0 e)
    | inr (j, e) ↦
        let (k, f, at, stands, named, first) = find-lookup-some s.files 0 j e in
        let here : get_elem? s.files j ≡ some f =
          ap (get_elem? s.files) (at ∙ zero-add k) ∙ stands in
        ground arith
  ]

pub find_free_slot_hit :
    (fs : List File) (i j : ℕ)
    → find_free_slot_from fs i ≡ some j
    → (k : ℕ) × (f : File) × (j ≡ i + k) × (get_elem? fs k ≡ some f) × (f.used ≡ false)
unfolding find_free_slot_from
find_free_slot_hit [] i j h = cc
find_free_slot_hit (f ∷ fs) i j h = elim (Bool-cases f.used) [
  | inr e ↦ (0, f, ground arith, refl, e)
  | inl e ↦
      let (k, g, at, stands, free) = find_free_slot_hit fs (i + 1) j (ground arith) in
      (suc k, g, omega arith, stands, free)
]
