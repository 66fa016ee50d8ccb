-- ===== src/Filesystem/Slots.antt =====
-- How many slots of the file pool are free when a slot changes.
use os_from_zero.Base.{
  ℕ, zero, suc, ◌+◌, ◌-◌, ◌≡◌, refl, true, false, Option, none, some, List, [], ◌∷◌, arith,
  get_elem?, set,
}
use os_from_zero.Filesystem.{File, free_slots, find_free_slot_from}

-- The slots that a write under a name takes, with the file that has the name.
abbrev pub taken : Option File → ℕ
taken none = 1
taken (some f) = 0

pub slots-taken : (n : ℕ) (f : File) → n ≡ n - taken (some f)
slots-taken n f = omega arith

module _ (f g : File) where
  pub free_slots-set_same :
      (fs : List File) (k : ℕ)
      → get_elem? fs k ≡ some f
      → g.used ≡ f.used
      → free_slots (set fs k g) ≡ free_slots fs
  free_slots-set_same [] k stands e = refl
  free_slots-set_same (x ∷ fs) zero stands e = ground arith
  free_slots-set_same (x ∷ fs) (suc k) stands e = rw (free_slots-set_same fs k stands e)

  pub free_slots-set_taken :
      (fs : List File) (k : ℕ)
      → get_elem? fs k ≡ some f
      → f.used ≡ false
      → g.used ≡ true
      → suc (free_slots (set fs k g)) ≡ free_slots fs
  free_slots-set_taken [] k stands e e' = cc
  free_slots-set_taken (x ∷ fs) zero stands e e' = ground arith
  free_slots-set_taken (x ∷ fs) (suc k) stands e e' =
      ground (arith, free_slots-set_taken fs k stands e e')

  pub free_slots-set_freed :
      (fs : List File) (k : ℕ)
      → get_elem? fs k ≡ some f
      → f.used ≡ true
      → g.used ≡ false
      → free_slots (set fs k g) ≡ suc (free_slots fs)
  free_slots-set_freed [] k stands e e' = cc
  free_slots-set_freed (x ∷ fs) zero stands e e' = ground arith
  free_slots-set_freed (x ∷ fs) (suc k) stands e e' =
      ground (arith, free_slots-set_freed fs k stands e e')

pub free_slots_full : (fs : List File) (i : ℕ) → find_free_slot_from fs i ≡ none → free_slots fs ≡ 0
unfolding find_free_slot_from
free_slots_full [] i h = refl
free_slots_full (f ∷ fs) i h = ground (arith, free_slots_full fs (i + 1))
