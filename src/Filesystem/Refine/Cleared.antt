-- ===== src/Filesystem/Refine/Cleared.antt =====
-- The pool that fs_init clears holds nothing.
use mathlib.Core.Option
use mathlib.Core.Path.{ap₂, fun_ext}
use os_from_zero.Base.{
  ℕ, suc, ◌≡◌, refl, ap, ◌∙◌, true, none, List, [], ◌∷◌, map, length, take, length-set,
}
use os_from_zero.Filesystem.{File, free_slots}
use os_from_zero.Filesystem.Init.{cleared_file}
use os_from_zero.Filesystem.Distinct.{Distinct}
use os_from_zero.Filesystem.Lookup.{lookup, read_file-lookup}
use os_from_zero.Filesystem.Store.{AllSized}
use os_from_zero.Filesystem.Spec.{empty}
use os_from_zero.Filesystem.Refine.{view}

pub cleared-sized : (fs : List File) → AllSized fs → AllSized (map cleared_file fs)
cleared-sized [] sized = tt
cleared-sized (f ∷ fs) (good, sized) = (
  record { name_room = length-set f.name 0 0 ∙ good.name_room; room = good.room },
  cleared-sized fs sized,
)

pub cleared-Distinct : (fs : List File) → Distinct (map cleared_file fs)
cleared-Distinct [] = tt
cleared-Distinct (f ∷ fs) = (λ n h. cc, cleared-Distinct fs)

lookup-cleared : (n : List ℕ) (fs : List File) → lookup n (map cleared_file fs) ≡ none
lookup-cleared n [] = refl
lookup-cleared n (f ∷ fs) = lookup-cleared n fs

free_slots-cleared : (fs : List File) → free_slots (map cleared_file fs) ≡ length fs
free_slots-cleared [] = refl
free_slots-cleared (f ∷ fs) = ap suc (free_slots-cleared fs)

pub view-cleared :
    (time : ℕ) (fs : List File)
    → view (record { files = map cleared_file fs; current_time = time; initialized = true })
      ≡ empty (length fs)
view-cleared time fs =
    ap₂ (λ h r. record { holds = h; room = r })
      (fun_ext (λ n.
        read_file-lookup n _ refl
        ∙ ap (Option.map (λ (f : File). take f.size f.contents)) (lookup-cleared n fs)))
      (free_slots-cleared fs)
