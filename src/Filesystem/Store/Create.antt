-- ===== src/Filesystem/Store/Create.antt =====
-- create_file of a regular file, on a name that is there and on one that is not.
use native.Mathlib.Nat.{zero-add}
use os_from_zero.Base.{
  ℕ, ◌≤◌, ◌≡◌, ◌⊎◌, ap, ◌∙◌, true, false, none, some, List, [], arith, length, Option-cases, inl,
  inr,
}
use os_from_zero.Strings.Text.{c_text}
use os_from_zero.Filesystem.{
  File, FileType, FileSystem, max_filename_length, find_file, find_file_from, find_free_slot_from,
  file_exists, free_slots, create_at, create_file,
}
use os_from_zero.Filesystem.Lookup.{lookup, find-lookup-some, find-lookup-none, find_free_slot_hit}
use os_from_zero.Filesystem.Slots.{free_slots_full}
use os_from_zero.Filesystem.Store.{AllSized}
use os_from_zero.Filesystem.Store.Over.{Stored}
use os_from_zero.Filesystem.Store.New.{created}
use os_from_zero.Filesystem.Store.Write.{create_at_lem, create_at-none, create_file-absent}

create_file-found :
    (s : FileSystem) (name : List ℕ) (j : ℕ)
    → s.initialized ≡ true
    → find_file_from name s.files 0 ≡ some j
    → create_file s name FileType.regular ≡ (false, s)
unfolding create_file file_exists find_file
create_file-found s name j on e = ground arith

pub create_file_lem :
    (s : FileSystem) (name : List ℕ)
    → s.initialized ≡ true
    → AllSized s.files
    → length (c_text name) ≤ max_filename_length
    → ((f : File) × (lookup name s.files ≡ some f)
        × (create_file s name FileType.regular ≡ (false, s)))
      ⊎ (((lookup name s.files ≡ none)
            × (free_slots s.files ≡ 0)
            × (create_file s name FileType.regular ≡ (false, s)))
          ⊎ ((s' : FileSystem) × (lookup name s.files ≡ none)
              × (create_file s name FileType.regular ≡ (true, s'))
              × Stored s s' name [] 0))
create_file_lem s name on sized short = elim (Option-cases (find_file_from name s.files 0)) [
  | inr (j, e) ↦
      let (k, f, at, stands, named, first) = find-lookup-some name s.files 0 j e in
      inl (f, first, create_file-found s name j on e)
  | inl e ↦ elim (Option-cases (find_free_slot_from s.files 0)) [
    | inl full ↦ inr (
        inl (
          find-lookup-none name s.files 0 e,
          free_slots_full s.files 0 full,
          create_file-absent s name on e
              ∙ (ap (create_at s name FileType.regular) full ∙ create_at-none s name),
        ))
    | inr (j, slot) ↦
        let (k, f, at, stands, free) = find_free_slot_hit s.files 0 j slot in
        let absent = find-lookup-none name s.files 0 e in
        inr (
          inr (
            _,
            absent,
            create_file-absent s name on e
                ∙ (ap (create_at s name FileType.regular) (slot ∙ ap some (at ∙ zero-add k))
                    ∙ create_at_lem s name k f stands),
            created s name k f on sized absent stands free short,
          ))
  ]
]
