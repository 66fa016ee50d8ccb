-- ===== src/Filesystem/Store/Write.antt =====
-- write_file, on a file that is there and on one that is not.
use native.Mathlib.Nat.{zero-add}
use os_from_zero.Base.{
  ℕ, ◌≤◌, ◌≡◌, refl, ap, ◌∙◌, Bool, true, false, ◌⊎◌, Option, none, some, List, arith, get_elem?,
  length, Option-cases, inl, inr, if_true,
}
use os_from_zero.Strings.Text.{c_text}
use os_from_zero.Filesystem.{
  File, FileType, FileSystem, max_filename_length, max_file_size, find_file, find_file_from,
  find_free_slot_from, file_exists, create_at, create_file, write_at, write_new, write_file,
}
use os_from_zero.Filesystem.Lookup.{find-lookup-some, find-lookup-none, find_free_slot_hit}
use os_from_zero.Filesystem.Store.{AllSized}
use os_from_zero.Filesystem.Store.Over.{Stored, written_over}
use os_from_zero.Filesystem.Store.New.{after, written_new}

pub create_at_lem :
    (s : FileSystem) (name : List ℕ) (k : ℕ) (f : File)
    → get_elem? s.files k ≡ some f
    → create_at s name FileType.regular (some k) ≡ (true, after s name k f)
unfolding create_at
create_at_lem s name k f stands = rw (stands, create_at)

pub write_new_made :
    (s s₁ : FileSystem) (name bytes : List ℕ) (n : ℕ) (r : Option (Bool × FileSystem))
    → create_file s name FileType.regular ≡ (true, s₁)
    → write_at s₁ bytes n (find_file s₁ name) ≡ r
    → write_new s name bytes n ≡ r
unfolding write_new
write_new_made s s₁ name bytes n r made written = rw made written

pub create_file-absent :
    (s : FileSystem) (name : List ℕ)
    → s.initialized ≡ true
    → find_file_from name s.files 0 ≡ none
    → create_file s name FileType.regular
      ≡ create_at s name FileType.regular (find_free_slot_from s.files 0)
unfolding create_file file_exists find_file
create_file-absent s name on absent = ground arith

write_new_refused :
    (s : FileSystem) (name bytes : List ℕ) (n : ℕ)
    → create_file s name FileType.regular ≡ (false, s)
    → write_new s name bytes n ≡ some (false, s)
unfolding write_new
write_new_refused s name bytes n refused = rw (refused, write_new)

pub create_at-none :
    (s : FileSystem) (name : List ℕ) → create_at s name FileType.regular none ≡ (false, s)
unfolding create_at
create_at-none s name = refl

write_file-found :
    (s : FileSystem) (name bytes : List ℕ) (n j : ℕ)
    → s.initialized ≡ true
    → n ≤ max_file_size
    → find_file_from name s.files 0 ≡ some j
    → write_file s name bytes n ≡ write_at s bytes n (some j)
unfolding write_file find_file
write_file-found s name bytes n j on small e = ground arith

pub write_file-absent :
    (s : FileSystem) (name bytes : List ℕ) (n : ℕ)
    → s.initialized ≡ true
    → n ≤ max_file_size
    → find_file_from name s.files 0 ≡ none
    → write_file s name bytes n ≡ write_new s name bytes n
unfolding write_file find_file
write_file-absent s name bytes n on small e = ground arith

-- write_file of at most 1024 bytes under a name of at most 32, once the file system is initialised
-- and its buffers have their sizes: a name that is new and finds no free slot is refused with
-- nothing changed; any other write succeeds, the bytes are read back under the name, every other
-- name reads as before, the buffers keep their sizes, no name comes to stand twice, and a free slot
-- is taken for a new name only.
pub write_file_lem :
    (s : FileSystem) (name bytes : List ℕ) (n : ℕ)
    → s.initialized ≡ true
    → AllSized s.files
    → n ≤ max_file_size
    → n ≤ length bytes
    → length (c_text name) ≤ max_filename_length
    → ((find_file s name ≡ none)
        × (find_free_slot_from s.files 0 ≡ none)
        × (write_file s name bytes n ≡ some (false, s)))
      ⊎ ((s' : FileSystem) × (write_file s name bytes n ≡ some (true, s'))
          × Stored s s' name bytes n)
unfolding find_file
write_file_lem s name bytes n on sized small enough short =
    elim (Option-cases (find_file_from name s.files 0)) [
      | inr (j, e) ↦
          let (k, f, at, stands, named, first) = find-lookup-some name s.files 0 j e in
          let (s', run, st) =
            written_over s name bytes n on sized small enough k f (e ∙ ap some at) stands named in
          inr (
            s',
            write_file-found s name bytes n j on small e
                ∙ (ap (λ i. write_at s bytes n (some i)) (at ∙ zero-add k) ∙ run),
            st,
          )
      | inl e ↦ elim (Option-cases (find_free_slot_from s.files 0)) [
        | inl full ↦ inl (
          if_true s.initialized _ _ on ∙ e,
          full,
          write_file-absent s name bytes n on small e
              ∙ write_new_refused s name bytes n (
                  create_file-absent s name on e
                  ∙ (ap (create_at s name FileType.regular) full ∙ create_at-none s name)),
        )
        | inr (j, slot) ↦
            let (k, f, at, stands, free) = find_free_slot_hit s.files 0 j slot in
            let absent = find-lookup-none name s.files 0 e in
            let (s', run, st) =
              written_new s name k f on sized absent stands free short bytes n small enough in
            inr (
              s',
              write_file-absent s name bytes n on small e
                  ∙ write_new_made s (after s name k f) name bytes n _
                      (create_file-absent s name on e
                        ∙ (ap (create_at s name FileType.regular) (slot ∙ ap some (at ∙ zero-add k))
                            ∙ create_at_lem s name k f stands))
                      run,
              st,
            )
      ]
    ]
