-- ===== src/Filesystem/Store/Long.antt =====
-- A new file whose name is longer than the name buffer.
use os_from_zero.Base.{
  ℕ, zero, suc, ◌+◌, ◌<◌, ◌≤◌, ◌≡◌, refl, ap, ◌∙◌, true, false, none, some, List, [], ◌∷◌, arith,
  set, length, if_true, sym,
}
use native.Mathlib.Nat.{zero-add}
use os_from_zero.Strings.Text.{c_text}
use os_from_zero.Filesystem.{
  File, FileType, FileSystem, max_filename_length, max_file_size, is_named, find_file,
  find_file_from, find_free_slot_from, create_at, write_at, write_file,
}
use os_from_zero.Filesystem.Names.{same-copy_name_long}
use os_from_zero.Filesystem.Lookup.{find_free_slot_hit}
use os_from_zero.Filesystem.Store.{AllSized, AllSized-get}
use os_from_zero.Filesystem.Store.New.{made, after}
use os_from_zero.Filesystem.Store.Write.{
  create_at_lem, create_file-absent, write_new_made, write_file-absent,
}

find-set_unnamed :
    (name : List ℕ) (fs : List File) (i k : ℕ) (g : File)
    → find_file_from name fs i ≡ none
    → is_named name g ≡ false
    → find_file_from name (set fs k g) i ≡ none
unfolding find_file_from
find-set_unnamed name [] i k g h other = refl
find-set_unnamed name (f ∷ fs) i zero g h other = ground arith
find-set_unnamed name (f ∷ fs) i (suc k) g h other =
    ground (arith, find-set_unnamed name fs (i + 1) k g)

write_at-none : (s : FileSystem) (bytes : List ℕ) (n : ℕ) → write_at s bytes n none ≡ none
unfolding write_at
write_at-none s bytes n = refl

-- write_file under a new name of more than 32 bytes panics, if it finds a free slot: the file that
-- it creates has a name that was cut, so it is not found again.
pub write_file-panics :
    (s : FileSystem) (name bytes : List ℕ) (n slot : ℕ)
    → s.initialized ≡ true
    → AllSized s.files
    → n ≤ max_file_size
    → find_file s name ≡ none
    → find_free_slot_from s.files 0 ≡ some slot
    → max_filename_length < length (c_text name)
    → write_file s name bytes n ≡ none
unfolding find_file
write_file-panics s name bytes n slot on sized small absent free long =
    let (k, f, at, stands, unused) = find_free_slot_hit s.files 0 slot free in
    let e = sym (if_true s.initialized _ none on) ∙ absent in
    let cut : is_named name (made s name f) ≡ false =
      same-copy_name_long f.name name
        (rw ((AllSized-get s.files k f sized stands).name_room) long) in
    write_file-absent s name bytes n on small e
    ∙ write_new_made s (after s name k f) name bytes n none
        (create_file-absent s name on e
          ∙ (ap (create_at s name FileType.regular) (free ∙ ap some (at ∙ zero-add k))
              ∙ create_at_lem s name k f stands))
        (ap (write_at (after s name k f) bytes n) (
            if_true s.initialized _ none on
            ∙ find-set_unnamed name s.files 0 k (made s name f) e cut)
          ∙ write_at-none (after s name k f) bytes n)
