-- ===== src/Filesystem/Store.antt =====
-- What is written to a file is read back, and no other file changes.
pub mod Over
pub mod New
pub mod Write
pub mod Long
pub mod Create
use mathlib.Core.Option
use native.Mathlib.Nat.{zero-add}
use os_from_zero.Base.{
  ℕ, zero, suc, ◌+◌, ◌<◌, ◌≤◌, ◌≡◌, ◌≢◌, refl, ap, sym, ◌∙◌, Bool, true, false, ◌&&◌, not, Option,
  none, some, List, [], ◌∷◌, arith, ◌==◌, ltb, if◌then◌else◌, get_elem?, set, take, length, ◌>>=◌,
  Bool-cases, Option-cases, inl, inr, if_true, if_false, replicate, add32, get_elem?-set_of_some,
  >>=-eq-some, length-set,
}
use os_from_zero.Strings.Text.{c_text}
use os_from_zero.Filesystem.{
  File, FileType, FileSystem, max_files, max_filename_length, max_file_size, is_named, same_name,
  copy_name, find_file, find_file_from, find_free_slot_from, file_exists, fresh_file, create_at,
  create_file, copy_data, write_at, write_new, write_file, read_file,
}
use os_from_zero.Filesystem.Init.{blank_file}
use os_from_zero.Filesystem.Names.{same_name_iff, same-copy_name, length-copy_name}
use os_from_zero.Filesystem.Lookup.{
  lookup, find-lookup-some, find-lookup-none, find-set_found, find-set_new, lookup-set_other,
  read_file-lookup, find_free_slot_hit,
}

-- The buffers of the file pool have their lengths.
pub record IsSized (f : File) : Type 0 where
  pub name_room : length f.name ≡ max_filename_length
  pub room : length f.contents ≡ max_file_size

abbrev pub AllSized : List File → Type 0
AllSized [] = Unit {0}
AllSized (f ∷ fs) = IsSized f × AllSized fs

-- A pool of equal files.
pub AllSized-replicate : (n : ℕ) (f : File) → IsSized f → AllSized (replicate n f)
AllSized-replicate zero f good = tt
AllSized-replicate (suc n) f good = (good, AllSized-replicate n f good)

pub blank_file-IsSized : IsSized blank_file
blank_file-IsSized = record { name_room = refl; room = refl }

pub AllSized-get :
    (fs : List File) (k : ℕ) (f : File) → AllSized fs → get_elem? fs k ≡ some f → IsSized f
AllSized-get [] k f h e = cc
AllSized-get (x ∷ fs) zero f h e = ground arith
AllSized-get (x ∷ fs) (suc k) f h e = AllSized-get fs k f h.1 e

pub AllSized-set :
    (fs : List File) (k : ℕ) (f : File) → AllSized fs → IsSized f → AllSized (set fs k f)
AllSized-set [] k f h s = tt
AllSized-set (x ∷ fs) zero f h s = (s, h.1)
AllSized-set (x ∷ fs) (suc k) f h s = (h.0, AllSized-set fs k f h.1 s)

-- Copying `n` bytes puts them in front of the old contents.
pub copy_data_lem :
    (dest bytes : List ℕ) (n : ℕ)
    → n ≤ length dest
    → n ≤ length bytes
    → (d : List ℕ) × (copy_data dest bytes n ≡ some d)
      × (take n d ≡ take n bytes)
      × (length d ≡ length dest)
unfolding copy_data
copy_data_lem dest bytes zero h k = (dest, refl, refl, refl)
copy_data_lem [] bytes (suc n) h k = absurd (omega arith)
copy_data_lem (x ∷ dest) [] (suc n) h k = absurd (omega arith)
copy_data_lem (x ∷ dest) (b ∷ bytes) (suc n) h k =
    let (d, run, same, len) = copy_data_lem dest bytes n (omega arith) (omega arith) in
    (b ∷ d, rw run, rw same, omega arith)

-- The file after a write to slot `k`.
pub record Written (s s' : FileSystem) (bytes : List ℕ) (n k : ℕ) (f : File) : Type 0 where
  pub stored : List ℕ
  pub exact : take n stored ≡ take n bytes
  pub room : length stored ≡ length f.contents
  pub table :
      s'.files
      ≡ set s.files k
          (record f { contents = stored; size = n; modified_time = add32 s.current_time 1 })
  pub on : s'.initialized ≡ s.initialized

write_at_lem :
    (s : FileSystem) (bytes : List ℕ) (n k : ℕ) (f : File)
    → get_elem? s.files k ≡ some f
    → n ≤ length f.contents
    → n ≤ length bytes
    → (s' : FileSystem) × (write_at s bytes n (some k) ≡ some (true, s')) × Written s s' bytes n k f
unfolding write_at
write_at_lem s bytes n k f stands fits enough =
    let (d, run, same, len) = copy_data_lem f.contents bytes n fits enough in
    (
      record s {
        files =
            set s.files k
              (record f { contents = d; size = n; modified_time = add32 s.current_time 1 });
        current_time = add32 s.current_time 1;
      },
      rw (stands, run),
      record { stored = d; exact = same; room = len; table = refl; on = refl },
    )
