-- ===== src/Filesystem.antt =====
-- kernel/fs_rust/src/lib.rs, the file system behind kernel/src/fs/filesystem.h.
-- `none` is a panic, which stops the kernel, or a read outside of the caller's buffer. FS_STATE
-- before fs_init is the file system that is not initialised: each function answers the same.
pub mod Lookup
pub mod Store
pub mod Names
pub mod Init
pub mod Distinct
pub mod Slots
pub mod Spec
pub mod Refine
mod Tests
use mathlib.Core.Option
use os_from_zero.Base.{
  ℕ, zero, suc, ◌+◌, ◌-◌, ◌*◌, Bool, true, false, ◌&&◌, not, Option, none, some, List, [], ◌∷◌,
  ◌++◌, map, ◌==◌, ltb, if◌then◌else◌, get_elem?, set, take, length, ◌>>=◌, add32,
}
use os_from_zero.Strings.{head}

pub data FileType : Type 0 where
  regular directory : FileType

-- `name` is a buffer of 32 bytes and `contents` one of 1024. Behind a name that fills its buffer
-- stands the file's type, which is 0 for a regular file, so the name ends there.
pub record File : Type 0 where
  pub name : List ℕ
  pub file_type : FileType
  pub size : ℕ
  pub contents : List ℕ
  pub used : Bool
  pub created_time : ℕ
  pub modified_time : ℕ

pub record FileSystem : Type 0 where
  pub files : List File
  pub current_time : ℕ
  pub initialized : Bool

abbrev pub max_files : ℕ
max_files = 16

abbrev pub max_filename_length : ℕ
max_filename_length = 32

abbrev pub max_file_size : ℕ
max_file_size = 1024

-- `strcmp(s1, s2) == 0`
unfoldable pub same_name : List ℕ → List ℕ → Bool
same_name [] t = head t == 0
same_name (c ∷ s) [] = c == 0
same_name (c ∷ s) (d ∷ t) =
    let rest = same_name s t in if not (c == d) then false else if c == 0 then true else rest

-- `strcpy(dest, src)`, which stops at the end of a buffer of MAX_FILENAME_LENGTH bytes.
unfoldable pub copy_name : List ℕ → List ℕ → List ℕ
copy_name [] src = []
copy_name (x ∷ dest) [] = 0 ∷ dest
copy_name (x ∷ dest) (c ∷ src) = if c == 0 then 0 ∷ dest else c ∷ copy_name dest src

-- The file is in use and has this name.
abbrev pub is_named : List ℕ → File → Bool
is_named name f = f.used && same_name f.name name

unfoldable pub find_file_from : List ℕ → List File → ℕ → Option ℕ
find_file_from name [] i = none
find_file_from name (f ∷ fs) i = if is_named name f then some i else find_file_from name fs (i + 1)

unfoldable pub find_free_slot_from : List File → ℕ → Option ℕ
find_free_slot_from [] i = none
find_free_slot_from (f ∷ fs) i = if not f.used then some i else find_free_slot_from fs (i + 1)

unfoldable pub find_file : FileSystem → List ℕ → Option ℕ
unfolding find_file_from
find_file s name = if s.initialized then find_file_from name s.files 0 else none

abbrev pub is_some {ℓ} : {A : Type ℓ} → Option A → Bool
is_some none = false
is_some (some a) = true

unfoldable pub file_exists : FileSystem → List ℕ → Bool
unfolding find_file
file_exists s name = is_some (find_file s name)

-- The slot of a new file.
unfoldable pub fresh_file : File → List ℕ → FileType → ℕ → File
unfolding copy_name
fresh_file f name file_type time = record f {
  used = true;
  name = copy_name f.name name;
  file_type = file_type;
  size = 0;
  created_time = time;
  modified_time = time;
}

unfoldable pub create_at : FileSystem → List ℕ → FileType → Option ℕ → Bool × FileSystem
unfolding fresh_file
create_at s name file_type none = (false, s)
create_at s name file_type (some slot) =
    let time = add32 s.current_time 1 in
    elim (get_elem? s.files slot) [
      | none ↦ (false, s)
      | some f ↦ (
        true,
        record s {
          files = set s.files slot (fresh_file f name file_type time);
          current_time = time;
        },
      )
    ]

unfoldable pub create_file : FileSystem → List ℕ → FileType → Bool × FileSystem
unfolding create_at find_free_slot_from file_exists
create_file s name file_type =
    if not s.initialized
    then (false, s)
    else if file_exists s name
    then (false, s)
    else create_at s name file_type (find_free_slot_from s.files 0)

-- The loop stops at the first file of this name.
unfoldable pub delete_from : List File → List ℕ → Option (List File)
delete_from [] name = none
delete_from (f ∷ fs) name =
    if is_named name f
    then some (record f { used = false; name = set f.name 0 0; size = 0 } ∷ fs)
    else Option.map (λ gs. f ∷ gs) (delete_from fs name)

unfoldable pub delete_file : FileSystem → List ℕ → Bool × FileSystem
unfolding delete_from
delete_file s name =
    if s.initialized
    then elim (delete_from s.files name) [
      | none ↦ (false, s)
      | some fs ↦ (true, record s { files = fs })
    ]
    else (false, s)

-- `for i in 0..size { data[i] = *bytes.add(i) }`
unfoldable pub copy_data : List ℕ → List ℕ → ℕ → Option (List ℕ)
copy_data dest bytes zero = some dest
copy_data [] bytes (suc n) = none
copy_data (x ∷ dest) [] (suc n) = none
copy_data (x ∷ dest) (b ∷ bytes) (suc n) = Option.map (λ d. b ∷ d) (copy_data dest bytes n)

-- The end of write_file; `find_file(name).unwrap()` panics if there is no such file.
unfoldable pub write_at : FileSystem → List ℕ → ℕ → Option ℕ → Option (Bool × FileSystem)
unfolding copy_data
write_at s bytes size none = none
write_at s bytes size (some i) = do
  f ← get_elem? s.files i
  d ← copy_data f.contents bytes size
  let time = add32 s.current_time 1
  some (
    true,
    record s {
      files = set s.files i (record f { contents = d; size = size; modified_time = time });
      current_time = time;
    },
  )

-- A file that does not exist is created first.
unfoldable pub write_new : FileSystem → List ℕ → List ℕ → ℕ → Option (Bool × FileSystem)
unfolding write_at create_file find_file
write_new s name bytes size =
    let (done, s') = create_file s name FileType.regular in
    if done then write_at s' bytes size (find_file s' name) else some (false, s')

unfoldable pub write_file : FileSystem → List ℕ → List ℕ → ℕ → Option (Bool × FileSystem)
unfolding write_new
write_file s name bytes size =
    if not s.initialized
    then some (false, s)
    else if ltb max_file_size size
    then some (false, s)
    else elim (find_file s name) [
      | none ↦ write_new s name bytes size
      | some i ↦ write_at s bytes size (some i)
    ]

-- What read_file copies into the caller's buffer; `none` if it returns false.
unfoldable pub read_file : FileSystem → List ℕ → Option (List ℕ)
unfolding find_file
read_file s name = do i ← find_file s name; f ← get_elem? s.files i; some (take f.size f.contents)

abbrev pub free_slots : List File → ℕ
free_slots [] = 0
free_slots (f ∷ fs) = if not f.used then suc (free_slots fs) else free_slots fs

abbrev pub used_bytes : List File → ℕ
used_bytes [] = 0
used_bytes (f ∷ fs) = if f.used then f.size + used_bytes fs else used_bytes fs

unfoldable pub get_free_space : FileSystem → ℕ
get_free_space s = if s.initialized then free_slots s.files * max_file_size else 0

unfoldable pub get_used_space : FileSystem → ℕ
get_used_space s = if s.initialized then used_bytes s.files else 0
