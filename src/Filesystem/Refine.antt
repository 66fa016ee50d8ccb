-- ===== src/Filesystem/Refine.antt =====
-- The file system as the map that it promises to be.
pub mod Views
pub mod Delete
pub mod Written
pub mod Steps
pub mod Cleared
pub mod Start
use os_from_zero.Base.{
  ℕ, ◌≤◌, ◌≡◌, Bool, true, false, Option, none, some, List, [], ◌∷◌, length, ◌>>=◌,
}
use os_from_zero.Strings.Text.{c_text}
use os_from_zero.Filesystem.{
  FileType, FileSystem, max_filename_length, create_file, write_file, delete_file, read_file,
  file_exists, get_free_space, free_slots,
}
use os_from_zero.Filesystem.Store.{AllSized}
use os_from_zero.Filesystem.Distinct.{Distinct}
use os_from_zero.Filesystem.Spec
use os_from_zero.Filesystem.Spec.{Op, Answer, Map}

-- The file system works, its buffers have their lengths, and no name stands twice.
pub record IsSound (s : FileSystem) : Type 0 where
  pub on : s.initialized ≡ true
  pub sized : AllSized s.files
  pub distinct : Distinct s.files

abbrev pub view : FileSystem → Map
view s = record { holds = read_file s; room = free_slots s.files }

-- The call that an operation stands for. The write is of all the bytes that are given.
unfoldable pub step : Op → FileSystem → Option (Answer × FileSystem)
unfolding create_file write_file delete_file read_file file_exists get_free_space
step (Op.create name) s =
    let (ok, s') = create_file s name FileType.regular in some (Answer.done ok, s')
step (Op.write name text) s = do
  (ok, s') ← write_file s name text (length text)
  some (Answer.done ok, s')
step (Op.delete name) s = let (ok, s') = delete_file s name in some (Answer.done ok, s')
step (Op.read name) s = some (Answer.bytes (read_file s name), s)
step (Op.exists name) s = some (Answer.done (file_exists s name), s)
step Op.free_space s = some (Answer.space (get_free_space s), s)

unfoldable pub run : List Op → FileSystem → Option (List Answer)
unfolding step
run [] s = some []
run (op ∷ ops) s = do (a, s') ← step op s; rest ← run ops s'; some (a ∷ rest)

-- The names that are given have at most 32 bytes.
abbrev pub IsShort : Op → Type 0
IsShort (Op.create name) = length (c_text name) ≤ max_filename_length
IsShort (Op.write name text) = length (c_text name) ≤ max_filename_length
IsShort (Op.delete name) = Unit {0}
IsShort (Op.read name) = Unit {0}
IsShort (Op.exists name) = Unit {0}
IsShort Op.free_space = Unit {0}

abbrev pub AllShort : List Op → Type 0
AllShort [] = Unit {0}
AllShort (op ∷ ops) = IsShort op × AllShort ops

-- The call answers as the map does, and leaves a sound file system that is the new map.
pub record Agrees (op : Op) (s : FileSystem) : Type 0 where
  pub answer : Answer
  pub next : FileSystem
  pub runs : step op s ≡ some (answer, next)
  pub sound : IsSound next
  pub same : (answer, view next) ≡ Spec.step op (view s)
