-- ===== src/Filesystem/Refine/Written.antt =====
-- The map after a write, and the writes that are refused.
use os_from_zero.Base.{
  ℕ, ◌-◌, ◌≤◌, ◌≡◌, ap, sym, ◌∙◌, true, false, none, some, List, ◌==◌, ltb, take, arith, if_true,
  if_false,
}
use os_from_zero.Filesystem.{File, FileSystem, max_file_size, write_file, read_file, free_slots}
use os_from_zero.Filesystem.Lookup.{lookup}
use os_from_zero.Filesystem.Slots.{taken}
use os_from_zero.Filesystem.Store.Over.{Stored}
use os_from_zero.Filesystem.Spec.{Answer, put, store_new}
use os_from_zero.Filesystem.Refine.{view}
use os_from_zero.Filesystem.Refine.Views.{view-put}

module _ (s s' : FileSystem) (name bytes : List ℕ) (n : ℕ) (st : Stored s s' name bytes n) where
  pub view-Stored-found :
      (f : File)
      → lookup name s.files ≡ some f
      → view s'
        ≡ record { holds = put name (some (take n bytes)) (read_file s); room = free_slots s.files }
  view-Stored-found f found =
      view-put s s' name (some (take n bytes)) (free_slots s.files) st.on st.read_back st.others
        (st.slots ∙ rw found (omega arith))

  pub view-Stored-new :
      lookup name s.files ≡ none
      → (Answer.done true, view s') ≡ store_new name (take n bytes) (view s)
  unfolding store_new
  view-Stored-new absent =
      ap (λ m. (Answer.done true, m))
        (view-put s s' name (some (take n bytes)) (free_slots s.files - 1) st.on st.read_back
          st.others (st.slots ∙ ap (λ o. free_slots s.files - taken o) absent))
      ∙ sym (if_false (free_slots s.files == 0) _ _ room)
    where
      room : (free_slots s.files == 0) ≡ false
      room =
          let space = st.space in
          let one : 1 ≤ free_slots s.files = rw absent at space in ground arith

pub store_new_full :
    (s : FileSystem) (name bytes : List ℕ)
    → free_slots s.files ≡ 0
    → (Answer.done false, view s) ≡ store_new name bytes (view s)
unfolding store_new
store_new_full s name bytes full = sym (if_true (free_slots s.files == 0) _ _ (ground arith))

pub write_file-big :
    (s : FileSystem) (name bytes : List ℕ) (n : ℕ)
    → s.initialized ≡ true
    → ltb max_file_size n ≡ true
    → write_file s name bytes n ≡ some (false, s)
unfolding write_file
write_file-big s name bytes n on big = ground arith
