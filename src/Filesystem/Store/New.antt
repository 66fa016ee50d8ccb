-- ===== src/Filesystem/Store/New.antt =====
-- A write under a new name: the file that create_file makes in a free slot, and the write over it.
use os_from_zero.Filesystem.Names.{same-copy_name, length-copy_name, same_name_iff}
use os_from_zero.Filesystem.Distinct.{Distinct-set, Renames}
use os_from_zero.Filesystem.Slots.{taken, slots-taken, free_slots-set_taken}
use mathlib.Core.Option
use native.Mathlib.Nat.{zero-add}
use os_from_zero.Base.{
  ℕ, ◌-◌, ◌≤◌, refl, inr, ◌≡◌, ◌≢◌, ap, sym, ◌∙◌, true, false, none, some, List, [], arith,
  get_elem?, set, take, length, if_true, add32, get_elem?-set_of_some,
}
use os_from_zero.Strings.Text.{c_text}
use os_from_zero.Filesystem.{
  File, FileType, FileSystem, max_filename_length, max_file_size, is_named, copy_name, find_file,
  write_at, read_file, free_slots,
}
use os_from_zero.Filesystem.Lookup.{
  lookup, lookup-text, find-set_new, lookup-set_other, read_file-lookup,
}
use os_from_zero.Filesystem.Store.{AllSized, AllSized-get, AllSized-set}
use os_from_zero.Filesystem.Store.Over.{other_name, Stored, written_over}

-- What create_file makes of a free slot, and of the file system.
abbrev pub made : FileSystem → List ℕ → File → File
made s name f = record f {
  used = true;
  name = copy_name f.name name;
  file_type = FileType.regular;
  size = 0;
  created_time = add32 s.current_time 1;
  modified_time = add32 s.current_time 1;
}

abbrev pub after : FileSystem → List ℕ → ℕ → File → FileSystem
after s name k f = record s {
  files = set s.files k (made s name f);
  current_time = add32 s.current_time 1;
}

module _ (s : FileSystem) (name : List ℕ) (k : ℕ) (f : File) (on : s.initialized ≡ true)
    (sized : AllSized s.files) (absent : lookup name s.files ≡ none)
    (stands : get_elem? s.files k ≡ some f) (free : f.used ≡ false)
    (short : length (c_text name) ≤ max_filename_length) where
  made_named : is_named name (made s name f) ≡ true
  made_named =
      same-copy_name f.name name (rw ((AllSized-get s.files k f sized stands).name_room) short)

  after_sized : AllSized (set s.files k (made s name f))
  after_sized =
      let good = AllSized-get s.files k f sized stands in
      AllSized-set s.files k (made s name f) sized
        (record { name_room = length-copy_name f.name name ∙ good.name_room; room = good.room })

  after_others :
      (other : List ℕ)
      → c_text other ≢ c_text name
      → read_file (after s name k f) other ≡ read_file s other
  after_others other ne =
      read_file-lookup other (after s name k f) on
      ∙ (ap (Option.map (λ (a : File). take a.size a.contents)) (
            lookup-set_other other s.files k f (made s name f) stands (ground arith)
              (other_name (made s name f) name other made_named ne))
          ∙ sym (read_file-lookup other s on))

  renames : Renames s.files f (made s name f)
  renames n named = inr (
      lookup-text n name s.files (
        sym ((same_name_iff (copy_name f.name name) n).0 (ground arith))
        ∙ (same_name_iff (copy_name f.name name) name).0 (ground (arith, made_named)))
      ∙ absent)

  after_slots :
      free_slots (set s.files k (made s name f)) ≡ free_slots s.files - taken (lookup name s.files)
  after_slots =
      rw absent (omega (arith, free_slots-set_taken f (made s name f) s.files k stands free refl))

  after_space : taken (lookup name s.files) ≤ free_slots s.files
  after_space =
      rw absent (omega (arith, free_slots-set_taken f (made s name f) s.files k stands free refl))

  -- The new file is empty.
  pub created : Stored s (after s name k f) name [] 0
  created = record {
    read_back =
        read_file-lookup name (after s name k f) on
        ∙ ap (Option.map (λ (a : File). take a.size a.contents))
            (find-set_new name s.files 0 k f (made s name f) absent stands made_named).1;
    others = after_others;
    sized = after_sized;
    on = on;
    distinct = λ d. Distinct-set s.files k f (made s name f) d stands renames;
    space = after_space;
    slots = after_slots;
  }

  pub written_new :
      (bytes : List ℕ) (n : ℕ)
      → n ≤ max_file_size
      → n ≤ length bytes
      → (s' : FileSystem) × (write_at (after s name k f) bytes n (find_file (after s name k f) name)
          ≡ some (true, s'))
        × Stored s s' name bytes n
  unfolding find_file
  written_new bytes n small enough =
      let found = (find-set_new name s.files 0 k f (made s name f) absent stands made_named).0 in
      let (s', run, st) =
        written_over (after s name k f) name bytes n on after_sized small enough k (made s name f)
          found (get_elem?-set_of_some s.files k (made s name f) f stands) made_named in
      (
        s',
        ap (write_at (after s name k f) bytes n)
              (if_true s.initialized _ _ on ∙ (found ∙ ap some (zero-add k)))
            ∙ run,
        record {
          read_back = st.read_back;
          others = λ other ne. st.others other ne ∙ after_others other ne;
          sized = st.sized;
          on = st.on;
          distinct = λ d. st.distinct (Distinct-set s.files k f (made s name f) d stands renames);
          space = after_space;
          slots =
              st.slots
              ∙ ap (λ o. free_slots (set s.files k (made s name f)) - taken o)
                  (find-set_new name s.files 0 k f (made s name f) absent stands made_named).1
              ∙ sym (slots-taken _ (made s name f))
              ∙ after_slots;
        },
      )
