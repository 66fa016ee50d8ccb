-- ===== src/Filesystem/Store/Over.antt =====
-- A write over a file that is there, and what a client sees of a write.
use os_from_zero.Filesystem.Names.{same_name_iff}
use os_from_zero.Filesystem.Distinct.{Distinct, Distinct-set}
use os_from_zero.Filesystem.Slots.{taken, slots-taken, free_slots-set_same}
use mathlib.Core.Option
use os_from_zero.Base.{
  ℕ, ◌+◌, ◌-◌, refl, ◌≤◌, ◌≡◌, ◌≢◌, ap, sym, ◌∙◌, true, false, some, List, arith, get_elem?, take,
  length, Bool-cases, inl, inr, add32,
}
use os_from_zero.Strings.Text.{c_text}
use os_from_zero.Filesystem.{
  File, FileSystem, max_file_size, free_slots, is_named, same_name, find_file_from, write_at,
  read_file,
}
use os_from_zero.Filesystem.Lookup.{
  lookup, find-lookup-some, find-set_found, lookup-set_other, read_file-lookup,
}
use os_from_zero.Filesystem.Store.{AllSized, AllSized-get, AllSized-set, write_at_lem}

pub other_name :
    (f : File) (name other : List ℕ)
    → is_named name f ≡ true
    → c_text other ≢ c_text name
    → is_named other f ≡ false
other_name f name other h ne = elim (Bool-cases (same_name f.name other)) [
  | inl e ↦
      absurd
        (ne (sym ((same_name_iff f.name other).0 e) ∙ (same_name_iff f.name name).0 (ground arith)))
  | inr e ↦ ground arith
]

lookup-found :
    (name : List ℕ) (fs : List File) (k : ℕ) (f : File)
    → find_file_from name fs 0 ≡ some (0 + k)
    → get_elem? fs k ≡ some f
    → lookup name fs ≡ some f
lookup-found name fs k f found stands =
    let (j, g, at, there, named, first) = find-lookup-some name fs 0 (0 + k) found in
    let same : k ≡ j = omega arith in first ∙ sym (sym stands ∙ (ap (get_elem? fs) same ∙ there))

-- What a client sees of a write that has succeeded: the bytes are read back, every other name
-- reads as before, the pool is as good as it was, and a slot is taken if the name was new.
pub record Stored (s s' : FileSystem) (name bytes : List ℕ) (n : ℕ) : Type 0 where
  pub read_back : read_file s' name ≡ some (take n bytes)
  pub others :
      (other : List ℕ) → c_text other ≢ c_text name → read_file s' other ≡ read_file s other
  pub sized : AllSized s'.files
  pub on : s'.initialized ≡ true
  pub distinct : Distinct s.files → Distinct s'.files
  pub space : taken (lookup name s.files) ≤ free_slots s.files
  pub slots : free_slots s'.files ≡ free_slots s.files - taken (lookup name s.files)

module _ (s : FileSystem) (name bytes : List ℕ) (n : ℕ) (on : s.initialized ≡ true)
    (sized : AllSized s.files) (small : n ≤ max_file_size) (enough : n ≤ length bytes) where
  -- The file stands in slot `k`.
  pub written_over :
      (k : ℕ) (f : File)
      → find_file_from name s.files 0 ≡ some (0 + k)
      → get_elem? s.files k ≡ some f
      → is_named name f ≡ true
      → (s' : FileSystem) × (write_at s bytes n (some k) ≡ some (true, s'))
        × Stored s s' name bytes n
  written_over k f found stands named =
      let good = AllSized-get s.files k f sized stands in
      let (s', run, w) = write_at_lem s bytes n k f stands (rw (good.room) small) enough in
      let g = record f { contents = w.stored; size = n; modified_time = add32 s.current_time 1 } in
      let first = (find-set_found name s.files 0 k g found named).1 in
      (
        s',
        run,
        record {
          read_back =
              read_file-lookup name s' (w.on ∙ on)
              ∙ (ap (λ fs. Option.map (λ (a : File). take a.size a.contents) (lookup name fs))
                    w.table
                  ∙ (ap (Option.map (λ (a : File). take a.size a.contents)) first
                      ∙ ap some w.exact));
          others = λ other ne.
              read_file-lookup other s' (w.on ∙ on)
              ∙ (ap (λ fs. Option.map (λ (a : File). take a.size a.contents) (lookup other fs))
                    w.table
                  ∙ (ap (Option.map (λ (a : File). take a.size a.contents)) (
                        lookup-set_other other s.files k f g stands
                          (other_name f name other named ne) (other_name g name other named ne))
                      ∙ sym (read_file-lookup other s on)));
          sized = rw (w.table) (
              AllSized-set s.files k g sized
                (record { name_room = good.name_room; room = w.room ∙ good.room }));
          on = w.on ∙ on;
          distinct = λ d. rw (w.table) (Distinct-set s.files k f g d stands (λ n h. inl h));
          space = rw (lookup-found name s.files k f found stands) (omega arith);
          slots =
              ap free_slots w.table
              ∙ (free_slots-set_same f g s.files k stands refl
                  ∙ slots-taken (free_slots s.files) f
                  ∙ ap (λ o. free_slots s.files - taken o)
                      (sym (lookup-found name s.files k f found stands)));
        },
      )
