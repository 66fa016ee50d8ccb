-- ===== src/Filesystem/Refine/Start.antt =====
-- fs_init leaves a sound file system with the default files.
use os_from_zero.Base.{
  Bool, ℕ, ◌-◌, ◌≤◌, ◌≡◌, refl, ap, sym, ◌∙◌, true, false, none, some, List, [], ◌∷◌, ◌>>=◌, map,
  length, arith, inl, inr, if_false, if◌then◌else◌, Option-cases,
}
use os_from_zero.Strings.Text.{c_text}
use os_from_zero.Filesystem.{
  FileType, FileSystem, max_files, max_file_size, max_filename_length, same_name, create_file,
  write_file, find_file, read_file, free_slots,
}
use os_from_zero.Filesystem.Init.{
  cleared_file, default_file, write_defaults, default_files, create_default_files, fs_init,
}
use os_from_zero.Filesystem.Names.{take-length}
use os_from_zero.Filesystem.Lookup.{lookup}
use os_from_zero.Filesystem.Slots.{taken, slots-taken}
use os_from_zero.Filesystem.Store.{AllSized}
use os_from_zero.Filesystem.Store.Over.{Stored}
use os_from_zero.Filesystem.Store.Create.{create_file_lem}
use os_from_zero.Filesystem.Store.Write.{write_file_lem}
use os_from_zero.Filesystem.Spec
use os_from_zero.Filesystem.Spec.{Op, Map, put, fill, empty}
use os_from_zero.Filesystem.Refine.{IsSound, view, run, AllShort}
use os_from_zero.Filesystem.Refine.Views.{view-put, read_file-none, read_file-some, Stored-IsSound}
use os_from_zero.Filesystem.Refine.Cleared.{cleared-sized, cleared-Distinct, view-cleared}
use os_from_zero.Filesystem.Refine.Steps.{run_refines}

-- Files that are new for the map, with names and texts that fit.
abbrev Fits : List (List ℕ × List ℕ) → Map → Type 0
Fits [] m = Unit {0}
Fits ((name, text) ∷ ds) m =
    (m.holds name ≡ none)
    × (1 ≤ m.room)
    × (length (c_text name) ≤ max_filename_length)
    × (length text ≤ max_file_size)
    × Fits ds (record { holds = put name (some text) m.holds; room = m.room - 1 })

created_written :
    (s s₁ s₂ : FileSystem) (name text : List ℕ)
    → create_file s name FileType.regular ≡ (true, s₁)
    → write_file s₁ name text (length text) ≡ some (true, s₂)
    → default_file s (name, text) ≡ some s₂
unfolding default_file
created_written s s₁ s₂ name text made written =
    ap
      (λ (p : Bool × FileSystem).
        if p.0
        then (do (done, s'') ← write_file p.1 name text (length text); some s'')
        else some p.1)
      made
    ∙ ap (λ o. o >>= λ r. some r.1) written

find_file-none :
    (s : FileSystem) (name : List ℕ) → find_file s name ≡ none → read_file s name ≡ none
unfolding read_file
find_file-none s name e = rw e

-- What is written over a file that has just been made.
twice :
    (s s₁ s₂ : FileSystem) (name text : List ℕ)
    → IsSound s
    → lookup name s.files ≡ none
    → Stored s s₁ name [] 0
    → Stored s₁ s₂ name text (length text)
    → view s₂ ≡ record { holds = put name (some text) (read_file s); room = free_slots s.files - 1 }
twice s s₁ s₂ name text sound new st st' =
    view-put s s₂ name (some text) (free_slots s.files - 1) st'.on
      (st'.read_back ∙ ap some (take-length text (length text) (omega arith)))
      (λ other ne. st'.others other ne ∙ st.others other ne)
      (elim (Option-cases (lookup name s₁.files)) [
        | inl none_now ↦ absurd (
            ground (
              arith,
              read_file-none s₁ name (Stored-IsSound s s₁ name [] 0 sound st) none_now,
              st.read_back,
            ))
        | inr (f, found) ↦
            st'.slots
            ∙ (ap (λ o. free_slots s₁.files - taken o) found
                ∙ (sym (slots-taken (free_slots s₁.files) f)
                    ∙ (st.slots ∙ ap (λ o. free_slots s.files - taken o) new)))
      ])

-- A default file that is new.
default_file_new :
    (s : FileSystem) (name text : List ℕ)
    → IsSound s
    → read_file s name ≡ none
    → 1 ≤ free_slots s.files
    → length (c_text name) ≤ max_filename_length
    → length text ≤ max_file_size
    → (s' : FileSystem) × (default_file s (name, text) ≡ some s')
      × IsSound s'
      × (view s'
          ≡ record { holds = put name (some text) (read_file s); room = free_slots s.files - 1 })
default_file_new s name text sound absent space short small =
    elim (create_file_lem s name (sound.on) (sound.sized) short) [
      | inl (f, found, run) ↦ absurd (ground (arith, read_file-some s name sound f found))
      | inr (inl (new, full, run)) ↦ absurd (omega arith)
      | inr (inr (s₁, new, made, st)) ↦
          elim (write_file_lem s₁ name text (length text) st.on st.sized small (omega arith)
            short) [
              | inl (unfound, full, run) ↦
                  absurd (ground (arith, find_file-none s₁ name unfound, st.read_back))
              | inr (s₂, run, st') ↦ (
                s₂,
                created_written s s₁ s₂ name text made run,
                Stored-IsSound s₁ s₂ name text (length text)
                    (Stored-IsSound s s₁ name [] 0 sound st) st',
                twice s s₁ s₂ name text sound new st st',
              )
            ]
    ]

write_defaults_lem :
    (ds : List (List ℕ × List ℕ)) (s : FileSystem) (m : Map)
    → IsSound s
    → view s ≡ m
    → Fits ds m
    → (s' : FileSystem) × (write_defaults s ds ≡ some s') × IsSound s' × (view s' ≡ fill ds m)
unfolding write_defaults
write_defaults_lem [] s m sound seen fits = (s, refl, sound, seen)
write_defaults_lem ((name, text) ∷ ds) s m sound seen (absent, space, short, small, rest) =
    let (s₁, run, sound₁, seen₁) =
      default_file_new s name text sound (ap (λ n. n.holds name) seen ∙ absent)
        (rw (ap (λ n. n.room) seen) space) short small in
    let (s₂, run₂, sound₂, seen₂) =
      write_defaults_lem ds s₁ _ sound₁
        (seen₁
          ∙ ap (λ (n : Map). record { holds = put name (some text) n.holds; room = n.room - 1 })
              seen)
        rest in
    (s₂, ap (λ o. o >>= λ s'. write_defaults s' ds) run ∙ run₂, sound₂, seen₂)

-- The default files have names and texts that fit.
defaults-Fits : Fits default_files (empty max_files)
unfolding same_name c_text
defaults-Fits = (
  refl,
  ground arith,
  ground arith,
  ground arith,
  (
    refl,
    ground arith,
    ground arith,
    ground arith,
    (
      refl,
      ground arith,
      ground arith,
      ground arith,
      (
        refl,
        ground arith,
        ground arith,
        ground arith,
        (refl, ground arith, ground arith, ground arith, tt),
      ),
    ),
  ),
)

-- fs_init on a pool that is not initialised: a sound file system that is the map of the default
-- files.
pub fs_init_lem :
    (s : FileSystem)
    → s.initialized ≡ false
    → AllSized s.files
    → length s.files ≡ max_files
    → (s' : FileSystem) × (fs_init s ≡ some s')
      × IsSound s'
      × (view s' ≡ fill default_files (empty max_files))
unfolding fs_init create_default_files
fs_init_lem s off sized full =
    let start : FileSystem = record s { files = map cleared_file s.files; initialized = true } in
    let (s', run, sound, seen) =
      write_defaults_lem default_files start (empty max_files)
        (record {
          on = refl;
          sized = cleared-sized s.files sized;
          distinct = cleared-Distinct s.files;
        })
        (view-cleared s.current_time s.files ∙ ap empty full) defaults-Fits in
    (s', if_false s.initialized _ _ off ∙ run, sound, seen)

-- Once fs_init has run on a pool of 16 files that is not initialised, whatever the pool holds and
-- whatever calls are made with names of at most 32 bytes, nothing panics, and the calls answer as
-- those on a map do that holds the five default files and has room for eleven more: a file is read
-- as it was last written, until it is deleted; a new name is refused only when there is no room; a
-- write of more than 1024 bytes is refused; and the free space is 1024 bytes for each free slot.
pub fs_init_refines :
    (s : FileSystem)
    → s.initialized ≡ false
    → AllSized s.files
    → length s.files ≡ max_files
    → (ops : List Op) → AllShort ops
    → (fs_init s >>= run ops) ≡ some (Spec.run ops (fill default_files (empty max_files)))
fs_init_refines s off sized full ops short =
    let (s', start, sound, seen) = fs_init_lem s off sized full in
    ap (λ o. o >>= run ops) start
    ∙ (run_refines ops s' sound short ∙ ap (λ m. some (Spec.run ops m)) seen)
