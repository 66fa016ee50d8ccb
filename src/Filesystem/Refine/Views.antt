-- ===== src/Filesystem/Refine/Views.antt =====
-- The map that a file system is after a call.
use mathlib.Core.Option
use mathlib.Core.Path.{ap₂, fun_ext}
use os_from_zero.Base.{
  ℕ, ◌≡◌, ◌≢◌, ap, sym, ◌∙◌, true, Option, none, some, List, take, Bool-cases, inl, inr, if_true,
  if_false, arith,
}
use os_from_zero.Strings.Text.{c_text}
use os_from_zero.Filesystem.{File, FileSystem, same_name, read_file, free_slots}
use os_from_zero.Filesystem.Names.{same_name_iff}
use os_from_zero.Filesystem.Lookup.{lookup, lookup-text, read_file-lookup}
use os_from_zero.Filesystem.Store.Over.{Stored}
use os_from_zero.Filesystem.Spec.{put}
use os_from_zero.Filesystem.Refine.{IsSound, view}

read_file-text :
    (s : FileSystem) (n m : List ℕ)
    → s.initialized ≡ true
    → c_text n ≡ c_text m
    → read_file s n ≡ read_file s m
read_file-text s n m on e =
    read_file-lookup n s on
    ∙ (ap (Option.map (λ (f : File). take f.size f.contents)) (lookup-text n m s.files e)
        ∙ sym (read_file-lookup m s on))

-- One name has changed.
pub view-put :
    (s s' : FileSystem) (name : List ℕ) (v : Option (List ℕ)) (room : ℕ)
    → s'.initialized ≡ true
    → read_file s' name ≡ v
    → ((other : List ℕ) → c_text other ≢ c_text name → read_file s' other ≡ read_file s other)
    → free_slots s'.files ≡ room
    → view s' ≡ record { holds = put name v (read_file s); room = room }
view-put s s' name v room on here others slots =
    ap₂ (λ h r. record { holds = h; room = r }) (fun_ext at) slots
  where
    at : (other : List ℕ) → read_file s' other ≡ put name v (read_file s) other
    at other = elim (Bool-cases (same_name name other)) [
      | inl e ↦
          read_file-text s' other name on (sym ((same_name_iff name other).0 e))
          ∙ (here ∙ sym (if_true (same_name name other) v (read_file s other) e))
      | inr e ↦
          others other (λ h. ground (arith, (same_name_iff name other).1 (sym h)))
          ∙ sym (if_false (same_name name other) v (read_file s other) e)
    ]

-- What is held under a name, by the file that has it.
module _ (s : FileSystem) (name : List ℕ) (sound : IsSound s) where
  pub read_file-none : lookup name s.files ≡ none → read_file s name ≡ none
  read_file-none e =
      read_file-lookup name s (sound.on) ∙ ap (Option.map (λ (f : File). take f.size f.contents)) e

  pub read_file-some :
      (f : File) → lookup name s.files ≡ some f → read_file s name ≡ some (take f.size f.contents)
  read_file-some f e =
      read_file-lookup name s (sound.on) ∙ ap (Option.map (λ (f : File). take f.size f.contents)) e

pub Stored-IsSound :
    (s s' : FileSystem) (name bytes : List ℕ) (n : ℕ)
    → IsSound s
    → Stored s s' name bytes n
    → IsSound s'
Stored-IsSound s s' name bytes n sound st = record {
  on = st.on;
  sized = st.sized;
  distinct = st.distinct (sound.distinct);
}
