-- ===== src/Filesystem/Refine/Delete.antt =====
-- What delete_file does to the pool.
use mathlib.Core.Option
use os_from_zero.Base.{
  ℕ, suc, ◌≡◌, refl, ap, sym, ◌∙◌, true, false, none, some, List, [], ◌∷◌, arith, get_elem?, set,
  take, length-set, Bool-cases, inl, inr, if_true,
}
use os_from_zero.Filesystem.{
  File, FileSystem, is_named, delete_from, delete_file, read_file, free_slots,
}
use os_from_zero.Filesystem.Lookup.{lookup, lookup-set_other, read_file-lookup}
use os_from_zero.Filesystem.Distinct.{Distinct-set, lookup-set_gone}
use os_from_zero.Filesystem.Slots.{free_slots-set_freed}
use os_from_zero.Filesystem.Store.{AllSized-get, AllSized-set}
use os_from_zero.Filesystem.Store.Over.{other_name}
use os_from_zero.Filesystem.Spec.{put}
use os_from_zero.Filesystem.Refine.{IsSound, view}
use os_from_zero.Filesystem.Refine.Views.{view-put}

abbrev pub emptied : File → File
emptied f = record f { used = false; name = set f.name 0 0; size = 0 }

delete_from-none :
    (fs : List File) (name : List ℕ) → lookup name fs ≡ none → delete_from fs name ≡ none
unfolding delete_from
delete_from-none [] name h = refl
delete_from-none (f ∷ fs) name h = ground (arith, delete_from-none fs name)

delete_from-some :
    (fs : List File) (name : List ℕ) (g : File)
    → lookup name fs ≡ some g
    → (k : ℕ) × (f : File) × (get_elem? fs k ≡ some f)
      × (is_named name f ≡ true)
      × (delete_from fs name ≡ some (set fs k (emptied f)))
unfolding delete_from
delete_from-some [] name g h = cc
delete_from-some (f ∷ fs) name g h = elim (Bool-cases (is_named name f)) [
  | inl e ↦ (0, f, refl, e, rw e)
  | inr e ↦
      let (k, h', stands, named, run) = delete_from-some fs name g (rw e at h) in
      (suc k, h', stands, named, rw (e, run))
]

pub delete_file-absent :
    (s : FileSystem) (name : List ℕ)
    → s.initialized ≡ true
    → lookup name s.files ≡ none
    → delete_file s name ≡ (false, s)
unfolding delete_file
delete_file-absent s name on absent =
    if_true s.initialized _ _ on
    ∙ ap (λ o. elim o [ none ↦ (false, s) | some fs ↦ (true, record s { files = fs }) ])
        (delete_from-none s.files name absent)

pub delete_file-found :
    (s : FileSystem) (name : List ℕ) (g : File)
    → IsSound s
    → lookup name s.files ≡ some g
    → (s' : FileSystem) × (delete_file s name ≡ (true, s'))
      × IsSound s'
      × (view s' ≡ record { holds = put name none (read_file s); room = suc (free_slots s.files) })
unfolding delete_file
delete_file-found s name g sound found =
    let (k, f, stands, named, run) = delete_from-some s.files name g found in
    let s' : FileSystem = record s { files = set s.files k (emptied f) } in
    let good = AllSized-get s.files k f (sound.sized) stands in
    (
      s',
      if_true s.initialized _ _ (sound.on)
          ∙ ap (λ o. elim o [ none ↦ (false, s) | some fs ↦ (true, record s { files = fs }) ]) run,
      record {
        on = sound.on;
        sized =
            AllSized-set s.files k (emptied f) (sound.sized)
              (record { name_room = length-set f.name 0 0 ∙ good.name_room; room = good.room });
        distinct = Distinct-set s.files k f (emptied f) (sound.distinct) stands (λ n h. cc);
      },
      view-put s s' name none (suc (free_slots s.files)) (sound.on)
          (read_file-lookup name s' (sound.on)
            ∙ ap (Option.map (λ (a : File). take a.size a.contents))
                (lookup-set_gone name s.files k f (emptied f) (sound.distinct) stands named refl))
          (λ other ne.
            read_file-lookup other s' (sound.on)
            ∙ (ap (Option.map (λ (a : File). take a.size a.contents)) (
                  lookup-set_other other s.files k f (emptied f) stands
                    (other_name f name other named ne) refl)
                ∙ sym (read_file-lookup other s (sound.on))))
          (free_slots-set_freed f (emptied f) s.files k stands (ground arith) refl),
    )
