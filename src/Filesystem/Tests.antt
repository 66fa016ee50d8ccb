-- ===== src/Filesystem/Tests.antt =====
-- A file system of two files.
use os_from_zero.Filesystem.Init.{blank_file, unstarted, default_files, fs_init}
use os_from_zero.Filesystem.Store.{AllSized-replicate, blank_file-IsSized, AllSized}
use os_from_zero.Base.{
  ℕ, ◌>>=◌, ◌≡◌, ◌⊎◌, refl, true, false, none, some, List, [], ◌∷◌, arith, length, replicate,
}
use os_from_zero.Strings.Text.{c_text}
use os_from_zero.Filesystem.Spec
use os_from_zero.Filesystem.Spec.{Op, Answer, fill, empty}
use os_from_zero.Filesystem.Refine.{AllShort, run}
use os_from_zero.Filesystem.Refine.Start.{fs_init_refines}
use os_from_zero.Filesystem.{
  FileSystem, max_files, same_name, find_file, find_free_slot_from, write_file,
}
use os_from_zero.Filesystem.Store.Over.{Stored}
use os_from_zero.Filesystem.Store.Write.{write_file_lem}
use os_from_zero.Filesystem.Store.Long.{write_file-panics}

abbrev disk : FileSystem
disk = record { files = blank_file ∷ blank_file ∷ []; current_time = 0; initialized = true }

disk-AllSized : AllSized disk.files
disk-AllSized = AllSized-replicate 2 blank_file blank_file-IsSized

-- "a"
abbrev a_name : List ℕ
a_name = b'a' ∷ 0 ∷ []

abbrev two_bytes : List ℕ
two_bytes = 5 ∷ 6 ∷ []

a_text : length (c_text a_name) ≡ 1
unfolding c_text
a_text = refl

write_file_lem_example :
    ((find_file disk a_name ≡ none)
      × (find_free_slot_from disk.files 0 ≡ none)
      × (write_file disk a_name two_bytes 2 ≡ some (false, disk)))
    ⊎ ((s' : FileSystem) × (write_file disk a_name two_bytes 2 ≡ some (true, s'))
        × Stored disk s' a_name two_bytes 2)
write_file_lem_example =
    write_file_lem disk a_name two_bytes 2 refl disk-AllSized (ground arith) (ground arith)
      (ground (arith, a_text))

-- A name of 33 bytes.
abbrev long_name : List ℕ
long_name = replicate 33 b'a'

long_text : length (c_text long_name) ≡ 33
unfolding c_text
long_text = refl

no_file : find_file disk long_name ≡ none
unfolding find_file
no_file = refl

a_slot : find_free_slot_from disk.files 0 ≡ some 0
unfolding find_free_slot_from
a_slot = refl

write_file-panics_example : write_file disk long_name two_bytes 2 ≡ none
write_file-panics_example =
    write_file-panics disk long_name two_bytes 2 0 refl disk-AllSized (ground arith) no_file a_slot
      (ground (arith, long_text))

-- A file is made, written, written again, read, deleted and looked for.
abbrev calls : List Op
calls =
    Op.create a_name
    ∷ Op.write a_name two_bytes
    ∷ Op.write a_name (7 ∷ [])
    ∷ Op.read a_name
    ∷ Op.delete a_name
    ∷ Op.exists a_name
    ∷ Op.free_space
    ∷ []

calls-AllShort : AllShort calls
unfolding c_text
calls-AllShort = (omega arith, (omega arith, (omega arith, (tt, (tt, (tt, (tt, tt)))))))

calls-answers :
    Spec.run calls (fill default_files (empty max_files))
    ≡ Answer.done true
      ∷ Answer.done true
      ∷ Answer.done true
      ∷ Answer.bytes (some (7 ∷ []))
      ∷ Answer.done true
      ∷ Answer.done false
      ∷ Answer.space 11264
      ∷ []
unfolding Spec.run same_name
calls-answers = refl

fs_init_refines_example :
    (fs_init unstarted >>= run calls) ≡ some (Spec.run calls (fill default_files (empty max_files)))
fs_init_refines_example =
    fs_init_refines unstarted refl (AllSized-replicate 16 blank_file blank_file-IsSized) refl calls
      calls-AllShort
