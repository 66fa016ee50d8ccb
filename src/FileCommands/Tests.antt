-- ===== src/FileCommands/Tests.antt =====
-- The commands on an empty disk.
use os_from_zero.Filesystem.Init.{blank_file, file_pool}
use os_from_zero.Filesystem.Store.{AllSized-replicate, blank_file-IsSized}
use os_from_zero.Base.{
  ℕ, zero, suc, ◌+◌, ◌*◌, ◌≤◌, ◌≡◌, ◌⊎◌, refl, true, some, List, [], ◌∷◌, ◌++◌, arith, take,
  replicate, print, putchars,
}
use os_from_zero.Strings.{strlen}
use os_from_zero.Filesystem.{FileSystem, max_files, max_file_size, get_free_space, get_used_space}
use os_from_zero.FileCommands.{cmd_write, cmd_cat, quoted, last_newline}
use os_from_zero.FileCommands.Contents.{cmd_write-cat}
use os_from_zero.FileCommands.Usage.{AllBounded, get_used_space-bound}

abbrev disk : FileSystem
disk = record { files = file_pool; current_time = 0; initialized = true }

AllBounded-replicate : (n : ℕ) → AllBounded (replicate n blank_file)
AllBounded-replicate zero = tt
AllBounded-replicate (suc n) = (omega arith, AllBounded-replicate n)

-- "ok"
abbrev ok_text : List ℕ
ok_text = b'o' ∷ b'k' ∷ []

strlen-ok_text : strlen ok_text ≡ 2
unfolding strlen
strlen-ok_text = refl

-- "a ok"
cmd_write-cat_example :
    (cmd_write (some ((b'a' ∷ []) ++ (replicate (suc zero) b' ' ++ ok_text))) disk
      ≡ some (quoted (print "Error: Could not write to file '") (b'a' ∷ []) (print "'.\n"), disk))
    ⊎ ((s' : FileSystem) × (cmd_write
            (some ((b'a' ∷ []) ++ (replicate (suc zero) b' ' ++ ok_text)))
            disk
          ≡ some (quoted (print "Content written to '") (b'a' ∷ []) (print "'.\n"), s'))
        × (cmd_cat (some (b'a' ∷ [])) s'
            ≡ some (
              putchars (take (strlen ok_text) ok_text)
                  ++ last_newline (take (strlen ok_text) ok_text),
              s',
            )))
cmd_write-cat_example =
    cmd_write-cat b'a' [] ok_text zero disk (ground arith, ground arith, tt) (ground arith)
      (ground arith) (ground (arith, strlen-ok_text)) refl
      (AllSized-replicate 16 blank_file blank_file-IsSized)

get_used_space-bound_example : get_used_space disk + get_free_space disk ≤ max_files * max_file_size
get_used_space-bound_example = get_used_space-bound disk refl (AllBounded-replicate 16)
