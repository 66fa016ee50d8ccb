-- ===== src/FileCommands.antt =====
-- kernel/src/commands/filesystem.c: the shell commands on files. A command takes its arguments
-- (`none` is NULL) and the file system, and returns what it prints and the new file system; `none`
-- is a fault below it.
pub mod Usage
pub mod Contents
mod Tests
use os_from_zero.Base.{
  ℕ, ◌-◌, ◌*◌, ◌/◌, ◌%◌, ◌^◌, ◌&&◌, Bool, not, Option, none, some, List, [], ◌∷◌, ◌++◌, ◌==◌, ltb,
  leb, if◌then◌else◌, length, get_elem?, ◌>>=◌, add64, Output, print, print_text, putchar, putchars,
}
use os_from_zero.Strings.{head, strlen}
use os_from_zero.Decimal.{print_number}
use os_from_zero.Shell.{split_word, skip_spaces}
use os_from_zero.Execution.{with_args}
use os_from_zero.Filesystem.{
  File, FileType, FileSystem, max_filename_length, copy_name, create_file, delete_file, write_file,
  read_file, file_exists, get_free_space, get_used_space,
}

-- The digits of a non-negative `int` below the word `n`; a negative one prints nothing.
abbrev pub int_digits : ℕ → ℕ → Option (List ℕ)
int_digits room n = if ltb (n % 2 ^ 32) (2 ^ 31) then print_number room (n % 2 ^ 32) else some []

-- `buf` has room for 15 digits and the 0.
unfoldable pub print_file_size : ℕ → Option (List Output)
print_file_size size =
    if ltb size 1024
    then (do
      digits ← print_number 15 size
      some (print "    " ∷ putchars digits ++ (print "B" ∷ [])))
    else (do
      digits ← int_digits 15 (size / 1024)
      some (print "   " ∷ putchars digits ++ (print "KB" ∷ [])))

abbrev pub print_file_type : FileType → Output
print_file_type FileType.directory = print " DIR  "
print_file_type FileType.regular = print " FILE "

-- dir_entry_t
pub record DirEntry : Type 0 where
  pub name : List ℕ
  pub file_type : FileType
  pub size : ℕ

-- The loop of list_files: the entries that it fills, over those that were there.
unfoldable pub list_from : List File → List DirEntry → List DirEntry
list_from [] entries = []
list_from (f ∷ fs) [] = []
list_from (f ∷ fs) (e ∷ entries) =
    let filled = list_from fs entries in
    let skipped = list_from fs (e ∷ entries) in
    if f.used
    then record { name = copy_name e.name f.name; file_type = f.file_type; size = f.size } ∷ filled
    else skipped

unfoldable pub list_files : FileSystem → List DirEntry → List DirEntry
unfolding list_from
list_files s entries = if s.initialized then list_from s.files entries else []

unfoldable pub ls_lines : List DirEntry → Option (List Output)
unfolding print_file_size
ls_lines [] = some []
ls_lines (e ∷ entries) = do
  size ← print_file_size e.size
  rest ← ls_lines entries
  some (print_file_type e.file_type ∷ size ++ (print "  " ∷ print_text e.name ∷ print "\n" ∷ rest))

-- `entries` is what stands in the array before fs_list_files fills it.
unfoldable pub cmd_ls : List DirEntry → FileSystem → Option (List Output × FileSystem)
unfolding ls_lines list_files
cmd_ls entries s =
    if length (list_files s entries) == 0 then some (print "No files found.\n" ∷ [], s) else do
      lines ← ls_lines (list_files s entries)
      some (print "Files:\n" ∷ print "TYPE  SIZE   NAME\n" ∷ print "----  ----   ----\n" ∷ lines, s)

-- The newline after contents that do not end with one.
abbrev pub last_newline : List ℕ → List Output
last_newline [] = []
last_newline (c ∷ []) = if not (c == 10) then putchar 10 ∷ [] else []
last_newline (c ∷ d ∷ s) = last_newline (d ∷ s)

abbrev pub quoted : Output → List ℕ → Output → List Output
quoted before name behind = before ∷ print_text name ∷ behind ∷ []

unfoldable pub cmd_cat : Option (List ℕ) → FileSystem → Option (List Output × FileSystem)
cmd_cat args s = with_args args (print "Usage: cat <filename>\n" ∷ []) s λ name.
    elim (read_file s name) [
      | none ↦ some (quoted (print "Error: File '") name (print "' not found.\n"), s)
      | some bytes ↦ some (putchars bytes ++ last_newline bytes, s)
    ]

unfoldable pub cmd_rm : Option (List ℕ) → FileSystem → Option (List Output × FileSystem)
cmd_rm args s = with_args args (print "Usage: rm <filename>\n" ∷ []) s λ name.
    if (delete_file s name).0
    then some (quoted (print "File '") name (print "' deleted.\n"), (delete_file s name).1)
    else some (quoted (print "Error: File '") name (print "' not found.\n"), (delete_file s name).1)

-- touch of a file that does not exist.
abbrev pub touched : List ℕ → Bool × FileSystem → Option (List Output × FileSystem)
touched name (done, s) =
    if done
    then some (quoted (print "File '") name (print "' created.\n"), s)
    else some (quoted (print "Error: Could not create file '") name (print "'.\n"), s)

unfoldable pub cmd_touch : Option (List ℕ) → FileSystem → Option (List Output × FileSystem)
cmd_touch args s = with_args args (print "Usage: touch <filename>\n" ∷ []) s λ name.
    if file_exists s name
    then some (quoted (print "File '") name (print "' already exists.\n"), s)
    else touched name (create_file s name FileType.regular)

-- The percentage, in a buffer of three digits and the 0.
unfoldable pub df_percentage : ℕ → ℕ → Option (List Output)
df_percentage used total =
    if ltb 0 total
    then (do
      digits ← int_digits 3 (used * 100 % 2 ^ 64 / total)
      some (print "Usage: " ∷ putchars digits ++ (print "%\n" ∷ [])))
    else some []

unfoldable pub cmd_df : FileSystem → Option (List Output × FileSystem)
unfolding df_percentage print_file_size
cmd_df s = do
  let used = get_used_space s
  let free = get_free_space s
  let total = add64 used free
  total_text ← print_file_size total
  used_text ← print_file_size used
  free_text ← print_file_size free
  usage ← df_percentage used total
  some (
    (print "Filesystem Usage:\n" ∷ print "Total space: " ∷ total_text)
        ++ (print "\nUsed space:  " ∷ used_text)
        ++ (print "\nFree space:  " ∷ free_text)
        ++ (print "\n" ∷ usage),
    s,
  )

-- cmd_write with what fs_write_file has returned.
abbrev pub written : List ℕ → Bool × FileSystem → List Output × FileSystem
written name (done, s) = (
  if done
      then quoted (print "Content written to '") name (print "'.\n")
      else quoted (print "Error: Could not write to file '") name (print "'.\n"),
  s,
)

abbrev pub write_usage : List Output
write_usage = print "Usage: write <filename> <text>\n" ∷ []

-- cmd_write with the name, and the rest of the line from the first space on.
unfoldable pub write_words : List ℕ → List ℕ → FileSystem → Option (List Output × FileSystem)
write_words name rest s =
    if head rest == 0
    then some (write_usage, s)
    else if leb max_filename_length (length name)
    then some (print "Error: Filename too long.\n" ∷ [], s)
    else (do
      r ← write_file s name (skip_spaces rest) (strlen (skip_spaces rest))
      some (written name r))

unfoldable pub cmd_write : Option (List ℕ) → FileSystem → Option (List Output × FileSystem)
unfolding write_words
cmd_write args s =
    with_args args write_usage s λ line. write_words (split_word line).0 (split_word line).1 s
