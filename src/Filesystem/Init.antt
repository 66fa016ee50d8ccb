-- ===== src/Filesystem/Init.antt =====
-- fs_init: FileSystem::init clears the pool and writes the default files. What is in
-- the pool when it runs is an argument.
use os_from_zero.Base.{
  ℕ, true, false, Option, some, List, [], ◌∷◌, ◌++◌, map, if◌then◌else◌, set, length, replicate,
  ◌>>=◌, codes,
}
use os_from_zero.Filesystem.{
  File, FileType, FileSystem, max_files, max_filename_length, max_file_size, create_file,
  write_file,
}

-- The static FILE_POOL, and what stands there before fs_init.
abbrev pub blank_file : File
blank_file = record {
  name = replicate max_filename_length 0;
  file_type = FileType.regular;
  size = 0;
  contents = replicate max_file_size 0;
  used = false;
  created_time = 0;
  modified_time = 0;
}

abbrev pub file_pool : List File
file_pool = replicate max_files blank_file

abbrev pub unstarted : FileSystem
unstarted = record { files = file_pool; current_time = 0; initialized = false }

abbrev pub cleared_file : File → File
cleared_file f = record f {
  used = false;
  name = set f.name 0 0;
  file_type = FileType.regular;
  size = 0;
  created_time = 0;
  modified_time = 0;
}

-- A default file: it is written if it could be created, and whether it is written is not looked at.
unfoldable pub default_file : FileSystem → List ℕ × List ℕ → Option FileSystem
unfolding create_file write_file
default_file s (name, text) =
    let (created, s') = create_file s name FileType.regular in
    if created then (do (done, s'') ← write_file s' name text (length text); some s'') else some s'

unfoldable pub write_defaults : FileSystem → List (List ℕ × List ℕ) → Option FileSystem
unfolding default_file
write_defaults s [] = some s
write_defaults s (d ∷ ds) = do s' ← default_file s d; write_defaults s' ds

abbrev pub default_files : List (List ℕ × List ℕ)
default_files =
    (codes "welcome.txt", codes "Welcome to DEA OS!\nType 'help' for commands.\n")
    ∷ (
      codes "readme.txt",
      codes "DEA OS File System\n\nCommands:\n- ls\n- cat\n- touch\n- rm\n- write\n- df\n",
    )
    ∷ (
      codes "hello_c.elf",
      codes "Hello World from C program!\nThis would be a real ELF file in production.\n",
    )
    ∷ (
      codes "hello_asm.elf",
      codes "Hello World from Assembly!\nThis would be a real ELF file in production.\n",
    )
    ∷ (
      codes "demo.txt",
      codes "DEA OS Program Execution Demo\n============================\n\n"
          ++ codes "Try these commands:\n1. compile hello.elf    - Create test program\n"
          ++ codes "2. exec hello.elf       - Run the program\n3. ps                   - List"
          ++ codes " processes\n4. ls                   - See all files\n\n"
          ++ codes "Your OS can now execute programs!\n",
    )
    ∷ []

unfoldable pub create_default_files : FileSystem → Option FileSystem
unfolding write_defaults
create_default_files s = write_defaults s default_files

unfoldable pub fs_init : FileSystem → Option FileSystem
unfolding create_default_files
fs_init s =
    if s.initialized
    then some s
    else create_default_files (record s { files = map cleared_file s.files; initialized = true })
