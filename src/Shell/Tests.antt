-- ===== src/Shell/Tests.antt =====
-- A registry of one command, and a few keys.
use os_from_zero.Base.{
  ℕ, ◌+◌, ◌<◌, ◌≤◌, ◌≡◌, ◌++◌, refl, true, false, none, some, List, [], ◌∷◌, arith, length,
  if◌then◌else◌, Output,
}
use mathlib.Core.List.{reverse}
use os_from_zero.Strings.{strcmp}
use os_from_zero.Shell.{
  CommandEntry, max_commands, is_zero, register_command, find_command, read_line,
}
use os_from_zero.Shell.Registry.{or_else, register_command_lem}
use os_from_zero.Shell.Line.{read_line-typed}
use os_from_zero.Shell.Dispatch.{IsWord}

-- "ls"
abbrev ls : List ℕ
ls = b'l' ∷ b's' ∷ []

abbrev entry : CommandEntry ℕ
entry = record { name = ls; func = 7; description = "List files"; usage = "ls"; category = "File" }

register_command_lem_example :
    (length (entry ∷ []) < max_commands
      → ((register_command (entry ∷ []) entry).0 ≡ true)
        × (length (register_command (entry ∷ []) entry).1 ≡ length (entry ∷ []) + 1)
        × (find_command (register_command (entry ∷ []) entry).1 ls
            ≡ or_else
                (find_command (entry ∷ []) ls)
                (if is_zero (strcmp ls ls) then some entry else none)))
    × (max_commands ≤ length (entry ∷ [])
        → register_command (entry ∷ []) entry ≡ (false, entry ∷ []))
register_command_lem_example = register_command_lem (entry ∷ []) entry ls

found : find_command (entry ∷ []) ls ≡ some entry
unfolding find_command strcmp
found = refl

ls-IsWord : IsWord ls
ls-IsWord = (ground arith, ground arith, (ground arith, ground arith, tt))

typed_ls : (shown : List Output) × (read_line [] (ls ++ (10 ∷ [])) ≡ some (reverse [] ++ ls, shown))
typed_ls = read_line-typed ls [] [] (ground arith) (ground arith)
