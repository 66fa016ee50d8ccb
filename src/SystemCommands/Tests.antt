-- ===== src/SystemCommands/Tests.antt =====
-- The commands that the shell starts with.
use Prim.Native.String.{String}
use mathlib.Core.List.{Perm}
use os_from_zero.Base.{◌≡◌, refl, some, List, [], ◌∷◌, ◌++◌, arith, get_elem?, replicate, print}
use os_from_zero.Shell.{CommandEntry, execute_command, call, argument}
use os_from_zero.SystemCommands.{cmd_help}
use os_from_zero.SystemCommands.Help.{AllOnce}
use os_from_zero.SystemCommands.Listing.{page, titles, members, AllSorted, cmd_help_lem}
use os_from_zero.SystemCommands.Start.{
  Function, entry, all_commands, shell_init, system_commands, math_commands, filesystem_commands,
}
use os_from_zero.SystemCommands.Registry.{shell_init-calls}

abbrev two_commands : List (CommandEntry Function)
two_commands =
    entry "ls" Function.cmd_ls "List files and directories" "ls" "Filesystem"
    ∷ entry "clear" Function.cmd_clear "Clear the screen" "clear" "System"
    ∷ []

cmd_help_lem_example :
    (groups : List (String × List (CommandEntry Function))) × (cmd_help two_commands
      ≡ some (
          (print "Available commands:\n\n" ∷ page groups)
          ++ (print "Type 'help <command>' for detailed usage information.\n" ∷ [])))
    × AllOnce (titles groups)
    × AllSorted groups
    × Perm (members groups) two_commands
cmd_help_lem_example = cmd_help_lem two_commands (omega arith)

abbrev cat : CommandEntry Function
cat = entry "cat" Function.cmd_cat "Display file contents" "cat <filename>" "Filesystem"

cat-at : get_elem? all_commands 10 ≡ some cat
unfolding all_commands system_commands math_commands filesystem_commands
cat-at = refl

-- "cat  a"
shell_init-calls_example :
    execute_command shell_init (cat.name ++ (replicate 2 b' ' ++ (b'a' ∷ [])))
    ≡ call Function.cmd_cat (argument (b'a' ∷ []))
shell_init-calls_example =
    shell_init-calls 10 cat 2 (b'a' ∷ []) cat-at (ground arith) (ground arith)
