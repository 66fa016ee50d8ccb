-- ===== src/SystemCommands.antt =====
-- kernel/src/commands/system.c: the commands that show texts, over the command registry of Shell.
-- The sound of cmd_exit is left out, and the halt behind its texts.
pub mod Help
pub mod Listing
pub mod Start
pub mod Registry
mod Tests
use Prim.Native.String.{String}
use os_from_zero.Base.{
  ℕ, ◌-◌, Bool, true, false, Option, none, some, List, [], ◌∷◌, ◌++◌, ◌==◌, ltb, leb, if◌then◌else◌,
  length, replicate, ◌>>=◌, Output, print, print_text, codes,
}
use os_from_zero.Base.Int.{pos}
use os_from_zero.Strings.{head, strcmp}
use os_from_zero.Decimal.{int_to_string}
use os_from_zero.Terminal.{Framebuffer, Terminal, clear_screen}
use os_from_zero.Shell.{CommandEntry, max_commands, is_zero}

-- `strcmp(a, b) == 0`
abbrev pub same_text : String → String → Bool
same_text a b = is_zero (strcmp (codes a) (codes b))

-- The inner loop of cmd_help's search for categories.
unfoldable pub known : List String → String → Bool
known [] category = false
known (c ∷ cs) category = if same_text c category then true else known cs category

-- `categories` has room for MAX_COMMANDS pointers; a write behind it is a fault.
unfoldable pub add_category : List String → String → Option (List String)
unfolding known
add_category categories category =
    if known categories category
    then some categories
    else if ltb (length categories) max_commands
    then some (categories ++ (category ∷ []))
    else none

module _ {ℓ} {C : Type ℓ} where
  unfoldable pub collect : List (CommandEntry C) → List String → Option (List String)
  unfolding add_category
  collect [] categories = some categories
  collect (c ∷ cs) categories = do
    categories' ← add_category categories c.category
    collect cs categories'

  unfoldable pub of_category : String → List (CommandEntry C) → List (CommandEntry C)
  of_category category [] = []
  of_category category (c ∷ cs) =
      let rest = of_category category cs in if same_text c.category category then c ∷ rest else rest

  abbrev pub help_lines : List (CommandEntry C) → List Output
  help_lines [] = []
  help_lines (c ∷ cs) =
      print "  "
      ∷ print_text c.name
      ∷ print " - "
      ∷ print c.description
      ∷ print "\n"
      ∷ help_lines cs

  -- The second loop of cmd_help.
  unfoldable pub sections : List (CommandEntry C) → List String → List Output
  unfolding of_category
  sections commands [] = []
  sections commands (category ∷ categories) =
      (print category ∷ print " Commands:\n" ∷ help_lines (of_category category commands))
      ++ (print "\n" ∷ sections commands categories)

  unfoldable pub cmd_help : List (CommandEntry C) → Option (List Output)
  unfolding collect sections
  cmd_help commands = do
    categories ← collect commands []
    some (
        (print "Available commands:\n\n" ∷ sections commands categories)
        ++ (print "Type 'help <command>' for detailed usage information.\n" ∷ []))

unfoldable pub cmd_clear : Framebuffer → Terminal → Option Terminal
unfolding clear_screen
cmd_clear fb t = clear_screen fb t

abbrev pub cmd_about : List Output
cmd_about =
    print "DEA OS - A simple operating system from zero\n"
    ∷ print "Version: 0.3\n"
    ∷ print "Now with dynamic command registry!\n"
    ∷ print "Built with love and assembly!\n"
    ∷ []

unfoldable pub cmd_echo : Option (List ℕ) → List Output
cmd_echo none = print "\n" ∷ []
cmd_echo (some args) = if head args == 0 then print "\n" ∷ [] else print_text args ∷ print "\n" ∷ []

abbrev pub cmd_uptime : List Output
cmd_uptime =
    print "DEA OS has been running since boot.\n" ∷ print "System is stable and responsive!\n" ∷ []

abbrev pub cmd_version : List Output
cmd_version =
    print "DEA OS Version 0.3.1\n"
    ∷ print "Built with dynamic command registry\n"
    ∷ print "Compiler: x86_64-elf-gcc\n"
    ∷ print "Architecture: x86_64\n"
    ∷ []

-- A number in count_str, of 16 bytes.
unfoldable pub count_text : ℕ → Option Output
unfolding int_to_string
count_text n = do s ← int_to_string (pos n) (replicate 16 0); some (print_text s)

unfoldable pub cmd_cmdcount : ℕ → Option (List Output)
unfolding count_text
cmd_cmdcount command_count = do
  count ← count_text command_count
  all ← count_text max_commands
  let shown =
      print "Command Registry Status:\n"
      ∷ print "Commands registered: "
      ∷ count
      ∷ print "/"
      ∷ all
      ∷ print "\n"
      ∷ []
  if leb max_commands command_count
      then some (
          shown
          ++ (print "WARNING: Command registry is FULL!\n"
              ∷ print "Some commands may not be registered.\n"
              ∷ []))
      else (do
        more ← count_text (max_commands - command_count)
        some (shown ++ (print "Registry has space for " ∷ more ∷ print " more commands.\n" ∷ [])))

abbrev pub cmd_exit : List Output
cmd_exit =
    print "Shutting down DEA OS...\n"
    ∷ print "Thank you for using DEA OS!\n"
    ∷ print "System halted. You can now power off safely.\n"
    ∷ []
