-- ===== src/Shell.antt =====
-- kernel/src/shell.c: the command registry, the line editor, and the dispatch of a line.
-- A registered function is a value of the model's type `C`; what a line runs is the function and
-- its argument, `none` for NULL.
pub mod Registry
pub mod Line
pub mod Dispatch
mod Tests
use Prim.Native.String.{String}
use os_from_zero.Base.{
  ℕ, zero, suc, ◌+◌, ◌-◌, Bool, true, false, ◌&&◌, ◌||◌, not, Option, none, some, List, [], ◌∷◌,
  ◌++◌, ◌==◌, ltb, leb, if◌then◌else◌, length, take, drop, Output, print, print_text, putchar,
}
use mathlib.Core.List.{reverse}
use os_from_zero.Base.Int.{ℤ, pos}
use os_from_zero.Strings.{head, strlen, strcmp}

abbrev pub max_commands : ℕ
max_commands = 64

-- command_t
pub record CommandEntry {ℓ} (C : Type ℓ) : Type ℓ where
  pub name : List ℕ
  pub func : C
  pub description : String
  pub usage : String
  pub category : String

abbrev pub is_zero : ℤ → Bool
is_zero (pos n) = n == 0
is_zero _ = false

module _ {ℓ} {C : Type ℓ} where
  -- The first `command_count` entries of `commands` are the list.
  unfoldable pub register_command :
      List (CommandEntry C) → CommandEntry C → Bool × List (CommandEntry C)
  register_command commands c =
      if leb max_commands (length commands) then (false, commands) else (true, commands ++ (c ∷ []))

  unfoldable pub find_command : List (CommandEntry C) → List ℕ → Option (CommandEntry C)
  find_command [] name = none
  find_command (c ∷ cs) name = if is_zero (strcmp c.name name) then some c else find_command cs name

-- The first loop of execute_command: the characters before the first space, and the rest.
unfoldable pub split_word : List ℕ → List ℕ × List ℕ
split_word [] = ([], [])
split_word (c ∷ s) =
    let (word, rest) = split_word s in if c == 0 || c == b' ' then ([], c ∷ s) else (c ∷ word, rest)

-- `while (*space == ' ') space++;`
unfoldable pub skip_spaces : List ℕ → List ℕ
skip_spaces [] = []
skip_spaces (c ∷ s) = let rest = skip_spaces s in if c == b' ' then rest else c ∷ s

-- What a line does: nothing, an error message, or a call.
pub data Action {ℓ} (C : Type ℓ) : Type ℓ where
  nothing : Action C
  message : List Output → Action C
  call : C → Option (List ℕ) → Action C

-- sizeof(command_name)
abbrev pub command_name_size : ℕ
command_name_size = 64

abbrev pub argument : List ℕ → Option (List ℕ)
argument rest = if head rest == 0 then none else some rest

abbrev pub unknown {ℓ} : {C : Type ℓ} → List ℕ → Action C
unknown name = message (
    print "Unknown command: "
    ∷ print_text name
    ∷ print "\n"
    ∷ print "Type 'help' for available commands.\n"
    ∷ [])

-- The call of what find_command returns for the word.
abbrev pub run_found {ℓ} : {C : Type ℓ} → Option (CommandEntry C) → List ℕ → List ℕ → Action C
run_found none name rest = unknown name
run_found (some c) name rest = call c.func (argument rest)

unfoldable pub execute_command {ℓ} : {C : Type ℓ} → List (CommandEntry C) → List ℕ → Action C
unfolding split_word skip_spaces find_command
execute_command commands cmd =
    if strlen cmd == 0
    then nothing
    else if leb command_name_size (length (split_word cmd).0)
    then message (print "Command name too long.\n" ∷ [])
    else run_found (find_command commands (split_word cmd).0) (split_word cmd).0
        (skip_spaces (split_word cmd).1)

-- The line editor of shell_loop. `input_buffer` has 256 bytes; what is typed is kept with the last
-- character in front, as the buffer is filled and emptied at its end.
abbrev pub input_size : ℕ
input_size = 256

abbrev pub drop_last_typed : List ℕ → List ℕ
drop_last_typed [] = []
drop_last_typed (c ∷ s) = s

-- One key, other than the newline. read_key returns `char`, so a code of 128 or more is negative.
unfoldable pub edit : List ℕ → ℕ → List ℕ × List Output
edit typed c =
    if c == 8
    then (drop_last_typed typed, if length typed == 0 then [] else putchar 8 ∷ [])
    else if leb 32 c && (leb c 126 && ltb (length typed) (input_size - 1))
    then (c ∷ typed, putchar c ∷ [])
    else (typed, [])

-- What has been shown before the rest of the line is read.
abbrev pub prefix : List Output → Option (List ℕ × List Output) → Option (List ℕ × List Output)
prefix shown none = none
prefix shown (some (line, more)) = some (line, shown ++ more)

-- The keys up to the newline, and the line that is then in the buffer; `none` while there is no
-- newline.
unfoldable pub read_line : List ℕ → List ℕ → Option (List ℕ × List Output)
unfolding edit
read_line typed [] = none
read_line typed (c ∷ keys) =
    let rest = read_line (edit typed c).0 keys in
    if c == 10 then some (reverse typed, putchar 10 ∷ []) else prefix (edit typed c).1 rest
