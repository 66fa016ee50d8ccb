-- ===== src/Execution.antt =====
-- kernel/src/commands/execution.c: the shell commands that create, load, run, list and kill
-- programs. A command takes its arguments (`none` is NULL) and the state that it works on, and
-- returns what it prints and the new state; `none` is a fault below it.
pub mod Runs
pub mod Programs
mod Tests
use os_from_zero.Base.{
  ℕ, zero, suc, ◌+◌, ◌-◌, ◌*◌, ◌^◌, not, Option, none, some, List, [], ◌∷◌, ◌++◌, ◌==◌, ltb,
  if◌then◌else◌, get_elem?, length, replicate, ◌>>=◌, Output, print, print_text, putchars,
}
use os_from_zero.Base.Int.{ℤ, pos, negsuc}
use os_from_zero.Strings.{strlen}
use os_from_zero.Decimal.{print_number, is_digit}
use os_from_zero.Elf.Image.{create_test_elf, create_hello_elf}
use os_from_zero.Filesystem.{FileSystem, read_file, write_file}
use os_from_zero.Process.{
  Process, ProcessState, ProcessSystem, process_create, process_get, process_terminate,
  process_cleanup_terminated,
}
use os_from_zero.Process.Execute.{process_execute}

pub record Kernel : Type 0 where
  pub system : ProcessSystem
  pub fs : FileSystem

abbrev pub Command : Type 0
Command = Option (List ℕ) → Kernel → Option (List Output × Kernel)

-- What a command goes on with, after `shown`.
abbrev pub after : List Output → Option (List Output × Kernel) → Option (List Output × Kernel)
after shown none = none
after shown (some (more, k)) = some (shown ++ more, k)

-- `!args || strlen(args) == 0`, with the usage text; otherwise the command goes on.
abbrev pub with_args {ℓ} :
    {S : Type ℓ}
    → Option (List ℕ)
    → List Output
    → S
    → (List ℕ → Option (List Output × S))
    → Option (List Output × S)
with_args none usage k go = some (usage, k)
with_args (some args) usage k go = if strlen args == 0 then some (usage, k) else go args

-- cmd_exec from the execution on.
unfoldable pub exec_process : ℤ → Kernel → Option (List Output × Kernel)
exec_process pid k = do
  (done, system, shown) ← process_execute k.system pid
  if done
      then some (
        shown
            ++ (print "DEBUG: Process execution completed\n"
                ∷ print "DEBUG: Cleaning up terminated processes...\n"
                ∷ print "DEBUG: Cleanup completed\n"
                ∷ []),
        record k { system = process_cleanup_terminated system },
      )
      else some
          (shown ++ (print "Error: Failed to execute process\n" ∷ []), record k { system = system })

-- cmd_exec with the result of process_create.
unfoldable pub exec_created : ℤ → Kernel → Option (List Output × Kernel)
unfolding exec_process
exec_created (negsuc n) k = some (print "Error: Failed to create process\n" ∷ [], k)
exec_created (pos pid) k = do
  digits ← print_number 15 pid
  after
      (print "DEBUG: Process created with PID: " ∷ putchars digits
        ++ (print "\n" ∷ print "DEBUG: Starting process execution...\n" ∷ []))
      (exec_process (pos pid) k)

-- cmd_exec with the bytes of the file.
unfoldable pub exec_file : List ℕ → List ℕ → Kernel → Option (List Output × Kernel)
unfolding exec_created
exec_file args bytes k = do
  digits ← print_number 15 (length bytes)
  (pid, system) ← process_create k.system args bytes (length bytes)
  after
      (print "DEBUG: File read successfully, size: " ∷ putchars digits
        ++ (print " bytes\n" ∷ print "DEBUG: Creating process...\n" ∷ []))
      (exec_created pid (record k { system = system }))

unfoldable pub cmd_exec : Command
unfolding exec_file
cmd_exec args k =
    with_args args
      (print "Usage: exec <filename>\n"
        ∷ print "Example: exec hello.elf\n"
        ∷ print "Note: Programs are executed in safe simulation mode\n"
        ∷ [])
      k
      λ name.
        after
          (print "DEBUG: Starting execution of: "
            ∷ print_text name
            ∷ print "\n"
            ∷ print "DEBUG: Reading file from filesystem...\n"
            ∷ [])
          (elim (read_file k.fs name) [
            | none ↦ some (
              print "Error: Cannot read file '"
                  ∷ print_text name
                  ∷ print "'\n"
                  ∷ print "Use 'ls' to see available files\n"
                  ∷ [],
              k,
            )
            | some bytes ↦ exec_file name bytes k
          ])

-- cmd_load with the result of process_create; `num_buf` has no 0 at its end.
unfoldable pub load_created : ℤ → Kernel → Option (List Output × Kernel)
load_created (negsuc n) k = some (print "Error: Failed to load program\n" ∷ [], k)
load_created (pos pid) k = do
  digits ← print_number 16 pid
  some (print "Program loaded successfully with PID: " ∷ putchars digits ++ (print "\n" ∷ []), k)

unfoldable pub load_file : List ℕ → List ℕ → Kernel → Option (List Output × Kernel)
unfolding load_created
load_file name bytes k = do
  (pid, system) ← process_create k.system name bytes (length bytes)
  load_created pid (record k { system = system })

unfoldable pub cmd_load : Command
unfolding load_file
cmd_load args k = with_args args (print "Usage: load <filename>\n" ∷ []) k λ name.
    elim (read_file k.fs name) [
      | none ↦ some (print "Error: Cannot read file '" ∷ print_text name ∷ print "'\n" ∷ [], k)
      | some bytes ↦ load_file name bytes k
    ]

abbrev pub state_text : ProcessState → Output
state_text ProcessState.ready = print "READY"
state_text ProcessState.running = print "RUNNING"
state_text ProcessState.terminated = print "TERMINATED"
state_text ProcessState.error = print "ERROR"

-- One line of cmd_ps. The number is padded to 3 characters and the name to 20.
unfoldable pub ps_line : Process → Option (List Output)
ps_line p = do
  digits ← print_number 16 p.pid
  some (
      putchars (replicate (3 - length digits) b' ')
      ++ putchars digits
      ++ (print "  " ∷ print_text p.name ∷ putchars (replicate (20 - strlen p.name) b' '))
      ++ (print " " ∷ state_text p.state ∷ print "\n" ∷ []))

-- `process_get(i)`, if it is there and its number is not 0.
unfoldable pub ps_entry : ProcessSystem → ℕ → Option (List Output)
unfolding ps_line
ps_entry s i = elim (process_get s (pos i)) [
  | none ↦ some []
  | some slot ↦ do p ← get_elem? s.processes slot; if p.pid == 0 then some [] else ps_line p
]

-- `for (i = 1; i < 100; i++)`, with the rounds left.
unfoldable pub ps_lines : ProcessSystem → ℕ → ℕ → Option (List Output)
unfolding ps_entry
ps_lines s zero i = some []
ps_lines s (suc rounds) i = do
  line ← ps_entry s i
  rest ← ps_lines s rounds (i + 1)
  some (line ++ rest)

unfoldable pub cmd_ps : Command
unfolding ps_lines
cmd_ps args k = do
  lines ← ps_lines k.system 99 1
  some (
    print "PID  Name                 State\n"
        ∷ print "---  -------------------  ---------\n"
        ∷ lines,
    k,
  )

-- The number conversion of cmd_kill: digits up to the 0; `int` overflow is a fault. `some none` is
-- the error of another character.
unfoldable pub parse_pid : List ℕ → ℕ → Option (Option ℕ)
parse_pid [] pid = some (some pid)
parse_pid (c ∷ s) pid =
    let next = pid * 10 + (c - b'0') in
    let rest = parse_pid s next in
    if c == 0
    then some (some pid)
    else if not (is_digit c)
    then some none
    else if ltb next (2 ^ 31)
    then rest
    else none

unfoldable pub kill_pid : ℕ → Kernel → Option (List Output × Kernel)
kill_pid pid k = elim (process_get k.system (pos pid)) [
  | none ↦ some (print "Error: Process not found\n" ∷ [], k)
  | some slot ↦ do
    p ← get_elem? k.system.processes slot
    if p.pid == 0
        then some (print "Error: Process not found\n" ∷ [], k)
        else some (
          print "Process terminated\n" ∷ [],
          record k { system = process_terminate k.system (pos pid) (negsuc 0) },
        )
]

unfoldable pub cmd_kill : Command
unfolding parse_pid kill_pid
cmd_kill args k = with_args args (print "Usage: kill <pid>\n" ∷ []) k λ text. do
  number ← parse_pid text 0
  elim number [ none ↦ some (print "Error: Invalid PID\n" ∷ [], k) | some pid ↦ kill_pid pid k ]

-- cmd_compile and cmd_hello differ in the file that they write and in the texts.
unfoldable pub save_program : List ℕ → Output → List ℕ → Kernel → Option (List Output × Kernel)
save_program image title name k = do
  (done, fs) ← write_file k.fs name image (length image)
  if done
      then some (
        title
            ∷ print_text name
            ∷ print "\n"
            ∷ print "Note: Execution will be simulated for safety\n"
            ∷ print "Run with: exec "
            ∷ print_text name
            ∷ print "\n"
            ∷ [],
        record k { fs = fs },
      )
      else some (print "Error: Failed to write ELF file\n" ∷ [], record k { fs = fs })

unfoldable pub cmd_compile : Command
unfolding save_program
cmd_compile args k =
    with_args args
      (print "Usage: compile <output_filename>\n"
        ∷ print "Creates a simple test ELF program\n"
        ∷ print "Execution is simulated (safe mode) - no actual code execution\n"
        ∷ [])
      k λ name. save_program create_test_elf (print "Test program compiled and saved as: ") name k

unfoldable pub cmd_hello : Command
unfolding save_program
cmd_hello args k =
    with_args args
      (print "Usage: hello <output_filename>\n"
        ∷ print "Creates a Hello World program\n"
        ∷ print "Execution is simulated (safe mode) - no actual code execution\n"
        ∷ [])
      k
      λ name.
        save_program create_hello_elf (print "Hello World program compiled and saved as: ") name k
