-- ===== src/Process/Execute.antt =====
-- process_execute of process.c, with what it prints.
use mathlib.Core.List.{◌++◌}
use os_from_zero.Base.{
  ℕ, zero, suc, ◌+◌, ◌-◌, ◌/◌, ◌%◌, Bool, true, false, ◌&&◌, Option, none, some, List, [], ◌∷◌,
  ◌==◌, ltb, if◌then◌else◌, get_elem?, set, ◌>>=◌, Output, print, print_text, putchars,
}
use os_from_zero.Base.Int.{ℤ, pos}
use os_from_zero.Strings.{head, tail}
use os_from_zero.Decimal.{print_number}
use os_from_zero.Process.{Process, ProcessState, ProcessSystem, find_index, has_pid, is_ready}

abbrev pub hex_char : ℕ → ℕ
hex_char d = if ltb d 10 then b'0' + d else b'A' + (d - 10)

-- `for (i = 15; i >= 0; i--) { hex_str[i] = hex_chars[addr & 0xF]; addr >>= 4; }`
unfoldable pub hex_loop : ℕ → ℕ → List ℕ → List ℕ
hex_loop zero addr out = out
hex_loop (suc rounds) addr out = hex_loop rounds (addr / 16) (hex_char (addr % 16) ∷ out)

-- `name[j] == 'h' && … && name[j+4] == 'o'`
abbrev pub starts_hello : List ℕ → Bool
starts_hello s =
    head s == b'h'
    && (head (tail s) == b'e'
        && (head (tail (tail s)) == b'l'
            && (head (tail (tail (tail s))) == b'l' && head (tail (tail (tail (tail s)))) == b'o')))

-- The search of the name, up to its 0.
unfoldable pub is_hello : List ℕ → Bool
is_hello [] = false
is_hello (c ∷ s) = if c == 0 then false else if starts_hello (c ∷ s) then true else is_hello s

-- The simulated program: its exit code, and what it prints.
unfoldable pub simulate : List ℕ → ℕ × List Output
unfolding is_hello
simulate name =
    if head name == 0
    then (0, [])
    else if is_hello name
    then (
      55,
      print "Hello World program detected!\n"
          ∷ print "Simulating: Calculating 1+2+3+...+10\n"
          ∷ print "Result: 55\n"
          ∷ [],
    )
    else (
      42,
      print "Simple test program detected!\n"
          ∷ print "Simulating: Returning test value\n"
          ∷ print "Result: 42\n"
          ∷ [],
    )

abbrev pub announce : List ℕ → List Output
announce name = print "Executing program: " ∷ print_text name ∷ print "\n" ∷ []

abbrev pub Run : Type 0
Run = Bool × Process × List Output

-- All that is printed for a program that runs, with the digits of its size and its exit code.
unfoldable pub transcript : Process → List ℕ → List Output → List ℕ → List Output
unfolding hex_loop
transcript proc size shown code =
    announce proc.name
    ++ (print "Entry point: 0x"
        ∷ print_text (hex_loop 16 proc.entry_point [])
        ∷ print "\n"
        ∷ print "Memory allocated: "
        ∷ putchars size)
    ++ (print " bytes\n" ∷ print "Simulating program execution...\n" ∷ shown)
    ++ (print "Program simulation completed successfully!\n"
        ∷ print "Program terminated with exit code: "
        ∷ putchars code)
    ++ (print "\n" ∷ [])

-- The entry after the two safety checks. `size_str` has room for 15 digits and the 0, `num_buf`
-- for 16 digits; the exit code is not negative.
unfoldable pub finish : Process → Option Run
unfolding simulate transcript
finish proc = do
  size ← print_number 15 proc.memory_size
  let simulated = simulate proc.name
  code ← print_number 16 simulated.0
  some (
    true,
    record proc { state = ProcessState.terminated; exit_code = pos simulated.0 },
    transcript proc size simulated.1 code,
  )

-- What process_execute makes of the entry that it has found.
unfoldable pub run_process : Process → Option Run
unfolding finish
run_process ready_proc =
    let proc = record ready_proc { state = ProcessState.running } in
    if proc.entry_point == 0
    then some (
      false,
      record proc { state = ProcessState.error },
      announce proc.name ++ (print "Error: Invalid entry point\n" ∷ []),
    )
    else elim proc.memory_base [
      | none ↦ some (
        false,
        record proc { state = ProcessState.error },
        announce proc.name ++ (print "Error: No memory allocated\n" ∷ []),
      )
      | some at ↦ finish proc
    ]

abbrev pub can_run : ℤ → Process → Bool
can_run pid p = has_pid pid p && is_ready p.state

unfoldable pub execute_at : ProcessSystem → Option ℕ → Option (Bool × ProcessSystem × List Output)
unfolding run_process
execute_at s none = some (false, s, [])
execute_at s (some i) = do
  proc ← get_elem? s.processes i
  (done, proc', shown) ← run_process proc
  some (done, record s { processes = set s.processes i proc' }, shown)

unfoldable pub process_execute : ProcessSystem → ℤ → Option (Bool × ProcessSystem × List Output)
unfolding execute_at find_index
process_execute s pid =
    if s.initialized
    then execute_at s (find_index (can_run pid) s.processes 0)
    else some (false, s, [])
