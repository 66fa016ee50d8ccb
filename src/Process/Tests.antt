-- ===== src/Process/Tests.antt =====
-- Runs of the process table on a machine that has just started.
use os_from_zero.Base.{
  ℕ, ◌^◌, ◌≡◌, ◌≢◌, refl, true, false, Option, none, some, List, [], ◌∷◌, replicate, arith, Output,
  set, ◌↔◌,
}
use os_from_zero.Base.Int.{ℤ, pos}
use os_from_zero.Strings.{strncpy}
use os_from_zero.Elf.{read_header, elf_validate_header, read_phdr}
use os_from_zero.Elf.Memory.{program_malloc, memset, memcpy}
use os_from_zero.Elf.Load.{ProgramMemory, elf_load_program, ProgramLoadResult}
use os_from_zero.Elf.Image.{create_test_elf}
use os_from_zero.Process.{
  Process, ProcessState, ProcessSystem, process_init, process_create, process_terminate, find_index,
  find_free_process_slot, failure,
}
use os_from_zero.Process.Execute.{process_execute, can_run}
use os_from_zero.Process.Table.{IsTable}
use os_from_zero.Process.Table.Preserve.{process_init-IsTable}
use os_from_zero.Process.Reach.{Reach, next, create, terminate, Reach-IsTable}
use os_from_zero.Process.Lifecycle.{IsNew, process_create-IsNew}
use os_from_zero.Process.Run.{runnable, ended, process_execute_lem}
use os_from_zero.Process.Once.{process_execute_once}
use os_from_zero.Process.Syscall.{syscall_handler}
use os_from_zero.Process.Syscall.Faults.{PrintsLong, syscall_handler-eq-none_iff}

abbrev blank : Process
blank = record {
  pid = 0;
  state = ProcessState.ready;
  entry_point = 0;
  memory_base = none;
  memory_size = 0;
  rsp = 0;
  stack_base = 0;
  stack_size = 0;
  name = replicate 64 0;
  exit_code = pos 0;
}

abbrev unstarted : ProcessSystem
unstarted = record {
  processes = replicate 8 blank;
  next_pid = 1;
  initialized = false;
  process_stacks = 4096;
  program = record { bytes = λ i. 0; offset = 0; address = 1048576 };
}

abbrev booted : ProcessSystem
unfolding process_init
booted = process_init unstarted

-- "loop"
abbrev loop_name : List ℕ
loop_name = b'l' ∷ b'o' ∷ b'o' ∷ b'p' ∷ []

abbrev state_after : Option (ℤ × ProcessSystem) → ProcessSystem
state_after none = booted
state_after (some (result, s)) = s

abbrev with_loop : ProcessSystem
unfolding process_create
with_loop = state_after (process_create booted loop_name create_test_elf 128)

created_loop : process_create booted loop_name create_test_elf 128 ≡ some (pos 1, with_loop)
unfolding process_create create_test_elf elf_load_program booted read_header elf_validate_header
    read_phdr program_malloc memset memcpy strncpy
created_loop = refl

with_loop_killed : Reach unstarted (process_terminate with_loop (pos 1) (pos 9))
unfolding process_init
with_loop_killed =
    next
      (next Reach.booted (create loop_name create_test_elf 128 (pos 1) (omega arith) created_loop))
      (terminate (pos 1) (pos 9))

-- A process is created and killed.
Reach-IsTable_example : IsTable (process_terminate with_loop (pos 1) (pos 9))
Reach-IsTable_example =
    Reach-IsTable unstarted (process_terminate with_loop (pos 1) (pos 9)) refl (omega arith)
      with_loop_killed

booted-IsTable : IsTable booted
unfolding booted
booted-IsTable = process_init-IsTable unstarted refl (omega arith)

booted-next_pid : booted.next_pid ≡ 1
unfolding booted
booted-next_pid = refl

pos-ne-failure : pos 1 ≢ failure
pos-ne-failure = ground arith

process_create-IsNew_example :
    (slot : ℕ) × (r : ProgramLoadResult) × (m : ProgramMemory) × (p : Process)
    × (find_free_process_slot booted.processes ≡ some slot)
    × (elf_load_program booted.program create_test_elf 128 ≡ some (r, m))
    × (r.success ≡ true)
    × (pos 1 ≡ pos booted.next_pid)
    × IsNew booted with_loop loop_name r slot p
process_create-IsNew_example =
    process_create-IsNew booted loop_name create_test_elf 128 (pos 1) with_loop booted-IsTable
      (ground (arith, booted-next_pid)) created_loop pos-ne-failure

-- Eight processes that are ready.
abbrev crowded : ProcessSystem
crowded = record unstarted {
  processes = replicate 8 (record blank { pid = 3 });
  initialized = true;
}

-- A process that is ready, with memory.
abbrev loaded_process : Process
loaded_process = record blank {
  pid = 1;
  entry_point = 4096;
  memory_base = some 4096;
  memory_size = 8;
}

abbrev one_process : ProcessSystem
one_process = record unstarted {
  processes = loaded_process ∷ replicate 7 (record blank { state = ProcessState.terminated });
  initialized = true;
  next_pid = 2;
}

one_process-found : find_index (can_run (pos 1)) one_process.processes 0 ≡ some 0
unfolding find_index
one_process-found = refl

process_execute_lem_example :
    (shown : List Output) × (process_execute one_process (pos 1)
      ≡ some (
        runnable loaded_process,
        record one_process { processes = set one_process.processes 0 (ended loaded_process) },
        shown,
      ))
process_execute_lem_example =
    process_execute_lem one_process (pos 1) 0 loaded_process refl one_process-found refl
      (omega arith)

one_process-IsTable : IsTable one_process
one_process-IsTable = record {
  full_size = refl;
  positive = omega arith;
  below = ground arith;
  distinct = ground arith;
}

abbrev one_process_done : ProcessSystem
one_process_done = record one_process {
  processes = set one_process.processes 0 (ended loaded_process);
}

process_execute_once_example :
    process_execute one_process_done (pos 1) ≡ some (false, one_process_done, [])
process_execute_once_example =
    process_execute_once one_process (pos 1) true one_process_done process_execute_lem_example.0
      one_process-IsTable (ground arith) process_execute_lem_example.1

-- "hello"
abbrev hello_name : List ℕ
hello_name = b'h' ∷ b'e' ∷ b'l' ∷ b'l' ∷ b'o' ∷ 0 ∷ []

syscall_handler-eq-none_iff_example :
    (syscall_handler (λ at. []) 10 1 (10 ^ 17) ≡ none) ↔ PrintsLong 1 (10 ^ 17)
syscall_handler-eq-none_iff_example = syscall_handler-eq-none_iff (λ at. []) 10 1 (10 ^ 17)
