-- ===== src/Process.antt =====
-- kernel/src/process.h and process.c: the process table, its operations, and the system calls.
-- A pointer to a table entry is its index; NULL and the index -1 are `none`.
pub mod Execute
pub mod Syscall
pub mod Table
pub mod Find
pub mod Lifecycle
pub mod Create
pub mod Hello
pub mod Run
pub mod Once
pub mod Reach
mod Tests
use os_from_zero.Base.{
  ℕ, zero, suc, ◌+◌, ◌-◌, ◌*◌, ◌%◌, ◌^◌, Bool, true, false, ◌&&◌, ◌||◌, Option, none, some, List,
  [], ◌∷◌, map, ◌==◌, ltb, if◌then◌else◌, get_elem?, set, ◌>>=◌, add32, add64,
}
use os_from_zero.Base.Int.{ℤ, pos, negsuc}
use os_from_zero.Strings.{strncpy}
use os_from_zero.Elf.Load.{ProgramMemory, ProgramLoadResult, elf_load_program}

pub data ProcessState : Type 0 where
  ready running terminated error : ProcessState

pub record Process : Type 0 where
  pub pid : ℕ
  pub state : ProcessState
  pub entry_point : ℕ
  pub memory_base : Option ℕ
  pub memory_size : ℕ
  pub rsp : ℕ
  pub stack_base : ℕ
  pub stack_size : ℕ
  pub name : List ℕ
  pub exit_code : ℤ

-- The static variables of process.c, and those of elf_loader.c that a load changes. The linker
-- chooses the address of `process_stacks`.
pub record ProcessSystem : Type 0 where
  pub processes : List Process
  pub next_pid : ℕ
  pub initialized : Bool
  pub process_stacks : ℕ
  pub program : ProgramMemory

abbrev pub max_processes : ℕ
max_processes = 8

abbrev pub stack_bytes : ℕ
stack_bytes = 16384

-- The length of `name`.
abbrev pub name_bytes : ℕ
name_bytes = 64

-- A number as an `int`, and an `int` as a `uint32_t`.
abbrev pub to_int : ℕ → ℤ
to_int w = if ltb w (2 ^ 31) then pos w else negsuc (2 ^ 32 - w - 1)

abbrev pub to_u32 : ℤ → ℕ
to_u32 (pos n) = n % 2 ^ 32
to_u32 (negsuc n) = 2 ^ 32 - 1 - n % 2 ^ 32

abbrev pub is_terminated : ProcessState → Bool
is_terminated ProcessState.terminated = true
is_terminated _ = false

abbrev pub is_ready : ProcessState → Bool
is_ready ProcessState.ready = true
is_ready _ = false

-- One round of process_init.
unfoldable pub reset : Process → Process
reset p = record p {
  pid = 0;
  state = ProcessState.terminated;
  memory_base = none;
  memory_size = 0;
  name = set p.name 0 0;
}

unfoldable pub process_init : ProcessSystem → ProcessSystem
unfolding reset
process_init s = record s { processes = map reset s.processes; initialized = true }

-- `for (i = 0; i < MAX_PROCESSES; i++) if (test) return i;`
unfoldable pub find_index : (Process → Bool) → List Process → ℕ → Option ℕ
find_index test [] i = none
find_index test (p ∷ ps) i = if test p then some i else find_index test ps (i + 1)

abbrev pub is_free : Process → Bool
is_free p = is_terminated p.state || p.pid == 0

unfoldable pub find_free_process_slot : List Process → Option ℕ
unfolding find_index
find_free_process_slot ps = find_index is_free ps 0

-- The entry that process_create fills, over the old one; its name buffer is copied into.
unfoldable pub new_process : Process → ℕ → ℕ → ℕ → List ℕ → ProgramLoadResult → Option Process
new_process old pid slot stacks name load_result = do
  copied ← strncpy old.name name (name_bytes - 1)
  let base = stacks + slot * stack_bytes
  some (record {
    pid = pid;
    state = ProcessState.ready;
    entry_point = load_result.entry_point;
    memory_base = load_result.allocated_memory;
    memory_size = load_result.memory_size;
    rsp = base + stack_bytes - 8;
    stack_base = base;
    stack_size = stack_bytes;
    name = set copied (name_bytes - 1) 0;
    exit_code = pos 0;
  })

-- The end of process_create, once the program is loaded.
unfoldable pub install :
    ProcessSystem → ℕ → List ℕ → ProgramLoadResult → ProgramMemory → Option (ℤ × ProcessSystem)
unfolding new_process
install s slot name load_result memory = do
  old ← get_elem? s.processes slot
  proc ← new_process old s.next_pid slot s.process_stacks name load_result
  some (
    to_int s.next_pid,
    record s {
      processes = set s.processes slot proc;
      next_pid = add32 s.next_pid 1;
      program = memory;
    },
  )

abbrev pub failure : ℤ
failure = negsuc 0

-- What process_create does with the slot that it has found.
unfoldable pub create_in :
    ProcessSystem → List ℕ → List ℕ → ℕ → Option ℕ → Option (ℤ × ProcessSystem)
unfolding install
create_in s name elf_data elf_size none = some (failure, s)
create_in s name elf_data elf_size (some slot) = do
  (load_result, memory) ← elf_load_program s.program elf_data elf_size
  if load_result.success
      then install s slot name load_result memory
      else some (failure, record s { program = memory })

unfoldable pub process_create : ProcessSystem → List ℕ → List ℕ → ℕ → Option (ℤ × ProcessSystem)
unfolding create_in find_free_process_slot
process_create s name elf_data elf_size =
    if s.initialized
    then create_in s name elf_data elf_size (find_free_process_slot s.processes)
    else some (failure, s)

abbrev pub has_pid : ℤ → Process → Bool
has_pid pid p = p.pid == to_u32 pid

-- The first entry with this pid, as an index.
unfoldable pub process_get : ProcessSystem → ℤ → Option ℕ
unfolding find_index
process_get s pid = find_index (has_pid pid) s.processes 0

-- The loop stops at the first entry with this pid.
unfoldable pub terminate_in : List Process → ℤ → ℤ → List Process
terminate_in [] pid exit_code = []
terminate_in (p ∷ ps) pid exit_code =
    if has_pid pid p
    then record p { state = ProcessState.terminated; exit_code = exit_code } ∷ ps
    else p ∷ terminate_in ps pid exit_code

unfoldable pub process_terminate : ProcessSystem → ℤ → ℤ → ProcessSystem
unfolding terminate_in
process_terminate s pid exit_code = record s { processes = terminate_in s.processes pid exit_code }

-- One round of process_cleanup_terminated.
unfoldable pub cleanup : Process → Process
cleanup p = elim p.memory_base [
  | none ↦ p
  | some at ↦
      if is_terminated p.state then record p { memory_base = none; memory_size = 0; pid = 0 } else p
]

unfoldable pub process_cleanup_terminated : ProcessSystem → ProcessSystem
unfolding cleanup
process_cleanup_terminated s = record s { processes = map cleanup s.processes }
