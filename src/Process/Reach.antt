-- ===== src/Process/Reach.antt =====
-- The states that the process table reaches.
use os_from_zero.Base.{ℕ, ◌-◌, ◌^◌, ◌<◌, ◌≡◌, Bool, some, List, Output, length}
use os_from_zero.Base.Int.{ℤ}
use os_from_zero.Process.{
  ProcessSystem, max_processes, process_init, process_create, process_terminate,
  process_cleanup_terminated,
}
use os_from_zero.Process.Execute.{process_execute}
use os_from_zero.Process.Table.{IsTable}
use os_from_zero.Process.Table.Preserve.{
  process_init-IsTable, process_create-IsTable, process_execute-IsTable, process_terminate-IsTable,
  process_cleanup_terminated-IsTable,
}

-- One call of process.c that changes the table and returns. A process is created while the
-- process numbers have not run out.
pub data Step (s : ProcessSystem) : ProcessSystem → Type 0 where
  create :
      {s' : ProcessSystem} (name elf_data : List ℕ) (size : ℕ) (result : ℤ)
      → s.next_pid < 2 ^ 32 - 1
      → process_create s name elf_data size ≡ some (result, s')
      → Step s s'
  execute :
      {s' : ProcessSystem} (pid : ℤ) (done : Bool) (shown : List Output)
      → process_execute s pid ≡ some (done, s', shown)
      → Step s s'
  terminate : (pid exit_code : ℤ) → Step s (process_terminate s pid exit_code)
  cleanup_all : Step s (process_cleanup_terminated s)

-- The states after process_init and any number of calls.
pub data Reach (start : ProcessSystem) : ProcessSystem → Type 0 where
  booted : Reach start (process_init start)
  next : {s s' : ProcessSystem} → Reach start s → Step s s' → Reach start s'

Step-IsTable : {s s' : ProcessSystem} → IsTable s → Step s s' → IsTable s'
Step-IsTable {s} {s'} t (create name elf_data size result small run) =
    process_create-IsTable s name elf_data size result s' t small run
Step-IsTable {s} {s'} t (execute pid done shown run) =
    process_execute-IsTable s pid done s' shown t run
Step-IsTable {s} t (terminate pid exit_code) = process_terminate-IsTable s pid exit_code t
Step-IsTable {s} t cleanup_all = process_cleanup_terminated-IsTable s t

-- Whatever is created, run, killed and cleaned up after process_init, while the process numbers
-- have not run out: the table has eight entries, every number in it is below the next one, and no
-- two entries have the same number, but 0.
pub Reach-IsTable :
    (start s : ProcessSystem)
    → length start.processes ≡ max_processes
    → 0 < start.next_pid
    → Reach start s
    → IsTable s
Reach-IsTable start s size positive booted = process_init-IsTable start size positive
Reach-IsTable start s size positive (next r step) =
    Step-IsTable (Reach-IsTable start _ size positive r) step
