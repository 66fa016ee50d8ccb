-- ===== src/Process/Table/Preserve.antt =====
-- Every operation of process.c keeps the table well formed.
use os_from_zero.Base.{
  ℕ, ◌+◌, ◌-◌, ◌%◌, ◌^◌, ◌<◌, ◌≡◌, ◌∙◌, Bool, Option, none, some, List, [], ◌∷◌, map, arith,
  get_elem?, set, length, length-set, length-map, Bool-cases, ◌⊎◌, inl, inr, >>=-eq-some, Output,
}
use os_from_zero.Base.Int.{ℤ}
use os_from_zero.Elf.Load.{ProgramMemory, ProgramLoadResult, elf_load_program}
use os_from_zero.Process.{
  Process, ProcessSystem, max_processes, reset, process_init, new_process, install, create_in,
  process_create, process_terminate, cleanup, process_cleanup_terminated, find_free_process_slot,
  find_index,
}
use os_from_zero.Process.Execute.{finish, run_process, execute_at, process_execute, can_run}
use os_from_zero.Process.Table.{
  IsTable, pids, Below, Distinct, Below-mono, Below-set, Distinct-set, pids-set, pids-set_same,
  pids-terminate_in, length-terminate_in, Distinct-map, Below-map, NotIn-zero,
}

Below-reset : (n : ℕ) (ps : List Process) → 0 < n → Below n (pids (map reset ps))
unfolding reset
Below-reset n [] h = tt
Below-reset n (p ∷ ps) h = (h, Below-reset n ps h)

Distinct-reset : (ps : List Process) → Distinct (pids (map reset ps))
unfolding reset
Distinct-reset [] = tt
Distinct-reset (p ∷ ps) = (NotIn-zero (pids (map reset ps)), Distinct-reset ps)

-- process_init makes a well-formed table of any eight entries.
pub process_init-IsTable :
    (s : ProcessSystem)
    → length s.processes ≡ max_processes
    → 0 < s.next_pid
    → IsTable (process_init s)
unfolding process_init
process_init-IsTable s size first = record {
  full_size = length-map s.processes reset ∙ size;
  positive = first;
  below = Below-reset s.next_pid s.processes first;
  distinct = Distinct-reset s.processes;
}

new_process-pid :
    (old : Process) (pid slot stacks : ℕ) (name : List ℕ) (r : ProgramLoadResult) (p : Process)
    → new_process old pid slot stacks name r ≡ some p
    → p.pid ≡ pid
unfolding new_process
new_process-pid old pid slot stacks name r p e = ground arith

set-IsTable :
    (s : ProcessSystem) (slot : ℕ) (p : Process) (memory : ProgramMemory)
    → IsTable s
    → s.next_pid < 2 ^ 32 - 1
    → p.pid ≡ s.next_pid
    → IsTable (record s {
      processes = set s.processes slot p;
      next_pid = (s.next_pid + 1) % 2 ^ 32;
      program = memory;
    })
set-IsTable s slot p memory t small e =
    let next : (s.next_pid + 1) % 2 ^ 32 ≡ s.next_pid + 1 = omega arith in
    record {
      full_size = length-set s.processes slot p ∙ t.full_size;
      positive = omega arith;
      below =
          rw (next, pids-set s.processes slot p, e)
            (Below-set (s.next_pid + 1) s.next_pid (pids s.processes) slot (omega arith)
              (Below-mono (pids s.processes) (omega arith) t.below));
      distinct =
          rw (pids-set s.processes slot p, e)
            (Distinct-set s.next_pid (pids s.processes) slot t.below t.distinct);
    }

install-IsTable :
    (s : ProcessSystem) (slot : ℕ) (name : List ℕ) (r : ProgramLoadResult) (m : ProgramMemory)
    (result : ℤ) (s' : ProcessSystem)
    → IsTable s
    → s.next_pid < 2 ^ 32 - 1
    → install s slot name r m ≡ some (result, s')
    → IsTable s'
unfolding install
install-IsTable s slot name r m result s' t small e =
    let (old, found, e₁) = >>=-eq-some (get_elem? s.processes slot) _ e in
    let (p, made, e₂) =
      >>=-eq-some (new_process old s.next_pid slot s.process_stacks name r) _ e₁ in
    ground (
      arith,
      set-IsTable s slot p m t small
          (new_process-pid old s.next_pid slot s.process_stacks name r p made),
    )

create_in-IsTable :
    (s : ProcessSystem) (name elf_data : List ℕ) (size : ℕ) (slot : Option ℕ) (result : ℤ)
    (s' : ProcessSystem)
    → IsTable s
    → s.next_pid < 2 ^ 32 - 1
    → create_in s name elf_data size slot ≡ some (result, s')
    → IsTable s'
unfolding create_in
create_in-IsTable s name elf_data size none result s' t small e = ground arith
create_in-IsTable s name elf_data size (some slot) result s' t small e =
    let ((r, m), loaded, e₁) = >>=-eq-some (elf_load_program s.program elf_data size) _ e in
    elim (Bool-cases r.success) [
      | inl ok ↦ install-IsTable s slot name r m result s' t small (rw ok at e₁)
      | inr no_program ↦ ground arith
    ]

-- process_create keeps the table well formed, while the process numbers have not run out.
pub process_create-IsTable :
    (s : ProcessSystem) (name elf_data : List ℕ) (size : ℕ) (result : ℤ) (s' : ProcessSystem)
    → IsTable s
    → s.next_pid < 2 ^ 32 - 1
    → process_create s name elf_data size ≡ some (result, s')
    → IsTable s'
unfolding process_create
process_create-IsTable s name elf_data size result s' t small e = ground (
  arith,
  create_in-IsTable s name elf_data size (find_free_process_slot s.processes) result s' t small,
)

pub run_process-pid :
    (p p' : Process) (done : Bool) (shown : List Output)
    → run_process p ≡ some (done, p', shown)
    → p'.pid ≡ p.pid
unfolding run_process finish
run_process-pid p p' done shown e = ground arith

execute_at-IsTable :
    (s : ProcessSystem) (at : Option ℕ) (done : Bool) (s' : ProcessSystem) (shown : List Output)
    → IsTable s
    → execute_at s at ≡ some (done, s', shown)
    → IsTable s'
unfolding execute_at
execute_at-IsTable s none done s' shown t e = ground arith
execute_at-IsTable s (some i) done s' shown t e =
    let (p, found, e₁) = >>=-eq-some (get_elem? s.processes i) _ e in
    let ((ended, p', out), ran, e₂) = >>=-eq-some (run_process p) _ e₁ in
    let same = pids-set_same s.processes i p p' found (run_process-pid p p' ended out ran) in
    ground (
      arith,
      let kept : IsTable (record s { processes = set s.processes i p' }) = record {
        full_size = length-set s.processes i p' ∙ t.full_size;
        positive = t.positive;
        below = rw same t.below;
        distinct = rw same t.distinct;
      } in
          kept,
    )

-- process_execute keeps the table well formed, whatever becomes of the process.
pub process_execute-IsTable :
    (s : ProcessSystem) (pid : ℤ) (done : Bool) (s' : ProcessSystem) (shown : List Output)
    → IsTable s
    → process_execute s pid ≡ some (done, s', shown)
    → IsTable s'
unfolding process_execute
process_execute-IsTable s pid done s' shown t e =
    ground (arith, execute_at-IsTable s (find_index (can_run pid) s.processes 0) done s' shown t)

-- So does process_terminate,
pub process_terminate-IsTable :
    (s : ProcessSystem) (pid exit_code : ℤ)
    → IsTable s
    → IsTable (process_terminate s pid exit_code)
unfolding process_terminate
process_terminate-IsTable s pid exit_code t =
    let same = pids-terminate_in s.processes pid exit_code in
    record {
      full_size = length-terminate_in s.processes pid exit_code ∙ t.full_size;
      positive = t.positive;
      below = rw same t.below;
      distinct = rw same t.distinct;
    }

cleanup_keeps : (p : Process) → ((cleanup p).pid ≡ p.pid) ⊎ ((cleanup p).pid ≡ 0)
unfolding cleanup
cleanup_keeps p = ground arith

-- and process_cleanup_terminated.
pub process_cleanup_terminated-IsTable :
    (s : ProcessSystem) → IsTable s → IsTable (process_cleanup_terminated s)
unfolding process_cleanup_terminated
process_cleanup_terminated-IsTable s t = record {
  full_size = length-map s.processes cleanup ∙ t.full_size;
  positive = t.positive;
  below = Below-map cleanup cleanup_keeps s.next_pid s.processes t.positive t.below;
  distinct = Distinct-map cleanup cleanup_keeps s.processes t.distinct;
}
