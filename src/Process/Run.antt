-- ===== src/Process/Run.antt =====
-- What process_execute does with a process, and that a process runs once.
use os_from_zero.Process.Table.{Distinct, NotIn, pids}
use os_from_zero.Base.Int.{ℤ, pos}
use os_from_zero.Base.{
  ℕ, zero, suc, ◌^◌, ◌<◌, ◌≡◌, ◌≢◌, ap, ◌∙◌, Bool, true, false, ◌&&◌, not, Option, none, some, List,
  [], ◌∷◌, arith, ◌==◌, if◌then◌else◌, get_elem?, set, Bool-cases, Option-cases, inl, inr, Output,
  if_true, if_false, ◌++◌, print,
}
use os_from_zero.Decimal.Bound.{print_number_fits}
use os_from_zero.Process.{Process, ProcessState, ProcessSystem, find_index, to_u32, is_ready}
use os_from_zero.Process.Execute.{
  simulate, transcript, finish, run_process, execute_at, process_execute, can_run, Run, announce,
}
use os_from_zero.Process.Hello.{exit_code_of}
use os_from_zero.Process.Find.{AllFail, find_index-none}

abbrev has_memory : Option ℕ → Bool
has_memory none = false
has_memory (some at) = true

-- A process has an entry point and memory.
abbrev pub runnable : Process → Bool
runnable p = not (p.entry_point == 0) && has_memory p.memory_base

-- The entry after process_execute.
abbrev pub ended : Process → Process
ended p =
    if runnable p
    then record p { state = ProcessState.terminated; exit_code = pos (exit_code_of p.name) }
    else record p { state = ProcessState.error }

simulate-code : (name : List ℕ) → (simulate name).0 ≡ exit_code_of name
unfolding simulate
simulate-code name = ground arith

finish_lem :
    (p : Process)
    → p.memory_size < 10 ^ 15
    → (shown : List Output) × (finish p
        ≡ some (
          true,
          record p { state = ProcessState.terminated; exit_code = pos (exit_code_of p.name) },
          shown,
        ))
unfolding finish
finish_lem p h =
    let (size, s_run, _) = print_number_fits 15 p.memory_size (omega arith) h in
    let (code, c_run, _) =
      print_number_fits 16 (simulate p.name).0 (omega arith)
        (ground (arith, simulate-code p.name)) in
    (transcript p size (simulate p.name).1 code, rw (s_run, c_run) (rw (simulate-code p.name)))

run_process_lem :
    (p : Process)
    → p.memory_size < 10 ^ 15
    → (shown : List Output) × (run_process p ≡ some (runnable p, ended p, shown))
unfolding run_process
run_process_lem p h = elim (Bool-cases (p.entry_point == 0)) [
  | inl e ↦ (announce p.name ++ (print "Error: Invalid entry point\n" ∷ []), rw e)
  | inr e ↦ elim (Option-cases p.memory_base) [
    | inl none_yet ↦ (announce p.name ++ (print "Error: No memory allocated\n" ∷ []), ground arith)
    | inr (at, has) ↦
        let (shown, run) = finish_lem (record p { state = ProcessState.running }) h in
        (shown, ground (arith, run))
  ]
]

execute_known :
    (s : ProcessSystem) (i : ℕ) (p : Process) (r : Run)
    → get_elem? s.processes i ≡ some p
    → run_process p ≡ some r
    → execute_at s (some i) ≡ some (r.0, record s { processes = set s.processes i r.1 }, r.2)
unfolding execute_at
execute_known s i p r stands run = ground arith

-- process_execute on the first ready process of that number, with less than 10 ^ 15 bytes: it
-- reports whether the process has an entry point and memory. If so the process ends with the exit
-- code of its name; if not it is marked as faulty. No other entry of the table changes.
pub process_execute_lem :
    (s : ProcessSystem) (pid : ℤ) (i : ℕ) (p : Process)
    → s.initialized ≡ true
    → find_index (can_run pid) s.processes 0 ≡ some i
    → get_elem? s.processes i ≡ some p
    → p.memory_size < 10 ^ 15
    → (shown : List Output) × (process_execute s pid
        ≡ some (runnable p, record s { processes = set s.processes i (ended p) }, shown))
unfolding process_execute execute_at
process_execute_lem s pid i p on found stands small =
    let (shown, run) = run_process_lem p small in
    (
      shown,
      if_true s.initialized _ _ on ∙ (ap (execute_at s) found ∙ execute_known s i p _ stands run),
    )

-- A process that is not in the table, or not ready, is not run: nothing changes.
pub process_execute-none :
    (s : ProcessSystem) (pid : ℤ)
    → AllFail (can_run pid) s.processes
    → process_execute s pid ≡ some (false, s, [])
unfolding process_execute execute_at
process_execute-none s pid h = elim (Bool-cases s.initialized) [
  | inl on ↦
      if_true s.initialized _ _ on
      ∙ ap (execute_at s) (find_index-none (can_run pid) s.processes 0 h)
  | inr off ↦ if_false s.initialized _ _ off
]

-- Once its entry is no longer ready, no ready entry has the number of the process.
AllFail-other :
    (pid : ℤ) (k : ℕ) (ps : List Process)
    → k ≢ 0
    → k ≡ to_u32 pid
    → NotIn k (pids ps)
    → AllFail (can_run pid) ps
AllFail-other pid k [] ne e d = tt
AllFail-other pid k (p ∷ ps) ne e d = (ground (arith, d.0 ne), AllFail-other pid k ps ne e d.1)

apart :
    (k : ℕ) (ps : List Process) (i : ℕ) (p : Process)
    → NotIn k (pids ps)
    → get_elem? ps i ≡ some p
    → k ≢ 0
    → k ≢ p.pid
apart k [] i p d h ne = cc
apart k (q ∷ ps) zero p d h ne = ground (arith, d.0 ne)
apart k (q ∷ ps) (suc i) p d h ne = apart k ps i p d.1 h ne

pub AllFail-set :
    (pid : ℤ) (ps : List Process) (i : ℕ) (p p' : Process)
    → Distinct (pids ps)
    → get_elem? ps i ≡ some p
    → p.pid ≡ to_u32 pid
    → p.pid ≢ 0
    → is_ready p'.state ≡ false
    → AllFail (can_run pid) (set ps i p')
AllFail-set pid [] i p p' d h e ne off = tt
AllFail-set pid (q ∷ ps) zero p p' d h e ne off =
    (ground arith, AllFail-other pid q.pid ps (ground arith) (ground arith) d.0)
AllFail-set pid (q ∷ ps) (suc i) p p' d h e ne off =
    (ground (arith, apart q.pid ps i p d.0 h), AllFail-set pid ps i p p' d.1 h e ne off)
