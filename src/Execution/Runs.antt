-- ===== src/Execution/Runs.antt =====
-- A file that the loader takes, run by cmd_exec.
use os_from_zero.Base.Int.{ℤ, pos}
use native.Mathlib.Nat.{zero-add}
use os_from_zero.Base.{
  ℕ, zero, suc, ◌+◌, ◌-◌, ◌^◌, ◌<◌, ◌≡◌, ◌≢◌, refl, ap, sym, ◌∙◌, Bool, true, false, Option, none,
  some, List, [], ◌∷◌, ◌++◌, map, arith, get_elem?, set, length, add32, ◌>>=◌, if_true, if_false,
  inl, inr, Bool-cases, Output, print, print_text, putchars, Option-cases, get_elem?-set_of_some,
  ◌==◌,
}
use os_from_zero.Strings.{strlen}
use os_from_zero.Strings.Text.{c_text}
use os_from_zero.Decimal.{print_number}
use os_from_zero.Decimal.Bound.{print_number_fits}
use os_from_zero.Elf.Load.{ProgramMemory, ProgramLoadResult, elf_load_program}
use os_from_zero.Filesystem.Names.{take-length}
use os_from_zero.Filesystem.{read_file}
use os_from_zero.Process.{
  Process, ProcessState, ProcessSystem, find_index, has_pid, name_bytes, find_free_process_slot,
  process_create, process_get, process_cleanup_terminated, cleanup,
}
use os_from_zero.Process.Create.{process_create_fits}
use os_from_zero.Process.Execute.{process_execute, can_run}
use os_from_zero.Process.Hello.{exit_code_of, exit_code_of-text}
use os_from_zero.Process.Run.{runnable, ended, process_execute_lem}
use os_from_zero.Process.Table.{IsTable}
use os_from_zero.Execution.{Kernel, cmd_exec, exec_process, exec_created, exec_file, after}

find_index-sub :
    (test sub : Process → Bool) (ps : List Process) (i k : ℕ) (p : Process)
    → ((q : Process) → sub q ≡ true → test q ≡ true)
    → find_index test ps i ≡ some (i + k)
    → get_elem? ps k ≡ some p
    → sub p ≡ true
    → find_index sub ps i ≡ some (i + k)
unfolding find_index
find_index-sub test sub [] i k p weaker found stands h = cc
find_index-sub test sub (q ∷ ps) i zero p weaker found stands h =
    let same : q ≡ p = cc in rw (same, h) (ground arith)
find_index-sub test sub (q ∷ ps) i (suc k) p weaker found stands h = elim (Bool-cases (test q)) [
  | inl e ↦ absurd (ground arith)
  | inr e ↦
      let other : sub q ≡ false = elim (Bool-cases (sub q)) [
        | inr n ↦ n
        | inl y ↦ absurd (ground (arith, weaker q y))
      ] in
      let step : i + suc k ≡ i + 1 + k = omega arith in
      rw other (
        find_index-sub test sub ps (i + 1) k p weaker (rw e at found ∙ ap some step) stands h
        ∙ ap some (sym step))
]

-- What cmd_exec leaves of a process that it has run.
abbrev pub spent : ProcessSystem → ℕ → Process → ProcessSystem
unfolding process_cleanup_terminated
spent s i p = process_cleanup_terminated (record s { processes = set s.processes i (ended p) })

-- A command gives a state, whatever it prints.
abbrev pub Gives : Option (List Output × Kernel) → Kernel → Type 0
Gives o k = (shown : List Output) × (o ≡ some (shown, k))

pub after-Gives :
    (shown : List Output) (o : Option (List Output × Kernel)) (k : Kernel)
    → Gives o k
    → Gives (after shown o) k
after-Gives shown o k (more, e) = (shown ++ more, ap (after shown) e)

pub >>=-Gives {ℓ} :
    {A : Type ℓ} (m : Option A) (a : A) (f : A → Option (List Output × Kernel)) (k : Kernel)
    → m ≡ some a
    → Gives (f a) k
    → Gives (m >>= f) k
>>=-Gives m a f k e (shown, run) = (shown, ap (λ o. o >>= f) e ∙ run)

exec_process-Gives :
    (k : Kernel) (pid : ℤ) (i : ℕ) (p : Process)
    → k.system.initialized ≡ true
    → find_index (can_run pid) k.system.processes 0 ≡ some i
    → get_elem? k.system.processes i ≡ some p
    → p.memory_size < 10 ^ 15
    → runnable p ≡ true
    → Gives (exec_process pid k) (record k { system = spent k.system i p })
unfolding exec_process spent
exec_process-Gives k pid i p on found stands small can =
    let (shown, run) = process_execute_lem k.system pid i p on found stands small in
    >>=-Gives (process_execute k.system pid) _ _ _ run (_, if_true (runnable p) _ _ can)

exec_created-Gives :
    (n : ℕ) (k k' : Kernel)
    → n < 10 ^ 15
    → Gives (exec_process (pos n) k) k'
    → Gives (exec_created (pos n) k) k'
unfolding exec_created
exec_created-Gives n k k' small run =
    let (digits, printed, _) = print_number_fits 15 n (omega arith) small in
    >>=-Gives (print_number 15 n) digits _ k' printed (
      after-Gives
        (print "DEBUG: Process created with PID: " ∷ putchars digits
          ++ (print "\n" ∷ print "DEBUG: Starting process execution...\n" ∷ []))
        (exec_process (pos n) k) k' run)

exec_file-Gives :
    (name bytes : List ℕ) (n : ℕ) (s' : ProcessSystem) (k k' : Kernel)
    → length bytes < 10 ^ 15
    → process_create k.system name bytes (length bytes) ≡ some (pos n, s')
    → Gives (exec_created (pos n) (record k { system = s' })) k'
    → Gives (exec_file name bytes k) k'
unfolding exec_file
exec_file-Gives name bytes n s' k k' small made run =
    let (digits, printed, _) = print_number_fits 15 (length bytes) (omega arith) small in
    >>=-Gives (print_number 15 (length bytes)) digits _ k' printed (
      >>=-Gives (process_create k.system name bytes (length bytes)) (pos n, s') _ k' made
        (after-Gives
          (print "DEBUG: File read successfully, size: " ∷ putchars digits
            ++ (print " bytes\n" ∷ print "DEBUG: Creating process...\n" ∷ []))
          (exec_created (pos n) (record k { system = s' })) k' run))

cmd_exec-Gives :
    (name bytes : List ℕ) (k k' : Kernel)
    → (strlen name == 0) ≡ false
    → read_file k.fs name ≡ some bytes
    → Gives (exec_file name bytes k) k'
    → Gives (cmd_exec (some name) k) k'
unfolding cmd_exec
cmd_exec-Gives name bytes k k' full found run =
    let (shown, gone) =
      after-Gives
        (print "DEBUG: Starting execution of: "
          ∷ print_text name
          ∷ print "\n"
          ∷ print "DEBUG: Reading file from filesystem...\n"
          ∷ [])
        _ k'
        (
          run.0,
          ap
                (λ o. elim o [
                  | none ↦ some (
                    print "Error: Cannot read file '"
                        ∷ print_text name
                        ∷ print "'\n"
                        ∷ print "Use 'ls' to see available files\n"
                        ∷ [],
                    k,
                  )
                  | some b ↦ exec_file name b k
                ])
                found
              ∙ run.1,
        ) in
    (shown, if_false (strlen name == 0) _ _ full ∙ gone)

-- The entry that is left of a process: it has ended with the exit code of its name, and its slot is
-- free.
pub record IsSpent (s : ProcessSystem) (name : List ℕ) (slot : ℕ) : Type 0 where
  pub p : Process
  pub stands : get_elem? s.processes slot ≡ some p
  pub over : p.state ≡ ProcessState.terminated
  pub code : p.exit_code ≡ pos (exit_code_of name)
  pub text : c_text p.name ≡ c_text name
  pub free : p.pid ≡ 0

get_elem?-map :
    (ps : List Process) (i : ℕ) (p : Process)
    → get_elem? ps i ≡ some p
    → get_elem? (map cleanup ps) i ≡ some (cleanup p)
get_elem?-map [] i p e = cc
get_elem?-map (q ∷ ps) zero p e = let same : q ≡ p = cc in ap (λ r. some (cleanup r)) same
get_elem?-map (q ∷ ps) (suc i) p e = get_elem?-map ps i p e

-- What is left of an entry that has ended.
abbrev freed : Process → Process
freed p = record p {
  state = ProcessState.terminated;
  exit_code = pos (exit_code_of p.name);
  memory_base = none;
  memory_size = 0;
  pid = 0;
}

cleanup-ended : (p : Process) → runnable p ≡ true → cleanup (ended p) ≡ freed p
unfolding cleanup
cleanup-ended p can = elim (Option-cases p.memory_base) [
  | inl e ↦ absurd (ground arith)
  | inr (at, e) ↦
      ap cleanup (if_true (runnable p) _ _ can)
      ∙ ap
          (λ o. elim o [
            | none ↦ record p {
              state = ProcessState.terminated;
              exit_code = pos (exit_code_of p.name);
            }
            | some a ↦ freed p
          ])
          e
]

spent-IsSpent :
    (s : ProcessSystem) (name : List ℕ) (i : ℕ) (p : Process)
    → get_elem? s.processes i ≡ some p
    → runnable p ≡ true
    → c_text p.name ≡ c_text name
    → IsSpent (spent s i p) name i
unfolding spent process_cleanup_terminated
spent-IsSpent s name i p stands can text = record {
  p = freed p;
  stands =
      get_elem?-map (set s.processes i (ended p)) i (ended p)
        (get_elem?-set_of_some s.processes i (ended p) p stands)
      ∙ ap some (cleanup-ended p can);
  over = refl;
  code = ap pos (exit_code_of-text p.name name text);
  text = text;
  free = refl;
}

-- A file that is loaded runs: with a free slot whose name buffer has its 64 bytes, and less than
-- 10 ^ 15 bytes to report.
pub cmd_exec-IsSpent :
    (k : Kernel) (name bytes : List ℕ) (slot at : ℕ) (old : Process) (r : ProgramLoadResult)
    (m : ProgramMemory)
    → (strlen name == 0) ≡ false
    → length (c_text name) < name_bytes
    → read_file k.fs name ≡ some bytes
    → length bytes < 10 ^ 15
    → IsTable k.system
    → k.system.initialized ≡ true
    → k.system.next_pid < 2 ^ 31
    → find_free_process_slot k.system.processes ≡ some slot
    → get_elem? k.system.processes slot ≡ some old
    → name_bytes - 1 < length old.name
    → elf_load_program k.system.program bytes (length bytes) ≡ some (r, m)
    → r.success ≡ true
    → r.entry_point ≢ 0
    → r.allocated_memory ≡ some at
    → r.memory_size < 10 ^ 15
    → (k' : Kernel) × Gives (cmd_exec (some name) k) k'
      × IsSpent k'.system name slot
      × (k'.fs ≡ k.fs)
      × (k'.system.program ≡ m)
      × (k'.system.next_pid ≡ add32 k.system.next_pid 1)
unfolding spent process_cleanup_terminated process_get
cmd_exec-IsSpent k name bytes slot at old r m full named found short t on small free stands room
      loaded good entry has size =
    let (s', p, made, new, on', number, program) =
      process_create_fits k.system name bytes (length bytes) slot old r m t on small free stands
        room loaded good in
    let can : runnable p ≡ true = ground (arith, new.entry, new.memory) in
    let n = k.system.next_pid in
    let could : can_run (pos n) p ≡ true = ground (arith, new.number, new.is_ready) in
    let runs =
      exec_process-Gives (record k { system = s' }) (pos n) slot p on'
        (find_index-sub (has_pid (pos n)) (can_run (pos n)) s'.processes 0 slot p
            (λ q h. ground arith) (new.found ∙ ap some (sym (zero-add slot))) new.stands could
          ∙ ap some (zero-add slot))
        new.stands (rw (new.size) size) can in
    (
      record k { system = spent s' slot p },
      cmd_exec-Gives name bytes k _ full found (
          exec_file-Gives name bytes n s' k _ short made
            (exec_created-Gives n (record k { system = s' }) _ (omega arith) runs)),
      spent-IsSpent s' name slot p new.stands can
          (new.text ∙ take-length (c_text name) (name_bytes - 1) (omega arith)),
      refl,
      program,
      number,
    )
