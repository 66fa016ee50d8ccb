-- ===== src/Process/Once.antt =====
-- A process runs at most once.
use native.Mathlib.Nat.{zero-add}
use os_from_zero.Base.{
  ℕ, ◌≡◌, ◌≢◌, refl, ap, sym, ◌∙◌, Bool, true, false, Option, none, some, List, [], arith,
  get_elem?, set, Bool-cases, inl, inr, >>=-eq-some, Output, if_true, if_false,
}
use os_from_zero.Base.Int.{ℤ}
use os_from_zero.Process.{Process, ProcessSystem, find_index, to_u32, is_ready}
use os_from_zero.Process.Execute.{finish, run_process, execute_at, process_execute, can_run}
use os_from_zero.Process.Find.{AllFail, find_index_hit, find_index_miss}
use os_from_zero.Process.Table.{IsTable}
use os_from_zero.Process.Run.{process_execute-none, AllFail-set}

run_process-state :
    (p p' : Process) (done : Bool) (shown : List Output)
    → run_process p ≡ some (done, p', shown)
    → is_ready p'.state ≡ false
unfolding run_process finish
run_process-state p p' done shown e = ground arith

has_pid-eq : (pid : ℤ) (p : Process) → can_run pid p ≡ true → p.pid ≡ to_u32 pid
has_pid-eq pid p h = ground arith

execute_at-AllFail :
    (s : ProcessSystem) (pid : ℤ) (at : Option ℕ) (done : Bool) (s' : ProcessSystem)
    (shown : List Output)
    → IsTable s
    → to_u32 pid ≢ 0
    → find_index (can_run pid) s.processes 0 ≡ at
    → execute_at s at ≡ some (done, s', shown)
    → AllFail (can_run pid) s'.processes
unfolding execute_at
execute_at-AllFail s pid none done s' shown t ne e run =
    let same : s'.processes ≡ s.processes = ground arith in
    rw same (find_index_miss (can_run pid) s.processes 0 e)
execute_at-AllFail s pid (some i) done s' shown t ne e run =
    let (k, q, at, stands, hit) = find_index_hit (can_run pid) s.processes 0 i e in
    let (p, found, e₁) = >>=-eq-some (get_elem? s.processes i) _ run in
    let ((ok, p', out), ran, e₂) = >>=-eq-some (run_process p) _ e₁ in
    let table : s'.processes ≡ set s.processes i p' = ground arith in
    let same : q ≡ p = ground (arith, ap (get_elem? s.processes) (at ∙ zero-add k)) in
    let owner : p.pid ≡ to_u32 pid = has_pid-eq pid p (rw same at hit) in
    rw table (
      AllFail-set pid s.processes i p p' t.distinct found owner
        (λ zero_pid. ne (sym owner ∙ zero_pid)) (run_process-state p p' ok out ran))

-- After process_execute, whatever it did, the same process number is not run again: a second call
-- reports failure and changes nothing.
pub process_execute_once :
    (s : ProcessSystem) (pid : ℤ) (done : Bool) (s' : ProcessSystem) (shown : List Output)
    → IsTable s
    → to_u32 pid ≢ 0
    → process_execute s pid ≡ some (done, s', shown)
    → process_execute s' pid ≡ some (false, s', [])
unfolding process_execute
process_execute_once s pid done s' shown t ne run = elim (Bool-cases s.initialized) [
  | inl on ↦ process_execute-none s' pid (
      execute_at-AllFail s pid (find_index (can_run pid) s.processes 0) done s' shown t ne refl
        (sym (if_true s.initialized _ _ on) ∙ run))
  | inr off ↦ let same : s' ≡ s = ground arith in rw (same, if_false s.initialized _ _ off)
]
