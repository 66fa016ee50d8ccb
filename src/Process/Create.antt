-- ===== src/Process/Create.antt =====
-- A program that is loaded into a free slot.
use os_from_zero.Base.Int.{pos}
use os_from_zero.Base.{
  ℕ, ◌-◌, ◌^◌, ◌<◌, ◌≡◌, refl, ap, ◌∙◌, true, some, List, arith, get_elem?, set, length, add32, ltb,
  ◌>>=◌, if_true, inl, inr, Option-cases, if◌then◌else◌,
}
use os_from_zero.Strings.Strncpy.{strncpy_fits}
use os_from_zero.Elf.Load.{ProgramMemory, ProgramLoadResult, elf_load_program}
use os_from_zero.Process.{
  Process, ProcessSystem, new_process, install, create_in, process_create, find_free_process_slot,
  failure, name_bytes, to_int,
}
use os_from_zero.Process.Table.{IsTable}
use os_from_zero.Process.Lifecycle.{IsNew, install-IsNew}

abbrev pub with_process : ProcessSystem → ℕ → Process → ProgramMemory → ProcessSystem
with_process s slot p m = record s {
  processes = set s.processes slot p;
  next_pid = add32 s.next_pid 1;
  program = m;
}

new_process_fits :
    (old : Process) (pid slot stacks : ℕ) (name : List ℕ) (r : ProgramLoadResult)
    → name_bytes - 1 < length old.name
    → (p : Process) × (new_process old pid slot stacks name r ≡ some p)
unfolding new_process
new_process_fits old pid slot stacks name r room =
    let (d, copied, _, _) = strncpy_fits old.name name (name_bytes - 1) room in
    elim (Option-cases (new_process old pid slot stacks name r)) [
      | inr made ↦ made
      | inl e ↦ absurd (ground (arith, copied))
    ]

-- process_create with a free slot whose name buffer has its 64 bytes, when the file is loaded.
pub process_create_fits :
    (s : ProcessSystem) (name elf_data : List ℕ) (size slot : ℕ) (old : Process)
    (r : ProgramLoadResult) (m : ProgramMemory)
    → IsTable s
    → s.initialized ≡ true
    → s.next_pid < 2 ^ 31
    → find_free_process_slot s.processes ≡ some slot
    → get_elem? s.processes slot ≡ some old
    → name_bytes - 1 < length old.name
    → elf_load_program s.program elf_data size ≡ some (r, m)
    → r.success ≡ true
    → (s' : ProcessSystem) × (p : Process) × (process_create s name elf_data size
        ≡ some (pos s.next_pid, s'))
      × IsNew s s' name r slot p
      × (s'.initialized ≡ true)
      × (s'.next_pid ≡ add32 s.next_pid 1)
      × (s'.program ≡ m)
unfolding process_create create_in install
process_create_fits s name elf_data size slot old r m t on small free stands room loaded good =
    let (p, made) = new_process_fits old s.next_pid slot s.process_stacks name r room in
    let number : to_int s.next_pid ≡ pos s.next_pid =
      if_true (ltb s.next_pid (2 ^ 31)) _ _ (ground arith) in
    let installed : install s slot name r m ≡ some (pos s.next_pid, with_process s slot p m) =
      ap
        (λ o. o >>= λ (q : Process). new_process q s.next_pid slot s.process_stacks name r >>= λ n.
          some (to_int s.next_pid, with_process s slot n m))
        stands
      ∙ (ap (λ o. o >>= λ n. some (to_int s.next_pid, with_process s slot n m)) made
          ∙ ap (λ z. some (z, with_process s slot p m)) number) in
    let (_, (p', new)) =
      install-IsNew s slot name r m (pos s.next_pid) (with_process s slot p m) t small installed in
    (
      with_process s slot p m,
      p',
      if_true s.initialized _ _ on
          ∙ (ap (create_in s name elf_data size) free
              ∙ (ap
                    (λ o. o >>= λ (l : ProgramLoadResult × ProgramMemory).
                      if l.0.success
                      then install s slot name l.0 l.1
                      else some (failure, record s { program = l.1 }))
                    loaded
                  ∙ (if_true r.success _ _ good ∙ installed))),
      new,
      on,
      refl,
      refl,
    )
