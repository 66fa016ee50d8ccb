-- ===== src/Process/Lifecycle.antt =====
-- A process from its creation to its end.
use os_from_zero.Base.Int.{ℤ, pos}
use native.Mathlib.Nat.{zero-add}
use os_from_zero.Base.{
  ℕ, ◌-◌, ◌^◌, ◌<◌, ◌≡◌, ◌≢◌, refl, ap, ◌∙◌, true, Option, none, some, List, arith, get_elem?,
  get_elem?-set_of_some, set, take, Bool-cases, inl, inr, >>=-eq-some, sym, if_true,
}
use os_from_zero.Strings.{strncpy}
use os_from_zero.Strings.Text.{c_text}
use os_from_zero.Strings.Strncpy.{strncpy_text}
use os_from_zero.Elf.Load.{ProgramMemory, ProgramLoadResult, elf_load_program}
use os_from_zero.Process.{
  Process, ProcessState, ProcessSystem, new_process, install, create_in, process_create,
  process_get, find_free_process_slot, failure, name_bytes, is_free,
}
use os_from_zero.Process.Table.{IsTable}
use os_from_zero.Process.Find.{AllFail, find_index-none, find_index-set}

-- The entry of a new process, in the table after process_create.
pub record IsNew (s s' : ProcessSystem) (name : List ℕ) (r : ProgramLoadResult) (slot : ℕ)
    (p : Process) : Type 0 where
  pub found : process_get s' (pos s.next_pid) ≡ some slot
  pub stands : get_elem? s'.processes slot ≡ some p
  pub number : p.pid ≡ s.next_pid
  pub is_ready : p.state ≡ ProcessState.ready
  pub entry : p.entry_point ≡ r.entry_point
  pub memory : p.memory_base ≡ r.allocated_memory
  pub size : p.memory_size ≡ r.memory_size
  pub text : c_text p.name ≡ take (name_bytes - 1) (c_text name)

new_process_lem :
    (old : Process) (pid slot stacks : ℕ) (name : List ℕ) (r : ProgramLoadResult) (p : Process)
    → new_process old pid slot stacks name r ≡ some p
    → (p.pid ≡ pid)
      × (p.state ≡ ProcessState.ready)
      × (p.entry_point ≡ r.entry_point)
      × (p.memory_base ≡ r.allocated_memory)
      × (p.memory_size ≡ r.memory_size)
      × (c_text p.name ≡ take (name_bytes - 1) (c_text name))
unfolding new_process
new_process_lem old pid slot stacks name r p e =
    let (d, copied, made) = >>=-eq-some (strncpy old.name name (name_bytes - 1)) _ e in
    ground (arith, strncpy_text old.name name (name_bytes - 1) d copied)

pub install-IsNew :
    (s : ProcessSystem) (slot : ℕ) (name : List ℕ) (r : ProgramLoadResult) (m : ProgramMemory)
    (result : ℤ) (s' : ProcessSystem)
    → IsTable s
    → s.next_pid < 2 ^ 31
    → install s slot name r m ≡ some (result, s')
    → (result ≡ pos s.next_pid) × ((p : Process) × IsNew s s' name r slot p)
unfolding install process_get
install-IsNew s slot name r m result s' t small e =
    let (old, stood, e₁) = >>=-eq-some (get_elem? s.processes slot) _ e in
    let (p, made, e₂) =
      >>=-eq-some (new_process old s.next_pid slot s.process_stacks name r) _ e₁ in
    let (number, is_ready, entry, memory, size, text) =
      new_process_lem old s.next_pid slot s.process_stacks name r p made in
    let found =
      find_index-set s.processes s.next_pid slot 0 p old (omega arith) t.below number stood in
    let stands = get_elem?-set_of_some s.processes slot p old stood in
    let table : s'.processes ≡ set s.processes slot p = ground arith in
    (
      ground arith,
      (
        p,
        record {
          found = rw table (found ∙ ap some (zero-add slot));
          stands = rw table stands;
          number = number;
          is_ready = is_ready;
          entry = entry;
          memory = memory;
          size = size;
          text = text;
        },
      ),
    )

created :
    (s : ProcessSystem) (name elf_data : List ℕ) (size : ℕ) (at : Option ℕ) (result : ℤ)
    (s' : ProcessSystem)
    → IsTable s
    → s.next_pid < 2 ^ 31
    → create_in s name elf_data size at ≡ some (result, s')
    → result ≢ failure
    → (slot : ℕ) × (r : ProgramLoadResult) × (m : ProgramMemory) × (p : Process) × (at ≡ some slot)
      × (elf_load_program s.program elf_data size ≡ some (r, m))
      × (r.success ≡ true)
      × (result ≡ pos s.next_pid)
      × IsNew s s' name r slot p
unfolding create_in
created s name elf_data size none result s' t small e ok = absurd (ok (ground arith))
created s name elf_data size (some slot) result s' t small e ok =
    let ((r, m), loaded, e₁) = >>=-eq-some (elf_load_program s.program elf_data size) _ e in
    elim (Bool-cases r.success) [
      | inl yes_loaded ↦
          let (number, (p, made)) =
            install-IsNew s slot name r m result s' t small (rw yes_loaded at e₁) in
          (slot, r, m, p, refl, loaded, yes_loaded, number, made)
      | inr not_loaded ↦ absurd (ok (ground arith))
    ]

-- When process_create succeeds, below 2 ^ 31 processes, it has loaded the file and returns the
-- next process number; process_get finds the new entry under it, in the slot that was free: ready,
-- with the program's entry point and memory, under the first 63 bytes of the name.
pub process_create-IsNew :
    (s : ProcessSystem) (name elf_data : List ℕ) (size : ℕ) (result : ℤ) (s' : ProcessSystem)
    → IsTable s
    → s.next_pid < 2 ^ 31
    → process_create s name elf_data size ≡ some (result, s')
    → result ≢ failure
    → (slot : ℕ) × (r : ProgramLoadResult) × (m : ProgramMemory) × (p : Process)
      × (find_free_process_slot s.processes ≡ some slot)
      × (elf_load_program s.program elf_data size ≡ some (r, m))
      × (r.success ≡ true)
      × (result ≡ pos s.next_pid)
      × IsNew s s' name r slot p
unfolding process_create
process_create-IsNew s name elf_data size result s' t small e ok = elim (Bool-cases s.initialized) [
  | inl on ↦
      created s name elf_data size (find_free_process_slot s.processes) result s' t small
        (sym (if_true s.initialized _ _ on) ∙ e) ok
  | inr off ↦ absurd (ok (ground arith))
]

-- A full table: process_create fails, and changes nothing.
pub process_create-full :
    (s : ProcessSystem) (name elf_data : List ℕ) (size : ℕ)
    → AllFail is_free s.processes
    → process_create s name elf_data size ≡ some (failure, s)
unfolding process_create find_free_process_slot create_in
process_create-full s name elf_data size full = elim (Bool-cases s.initialized) [
  | inl on ↦ rw (on, find_index-none is_free s.processes 0 full)
  | inr off ↦ rw off
]
