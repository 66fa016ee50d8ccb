-- ===== src/Execution/Programs.antt =====
-- A program that the shell compiles and then runs.
use mathlib.Core.Path.{subst}
use os_from_zero.Elf.Load.{ProgramMemory, elf_load_program}
use os_from_zero.Base.{
  sym, ℕ, ◌+◌, ◌-◌, ◌^◌, ◌<◌, ◌≤◌, ◌≡◌, ◌≢◌, refl, ap, ◌∙◌, true, false, some, List, arith,
  get_elem?, length, add32, add64, ◌==◌, get_or, if_false, inl, inr, Output, print,
}
use os_from_zero.Strings.{strlen}
use os_from_zero.Strings.Text.{c_text, strlen-eq-length}
use os_from_zero.Elf.Memory.{program_size}
use os_from_zero.Elf.Image.{create_test_elf, simple_program}
use os_from_zero.Elf.Image.Loads.{create_test_elf-Runs}
use os_from_zero.Filesystem.{FileSystem, max_filename_length, free_slots, read_file, write_file}
use os_from_zero.Filesystem.Names.{take-length}
use os_from_zero.Filesystem.Slots.{free_slots_full}
use os_from_zero.Filesystem.Store.Over.{Stored}
use os_from_zero.Filesystem.Store.Write.{write_file_lem}
use os_from_zero.Filesystem.Refine.{IsSound}
use os_from_zero.Process.{Process, name_bytes, find_free_process_slot}
use os_from_zero.Process.Table.{IsTable}
use os_from_zero.Execution.{Kernel, cmd_compile, cmd_exec, save_program}
use os_from_zero.Execution.Runs.{Gives, >>=-Gives, IsSpent, cmd_exec-IsSpent}

-- A kernel with a free file slot, a free entry in the process table, and 8 bytes of program memory
-- at an address that is not 0.
pub record HasRoom (k : Kernel) (slot : ℕ) (old : Process) : Type 0 where
  pub sound : IsSound k.fs
  pub space : 1 ≤ free_slots k.fs.files
  pub table : IsTable k.system
  pub on : k.system.initialized ≡ true
  pub small : k.system.next_pid < 2 ^ 31
  pub free : find_free_process_slot k.system.processes ≡ some slot
  pub stands : get_elem? k.system.processes slot ≡ some old
  pub room : name_bytes - 1 < length old.name
  pub fits : k.system.program.offset + 8 ≤ program_size
  pub mapped : add64 0 (add64 k.system.program.address k.system.program.offset) ≢ 0

length-create_test_elf : length create_test_elf ≡ 128
unfolding create_test_elf
length-create_test_elf = refl

save_program-Gives :
    (image : List ℕ) (title : Output) (name : List ℕ) (k : Kernel)
    → IsSound k.fs
    → 1 ≤ free_slots k.fs.files
    → length (c_text name) ≤ max_filename_length
    → length image ≤ 1024
    → (fs : FileSystem) × Gives (save_program image title name k) (record k { fs = fs })
      × Stored k.fs fs name image (length image)
unfolding save_program
save_program-Gives image title name k sound space short small =
    elim (write_file_lem k.fs name image (length image) (sound.on) (sound.sized) small (omega arith)
      short) [
        | inl (_, full, _) ↦ absurd (omega (arith, free_slots_full k.fs.files 0 full))
        | inr (fs, run, st) ↦ (
          fs,
          >>=-Gives (write_file k.fs name image (length image)) (true, fs) _ _ run (_, refl),
          st,
        )
      ]

-- `compile` and then `exec` of a name of 1 to 32 bytes, once the file system and the process table
-- are initialised, below 2 ^ 31 processes, when there is room for a file, a process and 8 bytes of
-- program memory at an address that is not 0: the file is written and no other changes; it is loaded
-- and run as the next process, which ends with 55 if its name contains "hello" and with 42 if not;
-- its bytes stand in program memory, and its entry in the table is free again.
pub cmd_compile-exec :
    (k : Kernel) (name : List ℕ) (slot : ℕ) (old : Process)
    → HasRoom k slot old
    → strlen name ≢ 0
    → strlen name ≤ max_filename_length
    → (k₁ : Kernel) × (k₂ : Kernel) × Gives (cmd_compile (some name) k) k₁
      × Gives (cmd_exec (some name) k₁) k₂
      × Stored k.fs k₂.fs name create_test_elf 128
      × IsSpent k₂.system name slot
      × (k₂.system.next_pid ≡ add32 k.system.next_pid 1)
      × ((i : ℕ)
          → i < 8
          → k₂.system.program.bytes (k.system.program.offset + i) ≡ get_or simple_program i 0)
unfolding cmd_compile
cmd_compile-exec k name slot old room ne short =
    let size = length-create_test_elf in
    let text : length (c_text name) ≤ max_filename_length = omega (arith, strlen-eq-length name) in
    let full : (strlen name == 0) ≡ false = ground arith in
    let (fs, (shown, wrote), st) =
      save_program-Gives create_test_elf (print "Test program compiled and saved as: ") name k
        (room.sound) (room.space) text (omega arith) in
    let ((r, m), loaded, runs) = create_test_elf-Runs k.system.program (room.fits) in
    let read_back : read_file fs name ≡ some create_test_elf =
      st.read_back ∙ ap some (take-length create_test_elf (length create_test_elf) (omega arith)) in
    let (k₂, ran, ended, kept, program, number) =
      cmd_exec-IsSpent (record k { fs = fs }) name create_test_elf slot
        (add64 k.system.program.address k.system.program.offset) old r m full (omega arith)
        read_back (omega arith) (room.table) (room.on) (room.small) (room.free) (room.stands)
        (room.room) (ap (elf_load_program k.system.program create_test_elf) size ∙ loaded)
        (runs.success) (λ e. room.mapped (ground (arith, runs.entry))) (runs.block)
        (omega (arith, runs.length_of)) in
    (
      record k { fs = fs },
      k₂,
      (shown, if_false (strlen name == 0) _ _ full ∙ wrote),
      ran,
      subst (λ f. Stored k.fs f name create_test_elf 128) (sym kept)
          (subst (λ n. Stored k.fs fs name create_test_elf n) size st),
      ended,
      number,
      λ i h.
          ap (λ (p : ProgramMemory). p.bytes (k.system.program.offset + i)) program
          ∙ runs.bytes i h,
    )
