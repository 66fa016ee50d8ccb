-- ===== src/Execution/Tests.antt =====
-- Programs on a kernel that has just started.
use os_from_zero.Filesystem.Init.{blank_file}
use os_from_zero.Filesystem.Store.{AllSized-replicate, blank_file-IsSized}
use os_from_zero.Base.{
  ℕ, ◌+◌, ◌<◌, ◌≡◌, refl, true, none, List, [], ◌∷◌, replicate, some, arith, get_or, add32,
}
use os_from_zero.Base.Int.{pos}
use os_from_zero.Strings.{strlen}
use os_from_zero.Elf.Image.{create_test_elf, simple_program}
use os_from_zero.Filesystem.Store.Over.{Stored}
use os_from_zero.Filesystem.Refine.{IsSound}
use os_from_zero.Process.{Process, ProcessState, find_index, find_free_process_slot}
use os_from_zero.Process.Table.{IsTable}
use os_from_zero.Execution.{Kernel, cmd_compile, cmd_exec}
use os_from_zero.Execution.Runs.{Gives, IsSpent}
use os_from_zero.Execution.Programs.{HasRoom, cmd_compile-exec}

abbrev free_entry : Process
free_entry = record {
  pid = 0;
  state = ProcessState.terminated;
  entry_point = 0;
  memory_base = none;
  memory_size = 0;
  rsp = 0;
  stack_base = 0;
  stack_size = 0;
  name = replicate 64 0;
  exit_code = pos 0;
}

abbrev kernel : Kernel
kernel = record {
  system = record {
    processes = replicate 8 free_entry;
    next_pid = 1;
    initialized = true;
    process_stacks = 4096;
    program = record { bytes = λ i. 0; offset = 0; address = 1048576 };
  };
  fs = record { files = blank_file ∷ []; current_time = 0; initialized = true };
}

kernel-IsSound : IsSound kernel.fs
kernel-IsSound = record {
  on = refl;
  sized = AllSized-replicate 1 blank_file blank_file-IsSized;
  distinct = (λ n h. cc, tt);
}

kernel-IsTable : IsTable kernel.system
kernel-IsTable = record {
  full_size = refl;
  positive = omega arith;
  below = ground arith;
  distinct = ground arith;
}

kernel-free : find_free_process_slot kernel.system.processes ≡ some 0
unfolding find_free_process_slot find_index
kernel-free = refl

kernel-HasRoom : HasRoom kernel 0 free_entry
kernel-HasRoom = record {
  sound = kernel-IsSound;
  space = omega arith;
  table = kernel-IsTable;
  on = refl;
  small = omega arith;
  free = kernel-free;
  stands = refl;
  room = omega arith;
  fits = omega arith;
  mapped = ground arith;
}

-- "loop"
abbrev loop_name : List ℕ
loop_name = b'l' ∷ b'o' ∷ b'o' ∷ b'p' ∷ []

loop_length : strlen loop_name ≡ 4
unfolding strlen
loop_length = refl

cmd_compile-exec_example :
    (k₁ : Kernel) × (k₂ : Kernel) × Gives (cmd_compile (some loop_name) kernel) k₁
    × Gives (cmd_exec (some loop_name) k₁) k₂
    × Stored kernel.fs k₂.fs loop_name create_test_elf 128
    × IsSpent k₂.system loop_name 0
    × (k₂.system.next_pid ≡ add32 kernel.system.next_pid 1)
    × ((i : ℕ)
        → i < 8
        → k₂.system.program.bytes (kernel.system.program.offset + i) ≡ get_or simple_program i 0)
cmd_compile-exec_example =
    cmd_compile-exec kernel loop_name 0 free_entry kernel-HasRoom (omega (arith, loop_length))
      (omega (arith, loop_length))
