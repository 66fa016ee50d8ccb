-- ===== src/SystemMonitor/Tests.antt =====
-- A small memory map, and one block that is tracked.
use os_from_zero.Base.{
  ℕ, ◌-◌, ◌^◌, ◌<◌, ◌≤◌, ◌<◌, ◌≡◌, ◌⊎◌, refl, true, false, List, [], ◌∷◌, arith, replicate,
  length-replicate, add32, zero, suc,
}
use os_from_zero.SystemMonitor.{
  MemmapEntry, MemmapType, SystemMonitor, block_count, free_block, sysmon_init,
  sysmon_track_allocation, sysmon_track_deallocation, sysmon_get_free_memory,
}
use os_from_zero.SystemMonitor.Ledger.{tracked, IsLedger}
use os_from_zero.SystemMonitor.Reach.{MonitorStep, Monitored, Monitored-IsLedger, tracked-replicate}
use os_from_zero.SystemMonitor.Tracking.{IsUntracked, track-release}
use os_from_zero.SystemMonitor.Map.{usable_bytes, taken_bytes, sysmon_get_free_memory_lem}

abbrev off : SystemMonitor
off = record {
  initialized = false;
  total_memory = 0;
  kernel_memory_used = 0;
  actual_allocated_memory = 0;
  last_update_time = 0;
  total_allocations = 0;
  active_allocations = 0;
  peak_memory_usage = 0;
  memory_blocks = [];
}

-- 100 usable bytes, and 8 of the kernel.
abbrev kernel_part : MemmapEntry
kernel_part = record { type_of = MemmapType.executable_and_modules; size = 8 }

abbrev usable_part : List MemmapEntry
usable_part = record { type_of = MemmapType.usable; size = 100 } ∷ []

Monitored-IsLedger_example :
    IsLedger (sysmon_track_allocation 4096 16 (sysmon_init (kernel_part ∷ usable_part) off))
Monitored-IsLedger_example =
    Monitored-IsLedger (kernel_part ∷ usable_part) off
      (sysmon_track_allocation 4096 16 (sysmon_init (kernel_part ∷ usable_part) off)) refl
      (Monitored.next Monitored.ready (MonitorStep.allocate 4096 16 (omega arith)))

sysmon_get_free_memory_lem_example :
    (taken_bytes (kernel_part ∷ usable_part) ≤ usable_bytes (kernel_part ∷ usable_part)
      → (sysmon_get_free_memory (kernel_part ∷ usable_part) off).0
        ≡ usable_bytes (kernel_part ∷ usable_part) - taken_bytes (kernel_part ∷ usable_part))
    × (usable_bytes (kernel_part ∷ usable_part) < taken_bytes (kernel_part ∷ usable_part)
        → (sysmon_get_free_memory (kernel_part ∷ usable_part) off).0
          ≡ 2 ^ 64
            - (taken_bytes (kernel_part ∷ usable_part) - usable_bytes (kernel_part ∷ usable_part)))
sysmon_get_free_memory_lem_example =
    sysmon_get_free_memory_lem kernel_part usable_part off refl (omega arith) (omega arith)

-- 8 bytes of the kernel, and no block in use.
abbrev idle : SystemMonitor
idle = record {
  initialized = true;
  total_memory = 100;
  kernel_memory_used = 8;
  actual_allocated_memory = 8;
  last_update_time = 0;
  total_allocations = 1;
  active_allocations = 1;
  peak_memory_usage = 8;
  memory_blocks = replicate block_count free_block;
}

idle-IsLedger : IsLedger idle
idle-IsLedger =
    let (bytes, count, sound) = tracked-replicate block_count in
    record {
      room = length-replicate block_count free_block;
      sound = sound;
      bytes = omega (arith, bytes);
      active = omega (arith, count);
      on = refl;
    }

IsUntracked-replicate : (addr n : ℕ) → IsUntracked addr (replicate n free_block)
IsUntracked-replicate addr zero = tt
IsUntracked-replicate addr (suc n) = (λ e. cc, IsUntracked-replicate addr n)

abbrev block_address : ℕ
block_address = 4096

track-release_example :
    ((tracked idle.memory_blocks ≡ block_count)
      × (sysmon_track_allocation block_address 16 idle ≡ idle)
      × (sysmon_track_deallocation block_address idle ≡ idle))
    ⊎ ((tracked idle.memory_blocks < block_count)
        × (sysmon_track_deallocation block_address (sysmon_track_allocation block_address 16 idle)
            ≡ record idle { total_allocations = add32 idle.total_allocations 1 }))
track-release_example =
    track-release block_address 16 idle idle-IsLedger (omega arith)
      (IsUntracked-replicate block_address block_count)
