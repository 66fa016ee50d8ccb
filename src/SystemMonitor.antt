-- ===== src/SystemMonitor.antt =====
-- kernel/src/system_monitor.c and system_monitor.h: the memory that is counted and the allocations
-- that are tracked. The samples of the processor's use and the percentages are floating-point
-- numbers, and are left out. The memory map of the boot loader is an argument.
mod Tests
pub mod Ledger
pub mod Reach
pub mod Tracking
pub mod Map
pub mod Format
use os_from_zero.Base.{
  ℕ, zero, suc, ◌+◌, ◌-◌, ◌*◌, ◌/◌, ◌^◌, ◌&&◌, Bool, true, false, not, Option, none, some, List, [],
  ◌∷◌, ◌++◌, ◌==◌, ltb, if◌then◌else◌, length, take, replicate, add32, add64, sub64, codes, ◌>>=◌,
}
use os_from_zero.Decimal.{print_number}
use mathlib.Core.Option

-- An entry of memory_blocks.
pub record MemoryBlock : Type 0 where
  pub base_addr : ℕ
  pub size : ℕ
  pub is_free : Bool

-- The kinds of memory that the loop tells apart.
pub data MemmapType : Type 0 where
  usable executable_and_modules bootloader_reclaimable other : MemmapType

-- struct limine_memmap_entry
pub record MemmapEntry : Type 0 where
  pub type_of : MemmapType
  pub size : ℕ

-- sysmon_state, without what is sampled of the processor, and memory_blocks.
pub record SystemMonitor : Type 0 where
  pub initialized : Bool
  pub total_memory : ℕ
  pub kernel_memory_used : ℕ
  pub actual_allocated_memory : ℕ
  pub last_update_time : ℕ
  pub total_allocations : ℕ
  pub active_allocations : ℕ
  pub peak_memory_usage : ℕ
  pub memory_blocks : List MemoryBlock

abbrev pub block_count : ℕ
block_count = 1024

abbrev pub free_block : MemoryBlock
free_block = record { base_addr = 0; size = 0; is_free = true }

-- One entry of the memory map.
unfoldable pub count_entry : MemmapEntry → SystemMonitor → SystemMonitor
count_entry e s = elim e.type_of [
  | usable ↦ record s { total_memory = add64 s.total_memory e.size }
  | executable_and_modules ↦ record s {
    kernel_memory_used = add64 s.kernel_memory_used e.size;
    actual_allocated_memory = add64 s.actual_allocated_memory e.size;
  }
  | bootloader_reclaimable ↦ record s {
    kernel_memory_used = add64 s.kernel_memory_used e.size;
    actual_allocated_memory = add64 s.actual_allocated_memory e.size;
  }
  | other ↦ s
]

unfoldable pub count_entries : List MemmapEntry → SystemMonitor → SystemMonitor
unfolding count_entry
count_entries [] s = s
count_entries (e ∷ es) s = count_entries es (count_entry e s)

-- The memory is counted, or assumed if the boot loader gives no map.
unfoldable pub count_memory : List MemmapEntry → SystemMonitor → SystemMonitor
unfolding count_entries
count_memory [] s = record s {
  total_memory = 128 * 1024 * 1024;
  kernel_memory_used = 4 * 1024 * 1024;
  actual_allocated_memory = 4 * 1024 * 1024;
}
count_memory (e ∷ es) s = count_entries (e ∷ es) s

-- An empty map stands for no answer of the boot loader, too.
unfoldable pub sysmon_init : List MemmapEntry → SystemMonitor → SystemMonitor
unfolding count_memory
sysmon_init entries s =
    if s.initialized
    then s
    else (let counted = count_memory entries (record s {
      total_memory = 0;
      kernel_memory_used = 0;
      actual_allocated_memory = 0;
      memory_blocks = replicate block_count free_block;
    }) in
        record counted {
          total_allocations = 1;
          active_allocations = 1;
          peak_memory_usage = counted.actual_allocated_memory;
          initialized = true;
        })

-- Without the sample of the processor.
unfoldable pub sysmon_update : List MemmapEntry → SystemMonitor → SystemMonitor
unfolding sysmon_init
sysmon_update entries s =
    let s' = sysmon_init entries s in
    record s' {
      peak_memory_usage =
          if ltb s'.peak_memory_usage s'.actual_allocated_memory
          then s'.actual_allocated_memory
          else s'.peak_memory_usage;
      last_update_time = add64 s'.last_update_time 1;
    }

-- memory_info_t, without the percentage; buffer_memory and cache_memory are 0.
pub record MemoryInfo : Type 0 where
  pub total_memory : ℕ
  pub used_memory : ℕ
  pub free_memory : ℕ

unfoldable pub sysmon_get_memory_info : SystemMonitor → Option MemoryInfo
sysmon_get_memory_info s =
    if s.initialized
    then some (record {
      total_memory = s.total_memory;
      used_memory = s.actual_allocated_memory;
      free_memory = sub64 s.total_memory s.actual_allocated_memory;
    })
    else none

-- The three queries initialise first.
abbrev pub sysmon_get_total_memory : List MemmapEntry → SystemMonitor → ℕ × SystemMonitor
sysmon_get_total_memory entries s = let s' = sysmon_init entries s in (s'.total_memory, s')

abbrev pub sysmon_get_used_memory : List MemmapEntry → SystemMonitor → ℕ × SystemMonitor
sysmon_get_used_memory entries s =
    let s' = sysmon_init entries s in (s'.actual_allocated_memory, s')

abbrev pub sysmon_get_free_memory : List MemmapEntry → SystemMonitor → ℕ × SystemMonitor
sysmon_get_free_memory entries s =
    let s' = sysmon_init entries s in (sub64 s'.total_memory s'.actual_allocated_memory, s')

-- The first free slot takes the block; `none` if there is none.
unfoldable pub fill_block : ℕ → ℕ → List MemoryBlock → Option (List MemoryBlock)
fill_block addr bytes [] = none
fill_block addr bytes (b ∷ bs) =
    let rest = Option.map (λ t. b ∷ t) (fill_block addr bytes bs) in
    if b.is_free
    then some (record { base_addr = addr; size = bytes; is_free = false } ∷ bs)
    else rest

-- The first block in use at the address is freed; its size, and the blocks.
unfoldable pub free_up : ℕ → List MemoryBlock → Option (ℕ × List MemoryBlock)
free_up addr [] = none
free_up addr (b ∷ bs) =
    let rest = Option.map (λ (n, t). (n, b ∷ t)) (free_up addr bs) in
    if not b.is_free && b.base_addr == addr then some (b.size, free_block ∷ bs) else rest

unfoldable pub sysmon_track_allocation : ℕ → ℕ → SystemMonitor → SystemMonitor
unfolding fill_block
sysmon_track_allocation addr bytes s =
    if s.initialized
    then elim (fill_block addr bytes s.memory_blocks) [
      | none ↦ s
      | some blocks ↦ record s {
        memory_blocks = blocks;
        actual_allocated_memory = add64 s.actual_allocated_memory bytes;
        total_allocations = add32 s.total_allocations 1;
        active_allocations = add32 s.active_allocations 1;
      }
    ]
    else s

unfoldable pub sysmon_track_deallocation : ℕ → SystemMonitor → SystemMonitor
unfolding free_up
sysmon_track_deallocation addr s =
    if s.initialized
    then elim (free_up addr s.memory_blocks) [
      | none ↦ s
      | some (bytes, blocks) ↦ record s {
        memory_blocks = blocks;
        actual_allocated_memory = sub64 s.actual_allocated_memory bytes;
        active_allocations = add32 s.active_allocations (2 ^ 32 - 1);
      }
    ]
    else s

-- The numbers that are stored through the pointers; `none` if nothing is stored.
abbrev pub sysmon_get_allocation_stats : SystemMonitor → Option (ℕ × ℕ × ℕ)
sysmon_get_allocation_stats s =
    if s.initialized
    then some (s.total_allocations, s.active_allocations, s.peak_memory_usage)
    else none
