-- ===== src/SystemMonitor/Reach.antt =====
-- The states that the monitor reaches.
use mathlib.Core.Path.{subst}
use os_from_zero.Base.{
  ℕ, zero, suc, ◌^◌, ◌<◌, ◌≡◌, ◌⊎◌, refl, ap, sym, ◌∙◌, true, false, List, [], ◌∷◌, arith, length,
  replicate, inl, inr, length-replicate, add64, if_true,
}
use os_from_zero.SystemMonitor.{
  MemmapEntry, MemmapType, SystemMonitor, block_count, free_block, count_entry, count_entries,
  count_memory, sysmon_init, sysmon_update, sysmon_track_allocation, sysmon_track_deallocation,
}
use os_from_zero.SystemMonitor.Ledger.{
  tracked_bytes, tracked, AllSound, IsLedger, allocated, deallocated,
}

pub tracked-replicate :
    (n : ℕ)
    → (tracked_bytes (replicate n free_block) ≡ 0)
      × (tracked (replicate n free_block) ≡ 0)
      × AllSound (replicate n free_block)
tracked-replicate zero = (refl, refl, tt)
tracked-replicate (suc n) =
    let (bytes, count, sound) = tracked-replicate n in
    (bytes, count, (record { word = omega arith; empty = λ e. refl }, sound))

-- While the map is counted.
record IsCounted (s : SystemMonitor) : Type 0 where
  pub same : s.actual_allocated_memory ≡ s.kernel_memory_used
  pub small : s.kernel_memory_used < 2 ^ 64
  pub blocks : s.memory_blocks ≡ replicate block_count free_block

count_kernel :
    (n : ℕ) (s : SystemMonitor)
    → IsCounted s
    → IsCounted (record s {
      kernel_memory_used = add64 s.kernel_memory_used n;
      actual_allocated_memory = add64 s.actual_allocated_memory n;
    })
count_kernel n s c = record {
  same = ap (λ k. add64 k n) c.same;
  small = omega arith;
  blocks = c.blocks;
}

count_type :
    (t : MemmapType) (n : ℕ) (s : SystemMonitor)
    → IsCounted s
    → IsCounted (count_entry (record { type_of = t; size = n }) s)
unfolding count_entry
count_type MemmapType.usable n s c = record { same = c.same; small = c.small; blocks = c.blocks }
count_type MemmapType.executable_and_modules n s c = count_kernel n s c
count_type MemmapType.bootloader_reclaimable n s c = count_kernel n s c
count_type MemmapType.other n s c = c

count_entry-IsCounted :
    (e : MemmapEntry) (s : SystemMonitor) → IsCounted s → IsCounted (count_entry e s)
count_entry-IsCounted e s c = count_type e.type_of e.size s c

count_entries-IsCounted :
    (es : List MemmapEntry) (s : SystemMonitor) → IsCounted s → IsCounted (count_entries es s)
unfolding count_entries
count_entries-IsCounted [] s c = c
count_entries-IsCounted (e ∷ es) s c =
    count_entries-IsCounted es (count_entry e s) (count_entry-IsCounted e s c)

count_memory-IsCounted :
    (es : List MemmapEntry) (s : SystemMonitor) → IsCounted s → IsCounted (count_memory es s)
unfolding count_memory
count_memory-IsCounted [] s c = record { same = refl; small = omega arith; blocks = c.blocks }
count_memory-IsCounted (e ∷ es) s c = count_entries-IsCounted (e ∷ es) s c

IsCounted-IsLedger :
    (s : SystemMonitor)
    → IsCounted s
    → IsLedger (record s {
      total_allocations = 1;
      active_allocations = 1;
      peak_memory_usage = s.actual_allocated_memory;
      initialized = true;
    })
IsCounted-IsLedger s c =
    let (bytes, count, sound) = tracked-replicate block_count in
    record {
      room = ap length c.blocks ∙ length-replicate block_count free_block;
      sound = subst AllSound (sym c.blocks) sound;
      bytes = omega (arith, c.same, c.small, ap tracked_bytes c.blocks, bytes);
      active = omega (arith, ap tracked c.blocks, count);
      on = refl;
    }

sysmon_init-IsLedger :
    (es : List MemmapEntry) (s : SystemMonitor)
    → (s.initialized ≡ false) ⊎ IsLedger s
    → IsLedger (sysmon_init es s)
unfolding sysmon_init
sysmon_init-IsLedger es s (inl off) = rw off (
    IsCounted-IsLedger _
      (count_memory-IsCounted es _ (record { same = refl; small = omega arith; blocks = refl })))
sysmon_init-IsLedger es s (inr l) = subst IsLedger (sym (if_true s.initialized _ _ l.on)) l

-- What is done to the monitor: a block is tracked, or no longer, or the monitor is updated.
pub data MonitorStep (s : SystemMonitor) : SystemMonitor → Type 0 where
  allocate :
      (addr bytes : ℕ) → bytes < 2 ^ 64 → MonitorStep s (sysmon_track_allocation addr bytes s)
  deallocate : (addr : ℕ) → MonitorStep s (sysmon_track_deallocation addr s)
  update : (entries : List MemmapEntry) → MonitorStep s (sysmon_update entries s)

-- The states after sysmon_init and any number of steps.
pub data Monitored (entries : List MemmapEntry) (start : SystemMonitor)
    : SystemMonitor → Type 0 where
  ready : Monitored entries start (sysmon_init entries start)
  next :
      {s s' : SystemMonitor}
      → Monitored entries start s
      → MonitorStep s s'
      → Monitored entries start s'

sysmon_update-IsLedger :
    (es : List MemmapEntry) (s : SystemMonitor) → IsLedger s → IsLedger (sysmon_update es s)
unfolding sysmon_update
sysmon_update-IsLedger es s l =
    let l' = sysmon_init-IsLedger es s (inr l) in
    record { room = l'.room; sound = l'.sound; bytes = l'.bytes; active = l'.active; on = l'.on }

-- After sysmon_init, whatever blocks are tracked and released and however often the monitor is
-- updated: the memory in use is the kernel's and that of the blocks that are tracked, modulo
-- 2 ^ 64, and the active allocations are one for the kernel and one for each of these blocks.
pub Monitored-IsLedger :
    (entries : List MemmapEntry) (start s : SystemMonitor)
    → start.initialized ≡ false
    → Monitored entries start s
    → IsLedger s
Monitored-IsLedger entries start s off ready = sysmon_init-IsLedger entries start (inl off)
Monitored-IsLedger entries start s off (next m step) =
    kept (Monitored-IsLedger entries start _ off m) step
  where
    kept : {s s' : SystemMonitor} → IsLedger s → MonitorStep s s' → IsLedger s'
    kept {s} l (allocate addr bytes small) = allocated s addr bytes l small
    kept {s} l (deallocate addr) = deallocated s addr l
    kept {s} l (update es) = sysmon_update-IsLedger es s l
