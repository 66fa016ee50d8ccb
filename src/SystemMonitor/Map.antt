-- ===== src/SystemMonitor/Map.antt =====
-- What sysmon_init counts in the memory map.
use os_from_zero.Base.{
  ℕ, ◌+◌, ◌-◌, ◌%◌, ◌^◌, ◌<◌, ◌≤◌, ◌≡◌, refl, ap, ◌∙◌, true, false, List, [], ◌∷◌, arith, replicate,
  if_false,
}
use os_from_zero.SystemMonitor.{
  block_count, free_block, MemmapEntry, MemmapType, SystemMonitor, count_entry, count_entries,
  count_memory, sysmon_init, sysmon_get_free_memory,
}

-- The sizes of the entries of a kind.
abbrev pub usable_size : MemmapType → ℕ → ℕ
usable_size MemmapType.usable n = n
usable_size MemmapType.executable_and_modules n = 0
usable_size MemmapType.bootloader_reclaimable n = 0
usable_size MemmapType.other n = 0

abbrev pub taken_size : MemmapType → ℕ → ℕ
taken_size MemmapType.usable n = 0
taken_size MemmapType.executable_and_modules n = n
taken_size MemmapType.bootloader_reclaimable n = n
taken_size MemmapType.other n = 0

abbrev pub usable_bytes : List MemmapEntry → ℕ
usable_bytes [] = 0
usable_bytes (e ∷ es) = usable_size e.type_of e.size + usable_bytes es

abbrev pub taken_bytes : List MemmapEntry → ℕ
taken_bytes [] = 0
taken_bytes (e ∷ es) = taken_size e.type_of e.size + taken_bytes es

record Counted (s s' : SystemMonitor) (free taken : ℕ) : Type 0 where
  pub total : s'.total_memory ≡ (s.total_memory + free) % 2 ^ 64
  pub used : s'.actual_allocated_memory ≡ (s.actual_allocated_memory + taken) % 2 ^ 64

count_type :
    (t : MemmapType) (n : ℕ) (s : SystemMonitor)
    → s.total_memory < 2 ^ 64
    → s.actual_allocated_memory < 2 ^ 64
    → Counted s
        (count_entry (record { type_of = t; size = n }) s)
        (usable_size t n)
        (taken_size t n)
unfolding count_entry
count_type MemmapType.usable n s p q = record { total = refl; used = omega (arith, q) }
count_type MemmapType.executable_and_modules n s p q = record {
  total = omega (arith, p);
  used = refl;
}
count_type MemmapType.bootloader_reclaimable n s p q = record {
  total = omega (arith, p);
  used = refl;
}
count_type MemmapType.other n s p q = record { total = omega (arith, p); used = omega (arith, q) }

count_entries_lem :
    (es : List MemmapEntry) (s : SystemMonitor)
    → s.total_memory < 2 ^ 64
    → s.actual_allocated_memory < 2 ^ 64
    → Counted s (count_entries es s) (usable_bytes es) (taken_bytes es)
unfolding count_entries
count_entries_lem [] s p q = record { total = omega (arith, p); used = omega (arith, q) }
count_entries_lem (e ∷ es) s p q =
    let one = count_type e.type_of e.size s p q in
    let rest =
      count_entries_lem es (count_entry e s) (omega (arith, one.total)) (omega (arith, one.used)) in
    record {
      total = omega (arith, one.total, rest.total);
      used = omega (arith, one.used, rest.used);
    }

abbrev cleared : SystemMonitor → SystemMonitor
cleared s = record s {
  total_memory = 0;
  kernel_memory_used = 0;
  actual_allocated_memory = 0;
  memory_blocks = replicate block_count free_block;
}

abbrev begun : SystemMonitor → SystemMonitor
begun counted = record counted {
  total_allocations = 1;
  active_allocations = 1;
  peak_memory_usage = counted.actual_allocated_memory;
  initialized = true;
}

-- The first query of the free memory, on a map with entries whose sizes add up to less than
-- 2 ^ 64: it is the usable memory less that of the kernel, its modules and the boot loader. As the
-- usable memory does not include theirs, the difference may fall below 0, and then it wraps.
pub sysmon_get_free_memory_lem :
    (e : MemmapEntry) (es : List MemmapEntry) (s : SystemMonitor)
    → s.initialized ≡ false
    → usable_bytes (e ∷ es) < 2 ^ 64
    → taken_bytes (e ∷ es) < 2 ^ 64
    → (taken_bytes (e ∷ es) ≤ usable_bytes (e ∷ es)
        → (sysmon_get_free_memory (e ∷ es) s).0 ≡ usable_bytes (e ∷ es) - taken_bytes (e ∷ es))
      × (usable_bytes (e ∷ es) < taken_bytes (e ∷ es)
          → (sysmon_get_free_memory (e ∷ es) s).0
            ≡ 2 ^ 64 - (taken_bytes (e ∷ es) - usable_bytes (e ∷ es)))
unfolding sysmon_init count_memory
sysmon_get_free_memory_lem e es s off few less =
    let c = count_entries_lem (e ∷ es) (cleared s) (omega arith) (omega arith) in
    let start : sysmon_init (e ∷ es) s ≡ begun (count_entries (e ∷ es) (cleared s)) =
      if_false s.initialized _ _ off in
    let total = ap (λ (t : SystemMonitor). t.total_memory) start ∙ c.total in
    let used = ap (λ (t : SystemMonitor). t.actual_allocated_memory) start ∙ c.used in
    (
      λ le. omega (arith, total, used, few, less, le),
      λ lt. omega (arith, total, used, few, less, lt),
    )
