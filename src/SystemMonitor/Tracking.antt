-- ===== src/SystemMonitor/Tracking.antt =====
-- A block that is tracked and then released.
use os_from_zero.Base.{
  ℕ, ◌-◌, ◌^◌, ◌<◌, ◌≡◌, ◌≢◌, ◌⊎◌, refl, ap, sym, ◌∙◌, true, false, not, ◌&&◌, none, some, List, [],
  ◌∷◌, arith, ◌==◌, length, Bool-cases, inl, inr, if_true, if_false, add32, add64, sub64,
}
use mathlib.Core.Option
use os_from_zero.SystemMonitor.{
  MemoryBlock, SystemMonitor, block_count, fill_block, free_up, sysmon_track_allocation,
  sysmon_track_deallocation,
}
use os_from_zero.SystemMonitor.Ledger.{tracked, tracked-bound, AllSound, IsLedger}

-- No block in use is at the address.
abbrev pub IsUntracked : ℕ → List MemoryBlock → Type 0
IsUntracked addr [] = Unit {0}
IsUntracked addr (b ∷ bs) = (b.is_free ≡ false → b.base_addr ≢ addr) × IsUntracked addr bs

elsewhere :
    (addr : ℕ) (b : MemoryBlock)
    → (b.is_free ≡ false → b.base_addr ≢ addr)
    → (not b.is_free && b.base_addr == addr) ≡ false
elsewhere addr b h = elim (Bool-cases b.is_free) [
  | inl free ↦ ground (arith, free)
  | inr used ↦ ground (arith, used, h used)
]

free_up-none : (addr : ℕ) (bs : List MemoryBlock) → IsUntracked addr bs → free_up addr bs ≡ none
unfolding free_up
free_up-none addr [] h = refl
free_up-none addr (b ∷ bs) h =
    if_false (not b.is_free && b.base_addr == addr) _ _ (elsewhere addr b h.0)
    ∙ ap (Option.map (λ (n, t). (n, b ∷ t))) (free_up-none addr bs h.1)

filled_freed :
    (addr n : ℕ) (bs : List MemoryBlock)
    → AllSound bs
    → IsUntracked addr bs
    → ((fill_block addr n bs ≡ none) × (tracked bs ≡ length bs))
      ⊎ ((bs' : List MemoryBlock) × (fill_block addr n bs ≡ some bs')
          × (free_up addr bs' ≡ some (n, bs))
          × (tracked bs < length bs))
unfolding fill_block free_up
filled_freed addr n [] w h = inl (refl, refl)
filled_freed addr n (b ∷ bs) w h = elim (Bool-cases b.is_free) [
  | inl free ↦ inr (
    record { base_addr = addr; size = n; is_free = false } ∷ bs,
    if_true b.is_free _ _ free,
    if_true (addr == addr) _ _ (ground arith) ∙ ap (λ c. some (n, c ∷ bs)) (sym (w.0.empty free)),
    ground (arith, free, tracked-bound bs),
  )
  | inr used ↦ elim (filled_freed addr n bs w.1 h.1) [
    | inl (e, count) ↦
        inl (
          if_false b.is_free _ _ used ∙ ap (Option.map (λ t. b ∷ t)) e,
          ground (arith, used, count),
        )
    | inr (bs', run, freed, room) ↦ inr (
      b ∷ bs',
      if_false b.is_free _ _ used ∙ ap (Option.map (λ t. b ∷ t)) run,
      if_false (not b.is_free && b.base_addr == addr) _ _ (elsewhere addr b h.0)
          ∙ ap (Option.map (λ (n, t). (n, b ∷ t))) freed,
      ground (arith, used, room),
    )
  ]
]

back64 : (a n : ℕ) → a < 2 ^ 64 → n < 2 ^ 64 → sub64 (add64 a n) n ≡ a
back64 a n p q = omega arith

back32 : (a : ℕ) → a < 2 ^ 32 → add32 (add32 a 1) (2 ^ 32 - 1) ≡ a
back32 a p = omega arith

module _ (addr n : ℕ) (s : SystemMonitor) (on : s.initialized ≡ true) where
  allocation_full : fill_block addr n s.memory_blocks ≡ none → sysmon_track_allocation addr n s ≡ s
  unfolding sysmon_track_allocation
  allocation_full e = if_true s.initialized _ _ on ∙ rw e

  abbrev with_block : List MemoryBlock → SystemMonitor
  with_block blocks = record s {
    memory_blocks = blocks;
    actual_allocated_memory = add64 s.actual_allocated_memory n;
    total_allocations = add32 s.total_allocations 1;
    active_allocations = add32 s.active_allocations 1;
  }

  allocation_done :
      (bs' : List MemoryBlock)
      → fill_block addr n s.memory_blocks ≡ some bs'
      → sysmon_track_allocation addr n s ≡ with_block bs'
  unfolding sysmon_track_allocation
  allocation_done bs' e = if_true s.initialized _ _ on ∙ rw e

  deallocation_none : free_up addr s.memory_blocks ≡ none → sysmon_track_deallocation addr s ≡ s
  unfolding sysmon_track_deallocation
  deallocation_none e = if_true s.initialized _ _ on ∙ rw e

  abbrev without_block : List MemoryBlock → SystemMonitor
  without_block blocks = record s {
    memory_blocks = blocks;
    actual_allocated_memory = sub64 s.actual_allocated_memory n;
    active_allocations = add32 s.active_allocations (2 ^ 32 - 1);
  }

  deallocation_done :
      (bs' : List MemoryBlock)
      → free_up addr s.memory_blocks ≡ some (n, bs')
      → sysmon_track_deallocation addr s ≡ without_block bs'
  unfolding sysmon_track_deallocation
  deallocation_done bs' e = if_true s.initialized _ _ on ∙ rw e

  restored :
      (bs' : List MemoryBlock)
      → s.actual_allocated_memory < 2 ^ 64
      → s.active_allocations < 2 ^ 32
      → n < 2 ^ 64
      → record (with_block bs') {
        memory_blocks = s.memory_blocks;
        actual_allocated_memory = sub64 (add64 s.actual_allocated_memory n) n;
        active_allocations = add32 (add32 s.active_allocations 1) (2 ^ 32 - 1);
      }
        ≡ record s { total_allocations = add32 s.total_allocations 1 }
  restored bs' p q r = rw (back64 s.actual_allocated_memory n p r, back32 s.active_allocations q)

-- While the monitor counts what it has tracked, a block of fewer than 2 ^ 64 bytes is tracked at an
-- address where none is, and then released. If the table is full, neither call changes anything.
-- Otherwise, after both, the blocks, the bytes in use and the active allocations are as before, and
-- the total number of allocations is one more.
pub track-release :
    (addr n : ℕ) (s : SystemMonitor)
    → IsLedger s
    → n < 2 ^ 64
    → IsUntracked addr s.memory_blocks
    → ((tracked s.memory_blocks ≡ block_count)
        × (sysmon_track_allocation addr n s ≡ s)
        × (sysmon_track_deallocation addr s ≡ s))
      ⊎ ((tracked s.memory_blocks < block_count)
          × (sysmon_track_deallocation addr (sysmon_track_allocation addr n s)
              ≡ record s { total_allocations = add32 s.total_allocations 1 }))
track-release addr n s l small h = elim (filled_freed addr n s.memory_blocks l.sound h) [
  | inl (e, count) ↦ inl (
    count ∙ l.room,
    allocation_full addr n s l.on e,
    deallocation_none addr n s l.on (free_up-none addr s.memory_blocks h),
  )
  | inr (bs', run, freed, room) ↦
      let bound = tracked-bound s.memory_blocks in
      inr (
        omega (arith, room, l.room),
        ap (sysmon_track_deallocation addr) (allocation_done addr n s l.on bs' run)
            ∙ (deallocation_done addr n (with_block addr n s l.on bs') l.on s.memory_blocks freed
                ∙ restored addr n s l.on bs' (omega (arith, l.bytes))
                    (omega (arith, l.active, bound, l.room)) small),
      )
]
