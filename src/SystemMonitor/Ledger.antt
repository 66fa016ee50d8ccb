-- ===== src/SystemMonitor/Ledger.antt =====
-- What the monitor counts is what it has tracked.
use os_from_zero.Base.{
  ℕ, suc, ◌+◌, ◌%◌, ◌^◌, ◌<◌, ◌≤◌, ◌≡◌, refl, ap, ◌∙◌, true, false, not, ◌&&◌, none, some, List, [],
  ◌∷◌, arith, ◌==◌, if◌then◌else◌, length, ◌⊎◌, if_true, if_false, Bool-cases, inl, inr,
}
use mathlib.Core.Option
use os_from_zero.SystemMonitor.{
  MemoryBlock, SystemMonitor, block_count, free_block, fill_block, free_up, sysmon_track_allocation,
  sysmon_track_deallocation,
}

-- The bytes of the blocks in use, and their number.
abbrev pub tracked_bytes : List MemoryBlock → ℕ
tracked_bytes [] = 0
tracked_bytes (b ∷ bs) = if b.is_free then tracked_bytes bs else b.size + tracked_bytes bs

abbrev pub tracked : List MemoryBlock → ℕ
tracked [] = 0
tracked (b ∷ bs) = if b.is_free then tracked bs else suc (tracked bs)

-- A size is a word, and a free slot is empty.
pub record IsSound (b : MemoryBlock) : Type 0 where
  pub word : b.size < 2 ^ 64
  pub empty : b.is_free ≡ true → b ≡ free_block

abbrev pub AllSound : List MemoryBlock → Type 0
AllSound [] = Unit {0}
AllSound (b ∷ bs) = IsSound b × AllSound bs

-- The bytes in use are the kernel's and those of the blocks in use; the allocations in use are the
-- kernel itself and those blocks.
pub record IsLedger (s : SystemMonitor) : Type 0 where
  pub room : length s.memory_blocks ≡ block_count
  pub sound : AllSound s.memory_blocks
  pub bytes :
      s.actual_allocated_memory ≡ (s.kernel_memory_used + tracked_bytes s.memory_blocks) % 2 ^ 64
  pub active : s.active_allocations ≡ 1 + tracked s.memory_blocks
  pub on : s.initialized ≡ true

pub tracked-bound : (bs : List MemoryBlock) → tracked bs ≤ length bs
tracked-bound [] = omega arith
tracked-bound (b ∷ bs) = ground (arith, tracked-bound bs)

pub record IsFilled (bs bs' : List MemoryBlock) (n : ℕ) : Type 0 where
  pub same : length bs' ≡ length bs
  pub bytes : tracked_bytes bs' ≡ tracked_bytes bs + n
  pub count : tracked bs' ≡ suc (tracked bs)
  pub sound : AllSound bs → n < 2 ^ 64 → AllSound bs'

-- A free slot is filled, or there is none.
pub fill_block-cases :
    (addr n : ℕ) (bs : List MemoryBlock)
    → (fill_block addr n bs ≡ none)
      ⊎ ((bs' : List MemoryBlock) × (fill_block addr n bs ≡ some bs') × IsFilled bs bs' n)
unfolding fill_block
fill_block-cases addr n [] = inl refl
fill_block-cases addr n (b ∷ bs) = elim (Bool-cases b.is_free) [
  | inl free ↦ inr (
    record { base_addr = addr; size = n; is_free = false } ∷ bs,
    if_true b.is_free _ _ free,
    record {
      same = refl;
      bytes = ground (arith, free);
      count = ground (arith, free);
      sound = λ w small. (record { word = small; empty = λ e. cc }, w.1);
    },
  )
  | inr used ↦ elim (fill_block-cases addr n bs) [
    | inl e ↦ inl (if_false b.is_free _ _ used ∙ ap (Option.map (λ t. b ∷ t)) e)
    | inr (bs', run, f) ↦ inr (
      b ∷ bs',
      if_false b.is_free _ _ used ∙ ap (Option.map (λ t. b ∷ t)) run,
      record {
        same = ap suc f.same;
        bytes = ground (arith, used, f.bytes);
        count = ground (arith, used, f.count);
        sound = λ w small. (w.0, f.sound w.1 small);
      },
    )
  ]
]

pub record IsFreed (bs bs' : List MemoryBlock) (n : ℕ) : Type 0 where
  pub same : length bs' ≡ length bs
  pub bytes : tracked_bytes bs ≡ tracked_bytes bs' + n
  pub count : tracked bs ≡ suc (tracked bs')
  pub sound : AllSound bs → AllSound bs' × (n < 2 ^ 64)

-- The block at the address is freed, or there is none.
pub free_up-cases :
    (addr : ℕ) (bs : List MemoryBlock)
    → (free_up addr bs ≡ none)
      ⊎ ((n : ℕ) × (bs' : List MemoryBlock) × (free_up addr bs ≡ some (n, bs')) × IsFreed bs bs' n)
unfolding free_up
free_up-cases addr [] = inl refl
free_up-cases addr (b ∷ bs) = elim (Bool-cases (not b.is_free && b.base_addr == addr)) [
  | inl here ↦ inr (
    b.size,
    free_block ∷ bs,
    if_true (not b.is_free && b.base_addr == addr) _ _ here,
    record {
      same = refl;
      bytes = ground (arith, here);
      count = ground (arith, here);
      sound = λ w. ((record { word = omega arith; empty = λ e. refl }, w.1), w.0.word);
    },
  )
  | inr there ↦ elim (free_up-cases addr bs) [
    | inl e ↦ inl (
        if_false (not b.is_free && b.base_addr == addr) _ _ there
        ∙ ap (Option.map (λ (n, t). (n, b ∷ t))) e)
    | inr (n, bs', run, f) ↦ inr (
      n,
      b ∷ bs',
      if_false (not b.is_free && b.base_addr == addr) _ _ there
          ∙ ap (Option.map (λ (n, t). (n, b ∷ t))) run,
      record {
        same = ap suc f.same;
        bytes = ground (arith, f.bytes);
        count = ground (arith, f.count);
        sound = λ w. ((w.0, (f.sound w.1).0), (f.sound w.1).1);
      },
    )
  ]
]

pub allocated :
    (s : SystemMonitor) (addr n : ℕ)
    → IsLedger s
    → n < 2 ^ 64
    → IsLedger (sysmon_track_allocation addr n s)
unfolding sysmon_track_allocation
allocated s addr n l small = elim (fill_block-cases addr n s.memory_blocks) [
  | inl e ↦ rw (l.on, e) l
  | inr (bs', run, f) ↦
      rw (l.on, run)
        (record {
          room = f.same ∙ l.room;
          sound = f.sound l.sound small;
          bytes = omega (arith, l.bytes, f.bytes);
          active = omega (arith, l.active, f.count, tracked-bound s.memory_blocks, l.room);
          on = l.on;
        })
]

pub deallocated :
    (s : SystemMonitor) (addr : ℕ) → IsLedger s → IsLedger (sysmon_track_deallocation addr s)
unfolding sysmon_track_deallocation
deallocated s addr l = elim (free_up-cases addr s.memory_blocks) [
  | inl e ↦ rw (l.on, e) l
  | inr (n, bs', run, f) ↦
      rw (l.on, run)
        (record {
          room = f.same ∙ l.room;
          sound = (f.sound l.sound).0;
          bytes = omega (arith, l.bytes, f.bytes, (f.sound l.sound).1);
          active = omega (arith, l.active, f.count, tracked-bound s.memory_blocks, l.room);
          on = l.on;
        })
]
