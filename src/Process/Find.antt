-- ===== src/Process/Find.antt =====
-- What the searches through the process table find.
use os_from_zero.Base.Int.{pos}
use os_from_zero.Process.{Process, find_index, has_pid}
use os_from_zero.Base.{
  ℕ, zero, suc, ◌+◌, ◌^◌, ◌<◌, ◌≡◌, refl, Bool, true, false, none, some, List, [], ◌∷◌, arith,
  get_elem?, set, Bool-cases, inl, inr,
}
use os_from_zero.Process.Table.{pids, Below}

abbrev pub AllFail : (Process → Bool) → List Process → Type 0
AllFail test [] = Unit {0}
AllFail test (p ∷ ps) = (test p ≡ false) × AllFail test ps

pub find_index_hit :
    (test : Process → Bool) (ps : List Process) (i j : ℕ)
    → find_index test ps i ≡ some j
    → (k : ℕ) × (p : Process) × (j ≡ i + k) × (get_elem? ps k ≡ some p) × (test p ≡ true)
unfolding find_index
find_index_hit test [] i j h = cc
find_index_hit test (p ∷ ps) i j h = elim (Bool-cases (test p)) [
  | inl e ↦ (0, p, ground arith, refl, e)
  | inr e ↦
      let (k, q, at, found, hit) = find_index_hit test ps (i + 1) j (rw e at h) in
      (suc k, q, omega arith, found, hit)
]

pub find_index_miss :
    (test : Process → Bool) (ps : List Process) (i : ℕ)
    → find_index test ps i ≡ none
    → AllFail test ps
unfolding find_index
find_index_miss test [] i h = tt
find_index_miss test (p ∷ ps) i h = elim (Bool-cases (test p)) [
  | inl e ↦ absurd (ground arith)
  | inr e ↦ (e, find_index_miss test ps (i + 1) (rw e at h))
]

pub find_index-none :
    (test : Process → Bool) (ps : List Process) (i : ℕ)
    → AllFail test ps
    → find_index test ps i ≡ none
unfolding find_index
find_index-none test [] i h = refl
find_index-none test (p ∷ ps) i h = rw h.0 (find_index-none test ps (i + 1) h.1)

-- A number above all others is found where it is written.
pub find_index-set :
    (ps : List Process) (n slot i : ℕ) (p old : Process)
    → n < 2 ^ 32
    → Below n (pids ps)
    → p.pid ≡ n
    → get_elem? ps slot ≡ some old
    → find_index (has_pid (pos n)) (set ps slot p) i ≡ some (i + slot)
unfolding find_index
find_index-set [] n slot i p old small b e h = cc
find_index-set (q ∷ ps) n zero i p old small b e h = ground arith
find_index-set (q ∷ ps) n (suc slot) i p old small b e h =
    ground (arith, find_index-set ps n slot (i + 1) p old small b.1 e h)
