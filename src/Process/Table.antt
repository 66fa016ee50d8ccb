-- ===== src/Process/Table.antt =====
-- The process table keeps its length, and the process numbers in it stay distinct.
pub mod Preserve
use os_from_zero.Base.{
  ℕ, zero, suc, ◌+◌, ◌-◌, ◌%◌, ◌^◌, ◌<◌, ◌≤◌, ◌≡◌, ◌≢◌, refl, sym, ap, ◌∙◌, Bool, true, false, ◌&&◌,
  ◌||◌, Option, none, some, List, [], ◌∷◌, map, arith, ◌==◌, ltb, if◌then◌else◌, get_elem?, set,
  ◌>>=◌, ◌⊎◌, length, length-set, length-map, Bool-cases, inl, inr, >>=-eq-some, add32,
}
use os_from_zero.Base.Int.{ℤ, pos}
use os_from_zero.Process.{Process, ProcessSystem, max_processes, terminate_in}

abbrev pub pids : List Process → List ℕ
pids = map λ p. p.pid

-- The numbers of the entries that are in use are below the next one to be given out,
abbrev pub Below : ℕ → List ℕ → Type 0
Below n [] = Unit {0}
Below n (k ∷ ks) = (k < n) × Below n ks

-- and no two of them are equal.
abbrev pub NotIn : ℕ → List ℕ → Type 0
NotIn k [] = Unit {0}
NotIn k (j ∷ js) = (k ≢ 0 → k ≢ j) × NotIn k js

abbrev pub Distinct : List ℕ → Type 0
Distinct [] = Unit {0}
Distinct (k ∷ ks) = NotIn k ks × Distinct ks

pub record IsTable (s : ProcessSystem) : Type 0 where
  pub full_size : length s.processes ≡ max_processes
  pub positive : 0 < s.next_pid
  pub below : Below s.next_pid (pids s.processes)
  pub distinct : Distinct (pids s.processes)

pub Below-mono : {m n : ℕ} (ks : List ℕ) → m ≤ n → Below m ks → Below n ks
Below-mono [] h b = tt
Below-mono (k ∷ ks) h b = (omega arith, Below-mono ks h b.1)

-- Numbers below `n` differ from `n`, also with `n` put among them once.
NotIn-Below : (n : ℕ) (ks : List ℕ) → Below n ks → NotIn n ks
NotIn-Below n [] b = tt
NotIn-Below n (k ∷ ks) b = (λ _. omega arith, NotIn-Below n ks b.1)

NotIn-set : (k n : ℕ) (ks : List ℕ) (i : ℕ) → k < n → NotIn k ks → NotIn k (set ks i n)
NotIn-set k n [] i h d = tt
NotIn-set k n (j ∷ ks) zero h d = (λ _. omega arith, d.1)
NotIn-set k n (j ∷ ks) (suc i) h d = (d.0, NotIn-set k n ks i h d.1)

pub Distinct-set : (n : ℕ) (ks : List ℕ) (i : ℕ) → Below n ks → Distinct ks → Distinct (set ks i n)
Distinct-set n [] i b d = tt
Distinct-set n (k ∷ ks) zero b d = (NotIn-Below n ks b.1, d.1)
Distinct-set n (k ∷ ks) (suc i) b d = (NotIn-set k n ks i b.0 d.0, Distinct-set n ks i b.1 d.1)

pub Below-set : (n v : ℕ) (ks : List ℕ) (i : ℕ) → v < n → Below n ks → Below n (set ks i v)
Below-set n v [] i h b = tt
Below-set n v (k ∷ ks) zero h b = (h, b.1)
Below-set n v (k ∷ ks) (suc i) h b = (b.0, Below-set n v ks i h b.1)

pub pids-set : (ps : List Process) (i : ℕ) (p : Process) → pids (set ps i p) ≡ set (pids ps) i p.pid
pids-set [] i p = refl
pids-set (q ∷ ps) zero p = refl
pids-set (q ∷ ps) (suc i) p = ap (λ ks. q.pid ∷ ks) (pids-set ps i p)

-- Writing an entry with the number that stands there changes no number.
pub pids-set_same :
    (ps : List Process) (i : ℕ) (old p : Process)
    → get_elem? ps i ≡ some old
    → p.pid ≡ old.pid
    → pids (set ps i p) ≡ pids ps
pids-set_same [] i old p e h = refl
pids-set_same (q ∷ ps) zero old p e h = ground arith
pids-set_same (q ∷ ps) (suc i) old p e h = ap (λ ks. q.pid ∷ ks) (pids-set_same ps i old p e h)

pub pids-terminate_in : (ps : List Process) (pid c : ℤ) → pids (terminate_in ps pid c) ≡ pids ps
unfolding terminate_in
pids-terminate_in [] pid c = refl
pids-terminate_in (p ∷ ps) pid c = ground (arith, pids-terminate_in ps pid c)

pub length-terminate_in :
    (ps : List Process) (pid c : ℤ) → length (terminate_in ps pid c) ≡ length ps
unfolding terminate_in
length-terminate_in [] pid c = refl
length-terminate_in (p ∷ ps) pid c = ground (arith, length-terminate_in ps pid c)

pub NotIn-zero : (ks : List ℕ) → NotIn 0 ks
NotIn-zero [] = tt
NotIn-zero (k ∷ ks) = (λ ne. absurd (ne refl), NotIn-zero ks)

-- An operation that keeps each number, or frees the entry.
module _ (f : Process → Process)
    (keeps : (p : Process) → ((f p).pid ≡ p.pid) ⊎ ((f p).pid ≡ 0)) where
  NotIn-map : (k : ℕ) (ps : List Process) → NotIn k (pids ps) → NotIn k (pids (map f ps))
  NotIn-map k [] d = tt
  NotIn-map k (p ∷ ps) d = (λ ne. ground (arith, keeps p, d.0 ne), NotIn-map k ps d.1)

  pub Distinct-map : (ps : List Process) → Distinct (pids ps) → Distinct (pids (map f ps))
  Distinct-map [] d = tt
  Distinct-map (p ∷ ps) d = elim (keeps p) [
    | inl same ↦ (rw same (NotIn-map p.pid ps d.0), Distinct-map ps d.1)
    | inr freed ↦ (rw freed (NotIn-zero (pids (map f ps))), Distinct-map ps d.1)
  ]

  pub Below-map :
      (n : ℕ) (ps : List Process) → 0 < n → Below n (pids ps) → Below n (pids (map f ps))
  Below-map n [] h b = tt
  Below-map n (p ∷ ps) h b = (ground (arith, keeps p), Below-map n ps h b.1)
