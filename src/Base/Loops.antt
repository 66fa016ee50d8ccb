-- ===== src/Base/Loops.antt =====
-- Counted loops whose body may fault.
use Prim.Native.Nat.{ℕ, zero, suc, ◌+◌, ◌<◌, ◌≤◌}
use mathlib.Core.Path.{◌≡◌, refl, subst}
use mathlib.Core.Option.{Option, none, some}
use native.Mathlib.Omega.{arith}
use native.Mathlib.Decide.{ℕ_discrete}

-- `for (i = from; i < from + rounds; i++)`.
unfoldable pub for_up {ℓ} : {S : Type ℓ} → ℕ → ℕ → (ℕ → S → Option S) → S → Option S
for_up zero i body s = some s
for_up (suc rounds) i body s = elim (body i s) [
  | none ↦ none
  | some s' ↦ for_up rounds (i + 1) body s'
]

-- A body that never faults and keeps `P`, at every index of the loop.
pub for_up_inv {ℓ κ} :
    {S : Type ℓ} (P : S → Type κ) (rounds from : ℕ) (body : ℕ → S → Option S) (s : S)
    → ((i : ℕ) (t : S)
        → from ≤ i
        → i < from + rounds
        → P t
        → (t' : S) × (body i t ≡ some t') × P t')
    → P s
    → (s' : S) × (for_up rounds from body s ≡ some s') × P s'
unfolding for_up
for_up_inv P zero from body s keep h = (s, refl, h)
for_up_inv P (suc rounds) from body s keep h =
    let (t, run, kept) = keep from s (omega arith) (omega arith) h in
    let (s', more, done) =
      for_up_inv P rounds (from + 1) body t (λ i u ge lt. keep i u (omega arith) (omega arith))
        kept in
    (s', rw (run, for_up) more, done)

-- The same for a body that does not fault.
unfoldable pub fold_up {ℓ} : {S : Type ℓ} → ℕ → ℕ → (ℕ → S → S) → S → S
fold_up zero i body s = s
fold_up (suc rounds) i body s = fold_up rounds (i + 1) body (body i s)

pub fold_up_inv {ℓ κ} :
    {S : Type ℓ} (P : S → Type κ) (rounds from : ℕ) (body : ℕ → S → S) (s : S)
    → ((i : ℕ) (t : S) → P t → P (body i t))
    → P s
    → P (fold_up rounds from body s)
unfolding fold_up
fold_up_inv P zero from body s keep h = h
fold_up_inv P (suc rounds) from body s keep h =
    fold_up_inv P rounds (from + 1) body (body from s) keep (keep from s h)

-- What the body establishes at one index of the loop, and keeps at the others, holds at its end.
pub fold_up_reaches {ℓ κ} :
    {S : Type ℓ} (P : S → Type κ) (rounds from k : ℕ) (body : ℕ → S → S) (s : S)
    → from ≤ k
    → k < from + rounds
    → ((t : S) → P (body k t))
    → ((i : ℕ) (t : S) → P t → P (body i t))
    → P (fold_up rounds from body s)
unfolding fold_up
fold_up_reaches P zero from k body s ge lt here keep = absurd (omega arith)
fold_up_reaches P (suc rounds) from k body s ge lt here keep = elim (ℕ_discrete k from) [
  | yes e ↦
      fold_up_inv P rounds (from + 1) body (body from s) keep (subst (λ i. P (body i s)) e (here s))
  | no ne ↦
      fold_up_reaches P rounds (from + 1) k body (body from s) (omega arith) (omega arith) here keep
]
