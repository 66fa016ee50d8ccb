-- ===== src/Decimal/Bound.antt =====
-- Which numbers a buffer of a given size takes.
use native.Mathlib.Nat.{pow-suc}
use os_from_zero.Base.{
  ℕ, zero, suc, ◌+◌, ◌/◌, ◌%◌, ◌^◌, ◌<◌, ◌≤◌, ◌≡◌, none, some, List, [], ◌∷◌, arith, length, ◌↔◌,
  ◌==◌, Bool-cases, inl, inr, ltb, ltb→lt,
}
use os_from_zero.Decimal.{digit_loop, print_number}

pub pow_ten_pos : (k : ℕ) → 0 < 10 ^ k
pow_ten_pos zero = omega arith
pow_ten_pos (suc k) = omega (arith, pow-suc 10 k, pow_ten_pos k)

pub digit_loop_fits :
    (room n : ℕ) (out : List ℕ)
    → n < 10 ^ room
    → (s : List ℕ) × (digit_loop room n out ≡ some s) × (length s ≤ room + length out)
unfolding digit_loop
digit_loop_fits zero n out h = (out, ground arith, omega arith)
digit_loop_fits (suc room) n out h = elim (Bool-cases (n == 0)) [
  | inl e ↦ (out, rw e, omega arith)
  | inr e ↦
      let (s, run, bound) =
        digit_loop_fits room (n / 10) ((b'0' + n % 10) ∷ out) (omega (arith, pow-suc 10 room)) in
      (s, rw e run, omega arith)
]

pub digit_loop_overflow : (room n : ℕ) (out : List ℕ) → 10 ^ room ≤ n → digit_loop room n out ≡ none
unfolding digit_loop
digit_loop_overflow zero n out h = ground arith
digit_loop_overflow (suc room) n out h = ground (
  arith,
  pow-suc 10 room,
  pow_ten_pos room,
  digit_loop_overflow room (n / 10) ((b'0' + n % 10) ∷ out),
)

pub print_number_fits :
    (size n : ℕ)
    → 0 < size
    → n < 10 ^ size
    → (s : List ℕ) × (print_number size n ≡ some s) × (length s ≤ size)
unfolding print_number
print_number_fits size n p h = elim (Bool-cases (n == 0)) [
  | inl e ↦ (b'0' ∷ [], rw e, omega arith)
  | inr e ↦ let (s, run, bound) = digit_loop_fits size n [] h in (s, rw e run, omega arith)
]

-- A buffer of `size` bytes overflows exactly when the number has more than `size` digits.
pub print_number-eq-none_iff :
    (size n : ℕ) → 0 < size → (print_number size n ≡ none) ↔ (10 ^ size ≤ n)
unfolding print_number
print_number-eq-none_iff size n p =
    (λ e. overflow e, λ h. ground (arith, digit_loop_overflow size n [] h, pow_ten_pos size))
  where
    overflow : print_number size n ≡ none → 10 ^ size ≤ n
    overflow e = elim (Bool-cases (ltb n (10 ^ size))) [
      | inl lt ↦ let (s, run, bound) = print_number_fits size n p (ltb→lt n (10 ^ size) lt) in cc
      | inr ge ↦ ground arith
    ]
