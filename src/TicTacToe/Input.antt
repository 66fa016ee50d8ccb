-- ===== src/TicTacToe/Input.antt =====
-- Numbers of few digits do not overflow.
use native.Mathlib.Nat.{mul-le-mul_right, mul_assoc, pow-succ', le-mul_of_pos_right}
use os_from_zero.Decimal.Bound.{pow_ten_pos}
use os_from_zero.Base.{
  ℕ, zero, suc, ◌+◌, ◌-◌, ◌*◌, ◌^◌, ◌≤◌, ◌≡◌, refl, true, some, List, [], ◌∷◌, arith, ◌==◌, ltb,
  length, Bool-cases, inl, inr,
}
use os_from_zero.Base.Int.{ℤ, pos}
use os_from_zero.Decimal.{is_digit}
use os_from_zero.TicTacToe.{digits_to_int, negated, string_to_int}

-- A number whose digits up to here leave room for `k` more.
digits_to_int_fits :
    (k : ℕ) (s : List ℕ) (result : ℕ)
    → length s ≤ k
    → (result + 1) * 10 ^ k ≤ 10 ^ 9
    → (n : ℕ) × (digits_to_int s result ≡ some n)
unfolding digits_to_int
digits_to_int_fits k [] result h room = (result, refl)
digits_to_int_fits zero (c ∷ s) result h room = ground arith
digits_to_int_fits (suc k) (c ∷ s) result h room = elim (Bool-cases (is_digit c)) [
  | inr stops ↦ (result, rw stops)
  | inl digit ↦
      let next = result * 10 + (c - b'0') in
      let step : next + 1 ≤ (result + 1) * 10 = ground arith in
      let room' : (next + 1) * 10 ^ k ≤ 10 ^ 9 = omega (
        arith,
        mul-le-mul_right (10 ^ k) step,
        mul_assoc (result + 1) 10 (10 ^ k),
        rw (pow-succ' 10 k) at room,
      ) in
      let small : ltb next (2 ^ 31) ≡ true =
        ground (arith, le-mul_of_pos_right (next + 1) (pow_ten_pos k)) in
      let (n, run) = digits_to_int_fits k s next (omega arith) room' in (n, rw (digit, small) run)
]

-- At most 9 characters are the text of an `int`.
pub string_to_int_fits :
    (s : List ℕ) → length s ≤ 9 → (position : ℤ) × (string_to_int s ≡ some position)
unfolding string_to_int
string_to_int_fits [] h = (_, refl)
string_to_int_fits (c ∷ s) h = elim (Bool-cases (c == b'-')) [
  | inl minus ↦
      let (n, run) = digits_to_int_fits 9 s 0 (omega arith) (omega arith) in
      (negated n, rw (minus, run))
  | inr digits ↦
      let (n, run) = digits_to_int_fits 9 (c ∷ s) 0 h (omega arith) in (pos n, rw (digits, run))
]
