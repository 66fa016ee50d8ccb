-- ===== src/Logger/Numbers.antt =====
-- What the numbers that the logger prints spell.
use native.Mathlib.Nat.{pow-suc}
use mathlib.Core.Path.{subst}
use os_from_zero.Base.{
  ℕ, zero, suc, ◌+◌, ◌-◌, ◌*◌, ◌/◌, ◌%◌, ◌^◌, ◌<◌, ◌≤◌, ◌≡◌, ◌⊎◌, refl, ap, sym, ◌∙◌, Bool, true,
  ◌&&◌, List, [], ◌∷◌, arith, length, take, ◌==◌, leb, if◌then◌else◌, if_true, if_false, false,
  ==_iff, Bool-cases, inl, inr,
}
use os_from_zero.Decimal.Value.{value, AllDigits}
use os_from_zero.Logger.{
  decimal_digits, hex_digit, hex_digits, number_size, uint_to_string, uint_to_hex_string,
}
use os_from_zero.Logger.Copy.{take_all}

decimal_digits-value :
    (room n : ℕ) (out : List ℕ) → n < 10 ^ room → value 0 (decimal_digits room n out) ≡ value n out
unfolding decimal_digits
decimal_digits-value zero n out h = ground arith
decimal_digits-value (suc room) n out h =
    ground (arith, decimal_digits-value room (n / 10) ((b'0' + n % 10) ∷ out))

decimal_digits-AllDigits :
    (room n : ℕ) (out : List ℕ) → AllDigits out → AllDigits (decimal_digits room n out)
unfolding decimal_digits
decimal_digits-AllDigits zero n out d = d
decimal_digits-AllDigits (suc room) n out d =
    ground (arith, d, decimal_digits-AllDigits room (n / 10) ((b'0' + n % 10) ∷ out))

length-decimal_digits :
    (room n : ℕ) (out : List ℕ) → length (decimal_digits room n out) ≤ room + length out
unfolding decimal_digits
length-decimal_digits zero n out = omega arith
length-decimal_digits (suc room) n out =
    ground (arith, length-decimal_digits room (n / 10) ((b'0' + n % 10) ∷ out))

whole_text : (n : ℕ) → take (number_size - 1) (decimal_digits 31 n []) ≡ decimal_digits 31 n []
whole_text n = take_all (decimal_digits 31 n []) 31 (omega (arith, length-decimal_digits 31 n []))

uint_to_string_lem : (n : ℕ) → (n == 0) ≡ false → uint_to_string n ≡ decimal_digits 31 n []
unfolding uint_to_string
uint_to_string_lem n pos = if_false (n == 0) _ _ pos ∙ whole_text n

uint_to_string-zero : (n : ℕ) → (n == 0) ≡ true → (uint_to_string n ≡ b'0' ∷ []) × (0 ≡ n)
unfolding uint_to_string
uint_to_string-zero n e = (if_true (n == 0) _ _ e, ground (arith, e))

-- The text of a number below 2 ^ 64 holds digits only, and spells the number.
pub uint_to_string-value :
    (n : ℕ) → n < 2 ^ 64 → (value 0 (uint_to_string n) ≡ n) × AllDigits (uint_to_string n)
uint_to_string-value n h = elim (Bool-cases (n == 0)) [
  | inl e ↦
      let (text, same) = uint_to_string-zero n e in
      (ap (value 0) text ∙ same, subst AllDigits (sym text) (omega arith, omega arith, tt))
  | inr pos ↦
      let text = uint_to_string_lem n pos in
      (
        ap (value 0) text ∙ decimal_digits-value 31 n [] (omega (arith, h)),
        subst AllDigits (sym text) (decimal_digits-AllDigits 31 n [] tt),
      )
]

-- The number that a digit in base 16 stands for, and that a text of them spells behind `acc`.
abbrev pub hex_digit_value : ℕ → ℕ
hex_digit_value c = if leb c b'9' then c - b'0' else c - b'A' + 10

abbrev pub hex_value : ℕ → List ℕ → ℕ
hex_value acc [] = acc
hex_value acc (c ∷ s) = hex_value (acc * 16 + hex_digit_value c) s

all_below : ℕ → (ℕ → Bool) → Bool
all_below zero p = true
all_below (suc n) p = p n && all_below n p

all_below_lem : (n : ℕ) (p : ℕ → Bool) → all_below n p ≡ true → (d : ℕ) → d < n → p d ≡ true
unfolding all_below
all_below_lem zero p h d lt = absurd (omega arith)
all_below_lem (suc n) p h d lt = elim (Bool-cases (p n)) [
  | inl here ↦ elim (Bool-cases (d == n)) [
    | inl e ↦ ap p ((==_iff d n).0 e) ∙ here
    | inr e ↦ all_below_lem n p (ground (arith, h, here)) d (ground (arith, e, lt))
  ]
  | inr here ↦ absurd (ground (arith, h, here))
]

hex_digit_value_lem : (d : ℕ) → d < 16 → hex_digit_value (hex_digit d) ≡ d
unfolding all_below
hex_digit_value_lem d h =
    (==_iff (hex_digit_value (hex_digit d)) d).0
      (all_below_lem 16 (λ d. hex_digit_value (hex_digit d) == d) refl d h)

hex_digits-value :
    (room n : ℕ) (out : List ℕ)
    → n < 16 ^ room
    → hex_value 0 (hex_digits room n out) ≡ hex_value n out
unfolding hex_digits
hex_digits-value zero n out h = ground arith
hex_digits-value (suc room) n out h =
    ground (
      arith,
      hex_digit_value_lem (n % 16),
      hex_digits-value room (n / 16) (hex_digit (n % 16) ∷ out),
    )

length-hex_digits :
    (room k n : ℕ) (out : List ℕ) → n < 16 ^ k → length (hex_digits room n out) ≤ k + length out
unfolding hex_digits
length-hex_digits zero k n out h = omega arith
length-hex_digits (suc room) zero n out h = ground (arith, h)
length-hex_digits (suc room) (suc k) n out h =
    ground (arith, pow-suc 16 k, length-hex_digits room k (n / 16) (hex_digit (n % 16) ∷ out))

-- The text in base 16 of a number below 2 ^ 64, but 0, is "0x" and digits that spell the number;
-- 0 is "0".
pub uint_to_hex_string-value :
    (n : ℕ)
    → n < 2 ^ 64
    → ((n ≡ 0) × (uint_to_hex_string n ≡ b'0' ∷ []))
      ⊎ ((s : List ℕ) × (uint_to_hex_string n ≡ b'0' ∷ b'x' ∷ s) × (hex_value 0 s ≡ n))
unfolding uint_to_hex_string
uint_to_hex_string-value n h = elim (Bool-cases (n == 0)) [
  | inl e ↦ inl ((==_iff n 0).0 e, if_true (n == 0) _ _ e)
  | inr pos ↦ inr (
    hex_digits 31 n [],
    if_false (n == 0) _ _ pos
        ∙ ap (λ s. b'0' ∷ b'x' ∷ s)
            (take_all (hex_digits 31 n []) 29
              (omega (arith, length-hex_digits 31 16 n [] (omega (arith, h))))),
    hex_digits-value 31 n [] (omega (arith, h)),
  )
]
