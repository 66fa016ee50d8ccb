-- ===== src/Decimal/Value.antt =====
-- What a printed number spells.
use os_from_zero.Base.{ℕ, zero, suc, ◌+◌, ◌-◌, ◌*◌, ◌/◌, ◌%◌, ◌≤◌, ◌≡◌, some, List, [], ◌∷◌, arith}
use os_from_zero.Decimal.{digit_loop, print_number}

-- The number that digits spell behind `acc`.
abbrev pub value : ℕ → List ℕ → ℕ
value acc [] = acc
value acc (c ∷ s) = value (acc * 10 + (c - b'0')) s

abbrev pub AllDigits : List ℕ → Type 0
AllDigits [] = Unit {0}
AllDigits (c ∷ s) = (b'0' ≤ c) × (c ≤ b'9') × AllDigits s

pub digit_loop-value :
    (room n : ℕ) (out s : List ℕ) → digit_loop room n out ≡ some s → value 0 s ≡ value n out
unfolding digit_loop
digit_loop-value zero n out s h = ground arith
digit_loop-value (suc room) n out s h =
    ground (arith, digit_loop-value room (n / 10) ((b'0' + n % 10) ∷ out) s)

pub digit_loop-AllDigits :
    (room n : ℕ) (out s : List ℕ) → AllDigits out → digit_loop room n out ≡ some s → AllDigits s
unfolding digit_loop
digit_loop-AllDigits zero n out s d h = ground arith
digit_loop-AllDigits (suc room) n out s d h =
    ground (arith, digit_loop-AllDigits room (n / 10) ((b'0' + n % 10) ∷ out) s)

-- The text of a number holds digits only, and spells the number.
pub print_number-value :
    (size n : ℕ) (s : List ℕ) → print_number size n ≡ some s → (value 0 s ≡ n) × AllDigits s
unfolding print_number
print_number-value size n s h =
    ground (arith, digit_loop-value size n [] s, digit_loop-AllDigits size n [] s)
