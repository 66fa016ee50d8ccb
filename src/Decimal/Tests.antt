-- ===== src/Decimal/Tests.antt =====
-- Numbers of a few digits.
use os_from_zero.Base.{ℕ, ◌≡◌, refl, some, List, [], ◌∷◌}
use os_from_zero.Decimal.{print_number}

-- "42"
abbrev forty_two : List ℕ
forty_two = b'4' ∷ b'2' ∷ []

print_number-42 : print_number 16 42 ≡ some forty_two
unfolding print_number
print_number-42 = refl
