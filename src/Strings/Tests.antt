-- ===== src/Strings/Tests.antt =====
-- The routines of string.c on short buffers.
use os_from_zero.Base.{ℕ, ◌≡◌, refl, some, List, [], ◌∷◌, length}
use os_from_zero.Strings.{strlen, strncpy}
use os_from_zero.Strings.Text.{c_text, strlen-eq-length}

-- "ab", with a byte behind its end.
abbrev ab : List ℕ
ab = b'a' ∷ b'b' ∷ 0 ∷ b'c' ∷ []

abbrev four : List ℕ
four = 1 ∷ 2 ∷ 3 ∷ 4 ∷ []

strlen-ab : strlen ab ≡ 2
unfolding strlen
strlen-ab = refl

strlen-eq-length_example : strlen ab ≡ length (c_text ab)
strlen-eq-length_example = strlen-eq-length ab

copied : strncpy four ab 3 ≡ some (b'a' ∷ b'b' ∷ 0 ∷ 0 ∷ [])
unfolding strncpy
copied = refl
