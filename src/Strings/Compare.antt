-- ===== src/Strings/Compare.antt =====
-- What strcmp decides.
use os_from_zero.Base.Int.{pos}
use os_from_zero.Strings.{strcmp}
use os_from_zero.Base.{ℕ, ◌≡◌, ◌↔◌, refl, List, [], ◌∷◌, arith}
use os_from_zero.Strings.Text.{c_text}

pub strcmp-eq : (s t : List ℕ) → strcmp s t ≡ pos 0 → c_text s ≡ c_text t
unfolding strcmp c_text
strcmp-eq [] [] h = refl
strcmp-eq [] (d ∷ t) h = ground arith
strcmp-eq (c ∷ s) [] h = ground arith
strcmp-eq (c ∷ s) (d ∷ t) h = ground (arith, strcmp-eq s t)

pub strcmp_refl : (s t : List ℕ) → c_text s ≡ c_text t → strcmp s t ≡ pos 0
unfolding strcmp c_text
strcmp_refl [] [] h = refl
strcmp_refl [] (d ∷ t) h = ground arith
strcmp_refl (c ∷ s) [] h = ground arith
strcmp_refl (c ∷ s) (d ∷ t) h = ground (arith, strcmp_refl s t)

-- strcmp gives 0 exactly for strings of the same text.
pub strcmp-eq-zero_iff : (s t : List ℕ) → (strcmp s t ≡ pos 0) ↔ (c_text s ≡ c_text t)
strcmp-eq-zero_iff s t = (strcmp-eq s t, strcmp_refl s t)
