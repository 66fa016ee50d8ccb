-- ===== src/Decimal/More.antt =====
-- A larger buffer holds the same text.
use mathlib.Core.Option
use os_from_zero.Base.{
  ℕ, zero, suc, ◌+◌, ◌/◌, ◌%◌, ◌<◌, ◌≡◌, refl, ap, ◌∙◌, Bool, true, false, Option, some, List, [],
  ◌∷◌, arith, ◌==◌, if◌then◌else◌, length, replicate,
}
use os_from_zero.Base.Int.{pos}
use os_from_zero.Decimal.{digit_loop, print_number, write_text, int_text, int_to_string}
use os_from_zero.Decimal.Bound.{print_number_fits}

branch_more :
    (b : Bool) (x r r' : Option (List ℕ)) (s : List ℕ)
    → (r ≡ some s → r' ≡ some s)
    → (if b then x else r) ≡ some s
    → (if b then x else r') ≡ some s
branch_more true x r r' s f h = h
branch_more false x r r' s f h = f h

-- More room in the buffer changes nothing.
pub digit_loop_more :
    (room more n : ℕ) (out s : List ℕ)
    → digit_loop room n out ≡ some s
    → digit_loop (more + room) n out ≡ some s
unfolding digit_loop
digit_loop_more zero zero n out s h = h
digit_loop_more zero (suc more) n out s h = ground (arith, h)
digit_loop_more (suc room) more n out s h =
    let m : more + suc room ≡ suc (more + room) = omega arith in
    let next = (b'0' + n % 10) ∷ out in
    ap (λ r. digit_loop r n out) m
    ∙ branch_more (n == 0) (some out) (digit_loop room (n / 10) next)
        (digit_loop (more + room) (n / 10) next) s (digit_loop_more room more (n / 10) next s) h

pub print_number_more :
    (room more n : ℕ) (s : List ℕ)
    → print_number room n ≡ some s
    → print_number (more + room) n ≡ some s
unfolding print_number
print_number_more room more n s h =
    branch_more (n == 0) (some (b'0' ∷ [])) (digit_loop room n []) (digit_loop (more + room) n []) s
      (digit_loop_more room more n [] s) h

write_text_fits :
    (buffer s : List ℕ) → length s < length buffer → (b : List ℕ) × (write_text buffer s ≡ some b)
unfolding write_text
write_text_fits [] s h = absurd (omega (arith, h))
write_text_fits (x ∷ buffer) [] h = (0 ∷ buffer, refl)
write_text_fits (x ∷ buffer) (c ∷ s) h =
    let (b, run) = write_text_fits buffer s (omega (arith, h)) in
    (c ∷ b, ap (Option.map (λ t. c ∷ t)) run)

-- Three digits and the 0 fit a buffer of four bytes.
pub int_to_string_fits :
    (n : ℕ) → n < 1000 → (b : List ℕ) × (int_to_string (pos n) (replicate 4 0) ≡ some b)
unfolding int_to_string int_text Option.bind
int_to_string_fits n small =
    let (s, printed, len) = print_number_fits 3 n (omega arith) (omega (arith, small)) in
    let (b, run) = write_text_fits (replicate 4 0) s (omega (arith, len)) in
    (
      b,
      ap (λ o. Option.bind o (write_text (replicate 4 0))) (print_number_more 3 9 n s printed)
          ∙ run,
    )
