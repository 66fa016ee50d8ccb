-- ===== src/Logger/Copy.antt =====
-- The loops that copy into the buffer of a line of the log file.
use os_from_zero.Base.{
  ltb, Bool-cases, inl, inr, if_true, if_false, ℕ, zero, suc, ◌+◌, ◌<◌, ◌≤◌, ◌≡◌, refl, sym, ap,
  ◌∙◌, none, some, List, [], ◌∷◌, ◌++◌, arith, length, take, length-append, length-take, append-nil,
  append_assoc, min,
}
use os_from_zero.Logger.Lines.{log_size, put_text, put_raw}

pub take_all : (xs : List ℕ) (n : ℕ) → length xs ≤ n → take n xs ≡ xs
take_all [] zero h = refl
take_all [] (suc n) h = refl
take_all (x ∷ xs) zero h = absurd (omega arith)
take_all (x ∷ xs) (suc n) h = ap (λ t. x ∷ t) (take_all xs n (omega (arith, h)))

pub take_filled : (xs ys : List ℕ) (n : ℕ) → length xs ≡ n → take n (xs ++ ys) ≡ xs
take_filled [] ys zero h = refl
take_filled [] ys (suc n) h = absurd (omega arith)
take_filled (x ∷ xs) ys zero h = absurd (omega arith)
take_filled (x ∷ xs) ys (suc n) h = ap (λ t. x ∷ t) (take_filled xs ys n (omega (arith, h)))

pub longer : (out : List ℕ) (c : ℕ) → length (out ++ (c ∷ [])) ≡ suc (length out)
longer out c = omega (arith, length-append out (c ∷ []))

-- The copying loop cuts the text where the buffer ends.
pub put_text-take : (s out : List ℕ) → length out ≤ 511 → put_text out s ≡ take 511 (out ++ s)
unfolding put_text
put_text-take [] out h = sym (ap (take 511) (append-nil out) ∙ take_all out 511 h)
put_text-take (c ∷ s) out h = elim (Bool-cases (ltb (length out) 511)) [
  | inl room ↦
      if_true (ltb (length out) 511) _ _ room
      ∙ (put_text-take s (out ++ (c ∷ [])) (ground (arith, longer out c, room))
          ∙ ap (take 511) (append_assoc out (c ∷ []) s))
  | inr full ↦
      if_false (ltb (length out) 511) _ _ full
      ∙ sym (take_filled out (c ∷ s) 511 (ground (arith, full, h)))
]

pub put_raw_fits :
    (s out : List ℕ) → length out + length s ≤ log_size → put_raw out s ≡ some (out ++ s)
unfolding put_raw
put_raw_fits [] out h = ap some (sym (append-nil out))
put_raw_fits (c ∷ s) out h =
    if_true (ltb (length out) log_size) _ _ (ground (arith, h))
    ∙ (put_raw_fits s (out ++ (c ∷ [])) (ground (arith, longer out c, h))
        ∙ ap some (append_assoc out (c ∷ []) s))

pub put_raw_over :
    (s out : List ℕ)
    → length out ≤ log_size
    → log_size < length out + length s
    → put_raw out s ≡ none
unfolding put_raw
put_raw_over [] out h over = absurd (omega arith)
put_raw_over (c ∷ s) out h over = elim (Bool-cases (ltb (length out) log_size)) [
  | inl room ↦
      if_true (ltb (length out) log_size) _ _ room
      ∙ put_raw_over s (out ++ (c ∷ [])) (ground (arith, longer out c, room))
          (ground (arith, longer out c, over))
  | inr full ↦ if_false (ltb (length out) log_size) _ _ full
]

-- A text that fits is copied whole.
pub put_text_fits : (s out : List ℕ) → length out + length s ≤ 511 → put_text out s ≡ out ++ s
put_text_fits s out h =
    put_text-take s out (omega (arith, h))
    ∙ take_all (out ++ s) 511 (omega (arith, h, length-append out s))

pub length-put_text :
    (s out : List ℕ) → length out ≤ 511 → length (put_text out s) ≡ min 511 (length out + length s)
length-put_text s out h =
    ap length (put_text-take s out h)
    ∙ (length-take 511 (out ++ s) ∙ ap (min 511) (length-append out s))

pub take-take_append : (n : ℕ) (xs ys : List ℕ) → take n (take n xs ++ ys) ≡ take n (xs ++ ys)
take-take_append zero xs ys = refl
take-take_append (suc n) [] ys = refl
take-take_append (suc n) (x ∷ xs) ys = ap (λ t. x ∷ t) (take-take_append n xs ys)
