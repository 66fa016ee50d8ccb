-- ===== src/Widgets/Position.antt =====
-- A position that is typed as it is printed.
use mathlib.Core.Path.{subst}
use os_from_zero.Decimal.More.{digit_loop_more}
use os_from_zero.Base.{
  ℕ, zero, suc, ◌+◌, ◌-◌, ◌*◌, ◌^◌, ◌<◌, ◌≤◌, ◌≡◌, refl, ap, sym, ◌∙◌, false, ◌||◌, some, List, [],
  ◌∷◌, ◌++◌, ◌==◌, arith, ltb, if◌then◌else◌, if_true, if_false, length, ◌>>=◌, inl, inr, ◌⊎◌,
  replicate,
}
use os_from_zero.Base.Int.{ℤ, pos, negsuc}
use os_from_zero.Strings.{strlen}
use os_from_zero.Decimal.{int_text, add_sign, is_digit}
use os_from_zero.Decimal.Value.{
  value, AllDigits, print_number-value, digit_loop-value, digit_loop-AllDigits,
}
use os_from_zero.Decimal.Bound.{print_number_fits, digit_loop_fits}
use os_from_zero.Shell.Dispatch.{strlen_pos}
use os_from_zero.TicTacToe.{negated}
use os_from_zero.Widgets.Commands.{
  parse_digits, parse_int, is_blank, skip_whitespace, take_word, parse_word, position_from,
  position,
}

value-le : (acc : ℕ) (s : List ℕ) → acc ≤ value acc s
value-le acc [] = omega arith
value-le acc (c ∷ s) = omega (arith, value-le (acc * 10 + (c - b'0')) s)

-- Digits are read as the number that they spell, if an `int` holds it.
parse_digits-value :
    (s : List ℕ) (acc : ℕ)
    → AllDigits s
    → value acc s < 2 ^ 31
    → parse_digits s acc ≡ some (value acc s)
unfolding parse_digits
parse_digits-value [] acc d h = refl
parse_digits-value (c ∷ s) acc (low, high, rest) h =
    let next = acc * 10 + (c - b'0') in
    if_true (is_digit c) _ _ (ground (arith, low, high))
    ∙ (if_true (ltb next (2 ^ 31)) _ _ (ground (arith, value-le next s))
        ∙ parse_digits-value s next rest h)

-- An `int` that can be negated.
abbrev pub IsSmall : ℤ → Type 0
IsSmall (pos n) = n < 2 ^ 31
IsSmall (negsuc n) = suc n < 2 ^ 31

-- Characters of a word.
abbrev AllWord : List ℕ → Type 0
AllWord [] = Unit {0}
AllWord (c ∷ s) = ((c == 0 || is_blank c) ≡ false) × AllWord s

AllDigits-AllWord : (s : List ℕ) → AllDigits s → AllWord s
AllDigits-AllWord [] d = tt
AllDigits-AllWord (c ∷ s) (low, high, rest) = (ground (arith, low, high), AllDigits-AllWord s rest)

-- The text of a number: digits behind an optional sign, at most 12 characters.
pub record Spells (s : List ℕ) (z : ℤ) : Type 0 where
  parsed : parse_int s ≡ some z
  word : (c : ℕ) × (r : List ℕ) × (s ≡ c ∷ r) × AllWord (c ∷ r)
  short : length s ≤ 12

digits-parse_int :
    (s : List ℕ) → AllDigits s → value 0 s < 2 ^ 31 → parse_int s ≡ some (pos (value 0 s))
unfolding parse_int
digits-parse_int [] d h = refl
digits-parse_int (c ∷ s) d h =
    if_false (c == b'-') _ _ (ground (arith, d.0))
    ∙ ap (λ o. o >>= λ n. some (pos n)) (parse_digits-value (c ∷ s) 0 d h)

nonempty : (n : ℕ) (s : List ℕ) → value 0 s ≡ suc n → (c : ℕ) × (r : List ℕ) × (s ≡ c ∷ r)
nonempty n [] h = absurd (ground arith)
nonempty n (c ∷ r) h = (c, r, refl)

word_of :
    (s : List ℕ)
    → AllDigits s
    → (c : ℕ) × (r : List ℕ) × (s ≡ c ∷ r)
    → (c : ℕ) × (r : List ℕ) × (s ≡ c ∷ r) × AllWord (c ∷ r)
word_of s d (c, r, e) = (c, r, e, AllDigits-AllWord (c ∷ r) (subst AllDigits e d))

pos-Spells : (n : ℕ) → n < 2 ^ 31 → (s : List ℕ) × (int_text (pos n) ≡ some s) × Spells s (pos n)
unfolding int_text
pos-Spells zero small = (
  b'0' ∷ [],
  refl,
  record {
    parsed = digits-parse_int (b'0' ∷ []) (omega arith, omega arith, tt) (omega arith);
    word = (b'0', [], refl, (refl, tt));
    short = omega arith;
  },
)
pos-Spells (suc n) small =
    let (s, run, len) = print_number_fits 12 (suc n) (omega arith) (omega arith) in
    let (val, digits) = print_number-value 12 (suc n) s run in
    (
      s,
      run,
      record {
        parsed = digits-parse_int s digits (rw val small) ∙ ap (λ (v : ℕ). some (pos v)) val;
        word = word_of s digits (nonempty n s val);
        short = len;
      },
    )

negsuc-Spells :
    (n : ℕ) → suc n < 2 ^ 31 → (s : List ℕ) × (int_text (negsuc n) ≡ some s) × Spells s (negsuc n)
unfolding int_text parse_int
negsuc-Spells n small =
    let (t, run, len) = digit_loop_fits 11 (suc n) [] (omega arith) in
    let val = digit_loop-value 11 (suc n) [] t run in
    let digits = digit_loop-AllDigits 11 (suc n) [] t tt run in
    (
      b'-' ∷ t,
      if_true (ltb n (2 ^ 31 - 1)) _ _ (ground (arith, small))
          ∙ (ap (add_sign 12) (digit_loop_more 11 1 (suc n) [] t run)
              ∙ if_true (ltb (length t) 12) _ _ (ground (arith, len))),
      record {
        parsed =
            ap (λ o. o >>= λ m. some (negated m))
              (parse_digits-value t 0 digits (rw val small) ∙ ap (λ (v : ℕ). some v) val);
        word = (b'-', t, refl, (refl, AllDigits-AllWord t digits));
        short = omega arith;
      },
    )

int_text-Spells : (z : ℤ) → IsSmall z → (s : List ℕ) × (int_text z ≡ some s) × Spells s z
int_text-Spells (pos n) small = pos-Spells n small
int_text-Spells (negsuc n) small = negsuc-Spells n small

-- The text of a number, as a word that is not empty.
as_word :
    (z : ℤ)
    → IsSmall z
    → (c : ℕ) × (r : List ℕ) × (int_text z ≡ some (c ∷ r))
      × (parse_int (c ∷ r) ≡ some z)
      × AllWord (c ∷ r)
      × (length (c ∷ r) ≤ 12)
as_word z small =
    let (s, run, spells) = int_text-Spells z small in
    let (c, r, e, word) = spells.word in
    (
      c,
      r,
      run ∙ ap some e,
      ap parse_int (sym e) ∙ spells.parsed,
      word,
      subst (λ (t : List ℕ). length t ≤ 12) e (spells.short),
    )

-- A word ends at a blank, or with the string.
abbrev Ends : List ℕ → Type 0
Ends s = (s ≡ []) ⊎ ((r : List ℕ) × (s ≡ b' ' ∷ r))

take_word_lem :
    (room : ℕ) (w rest : List ℕ)
    → AllWord w
    → length w < room
    → Ends rest
    → take_word room (w ++ rest) ≡ (w, rest)
unfolding take_word
take_word_lem zero w rest h short ends = absurd (omega arith)
take_word_lem (suc room) [] rest h short (inl e) = rw e
take_word_lem (suc room) [] rest h short (inr (r, e)) = rw e
take_word_lem (suc room) (c ∷ w) rest (here, more) short ends =
    if_false (c == 0 || is_blank c) _ _ here
    ∙ ap (λ (p : List ℕ × List ℕ). (c ∷ p.0, p.1))
        (take_word_lem room w rest more (omega arith) ends)

parse_word_lem :
    (n c : ℕ) (w rest : List ℕ)
    → AllWord (c ∷ w)
    → length (c ∷ w) ≤ 12
    → Ends rest
    → parse_word (replicate n b' ' ++ ((c ∷ w) ++ rest)) ≡ (c ∷ w, rest)
unfolding parse_word skip_whitespace
parse_word_lem zero c w rest h short ends =
    ap (take_word 31) (if_false (is_blank c) _ _ (ground (arith, h.0)))
    ∙ take_word_lem 31 (c ∷ w) rest h (omega arith) ends
parse_word_lem (suc n) c w rest h short ends = parse_word_lem n c w rest h short ends

not_empty : (c : ℕ) (s : List ℕ) → (c == 0 || is_blank c) ≡ false → (strlen (c ∷ s) == 0) ≡ false
not_empty c s h = strlen_pos c s (ground arith)

append-nil-end : (w : List ℕ) → w ++ [] ≡ w
append-nil-end [] = refl
append-nil-end (c ∷ w) = ap (λ s. c ∷ s) (append-nil-end w)

second_word :
    (x y dy : ℤ) (n c : ℕ) (w : List ℕ)
    → AllWord (c ∷ w)
    → length (c ∷ w) ≤ 12
    → parse_int (c ∷ w) ≡ some y
    → position_from x dy (replicate n b' ' ++ (c ∷ w)) ≡ some (x, y)
unfolding position_from
second_word x y dy n c w h short read =
    ap (λ (u : List ℕ). if strlen u == 0 then some (x, dy) else (do y' ← parse_int u; some (x, y')))
      (ap (λ (s : List ℕ). (parse_word (replicate n b' ' ++ s)).0) (sym (append-nil-end (c ∷ w)))
        ∙ ap (λ (p : List ℕ × List ℕ). p.0) (parse_word_lem n c w [] h short (inl refl)))
    ∙ (if_false (strlen (c ∷ w) == 0) _ _ (not_empty c w h.0)
        ∙ ap (λ o. o >>= λ y'. some (x, y')) read)

-- A position that is typed as the widget commands print it, two numbers with spaces between, is
-- the one that they take, for numbers of which no sign overflows an `int`.
pub position-int_text :
    (x y dx dy : ℤ) (n : ℕ)
    → IsSmall x
    → IsSmall y
    → (xs : List ℕ) × (ys : List ℕ) × (int_text x ≡ some xs)
      × (int_text y ≡ some ys)
      × (position dx dy (some (xs ++ (replicate (suc n) b' ' ++ ys))) ≡ some (x, y))
unfolding position
position-int_text x y dx dy n small small' =
    let (c, w, run, read, word, short) = as_word x small in
    let (c', w', run', read', word', short') = as_word y small' in
    let back = replicate (suc n) b' ' ++ (c' ∷ w') in
    (
      c ∷ w,
      c' ∷ w',
      run,
      run',
      if_false (strlen ((c ∷ w) ++ back) == 0) _ _ (not_empty c (w ++ back) word.0)
          ∙ (ap
                (λ (p : List ℕ × List ℕ).
                  if strlen p.0 == 0
                  then some (dx, dy)
                  else (do x' ← parse_int p.0; position_from x' dy p.1))
                (parse_word_lem 0 c w back word short (inr (_, refl)))
              ∙ (if_false (strlen (c ∷ w) == 0) _ _ (not_empty c w word.0)
                  ∙ (ap (λ o. o >>= λ x'. position_from x' dy back) read
                      ∙ second_word x y dy (suc n) c' w' word' short' read'))),
    )
