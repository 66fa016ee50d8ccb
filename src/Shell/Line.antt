-- ===== src/Shell/Line.antt =====
-- What the line editor lets into the input buffer.
use os_from_zero.Shell.{edit, input_size, read_line}
use mathlib.Core.List.{reverse, reverse-cons}
use os_from_zero.Base.{
  ℕ, ◌+◌, ◌-◌, ◌<◌, ◌≤◌, ◌≡◌, refl, ap, sym, ◌∙◌, some, List, [], ◌∷◌, ◌++◌, arith, ◌==◌, length,
  length-append, Bool-cases, Option-cases, inl, inr, Output, putchar, append_assoc, append-nil,
  if_false,
}

abbrev pub AllPrintable : List ℕ → Type 0
AllPrintable [] = Unit {0}
AllPrintable (c ∷ s) = (32 ≤ c) × (c ≤ 126) × AllPrintable s

-- What the editor keeps of the buffer: room for the final 0, and printable characters only.
pub record IsLine (typed : List ℕ) : Type 0 where
  pub room : length typed < input_size
  pub printable : AllPrintable typed

pub edit-IsLine : (typed : List ℕ) (c : ℕ) → IsLine typed → IsLine (edit typed c).0
unfolding edit
edit-IsLine [] c h = ground arith
edit-IsLine (d ∷ typed) c h = ground arith

printable-append : (s t : List ℕ) → AllPrintable s → AllPrintable t → AllPrintable (s ++ t)
printable-append [] t p q = q
printable-append (c ∷ s) t p q = (p.0, p.1, printable-append s t p.2 q)

reverse-AllPrintable : (s : List ℕ) → AllPrintable s → AllPrintable (reverse s)
reverse-AllPrintable [] p = tt
reverse-AllPrintable (c ∷ s) p =
    rw (reverse-cons c s)
      (printable-append (reverse s) (c ∷ []) (reverse-AllPrintable s p.2) (p.0, p.1, tt))

length-reverse : (s : List ℕ) → length (reverse s) ≡ length s
length-reverse [] = refl
length-reverse (c ∷ s) =
    rw (reverse-cons c s) (omega (arith, length-append (reverse s) (c ∷ []), length-reverse s))

-- Whatever keys are pressed, the line that is read fits the buffer with its final 0, and all of
-- its characters are printable.
pub read_line-IsLine :
    (keys typed line : List ℕ) (shown : List Output)
    → IsLine typed
    → read_line typed keys ≡ some (line, shown)
    → IsLine line
unfolding read_line
read_line-IsLine [] typed line shown h e = cc
read_line-IsLine (c ∷ keys) typed line shown h e = elim (Bool-cases (c == 10)) [
  | inl enter ↦
      let same : line ≡ reverse typed = ground arith in
      rw same (record {
        room = rw (length-reverse typed) h.room;
        printable = reverse-AllPrintable typed h.printable;
      })
  | inr other ↦ elim (Option-cases (read_line (edit typed c).0 keys)) [
    | inl unfinished ↦ absurd (ground arith)
    | inr ((line', more), run) ↦
        let same : line ≡ line' = ground arith in
        rw same (read_line-IsLine keys (edit typed c).0 line' more (edit-IsLine typed c h) run)
  ]
]

typed_step :
    (c : ℕ) (typed keys line : List ℕ) (shown : List Output)
    → 32 ≤ c
    → edit typed c ≡ (c ∷ typed, putchar c ∷ [])
    → read_line (c ∷ typed) keys ≡ some (line, shown)
    → read_line typed (c ∷ keys) ≡ some (line, putchar c ∷ shown)
unfolding read_line
typed_step c typed keys line shown lo kept run =
    rw (if_false (c == 10) _ _ (ground arith), kept, run)

edit-printable :
    (typed : List ℕ) (c : ℕ)
    → 32 ≤ c
    → c ≤ 126
    → length typed < input_size - 1
    → edit typed c ≡ (c ∷ typed, putchar c ∷ [])
unfolding edit
edit-printable typed c lo hi room = ground arith

-- Printable characters that fit are read as they are typed, up to the newline.
pub read_line-typed :
    (text typed rest : List ℕ)
    → AllPrintable text
    → length typed + length text < input_size
    → (shown : List Output) × (read_line typed (text ++ (10 ∷ rest))
        ≡ some (reverse typed ++ text, shown))
unfolding read_line
read_line-typed [] typed rest p room =
    (putchar 10 ∷ [], ap (λ l. some (l, putchar 10 ∷ [])) (sym (append-nil (reverse typed))))
read_line-typed (c ∷ text) typed rest p room =
    let kept = edit-printable typed c p.0 p.1 (omega arith) in
    let (shown, run) = read_line-typed text (c ∷ typed) rest p.2 (omega arith) in
    let same : reverse (c ∷ typed) ++ text ≡ reverse typed ++ (c ∷ text) =
      rw (reverse-cons c typed) (append_assoc (reverse typed) (c ∷ []) text) in
    (
      putchar c ∷ shown,
      typed_step c typed (text ++ (10 ∷ rest)) _ shown p.0 kept
          (run ∙ ap (λ l. some (l, shown)) same),
    )

-- A character and a backspace leave the buffer as it was.
pub edit-backspace :
    (typed : List ℕ) (c : ℕ)
    → 32 ≤ c
    → c ≤ 126
    → length typed < input_size - 1
    → (edit (edit typed c).0 8).0 ≡ typed
unfolding edit
edit-backspace typed c lo hi room = ground arith
