-- ===== src/RustLog/Text.antt =====
-- What logger_rust_log_fmt writes: never more than the buffer takes, and all of the text that the
-- format stands for when the buffer takes it.
use os_from_zero.Base.{
  ℕ, ◌-◌, ◌≤◌, ◌≡◌, ◌∙◌, Bool, true, false, ◌||◌, Option, none, some, List, [], ◌∷◌, ◌++◌, ◌==◌,
  arith, leb, if◌then◌else◌, if_true, if_false, length, take, ◌>>=◌, codes, length-append,
  length-take, Bool-cases, inl, inr,
}
use os_from_zero.Filesystem.Names.{take-length}
use os_from_zero.Logger.{LogArg, signed, next_word, next_text}
use os_from_zero.RustLog.Format.{signed_text, directive_text}
use os_from_zero.RustLog.{decimal_text, hex_text, fit, fit_signed, fit_hex, fmt_directive}

abbrev Written : Type 0
Written = Option (List ℕ × List LogArg)

-- No more than `room` bytes are written.
abbrev Fits : ℕ → Written → Type 0
Fits room o = (t : List ℕ) (rest : List LogArg) → o ≡ some (t, rest) → length t ≤ room

-- Where a text fits, it is written as it is.
abbrev Agrees : ℕ → Written → Written → Type 0
Agrees room o full =
    (t : List ℕ) (rest : List LogArg) → full ≡ some (t, rest) → length t ≤ room → o ≡ some (t, rest)

module _ (room : ℕ) where
  Fits-if : (b : Bool) (x y : Written) → Fits room x → Fits room y → Fits room (if b then x else y)
  Fits-if true x y p q = p
  Fits-if false x y p q = q

  Fits->>= :
      {A : Type 0} (m : Option A) (f : A → Written)
      → ((a : A) → Fits room (f a))
      → Fits room (m >>= f)
  Fits->>= none f h = λ t rest e. cc
  Fits->>= (some a) f h = h a

  Agrees-if :
      (b : Bool) (x y x' y' : Written)
      → Agrees room x x'
      → Agrees room y y'
      → Agrees room (if b then x else y) (if b then x' else y')
  Agrees-if true x y x' y' p q = p
  Agrees-if false x y x' y' p q = q

  Agrees->>= :
      {A : Type 0} (m : Option A) (f g : A → Written)
      → ((a : A) → Agrees room (f a) (g a))
      → Agrees room (m >>= f) (m >>= g)
  Agrees->>= none f g h = λ t rest e. cc
  Agrees->>= (some a) f g h = h a

  length-fit : (front back : List ℕ) → length (fit room front back) ≤ room
  length-fit front back = omega (
    arith,
    length-append (take room front) (take (room - length front) back),
    length-take room front,
    length-take (room - length front) back,
  )

  fit_all :
      (front back : List ℕ) → length (front ++ back) ≤ room → fit room front back ≡ front ++ back
  fit_all front back h =
      let size = length-append front back in
      rw
        (take-length front room (omega arith), take-length back (room - length front) (omega arith))

  Fits-some : (s : List ℕ) (args : List LogArg) → length s ≤ room → Fits room (some (s, args))
  Fits-some s args h t rest e = ground arith

  Agrees-some :
      (s s' : List ℕ) (args : List LogArg)
      → (length s' ≤ room → s ≡ s')
      → Agrees room (some (s, args)) (some (s', args))
  Agrees-some s s' args h t rest e small = ground arith

  pub length-take_room : (s : List ℕ) → length (take room s) ≤ room
  length-take_room s = omega (arith, length-take room s)

  Agrees-take :
      (s : List ℕ) (args : List LogArg) → Agrees room (some (take room s, args)) (some (s, args))
  Agrees-take s args = Agrees-some (take room s) s args (take-length s room)

  Agrees-fit :
      (front back : List ℕ) (args : List LogArg)
      → Agrees room (some (fit room front back, args)) (some (front ++ back, args))
  Agrees-fit front back args =
      Agrees-some (fit room front back) (front ++ back) args (fit_all front back)

  length-fit_signed : (v : Bool × ℕ) → length (fit_signed room v) ≤ room
  length-fit_signed (true, n) = length-fit (b'-' ∷ []) (decimal_text n)
  length-fit_signed (false, n) = length-take_room (decimal_text n)

  Agrees-fit_signed :
      (v : Bool × ℕ) (args : List LogArg)
      → Agrees room (some (fit_signed room v, args)) (some (signed_text v, args))
  Agrees-fit_signed (true, n) args = Agrees-fit (b'-' ∷ []) (decimal_text n) args
  Agrees-fit_signed (false, n) args = Agrees-take (decimal_text n) args

  length-fit_hex : (n : ℕ) → length (fit_hex room n) ≤ room
  length-fit_hex n = elim (Bool-cases (leb 2 room)) [
    | inl e ↦
        rw (if_true (leb 2 room) (fit room (codes "0x") (hex_text n)) (take room (hex_text n)) e)
          (length-fit (codes "0x") (hex_text n))
    | inr e ↦
        rw (if_false (leb 2 room) (fit room (codes "0x") (hex_text n)) (take room (hex_text n)) e)
          (length-take_room (hex_text n))
  ]

  Agrees-fit_hex :
      (n : ℕ) (args : List LogArg)
      → Agrees room (some (fit_hex room n, args)) (some (codes "0x" ++ hex_text n, args))
  Agrees-fit_hex n args = Agrees-some (fit_hex room n) (codes "0x" ++ hex_text n) args (λ h.
      if_true (leb 2 room) _ _ (ground (arith, length-append (codes "0x") (hex_text n)))
      ∙ fit_all (codes "0x") (hex_text n) h)

  pub directive-Fits : (c : ℕ) (args : List LogArg) → Fits room (fmt_directive room c args)
  unfolding fmt_directive
  directive-Fits c args =
      Fits-if (c == b'd') _ _
        (Fits->>= (next_word args) _ λ r.
          Fits->>= (signed 32 r.0) _ λ v. Fits-some (fit_signed room v) r.1 (length-fit_signed v))
        (Fits-if (c == b'u') _ _
          (Fits->>= (next_word args) _ λ r. Fits-some _ r.1 (length-take_room _))
          (Fits-if (c == b'x' || c == b'X') _ _
            (Fits->>= (next_word args) _ λ r. Fits-some _ r.1 (length-fit_hex _))
            (Fits-if (c == b'p') _ _
              (Fits->>= (next_word args) _ λ r. Fits-some _ r.1 (length-fit_hex _))
              (Fits-if (c == b's') _ _
                (Fits->>= (next_text args) _ λ r. Fits-some _ r.1 (length-take_room _))
                (Fits-if (c == b'%') _ _ (Fits-some _ args (length-take_room (b'%' ∷ [])))
                  (Fits-some _ args (length-fit (b'%' ∷ []) (c ∷ []))))))))

  pub directive-Agrees :
      (c : ℕ) (args : List LogArg) → Agrees room (fmt_directive room c args) (directive_text c args)
  unfolding fmt_directive directive_text
  directive-Agrees c args =
      Agrees-if (c == b'd') _ _ _ _
        (Agrees->>= (next_word args) _ _
          λ r. Agrees->>= (signed 32 r.0) _ _ λ v. Agrees-fit_signed v r.1)
        (Agrees-if (c == b'u') _ _ _ _ (Agrees->>= (next_word args) _ _ λ r. Agrees-take _ r.1) (
          Agrees-if (c == b'x' || c == b'X') _ _ _ _
            (Agrees->>= (next_word args) _ _ λ r. Agrees-fit_hex _ r.1)
            (Agrees-if (c == b'p') _ _ _ _
              (Agrees->>= (next_word args) _ _ λ r. Agrees-fit_hex _ r.1)
              (Agrees-if (c == b's') _ _ _ _
                (Agrees->>= (next_text args) _ _ λ r. Agrees-take _ r.1)
                (Agrees-if (c == b'%') _ _ _ _ (Agrees-take (b'%' ∷ []) args)
                  (Agrees-fit (b'%' ∷ []) (c ∷ []) args))))))
