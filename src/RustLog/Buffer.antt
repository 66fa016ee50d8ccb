-- ===== src/RustLog/Buffer.antt =====
-- What logger_rust_log_fmt leaves in its buffer.
use os_from_zero.Base.{
  ℕ, ◌+◌, ◌-◌, ◌≤◌, ◌≡◌, refl, ap, sym, ◌∙◌, Bool, true, false, Option, none, some, List, [], ◌∷◌,
  ◌++◌, ◌==◌, arith, if_true, if_false, length, take, ◌>>=◌, length-append, >>=-eq-some, Bool-cases,
  inl, inr,
}
use os_from_zero.Filesystem.Names.{take-length}
use os_from_zero.Logger.{LogArg}
use os_from_zero.RustLog.{fmt_directive, written, fmt_text}
use os_from_zero.RustLog.Format.{directive_text, format_text}
use os_from_zero.RustLog.Text.{directive-Fits, directive-Agrees, length-take_room}

written-eq-some :
    (s : List ℕ) (o : Option (List ℕ)) (t : List ℕ)
    → written s o ≡ some t
    → (r : List ℕ) × (o ≡ some r) × (t ≡ s ++ r)
written-eq-some s none t e = cc
written-eq-some s (some r) t e = (r, refl, ground arith)

module _ (room c : ℕ) (s : List ℕ) (args : List LogArg) (z : (room == 0) ≡ false) where
  fmt_text-percent :
      (c == b'%') ≡ true → fmt_text false room (c ∷ s) args ≡ fmt_text true room s args
  unfolding fmt_text
  fmt_text-percent p =
      if_false (room == 0) _ _ z
      ∙ (if_true (c == b'%') _ _ p
          ∙ (ap (λ r. fmt_text (c == b'%') r s args) (if_true (c == b'%') room (room - 1) p)
              ∙ ap (λ b. fmt_text b room s args) p))

  fmt_text-plain :
      (c == b'%') ≡ false
      → fmt_text false room (c ∷ s) args ≡ written (c ∷ []) (fmt_text false (room - 1) s args)
  unfolding fmt_text
  fmt_text-plain p =
      if_false (room == 0) _ _ z
      ∙ (if_false (c == b'%') _ _ p
          ∙ ap (written (c ∷ [])) (
              ap (λ r. fmt_text (c == b'%') r s args) (if_false (c == b'%') room (room - 1) p)
              ∙ ap (λ b. fmt_text b (room - 1) s args) p))

format_text-percent :
    (c : ℕ) (s : List ℕ) (args : List LogArg)
    → (c == b'%') ≡ true
    → format_text false (c ∷ s) args ≡ format_text true s args
unfolding format_text
format_text-percent c s args p = if_true (c == b'%') _ _ p ∙ ap (λ b. format_text b s args) p

format_text-plain :
    (c : ℕ) (s : List ℕ) (args : List LogArg)
    → (c == b'%') ≡ false
    → format_text false (c ∷ s) args ≡ written (c ∷ []) (format_text false s args)
unfolding format_text
format_text-plain c s args p =
    if_false (c == b'%') _ _ p ∙ ap (λ b. written (c ∷ []) (format_text b s args)) p

-- However long the format and its texts are, no more bytes are written than there is room for.
pub length-fmt_text :
    (b : Bool) (room : ℕ) (s : List ℕ) (args : List LogArg) (t : List ℕ)
    → fmt_text b room s args ≡ some t
    → length t ≤ room
unfolding fmt_text
length-fmt_text false room [] args t e = ground arith
length-fmt_text true room [] args t e =
    let size = length-take_room room (b'%' ∷ []) in ground (arith, size)
length-fmt_text false room (c ∷ s) args t e = elim (Bool-cases (room == 0)) [
  | inl z ↦ ground arith
  | inr z ↦ elim (Bool-cases (c == b'%')) [
    | inl p ↦ length-fmt_text true room s args t (sym (fmt_text-percent room c s args z p) ∙ e)
    | inr p ↦
        let (r, run, eq) =
          written-eq-some (c ∷ []) (fmt_text false (room - 1) s args) t
            (sym (fmt_text-plain room c s args z p) ∙ e) in
        ground (arith, length-fmt_text false (room - 1) s args r run, ap length eq)
  ]
]
length-fmt_text true room (c ∷ s) args t e =
    let ((u, args'), run, e') = >>=-eq-some (fmt_directive room c args) _ e in
    let (r, rest, eq) = written-eq-some u (fmt_text false (room - length u) s args') t e' in
    omega (
      arith,
      directive-Fits room c args u args' run,
      length-fmt_text false (room - length u) s args' r rest,
      ap length eq,
      length-append u r,
    )

some-take :
    (s t : List ℕ) (room : ℕ) → some s ≡ some t → length t ≤ room → some (take room s) ≡ some t
some-take s t room e h = let same : s ≡ t = cc in ap some (take-length s room (rw same h) ∙ same)

zero_room : (room n : ℕ) → (room == 0) ≡ true → n ≤ room → n ≡ 0
zero_room room n z h = ground arith

less : (room : ℕ) (t r : List ℕ) (c : ℕ) → t ≡ c ∷ r → length t ≤ room → length r ≤ room - 1
less room t r c e h = omega (arith, ap length e)

nothing : (t : List ℕ) → length t ≡ 0 → [] ≡ t
nothing [] e = refl
nothing (c ∷ t) e = cc

-- A text that the buffer takes is written as it is.
pub fmt_text-Agrees :
    (b : Bool) (room : ℕ) (s : List ℕ) (args : List LogArg) (t : List ℕ)
    → format_text b s args ≡ some t
    → length t ≤ room
    → fmt_text b room s args ≡ some t
unfolding fmt_text format_text
fmt_text-Agrees false room [] args t e h = e
fmt_text-Agrees true room [] args t e h = some-take (b'%' ∷ []) t room e h
fmt_text-Agrees false room (c ∷ s) args t e h = elim (Bool-cases (room == 0)) [
  | inl z ↦ if_true (room == 0) _ _ z ∙ ap some (nothing t (zero_room room (length t) z h))
  | inr z ↦ elim (Bool-cases (c == b'%')) [
    | inl p ↦
        fmt_text-percent room c s args z p
        ∙ fmt_text-Agrees true room s args t (sym (format_text-percent c s args p) ∙ e) h
    | inr p ↦
        let (r, run, eq) =
          written-eq-some (c ∷ []) (format_text false s args) t
            (sym (format_text-plain c s args p) ∙ e) in
        fmt_text-plain room c s args z p
        ∙ (ap (written (c ∷ []))
              (fmt_text-Agrees false (room - 1) s args r run (less room t r c eq h))
            ∙ ap some (sym eq))
  ]
]
fmt_text-Agrees true room (c ∷ s) args t e h =
    let ((u, args'), run, e') = >>=-eq-some (directive_text c args) _ e in
    let (r, rest, eq) = written-eq-some u (format_text false s args') t e' in
    let size : length t ≡ length u + length r = ap length eq ∙ length-append u r in
    ap (λ o. o >>= λ p. written p.0 (fmt_text false (room - length p.0) s p.1))
      (directive-Agrees room c args u args' run (omega arith))
    ∙ (ap (written u) (fmt_text-Agrees false (room - length u) s args' r rest (omega arith))
        ∙ ap some (sym eq))
