-- ===== src/Process/Hello.antt =====
-- The search of process_execute for "hello" in the program's name.
use mathlib.Core.Path.{subst}
use os_from_zero.Base.{
  ℕ, ◌≡◌, ◌≢◌, ◌↔◌, refl, ap, ◌∙◌, true, false, List, [], ◌∷◌, ◌++◌, arith, ◌==◌, Bool-cases, inl,
  inr, if◌then◌else◌, Bool, sym,
}
use os_from_zero.Strings.{head, tail}
use os_from_zero.Strings.Text.{c_text}
use os_from_zero.Process.Execute.{starts_hello, is_hello}

abbrev pub hello : List ℕ
hello = b'h' ∷ b'e' ∷ b'l' ∷ b'l' ∷ b'o' ∷ []

-- A byte that is not 0 and begins the string begins its text.
head_step : (s : List ℕ) (c : ℕ) → c ≢ 0 → (head s == c) ≡ true → c_text s ≡ c ∷ c_text (tail s)
unfolding c_text
head_step [] c ne h = ground arith
head_step (d ∷ s) c ne h = ground arith

head_back :
    (s : List ℕ) (c : ℕ) (r : List ℕ)
    → c_text s ≡ c ∷ r
    → ((head s == c) ≡ true) × (c_text (tail s) ≡ r)
unfolding c_text
head_back [] c r h = cc
head_back (d ∷ s) c r h = ground arith

module _ (s : List ℕ) where
  starts_sound : starts_hello s ≡ true → (b : List ℕ) × (c_text s ≡ hello ++ b)
  starts_sound h =
      let t₁ = tail s in
      let t₂ = tail t₁ in
      let t₃ = tail t₂ in
      let t₄ = tail t₃ in
      (
        c_text (tail t₄),
        cc (
          head_step s b'h' (omega arith) (ground arith),
          head_step t₁ b'e' (omega arith) (ground arith),
          head_step t₂ b'l' (omega arith) (ground arith),
          head_step t₃ b'l' (omega arith) (ground arith),
          head_step t₄ b'o' (omega arith) (ground arith),
        ),
      )

  starts_complete : (b : List ℕ) → c_text s ≡ hello ++ b → starts_hello s ≡ true
  starts_complete b e =
      let (h₁, e₁) = head_back s b'h' _ e in
      let (h₂, e₂) = head_back (tail s) b'e' _ e₁ in
      let (h₃, e₃) = head_back (tail (tail s)) b'l' _ e₂ in
      let (h₄, e₄) = head_back (tail (tail (tail s))) b'l' _ e₃ in
      let (h₅, e₅) = head_back (tail (tail (tail (tail s)))) b'o' _ e₄ in rw (h₁, h₂, h₃, h₄, h₅)

abbrev pub Contains : List ℕ → List ℕ → Type 0
Contains word text = (a : List ℕ) × (b : List ℕ) × (text ≡ a ++ (word ++ b))

c_text-cons : (c : ℕ) (s : List ℕ) → (c == 0) ≡ false → c_text (c ∷ s) ≡ c ∷ c_text s
unfolding c_text
c_text-cons c s e = rw e

c_text-nul : (c : ℕ) (s : List ℕ) → (c == 0) ≡ true → c_text (c ∷ s) ≡ []
unfolding c_text
c_text-nul c s e = rw e

c_text_nil : c_text [] ≡ []
unfolding c_text
c_text_nil = refl

not_in_nil : (t : List ℕ) → t ≡ [] → Contains hello t → ⊥
not_in_nil t e ([], b, h) = cc
not_in_nil t e (x ∷ a, b, h) = cc

is_hello_sound : (s : List ℕ) → is_hello s ≡ true → Contains hello (c_text s)
unfolding is_hello
is_hello_sound [] h = cc
is_hello_sound (c ∷ s) h = elim (Bool-cases (c == 0)) [
  | inl e ↦ absurd (ground arith)
  | inr e ↦ elim (Bool-cases (starts_hello (c ∷ s))) [
    | inl starts ↦ let (b, found) = starts_sound (c ∷ s) starts in ([], b, found)
    | inr other ↦
        let (a, b, found) = is_hello_sound s (ground arith) in
        (c ∷ a, b, c_text-cons c s e ∙ ap (λ t. c ∷ t) found)
  ]
]

tail_Contains :
    (c : ℕ) (s : List ℕ)
    → (c == 0) ≡ false
    → starts_hello (c ∷ s) ≡ false
    → Contains hello (c_text (c ∷ s))
    → Contains hello (c_text s)
tail_Contains c s e other ([], b, h) = absurd (cc (starts_complete (c ∷ s) b h, other))
tail_Contains c s e other (x ∷ a, b, h) = (a, b, cc (c_text-cons c s e, h))

is_hello_complete : (s : List ℕ) → Contains hello (c_text s) → is_hello s ≡ true
unfolding is_hello
is_hello_complete [] h = absurd (not_in_nil _ (c_text_nil) h)
is_hello_complete (c ∷ s) h = elim (Bool-cases (c == 0)) [
  | inl e ↦ absurd (not_in_nil _ (c_text-nul c s e) h)
  | inr e ↦ elim (Bool-cases (starts_hello (c ∷ s))) [
    | inl starts ↦ rw (e, starts)
    | inr other ↦ rw (e, other) (is_hello_complete s (tail_Contains c s e other h))
  ]
]

-- The program counts as a "hello" program exactly when its name contains that word.
pub is_hello_iff : (s : List ℕ) → (is_hello s ≡ true) ↔ Contains hello (c_text s)
is_hello_iff s = (is_hello_sound s, is_hello_complete s)

-- The exit code by the name.
abbrev pub exit_code_of : List ℕ → ℕ
exit_code_of name = if head name == 0 then 0 else if is_hello name then 55 else 42

-- The exit code depends on the text of the name only.
is_hello-yes : (s t : List ℕ) → c_text s ≡ c_text t → is_hello s ≡ true → is_hello t ≡ true
is_hello-yes s t e h = (is_hello_iff t).1 (subst (Contains hello) e ((is_hello_iff s).0 h))

is_hello-text : (s t : List ℕ) → c_text s ≡ c_text t → is_hello s ≡ is_hello t
is_hello-text s t e = elim (Bool-cases (is_hello s)) [
  | inl h ↦ h ∙ sym (is_hello-yes s t e h)
  | inr h ↦ elim (Bool-cases (is_hello t)) [
    | inr h' ↦ h ∙ sym h'
    | inl h' ↦ absurd (ground (arith, is_hello-yes t s (sym e) h'))
  ]
]

-- A string that begins with its end has no text.
abbrev no_text : List ℕ → Bool
no_text [] = true
no_text (c ∷ s) = false

head-text : (s : List ℕ) → (head s == 0) ≡ no_text (c_text s)
unfolding c_text
head-text [] = refl
head-text (c ∷ s) = ground arith

pub exit_code_of-text : (s t : List ℕ) → c_text s ≡ c_text t → exit_code_of s ≡ exit_code_of t
exit_code_of-text s t e = rw (head-text s ∙ (ap no_text e ∙ sym (head-text t)), is_hello-text s t e)
