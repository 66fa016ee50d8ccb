-- ===== src/SystemCommands/Help.antt =====
-- Lists of commands, category by category.
use Prim.Native.String.{String}
use mathlib.Core.List.{Perm, perm_middle}
use mathlib.Core.List.Perm
use os_from_zero.Base.{
  ℕ, suc, ◌+◌, ◌≤◌, ◌≡◌, refl, ap, sym, ◌∙◌, Bool, true, false, List, [], ◌∷◌, ◌++◌, arith,
  if◌then◌else◌, Bool-cases, inl, inr, ◌↔◌, codes,
}
use os_from_zero.Base.Int.{ℤ, pos, negsuc}
use os_from_zero.Strings.{strcmp}
use os_from_zero.Strings.Text.{c_text}
use os_from_zero.Strings.Compare.{strcmp-eq-zero_iff}
use os_from_zero.Shell.{CommandEntry, is_zero}
use os_from_zero.SystemCommands.{same_text, known, of_category}

bool_ext : (p q : Bool) → (p ≡ true → q ≡ true) → (q ≡ true → p ≡ true) → p ≡ q
bool_ext true true f g = refl
bool_ext false false f g = refl
bool_ext true false f g = sym (f refl)
bool_ext false true f g = g refl

is_zero_iff : (z : ℤ) → (is_zero z ≡ true) ↔ (z ≡ pos 0)
is_zero_iff (pos n) = (λ h. ap pos (ground arith), λ h. cc)
is_zero_iff (negsuc n) = (λ h. cc, λ h. ap is_zero h)

-- Two categories are the same when their texts are.
same_text_iff : (a b : String) → (same_text a b ≡ true) ↔ (c_text (codes a) ≡ c_text (codes b))
same_text_iff a b =
    let (f, g) = is_zero_iff (strcmp (codes a) (codes b)) in
    let (f', g') = strcmp-eq-zero_iff (codes a) (codes b) in (λ h. f' (f h), λ h. g (g' h))

same_text_comm : (a b : String) → same_text a b ≡ same_text b a
same_text_comm a b =
    bool_ext (same_text a b) (same_text b a)
      (λ h. (same_text_iff b a).1 (sym ((same_text_iff a b).0 h)))
      (λ h. (same_text_iff a b).1 (sym ((same_text_iff b a).0 h)))

same_text-left : (a b c : String) → same_text a b ≡ true → same_text a c ≡ same_text b c
same_text-left a b c e =
    let key = (same_text_iff a b).0 e in
    bool_ext (same_text a c) (same_text b c)
      (λ h. (same_text_iff b c).1 (sym key ∙ (same_text_iff a c).0 h))
      (λ h. (same_text_iff a c).1 (key ∙ (same_text_iff b c).0 h))

-- How many of the categories are this one.
abbrev pub matches : String → List String → ℕ
matches x [] = 0
matches x (c ∷ cs) = if same_text x c then suc (matches x cs) else matches x cs

matches-left :
    (x y : String) (cs : List String) → same_text x y ≡ true → matches x cs ≡ matches y cs
matches-left x y [] e = refl
matches-left x y (c ∷ cs) e = rw (same_text-left x y c e, matches-left x y cs e)

matches-append :
    (x y : String) (cs : List String)
    → matches x (cs ++ (y ∷ [])) ≡ matches x cs + (if same_text x y then 1 else 0)
matches-append x y [] = ground arith
matches-append x y (c ∷ cs) = ground (arith, matches-append x y cs)

pub known-matches : (cs : List String) (x : String) → known cs x ≡ true → 1 ≤ matches x cs
unfolding known
known-matches [] x h = cc
known-matches (c ∷ cs) x h =
    let flip = same_text_comm c x in ground (arith, flip, known-matches cs x)

pub unknown-matches : (cs : List String) (x : String) → known cs x ≡ false → matches x cs ≡ 0
unfolding known
unknown-matches [] x h = refl
unknown-matches (c ∷ cs) x h =
    let flip = same_text_comm c x in ground (arith, flip, unknown-matches cs x)

pub kept_before :
    (cs : List String) (y x : String) → 1 ≤ matches x cs → 1 ≤ matches x (cs ++ (y ∷ []))
kept_before cs y x h = ground (arith, matches-append x y cs)

same_text_refl : (x : String) → same_text x x ≡ true
same_text_refl x = (same_text_iff x x).1 refl

pub found_last : (cs : List String) (x : String) → matches x cs ≡ 0 → 1 ≤ matches x (cs ++ (x ∷ []))
found_last cs x h = ground (arith, matches-append x x cs, same_text_refl x)

-- No category stands twice.
abbrev pub AllOnce : List String → Type 0
AllOnce cs = (x : String) → matches x cs ≤ 1

pub AllOnce-append :
    (cs : List String) (y : String) → AllOnce cs → matches y cs ≡ 0 → AllOnce (cs ++ (y ∷ []))
AllOnce-append cs y once none_yet x = elim (Bool-cases (same_text x y)) [
  | inl e ↦ ground (arith, matches-append x y cs, matches-left x y cs e)
  | inr e ↦ ground (arith, matches-append x y cs, once x)
]

module _ {ℓ} {C : Type ℓ} where
  -- The commands, category by category.
  abbrev pub listed : List (CommandEntry C) → List String → List (CommandEntry C)
  listed commands [] = []
  listed commands (category ∷ categories) =
      of_category category commands ++ listed commands categories

  abbrev pub AllFound : List (CommandEntry C) → List String → Type 0
  AllFound [] cs = Unit {0}
  AllFound (c ∷ commands) cs = (1 ≤ matches c.category cs) × AllFound commands cs

  listed-none :
      (c : CommandEntry C) (commands : List (CommandEntry C)) (cs : List String)
      → matches c.category cs ≡ 0
      → listed (c ∷ commands) cs ≡ listed commands cs
  unfolding of_category
  listed-none c commands [] h = refl
  listed-none c commands (k ∷ cs) h = elim (Bool-cases (same_text c.category k)) [
    | inl e ↦ absurd (ground arith)
    | inr e ↦ rw e (ap (λ l. of_category k commands ++ l) (listed-none c commands cs (rw e at h)))
  ]

  listed-once :
      (c : CommandEntry C) (commands : List (CommandEntry C)) (cs : List String)
      → matches c.category cs ≡ 1
      → Perm (listed (c ∷ commands) cs) (c ∷ listed commands cs)
  unfolding of_category
  listed-once c commands [] h = absurd (ground arith)
  listed-once c commands (k ∷ cs) h = elim (Bool-cases (same_text c.category k)) [
    | inl e ↦ rw (e, listed-none c commands cs (ground arith)) (Perm.refl _)
    | inr e ↦ rw e (
        Perm.trans
          (Perm.append_left (of_category k commands) (listed-once c commands cs (rw e at h)))
          (perm_middle (of_category k commands) (listed commands cs)))
  ]

  listed-nil : (cs : List String) → listed [] cs ≡ []
  unfolding of_category
  listed-nil [] = refl
  listed-nil (k ∷ cs) = listed-nil cs

  pub listed-Perm :
      (commands : List (CommandEntry C)) (cs : List String)
      → AllOnce cs
      → AllFound commands cs
      → Perm (listed commands cs) commands
  listed-Perm [] cs once found = rw (listed-nil cs) (Perm.refl [])
  listed-Perm (c ∷ commands) cs once (here, found) =
      Perm.trans (listed-once c commands cs (omega (arith, once c.category)))
        (Perm.cons c (listed-Perm commands cs once found))
