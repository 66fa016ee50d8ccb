-- ===== src/Shell/Dispatch.antt =====
-- How execute_command takes a line apart.
use os_from_zero.Base.{
  ℕ, zero, suc, ◌<◌, ◌≡◌, ◌≢◌, refl, ap, ◌∙◌, false, some, List, [], ◌∷◌, ◌++◌, arith, ◌==◌, leb,
  length, replicate, ◌⊎◌, if_false, inl, inr,
}
use os_from_zero.Strings.{head, strlen}
use os_from_zero.Shell.{
  CommandEntry, call, find_command, split_word, skip_spaces, argument, execute_command, run_found,
  command_name_size,
}

-- A word has no spaces, and no 0.
abbrev pub IsWord : List ℕ → Type 0
IsWord [] = Unit {0}
IsWord (c ∷ s) = (c ≢ 0) × (c ≢ b' ') × IsWord s

pub split_word_lem :
    (w rest : List ℕ)
    → IsWord w
    → (head rest ≡ b' ') ⊎ (rest ≡ [])
    → split_word (w ++ rest) ≡ (w, rest)
unfolding split_word
split_word_lem [] [] h e = refl
split_word_lem [] (c ∷ rest) h (inl e) = ground arith
split_word_lem [] (c ∷ rest) h (inr e) = cc
split_word_lem (c ∷ w) rest h e = ground (arith, split_word_lem w rest h.2 e)

pub skip_spaces_lem :
    (n : ℕ) (rest : List ℕ) → head rest ≢ b' ' → skip_spaces (replicate n b' ' ++ rest) ≡ rest
unfolding skip_spaces
skip_spaces_lem zero [] h = refl
skip_spaces_lem zero (c ∷ rest) h = ground arith
skip_spaces_lem (suc n) rest h = skip_spaces_lem n rest h

pub strlen_pos : (c : ℕ) (s : List ℕ) → c ≢ 0 → (strlen (c ∷ s) == 0) ≡ false
unfolding strlen
strlen_pos c s h = ground arith

head-spaces :
    (n : ℕ) (rest : List ℕ)
    → (n ≡ 0 → rest ≡ [])
    → (head (replicate n b' ' ++ rest) ≡ b' ') ⊎ (replicate n b' ' ++ rest ≡ [])
head-spaces zero rest h = inr (h refl)
head-spaces (suc n) rest h = inl refl

-- A line of a word of fewer than 64 characters, spaces, and a rest that does not begin with one,
-- calls the command that the registry finds for the word. It is given the rest, or NULL if there
-- is none; without a space there is no rest.
pub execute_command-call {ℓ} :
    {C : Type ℓ} (cs : List (CommandEntry C)) (x : ℕ) (w : List ℕ) (n : ℕ) (rest : List ℕ)
    (c : CommandEntry C)
    → IsWord (x ∷ w)
    → length (x ∷ w) < command_name_size
    → head rest ≢ b' '
    → (n ≡ 0 → rest ≡ [])
    → find_command cs (x ∷ w) ≡ some c
    → execute_command cs ((x ∷ w) ++ (replicate n b' ' ++ rest)) ≡ call c.func (argument rest)
unfolding execute_command
execute_command-call cs x w n rest c word short start none_left found =
    let rest_of_line = replicate n b' ' ++ rest in
    let split = split_word_lem (x ∷ w) rest_of_line word (head-spaces n rest none_left) in
    rw (strlen_pos x (w ++ rest_of_line) word.0) (
      rw split (
        if_false (leb 64 (length (x ∷ w))) _ _ (ground (arith, short))
        ∙ (ap (λ o. run_found o (x ∷ w) (skip_spaces rest_of_line)) found
            ∙ ap (λ r. call c.func (argument r)) (skip_spaces_lem n rest start))))
