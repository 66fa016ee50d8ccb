-- ===== src/SystemCommands/Registry.antt =====
-- The registry after shell_init answers to each of its commands.
use os_from_zero.Base.{
  ℕ, zero, suc, ◌<◌, ◌≡◌, ◌≢◌, refl, ap, ◌∙◌, Bool, true, false, ◌&&◌, not, some, List, [], ◌∷◌,
  ◌++◌, ◌==◌, arith, get_elem?, length, replicate, ltb, if_true,
}
use os_from_zero.Strings.{head, strcmp}
use os_from_zero.Strings.Compare.{strcmp_refl}
use os_from_zero.Shell.{
  CommandEntry, is_zero, register_command, find_command, execute_command, call, argument,
  command_name_size,
}
use os_from_zero.Shell.Dispatch.{IsWord, execute_command-call}
use os_from_zero.SystemCommands.Start.{
  Function, register_all, all_commands, shell_init, system_commands, math_commands,
  filesystem_commands, audio_commands, game_commands, execution_commands, window_example_commands,
  gpu_commands,
}

abbrev is_word : List ℕ → Bool
is_word [] = true
is_word (c ∷ s) = not (c == 0) && (not (c == b' ') && is_word s)

is_word-IsWord : (s : List ℕ) → is_word s ≡ true → IsWord s
is_word-IsWord [] h = tt
is_word-IsWord (c ∷ s) h = ground (arith, is_word-IsWord s)

module _ {ℓ} {C : Type ℓ} where
  -- No command has this name,
  abbrev none_named : List ℕ → List (CommandEntry C) → Bool
  none_named name [] = true
  none_named name (c ∷ cs) = not (is_zero (strcmp name c.name)) && none_named name cs

  -- no name stands twice,
  abbrev names_differ : List (CommandEntry C) → Bool
  names_differ [] = true
  names_differ (c ∷ cs) = none_named c.name cs && names_differ cs

  -- and each name is a word of 1 to 63 characters.
  abbrev names_fit : List (CommandEntry C) → Bool
  names_fit [] = true
  names_fit (c ∷ cs) =
      (is_word c.name && (ltb 0 (length c.name) && ltb (length c.name) command_name_size))
      && names_fit cs

  none_named-get :
      (name : List ℕ) (cs : List (CommandEntry C)) (i : ℕ) (c : CommandEntry C)
      → none_named name cs ≡ true
      → get_elem? cs i ≡ some c
      → is_zero (strcmp name c.name) ≡ false
  none_named-get name [] i c h e = cc
  none_named-get name (d ∷ cs) zero c h e = let same : d ≡ c = cc in rw⁻¹ same (ground arith)
  none_named-get name (d ∷ cs) (suc i) c h e = none_named-get name cs i c (ground arith) e

  find_command-get :
      (cs : List (CommandEntry C)) (i : ℕ) (c : CommandEntry C)
      → names_differ cs ≡ true
      → get_elem? cs i ≡ some c
      → find_command cs c.name ≡ some c
  unfolding find_command
  find_command-get [] i c h e = cc
  find_command-get (d ∷ cs) zero c h e =
      let same : d ≡ c = cc in
      if_true (is_zero (strcmp d.name c.name)) _ _ (
        ap (λ (b : CommandEntry C). is_zero (strcmp b.name c.name)) same
        ∙ ap is_zero (strcmp_refl c.name c.name refl))
      ∙ e
  find_command-get (d ∷ cs) (suc i) c h e =
      rw (none_named-get d.name cs i c (ground arith) e) (find_command-get cs i c (ground arith) e)

  names_fit-get :
      (cs : List (CommandEntry C)) (i : ℕ) (c : CommandEntry C)
      → names_fit cs ≡ true
      → get_elem? cs i ≡ some c
      → (is_word c.name ≡ true) × (0 < length c.name) × (length c.name < command_name_size)
  names_fit-get [] i c h e = cc
  names_fit-get (d ∷ cs) zero c h e =
      let same : d ≡ c = cc in rw⁻¹ same (ground arith, ground arith, ground arith)
  names_fit-get (d ∷ cs) (suc i) c h e = names_fit-get cs i c (ground arith) e

-- None of the commands is refused.
shell_init-all : shell_init ≡ all_commands
unfolding shell_init register_all register_command all_commands system_commands math_commands
    filesystem_commands audio_commands game_commands execution_commands window_example_commands
    gpu_commands
shell_init-all = refl

shell_init-differ : names_differ shell_init ≡ true
unfolding shell_init register_all register_command all_commands system_commands math_commands
    filesystem_commands audio_commands game_commands execution_commands window_example_commands
    gpu_commands strcmp
shell_init-differ = refl

shell_init-fit : names_fit shell_init ≡ true
unfolding shell_init register_all register_command all_commands system_commands math_commands
    filesystem_commands audio_commands game_commands execution_commands window_example_commands
    gpu_commands
shell_init-fit = refl

called :
    (c : CommandEntry Function) (name : List ℕ) (n : ℕ) (rest : List ℕ)
    → IsWord name
    → 0 < length name
    → length name < command_name_size
    → head rest ≢ b' '
    → (n ≡ 0 → rest ≡ [])
    → find_command shell_init name ≡ some c
    → execute_command shell_init (name ++ (replicate n b' ' ++ rest)) ≡ call c.func (argument rest)
called c [] n rest word some_name short start no_space found = absurd (omega arith)
called c (x ∷ w) n rest word some_name short start no_space found =
    execute_command-call shell_init x w n rest c word short start no_space found

-- Each command that shell_init registers is called by a line of its name, spaces and a rest that
-- does not begin with one: it is given the rest, or NULL if there is none; without a space there is
-- no rest. So none is refused for want of room, and none hides another.
pub shell_init-calls :
    (i : ℕ) (c : CommandEntry Function) (n : ℕ) (rest : List ℕ)
    → get_elem? all_commands i ≡ some c
    → head rest ≢ b' '
    → (n ≡ 0 → rest ≡ [])
    → execute_command shell_init (c.name ++ (replicate n b' ' ++ rest))
      ≡ call c.func (argument rest)
shell_init-calls i c n rest at start no_space =
    let there : get_elem? shell_init i ≡ some c = ap (λ l. get_elem? l i) shell_init-all ∙ at in
    let (word, some_name, short) = names_fit-get shell_init i c shell_init-fit there in
    called c c.name n rest (is_word-IsWord c.name word) some_name short start no_space
      (find_command-get shell_init i c shell_init-differ there)
