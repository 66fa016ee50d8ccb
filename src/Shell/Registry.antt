-- ===== src/Shell/Registry.antt =====
-- The command registry: which registration a name finds.
use os_from_zero.Base.{
  ℕ, ◌+◌, ◌<◌, ◌≤◌, ◌≡◌, refl, true, false, Option, none, some, List, [], ◌∷◌, ◌++◌, arith, leb,
  if◌then◌else◌, length, length-append, Bool-cases, inl, inr,
}
use os_from_zero.Strings.{strcmp}
use os_from_zero.Shell.{CommandEntry, max_commands, register_command, find_command, is_zero}

abbrev pub or_else {ℓ} : {A : Type ℓ} → Option A → Option A → Option A
or_else none o = o
or_else (some a) o = some a

module _ {ℓ} {C : Type ℓ} where
  find-append :
      (cs : List (CommandEntry C)) (c : CommandEntry C) (name : List ℕ)
      → find_command (cs ++ (c ∷ [])) name
        ≡ or_else (find_command cs name) (if is_zero (strcmp c.name name) then some c else none)
  unfolding find_command
  find-append [] c name = refl
  find-append (d ∷ cs) c name = elim (Bool-cases (is_zero (strcmp d.name name))) [
    | inl e ↦ rw e
    | inr e ↦ rw e (find-append cs c name)
  ]

  -- While fewer than 64 commands are registered, register_command accepts one more. A name then
  -- finds what it found before, and the new command only if it found nothing: the first
  -- registration of a name stays. With 64 commands it refuses and changes nothing.
  pub register_command_lem :
      (cs : List (CommandEntry C)) (c : CommandEntry C) (name : List ℕ)
      → (length cs < max_commands
          → ((register_command cs c).0 ≡ true)
            × (length (register_command cs c).1 ≡ length cs + 1)
            × (find_command (register_command cs c).1 name
                ≡ or_else
                    (find_command cs name)
                    (if is_zero (strcmp c.name name) then some c else none)))
        × (max_commands ≤ length cs → register_command cs c ≡ (false, cs))
  unfolding register_command
  register_command_lem cs c name = elim (Bool-cases (leb max_commands (length cs))) [
    | inl full ↦ (λ room. absurd (ground arith), λ _. rw full)
    | inr room ↦ (
      λ _. (rw room, rw room (length-append cs (c ∷ [])), rw room (find-append cs c name)),
      λ full. absurd (ground arith),
    )
  ]
