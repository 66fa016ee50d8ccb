-- ===== src/SystemCommands/Listing.antt =====
-- cmd_help shows each command once.
use Prim.Native.String.{String}
use mathlib.Core.List.{Perm}
use mathlib.Core.Path.{subst}
use os_from_zero.Base.{
  ◌+◌, ◌≤◌, ◌≡◌, refl, ap, sym, ◌∙◌, true, some, List, [], ◌∷◌, ◌++◌, arith, length, if_true,
  if_false, Bool-cases, inl, inr, length-append, ltb, ◌>>=◌, Output, print, print_text, map,
}
use os_from_zero.Shell.{CommandEntry, max_commands}
use os_from_zero.SystemCommands.{
  same_text, known, add_category, collect, of_category, help_lines, sections, cmd_help,
}
use os_from_zero.SystemCommands.Help.{
  matches, known-matches, unknown-matches, AllOnce, AllOnce-append, listed, AllFound, listed-Perm,
  kept_before, found_last,
}

-- What the categories are after another command.
record Added (cs cs' : List String) (category : String) : Type 0 where
  once : AllOnce cs'
  found : 1 ≤ matches category cs'
  kept : (x : String) → 1 ≤ matches x cs → 1 ≤ matches x cs'
  longer : length cs' ≤ length cs + 1

add_category-Added :
    (cs : List String) (category : String)
    → AllOnce cs
    → length cs + 1 ≤ max_commands
    → (cs' : List String) × (add_category cs category ≡ some cs') × Added cs cs' category
unfolding add_category
add_category-Added cs category once room = elim (Bool-cases (known cs category)) [
  | inl e ↦ (
    cs,
    if_true (known cs category) _ _ e,
    record {
      once = once;
      found = known-matches cs category e;
      kept = λ x h. h;
      longer = omega arith;
    },
  )
  | inr e ↦
      let none_yet = unknown-matches cs category e in
      (
        cs ++ (category ∷ []),
        if_false (known cs category) _ _ e
            ∙ if_true (ltb (length cs) max_commands) _ _ (ground arith),
        record {
          once = AllOnce-append cs category once none_yet;
          found = found_last cs category none_yet;
          kept = λ x h. kept_before cs category x h;
          longer = omega (arith, length-append cs (category ∷ []));
        },
      )
]

module _ {ℓ} {C : Type ℓ} where
  AllFound-kept :
      (commands : List (CommandEntry C)) (cs cs' : List String)
      → ((x : String) → 1 ≤ matches x cs → 1 ≤ matches x cs')
      → AllFound commands cs
      → AllFound commands cs'
  AllFound-kept [] cs cs' kept h = tt
  AllFound-kept (c ∷ commands) cs cs' kept (here, rest) =
      (kept c.category here, AllFound-kept commands cs cs' kept rest)

  collect_lem :
      (commands : List (CommandEntry C)) (cs : List String)
      → AllOnce cs
      → length cs + length commands ≤ max_commands
      → (cs' : List String) × (collect commands cs ≡ some cs')
        × AllOnce cs'
        × AllFound commands cs'
        × ((x : String) → 1 ≤ matches x cs → 1 ≤ matches x cs')
  unfolding collect
  collect_lem [] cs once room = (cs, refl, once, tt, λ x h. h)
  collect_lem (c ∷ commands) cs once room =
      let (cs₁, run, added) = add_category-Added cs c.category once (omega arith) in
      let longer = added.longer in
      let (cs₂, run₂, once₂, found₂, kept₂) = collect_lem commands cs₁ (added.once) (omega arith) in
      (
        cs₂,
        ap (λ o. o >>= λ k. collect commands k) run ∙ run₂,
        once₂,
        (kept₂ c.category (added.found), found₂),
        λ x h. kept₂ x (added.kept x h),
      )

  -- A section is a category with the commands it lists, a line for each.
  abbrev pub lines : List (CommandEntry C) → List Output
  lines [] = []
  lines (c ∷ cs) =
      (print "  " ∷ print_text c.name ∷ print " - " ∷ print c.description ∷ print "\n" ∷ [])
      ++ lines cs

  abbrev pub page : List (String × List (CommandEntry C)) → List Output
  page [] = []
  page ((category, cs) ∷ groups) =
      (print category ∷ print " Commands:\n" ∷ [])
      ++ (lines cs ++ ((print "\n" ∷ []) ++ page groups))

  abbrev pub titles : List (String × List (CommandEntry C)) → List String
  titles groups = map (λ g. g.0) groups

  abbrev pub members : List (String × List (CommandEntry C)) → List (CommandEntry C)
  members [] = []
  members ((category, cs) ∷ groups) = cs ++ members groups

  abbrev pub AllOfCategory : String → List (CommandEntry C) → Type 0
  AllOfCategory category [] = Unit {0}
  AllOfCategory category (c ∷ cs) =
      (same_text c.category category ≡ true) × AllOfCategory category cs

  abbrev pub AllSorted : List (String × List (CommandEntry C)) → Type 0
  AllSorted [] = Unit {0}
  AllSorted ((category, cs) ∷ groups) = AllOfCategory category cs × AllSorted groups

  abbrev groups_of : List (CommandEntry C) → List String → List (String × List (CommandEntry C))
  groups_of commands [] = []
  groups_of commands (category ∷ categories) =
      (category, of_category category commands) ∷ groups_of commands categories

  help_lines-lines : (cs : List (CommandEntry C)) → help_lines cs ≡ lines cs
  help_lines-lines [] = refl
  help_lines-lines (c ∷ cs) =
      ap
        (λ ls. print "  " ∷ print_text c.name ∷ print " - " ∷ print c.description ∷ print "\n" ∷ ls)
        (help_lines-lines cs)

  sections-page :
      (commands : List (CommandEntry C)) (cs : List String)
      → sections commands cs ≡ page (groups_of commands cs)
  unfolding sections
  sections-page commands [] = refl
  sections-page commands (k ∷ cs) =
      ap (λ ls. print k ∷ print " Commands:\n" ∷ (ls ++ (print "\n" ∷ sections commands cs)))
        (help_lines-lines (of_category k commands))
      ∙ ap
          (λ rest.
            print k
            ∷ print " Commands:\n"
            ∷ (lines (of_category k commands) ++ (print "\n" ∷ rest)))
          (sections-page commands cs)

  titles-groups_of :
      (commands : List (CommandEntry C)) (cs : List String) → titles (groups_of commands cs) ≡ cs
  titles-groups_of commands [] = refl
  titles-groups_of commands (k ∷ cs) = ap (λ ks. k ∷ ks) (titles-groups_of commands cs)

  members-groups_of :
      (commands : List (CommandEntry C)) (cs : List String)
      → members (groups_of commands cs) ≡ listed commands cs
  members-groups_of commands [] = refl
  members-groups_of commands (k ∷ cs) =
      ap (λ l. of_category k commands ++ l) (members-groups_of commands cs)

  of_category-AllOfCategory :
      (k : String) (commands : List (CommandEntry C)) → AllOfCategory k (of_category k commands)
  unfolding of_category
  of_category-AllOfCategory k [] = tt
  of_category-AllOfCategory k (c ∷ cs) = elim (Bool-cases (same_text c.category k)) [
    | inl e ↦ rw e (e, of_category-AllOfCategory k cs)
    | inr e ↦ rw e (of_category-AllOfCategory k cs)
  ]

  groups_of-AllSorted :
      (commands : List (CommandEntry C)) (cs : List String) → AllSorted (groups_of commands cs)
  groups_of-AllSorted commands [] = tt
  groups_of-AllSorted commands (k ∷ cs) =
      (of_category-AllOfCategory k commands, groups_of-AllSorted commands cs)

  -- cmd_help on a registry of at most 64 commands shows, between its first and its last line, a
  -- page of sections with a title, a line for each of their commands and a blank line. No two of
  -- the titles are the same category, the commands of a section have its category, and the
  -- sections together list every command exactly once.
  pub cmd_help_lem :
      (commands : List (CommandEntry C))
      → length commands ≤ max_commands
      → (groups : List (String × List (CommandEntry C))) × (cmd_help commands
          ≡ some (
              (print "Available commands:\n\n" ∷ page groups)
              ++ (print "Type 'help <command>' for detailed usage information.\n" ∷ [])))
        × AllOnce (titles groups)
        × AllSorted groups
        × Perm (members groups) commands
  unfolding cmd_help
  cmd_help_lem commands few =
      let (cs, run, once, found, kept) = collect_lem commands [] (λ x. omega arith) (omega arith) in
      (
        groups_of commands cs,
        ap
              (λ o. o >>= λ categories. some (
                (print "Available commands:\n\n" ∷ sections commands categories)
                ++ (print "Type 'help <command>' for detailed usage information.\n" ∷ [])))
              run
            ∙ ap
                (λ p. some (
                  (print "Available commands:\n\n" ∷ p)
                  ++ (print "Type 'help <command>' for detailed usage information.\n" ∷ [])))
                (sections-page commands cs),
        subst AllOnce (sym (titles-groups_of commands cs)) once,
        groups_of-AllSorted commands cs,
        subst (λ l. Perm l commands) (sym (members-groups_of commands cs))
            (listed-Perm commands cs once found),
      )
