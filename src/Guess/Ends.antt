-- ===== src/Guess/Ends.antt =====
-- The game of guessing a number comes to an end.
use os_from_zero.Base.{
  ℕ, zero, suc, ◌+◌, ◌-◌, ◌*◌, ◌^◌, ◌<◌, ◌≤◌, ◌≡◌, refl, ap, ◌∙◌, Bool, true, false, ◌&&◌, Option,
  some, List, [], ◌∷◌, ◌++◌, arith, leb, ltb, length, Bool-cases, inl, inr, if_true, if_false,
  Output, print, print_text, ◌>>=◌,
}
use os_from_zero.Base.Int.{ℤ}
use os_from_zero.Strings.{strcmp}
use os_from_zero.Shell.{is_zero}
use os_from_zero.Decimal.More.{int_to_string_fits}
use os_from_zero.TicTacToe.{quit_text}
use os_from_zero.TicTacToe.Input.{string_to_int_fits}
use os_from_zero.Guess.{
  GuessEnd, max_attempts, guess_seed, guess_lines, shown_number, attempt_prompt, quit_shown,
  won_shown, hints, lost_shown, in_front, judged, answered, is_target, too_low_or_high,
  guess_welcome, guess_target, play_guess, cmd_guess_number,
}

-- The game is over; if it is won, in at most seven attempts.
abbrev pub is_over : GuessEnd → Bool
is_over (GuessEnd.waiting n) = false
is_over (GuessEnd.won n) = leb 1 n && leb n max_attempts
is_over GuessEnd.quit = true
is_over GuessEnd.lost = true

abbrev pub AllShort : List (List ℕ × List Output) → Type 0
AllShort [] = Unit {0}
AllShort ((input, echo) ∷ inputs) = (length input ≤ 9) × AllShort inputs

abbrev Printable : Option (List Output) → Type 0
Printable o = (text : List Output) × (o ≡ some text)

pub shown_number_fits : (n : ℕ) → n < 1000 → (text : Output) × (shown_number n ≡ some text)
unfolding shown_number
shown_number_fits n small = let (b, run) = int_to_string_fits n small in (print_text b, rw run refl)

-- Every text of the game has room, as no number has more than three digits.
attempt_prompt_fits : (attempts : ℕ) → attempts < 7 → Printable (attempt_prompt attempts)
unfolding attempt_prompt
attempt_prompt_fits attempts few =
    let (now, run) = shown_number_fits (attempts + 1) (omega (arith, few)) in
    let (all, more) = shown_number_fits max_attempts (omega arith) in
    (
      print "Attempt " ∷ now ∷ print "/" ∷ all ∷ print " - Enter your guess: " ∷ [],
      rw (run, more) refl,
    )

quit_shown_fits : (target : ℕ) → target < 1000 → Printable (quit_shown target)
unfolding quit_shown
quit_shown_fits target small =
    let (number, run) = shown_number_fits target small in
    (print "Thanks for playing! The number was " ∷ number ∷ print ".\n" ∷ [], rw run refl)

lost_shown_fits : (target : ℕ) → target < 1000 → Printable (lost_shown target)
unfolding lost_shown
lost_shown_fits target small =
    let (number, run) = shown_number_fits target small in
    (
      print "😞 Game Over! You ran out of attempts.\n"
          ∷ print "The number was "
          ∷ number
          ∷ print ". Better luck next time!\n"
          ∷ print "\nThanks for playing! Type 'guess' to play again.\n"
          ∷ [],
      rw run refl,
    )

both_shown :
    (a b : Option Output) (f : Output → Output → List Output)
    → ((x : Output) × (a ≡ some x))
    → ((y : Output) × (b ≡ some y))
    → Printable (a >>= λ x. b >>= λ y. some (f x y))
both_shown a b f (x, p) (y, q) =
    (f x y, ap (λ u. u >>= λ v. b >>= λ w. some (f v w)) p ∙ ap (λ u. u >>= λ w. some (f x w)) q)

won_shown_fits :
    (target attempts : ℕ) → target < 1000 → attempts ≤ 7 → Printable (won_shown target attempts)
unfolding won_shown
won_shown_fits target attempts small few =
    both_shown (shown_number target) (shown_number attempts) _ (shown_number_fits target small)
      (shown_number_fits attempts (omega (arith, few)))

one_shown :
    (a : Option Output) (f : Output → List Output)
    → ((x : Output) × (a ≡ some x))
    → Printable (a >>= λ x. some (f x))
one_shown a f (x, p) = (f x, ap (λ u. u >>= λ v. some (f v)) p)

hints_fits : (target attempts : ℕ) → attempts ≤ 7 → Printable (hints target attempts)
unfolding hints
hints_fits target attempts few = elim (Bool-cases (ltb attempts max_attempts)) [
  | inl left ↦
      let (text, run) =
        one_shown (shown_number (max_attempts - attempts)) _
          (shown_number_fits (max_attempts - attempts) (omega arith)) in
      (text, if_true (ltb attempts max_attempts) _ _ left ∙ run)
  | inr none_left ↦ ([], if_false (ltb attempts max_attempts) _ _ none_left)
]

abbrev Ended : Option (GuessEnd × List Output) → Type 0
Ended o = (end : GuessEnd) × (shown : List Output) × (o ≡ some (end, shown)) × (is_over end ≡ true)

-- What follows a result keeps its end.
in_front-over :
    (shown : List Output) (r : Option (GuessEnd × List Output))
    → Ended r
    → Ended (r >>= λ w. some (in_front shown w))
in_front-over shown r (end, more, run, over) =
    (end, shown ++ more, ap (λ o. o >>= λ w. some (in_front shown w)) run, over)

judged-over :
    (target attempts : ℕ) (rest : Option (GuessEnd × List Output)) (guess : ℤ)
    → target < 1000
    → attempts < 7
    → Ended rest
    → Ended (judged target attempts rest guess)
unfolding judged
judged-over target attempts rest guess small few after =
    elim (Bool-cases (is_target guess target)) [
      | inl hit ↦
          let (text, run) = won_shown_fits target (attempts + 1) small (omega (arith, few)) in
          (
            GuessEnd.won (attempts + 1),
            text ++ (print "\n" ∷ print "\nThanks for playing! Type 'guess' to play again.\n" ∷ []),
            if_true (is_target guess target) _ _ hit ∙ rw run,
            ground (arith, few),
          )
      | inr miss ↦
          let (hint, hinted) = hints_fits target (attempts + 1) (omega (arith, few)) in
          let told = too_low_or_high guess target ++ (hint ++ (print "\n" ∷ [])) in
          let (end, more, run, over) = in_front-over told rest after in
          (
            end,
            more,
            if_false (is_target guess target) _ _ miss
                ∙ (ap
                      (λ o. o >>= λ h. rest >>= λ w.
                        some
                          (in_front (too_low_or_high guess target ++ (h ++ (print "\n" ∷ []))) w))
                      hinted
                    ∙ run),
            over,
          )
    ]

answered-over :
    (target attempts : ℕ) (input : List ℕ) (rest : Option (GuessEnd × List Output))
    → target < 1000
    → attempts < 7
    → length input ≤ 9
    → Ended rest
    → Ended (answered target attempts input rest)
unfolding answered
answered-over target attempts input rest small few short after =
    elim (Bool-cases (is_zero (strcmp input quit_text))) [
      | inl leaves ↦
          let (text, run) = quit_shown_fits target small in
          (
            GuessEnd.quit,
            text,
            if_true (is_zero (strcmp input quit_text)) _ _ leaves ∙ rw run,
            refl,
          )
      | inr plays ↦
          let (guess, read) = string_to_int_fits input short in
          let (end, more, run, over) = judged-over target attempts rest guess small few after in
          (
            end,
            more,
            if_false (is_zero (strcmp input quit_text)) _ _ plays
                ∙ (ap (λ o. o >>= judged target attempts rest) read ∙ run),
            over,
          )
    ]

play_guess-over :
    (left target attempts : ℕ) (inputs : List (List ℕ × List Output))
    → target < 1000
    → attempts + left ≡ 7
    → left ≤ length inputs
    → AllShort inputs
    → Ended (play_guess left target attempts inputs)
unfolding play_guess
play_guess-over zero target attempts inputs small sum enough short =
    let (text, run) = lost_shown_fits target small in (GuessEnd.lost, text, rw run refl, refl)
play_guess-over (suc left) target attempts [] small sum enough short =
    absurd (omega (arith, enough))
play_guess-over (suc left) target attempts ((input, echo) ∷ inputs) small sum enough short =
    let (prompt, asked) = attempt_prompt_fits attempts (omega (arith, sum)) in
    let rest = play_guess left target (attempts + 1) inputs in
    let after =
      play_guess-over left target (attempts + 1) inputs small (omega (arith, sum))
        (omega (arith, enough)) short.1 in
    let (end, more, run, over) =
      in_front-over (prompt ++ echo) (answered target attempts input rest)
        (answered-over target attempts input rest small (omega (arith, sum)) short.0 after) in
    (
      end,
      more,
      ap
            (λ o.
              o >>= λ p. answered target attempts input rest >>= λ w. some (in_front (p ++ echo) w))
            asked
          ∙ run,
      over,
    )

target_small : (seed : ℕ) → guess_target seed < 1000
unfolding guess_target
target_small seed = omega arith

seed_fits : (x y : ℕ) → x + y * 13 + 42 < 2 ^ 31 → guess_seed x y ≡ some (x + y * 13 + 42)
unfolding guess_seed
seed_fits x y small = if_true (ltb (x + y * 13 + 42) (2 ^ 31)) _ _ (ground (arith, small))

-- Wherever the mouse is on a screen that keeps the sum below 2 ^ 31, and whatever keys are pressed,
-- in at least seven lines of at most 9 characters: the game runs without a fault and is over, and
-- if it is won, in one to seven attempts.
pub cmd_guess_number-over :
    (x y : ℕ) (keys : List ℕ)
    → x + y * 13 + 42 < 2 ^ 31
    → 7 ≤ length (guess_lines [] [] keys)
    → AllShort (guess_lines [] [] keys)
    → (end : GuessEnd) × (shown : List Output) × (cmd_guess_number x y keys ≡ some (end, shown))
      × (is_over end ≡ true)
unfolding cmd_guess_number
cmd_guess_number-over x y keys small enough short =
    let seed = x + y * 13 + 42 in
    let (end, shown, run, over) =
      play_guess-over 7 (guess_target seed) 0 (guess_lines [] [] keys) (target_small seed)
        (omega arith) enough short in
    (
      end,
      guess_welcome ++ shown,
      ap
            (λ o. o >>= λ s. play_guess 7 (guess_target s) 0 (guess_lines [] [] keys) >>= λ (e, t).
              some (e, guess_welcome ++ t))
            (seed_fits x y small)
          ∙ ap (λ o. o >>= λ (e, t). some (e, guess_welcome ++ t)) run,
      over,
    )
