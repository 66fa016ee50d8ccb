-- ===== src/Guess.antt =====
-- kernel/src/commands/game.c: the random numbers and the game of guessing a number. The keys that
-- read_key returns and the position of the mouse are arguments; the sounds are left out.
mod Tests
pub mod Ends
use mathlib.Core.List.{reverse}
use os_from_zero.Base.{
  ℕ, zero, suc, ◌+◌, ◌-◌, ◌*◌, ◌/◌, ◌%◌, ◌^◌, ◌&&◌, Bool, true, false, Option, none, some, List, [],
  ◌∷◌, ◌++◌, ◌==◌, ltb, leb, if◌then◌else◌, length, replicate, ◌>>=◌, Output, print, print_text,
  putchar,
}
use os_from_zero.Base.Int.{ℤ, pos, negsuc, ltb_ℤ}
use os_from_zero.Strings.{strcmp}
use os_from_zero.Decimal.{int_to_string}
use os_from_zero.Shell.{drop_last_typed, is_zero}
use os_from_zero.TicTacToe.{string_to_int, quit_text, line_size, is_letter}

-- The random number and the new game_seed.
unfoldable pub simple_random : ℕ → ℕ × ℕ
simple_random game_seed =
    let seed = (game_seed * 1103515245 + 12345) % 2 ^ 32 in (seed / 2 ^ 16 % 2 ^ 15, seed)

abbrev pub seed_random : ℕ → ℕ
seed_random seed = seed

-- The game's seed; a sum that no `int` holds is a fault.
unfoldable pub guess_seed : ℕ → ℕ → Option ℕ
guess_seed x y =
    if ltb (x + y * 13 + 42) (2 ^ 31) then some (seed_random (x + y * 13 + 42)) else none

-- One key, other than the newline, with what was typed kept last first, and what it shows.
unfoldable pub guess_key : List ℕ → ℕ → List ℕ × List Output
guess_key typed c =
    if c == 8
    then (drop_last_typed typed, if length typed == 0 then [] else putchar 8 ∷ [])
    else if leb b'0' c && (leb c b'9' && ltb (length typed) (line_size - 1))
    then (c ∷ typed, putchar c ∷ [])
    else if is_letter c && ltb (length typed) (line_size - 1)
    then (c ∷ typed, putchar c ∷ [])
    else (typed, [])

-- The lines that the keys make, each with what is shown while it is typed.
unfoldable pub guess_lines : List ℕ → List Output → List ℕ → List (List ℕ × List Output)
unfolding guess_key
guess_lines typed shown [] = []
guess_lines typed shown (c ∷ keys) =
    let next = guess_lines [] [] keys in
    let rest = guess_lines (guess_key typed c).0 (shown ++ (guess_key typed c).1) keys in
    if c == 10 then (reverse typed, shown ++ (putchar 10 ∷ [])) ∷ next else rest

abbrev pub max_attempts : ℕ
max_attempts = 7

-- A number in a buffer of four bytes.
unfoldable pub shown_number : ℕ → Option Output
unfolding int_to_string
shown_number n = do s ← int_to_string (pos n) (replicate 4 0); some (print_text s)

unfoldable pub attempt_prompt : ℕ → Option (List Output)
unfolding shown_number
attempt_prompt attempts = do
  now ← shown_number (attempts + 1)
  all ← shown_number max_attempts
  some (print "Attempt " ∷ now ∷ print "/" ∷ all ∷ print " - Enter your guess: " ∷ [])

unfoldable pub quit_shown : ℕ → Option (List Output)
unfolding shown_number
quit_shown target = do
  number ← shown_number target
  some (print "Thanks for playing! The number was " ∷ number ∷ print ".\n" ∷ [])

unfoldable pub won_shown : ℕ → ℕ → Option (List Output)
unfolding shown_number
won_shown target attempts = do
  number ← shown_number target
  needed ← shown_number attempts
  some (
      print "🎉 CONGRATULATIONS! You guessed it!\n"
      ∷ print "The number was "
      ∷ number
      ∷ print " and you got it in "
      ∷ needed
      ∷ print " attempts!\n"
      ∷ [])

abbrev pub range_hint : ℕ → List Output
range_hint target =
    print "Hint: The number is "
    ∷ (if leb target 25
        then print "between 1 and 25"
        else if leb target 50
        then print "between 26 and 50"
        else if leb target 75
        then print "between 51 and 75"
        else print "between 76 and 100")
    ∷ print ".\n"
    ∷ []

-- What is shown after a wrong guess, with the attempts that were made.
unfoldable pub hints : ℕ → ℕ → Option (List Output)
unfolding shown_number
hints target attempts =
    if ltb attempts max_attempts
    then (do
      remaining ← shown_number (max_attempts - attempts)
      some (
          (print "You have " ∷ remaining ∷ print " attempts left.\n" ∷ [])
          ++ (if leb 3 attempts then range_hint target else [])))
    else some []

unfoldable pub lost_shown : ℕ → Option (List Output)
unfolding shown_number
lost_shown target = do
  number ← shown_number target
  some (
      print "😞 Game Over! You ran out of attempts.\n"
      ∷ print "The number was "
      ∷ number
      ∷ print ". Better luck next time!\n"
      ∷ print "\nThanks for playing! Type 'guess' to play again.\n"
      ∷ [])

-- How the game ends; `waiting` if it waits for a line after these attempts.
pub data GuessEnd : Type 0 where
  waiting won : ℕ → GuessEnd
  quit lost : GuessEnd

abbrev pub too_low_or_high : ℤ → ℕ → List Output
too_low_or_high guess target =
    if ltb_ℤ guess (pos target)
    then print "Too low! Try a higher number.\n" ∷ []
    else print "Too high! Try a lower number.\n" ∷ []

unfoldable pub is_target : ℤ → ℕ → Bool
is_target (pos n) target = n == target
is_target (negsuc n) target = false

abbrev pub in_front : List Output → GuessEnd × List Output → GuessEnd × List Output
in_front shown (end, more) = (end, shown ++ more)

-- A guess, with what was shown before it and what comes after a wrong one.
unfoldable pub judged :
    ℕ → ℕ → Option (GuessEnd × List Output) → ℤ → Option (GuessEnd × List Output)
unfolding won_shown hints is_target
judged target attempts rest guess =
    if is_target guess target
    then (do
      text ← won_shown target (attempts + 1)
      some (
        GuessEnd.won (attempts + 1),
        text ++ (print "\n" ∷ print "\nThanks for playing! Type 'guess' to play again.\n" ∷ []),
      ))
    else (do
      hint ← hints target (attempts + 1)
      more ← rest
      some (in_front (too_low_or_high guess target ++ (hint ++ (print "\n" ∷ []))) more))

-- A line that was read.
unfoldable pub answered :
    ℕ → ℕ → List ℕ → Option (GuessEnd × List Output) → Option (GuessEnd × List Output)
unfolding quit_shown judged string_to_int
answered target attempts input rest =
    if is_zero (strcmp input quit_text)
    then (do text ← quit_shown target; some (GuessEnd.quit, text))
    else (do guess ← string_to_int input; judged target attempts rest guess)

-- The loop, with the attempts that are left, over the lines.
unfoldable pub play_guess :
    ℕ → ℕ → ℕ → List (List ℕ × List Output) → Option (GuessEnd × List Output)
unfolding attempt_prompt answered lost_shown
play_guess zero target attempts inputs = do text ← lost_shown target; some (GuessEnd.lost, text)
play_guess (suc left) target attempts [] = do
  prompt ← attempt_prompt attempts
  some (GuessEnd.waiting attempts, prompt)
play_guess (suc left) target attempts ((input, echo) ∷ inputs) = do
  prompt ← attempt_prompt attempts
  result ← answered target attempts input (play_guess left target (attempts + 1) inputs)
  some (in_front (prompt ++ echo) result)

abbrev pub guess_welcome : List Output
guess_welcome =
    print "=== GUESS THE NUMBER GAME ===\n"
    ∷ print "I'm thinking of a number between 1 and 100!\n"
    ∷ print "You have 7 attempts to guess it.\n"
    ∷ print "Type your guess and press Enter.\n"
    ∷ print "Type 'quit' to exit the game.\n\n"
    ∷ []

-- `(simple_random() % 100) + 1`, with the mouse at these coordinates.
unfoldable pub guess_target : ℕ → ℕ
unfolding simple_random
guess_target seed = (simple_random seed).0 % 100 + 1

unfoldable pub cmd_guess_number : ℕ → ℕ → List ℕ → Option (GuessEnd × List Output)
unfolding guess_seed guess_target play_guess guess_lines
cmd_guess_number x y keys = do
  seed ← guess_seed x y
  (end, shown) ← play_guess max_attempts (guess_target seed) 0 (guess_lines [] [] keys)
  some (end, guess_welcome ++ shown)
