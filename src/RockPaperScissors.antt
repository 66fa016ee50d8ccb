-- ===== src/RockPaperScissors.antt =====
-- kernel/src/commands/game.c: the game of rock, paper and scissors. The keys that read_key returns
-- and the position of the mouse are arguments; the sounds are left out.
pub mod Play
mod Tests
use Prim.Native.String.{String}
use mathlib.Core.List.{reverse}
use os_from_zero.Base.{
  ℕ, zero, suc, ◌+◌, ◌-◌, ◌*◌, ◌%◌, ◌^◌, ◌&&◌, ◌||◌, Bool, true, false, Option, none, some, List,
  [], ◌∷◌, ◌++◌, ◌==◌, ltb, leb, if◌then◌else◌, length, ◌>>=◌, Output, print, putchar,
}
use os_from_zero.Base.Int.{ℤ, pos, negsuc}
use os_from_zero.Strings.{strcmp}
use os_from_zero.Shell.{drop_last_typed, is_zero}
use os_from_zero.TicTacToe.{string_to_int, quit_text, line_size, is_letter}
use os_from_zero.Guess.{simple_random, seed_random, shown_number}

-- The number of the random generator and the two scores.
pub record Game : Type 0 where
  pub seed : ℕ
  pub player_wins : ℕ
  pub computer_wins : ℕ

-- The seed; an overflow of the `int` is a fault. The mouse is on the screen.
unfoldable pub game_seed : ℕ → ℕ → Option ℕ
game_seed x y = if ltb (x * y + 17) (2 ^ 31) then some (seed_random (x * y + 17)) else none

-- One key, other than the newline, with what was typed kept last first, and what it shows.
unfoldable pub choice_key : List ℕ → ℕ → List ℕ × List Output
choice_key typed c =
    if c == 8
    then (drop_last_typed typed, if length typed == 0 then [] else putchar 8 ∷ [])
    else if leb b'1' c && (leb c b'3' && ltb (length typed) (line_size - 1))
    then (c ∷ typed, putchar c ∷ [])
    else if is_letter c && ltb (length typed) (line_size - 1)
    then (c ∷ typed, putchar c ∷ [])
    else (typed, [])

-- The lines that the keys make, each with what is shown while it is typed.
unfoldable pub choice_lines : List ℕ → List Output → List ℕ → List (List ℕ × List Output)
unfolding choice_key
choice_lines typed shown [] = []
choice_lines typed shown (c ∷ keys) =
    let next = choice_lines [] [] keys in
    let rest = choice_lines (choice_key typed c).0 (shown ++ (choice_key typed c).1) keys in
    if c == 10 then (reverse typed, shown ++ (putchar 10 ∷ [])) ∷ next else rest

-- The two scores, in a buffer of four bytes.
unfoldable pub score : String → Game → Option (List Output)
unfolding shown_number
score title g = do
  player ← shown_number g.player_wins
  computer ← shown_number g.computer_wins
  some (print title ∷ player ∷ print " | Computer: " ∷ computer ∷ print "\n" ∷ [])

abbrev pub verdict : Game → Output
verdict g =
    if ltb g.computer_wins g.player_wins
    then print "🎉 You won overall! Great job!\n"
    else if ltb g.player_wins g.computer_wins
    then print "Computer won overall. Better luck next time!\n"
    else print "It's a tie overall! Well played!\n"

-- `choices[choice - 1]`
abbrev pub choice_name : ℕ → Output
choice_name choice =
    if choice == 1 then print "Rock" else if choice == 2 then print "Paper" else print "Scissors"

abbrev pub beats : ℕ → ℕ → Bool
beats player computer =
    player == 1 && computer == 3 || (player == 2 && computer == 1 || player == 3 && computer == 2)

abbrev pub chosen : ℕ → ℕ → List Output
chosen player computer =
    print "You chose: "
    ∷ choice_name player
    ∷ print "\n"
    ∷ print "Computer chose: "
    ∷ choice_name computer
    ∷ print "\n"
    ∷ []

-- A round, with the choice of the player.
unfoldable pub round : ℕ → Game → Game × List Output
unfolding simple_random
round player g =
    let (number, seed) = simple_random g.seed in
    let computer = number % 3 + 1 in
    let shown = chosen player computer in
    if player == computer
    then (record g { seed = seed }, shown ++ (print "It's a tie!\n" ∷ print "\n" ∷ []))
    else if beats player computer
    then (
      record g { seed = seed; player_wins = g.player_wins + 1 },
      shown ++ (print "You win this round!\n" ∷ print "\n" ∷ []),
    )
    else (
      record g { seed = seed; computer_wins = g.computer_wins + 1 },
      shown ++ (print "Computer wins this round!\n" ∷ print "\n" ∷ []),
    )

abbrev pub invalid_choice : List Output
invalid_choice = print "Invalid choice! Use 1-3.\n" ∷ []

-- A line that is not "quit".
unfoldable pub answer : ℤ → Game → Game × List Output
unfolding round
answer (negsuc n) g = (g, invalid_choice)
answer (pos n) g = if ltb n 1 || ltb 3 n then (g, invalid_choice) else round n g

-- What is left of the game: its state, whether it has been left, and what was shown.
pub record Played : Type 0 where
  pub game : Game
  pub over : Bool
  pub shown : List Output

abbrev pub shown_before : List Output → Played → Played
shown_before shown p = record p { shown = shown ++ p.shown }

unfoldable pub goodbye : Game → Option Played
unfolding score
goodbye g = do
  final ← score "Final Score - You: " g
  some (record {
    game = g;
    over = true;
    shown = final ++ (verdict g ∷ print "Thanks for playing!\n" ∷ []);
  })

-- The loop, over the lines that are typed; it waits when there is no more.
unfoldable pub play_rounds : List (List ℕ × List Output) → Game → Option Played
unfolding score goodbye answer string_to_int
play_rounds [] g = do
  shown ← score "Score - You: " g
  some
      (record { game = g; over = false; shown = shown ++ (print "Enter your choice (1-3): " ∷ []) })
play_rounds ((input, echo) ∷ lines) g = do
  shown ← score "Score - You: " g
  let front = shown ++ (print "Enter your choice (1-3): " ∷ echo)
  elim (is_zero (strcmp input quit_text)) [
    | true ↦ (do p ← goodbye g; some (shown_before front p))
    | false ↦ (do
      choice ← string_to_int input
      let (g', more) = answer choice g
      p ← play_rounds lines g'
      some (shown_before (front ++ more) p))
  ]

abbrev pub rps_welcome : List Output
rps_welcome =
    print "=== ROCK PAPER SCISSORS ===\n"
    ∷ print "Choose your weapon:\n"
    ∷ print "1. Rock\n"
    ∷ print "2. Paper\n"
    ∷ print "3. Scissors\n"
    ∷ print "Type 'quit' to exit.\n\n"
    ∷ []

unfoldable pub cmd_rockpaperscissors : ℕ → ℕ → List ℕ → Option Played
unfolding game_seed play_rounds choice_lines
cmd_rockpaperscissors x y keys = do
  seed ← game_seed x y
  p ←
      play_rounds (choice_lines [] [] keys)
        (record { seed = seed; player_wins = 0; computer_wins = 0 })
  some (shown_before rps_welcome p)
