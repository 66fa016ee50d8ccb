-- ===== src/TicTacToe.antt =====
-- kernel/src/commands/game.c: the game of tic-tac-toe. The keys that read_key returns are an
-- argument; the sounds change no state and are left out.
pub mod Rules
pub mod Input
pub mod Turns
mod Tests
use mathlib.Core.List.{reverse}
use os_from_zero.Base.{
  leb, length, ℕ, zero, suc, ◌+◌, ◌-◌, ◌*◌, ◌^◌, ◌&&◌, ◌||◌, Bool, true, false, not, Option, none,
  some, List, [], ◌∷◌, ◌++◌, ◌==◌, ltb, if◌then◌else◌, get_or, set, replicate, ◌>>=◌, Output, print,
  putchar,
}
use os_from_zero.Shell.{drop_last_typed, is_zero}
use os_from_zero.Base.Int.{ℤ, pos, negsuc}
use os_from_zero.Strings.{head, tail, strcmp}
use os_from_zero.Decimal.{is_digit}

-- The loop of string_to_int; overflow of `int` is a fault.
unfoldable pub digits_to_int : List ℕ → ℕ → Option ℕ
digits_to_int [] result = some result
digits_to_int (c ∷ s) result =
    let next = result * 10 + (c - b'0') in
    let rest = digits_to_int s next in
    if not (is_digit c) then some result else if ltb next (2 ^ 31) then rest else none

-- `result * -1`
abbrev pub negated : ℕ → ℤ
negated zero = pos 0
negated (suc n) = negsuc n

unfoldable pub string_to_int : List ℕ → Option ℤ
unfolding digits_to_int
string_to_int s =
    if head s == b'-'
    then (do n ← digits_to_int (tail s) 0; some (negated n))
    else (do n ← digits_to_int s 0; some (pos n))

abbrev pub square : List ℕ → ℕ → ℕ
square board i = get_or board i 0

abbrev pub draw_ttt_board : List ℕ → List Output
draw_ttt_board board =
    print "\n   |   |   \n"
    ∷ print " "
    ∷ putchar (square board 0)
    ∷ print " | "
    ∷ putchar (square board 1)
    ∷ print " | "
    ∷ putchar (square board 2)
    ∷ print " \n"
    ∷ print "___|___|___\n"
    ∷ print "   |   |   \n"
    ∷ print " "
    ∷ putchar (square board 3)
    ∷ print " | "
    ∷ putchar (square board 4)
    ∷ print " | "
    ∷ putchar (square board 5)
    ∷ print " \n"
    ∷ print "___|___|___\n"
    ∷ print "   |   |   \n"
    ∷ print " "
    ∷ putchar (square board 6)
    ∷ print " | "
    ∷ putchar (square board 7)
    ∷ print " | "
    ∷ putchar (square board 8)
    ∷ print " \n"
    ∷ print "   |   |   \n\n"
    ∷ []

-- Three squares with the player's mark.
abbrev pub three : List ℕ → ℕ → ℕ → ℕ → ℕ → Bool
three board player i j k =
    square board i == player && (square board j == player && square board k == player)

-- The rows, the columns and the diagonals, in the order of the tests.
unfoldable pub check_ttt_win : List ℕ → ℕ → Bool
check_ttt_win board player =
    if three board player 0 1 2 || (three board player 3 4 5 || three board player 6 7 8)
    then true
    else if three board player 0 3 6 || (three board player 1 4 7 || three board player 2 5 8)
    then true
    else if three board player 0 4 8
    then true
    else if three board player 2 4 6
    then true
    else false

unfoldable pub is_ttt_board_full : List ℕ → Bool
is_ttt_board_full [] = true
is_ttt_board_full (c ∷ board) =
    let rest = is_ttt_board_full board in if c == b' ' then false else rest

-- ttt_board and current_player
pub record TicTacToe : Type 0 where
  pub board : List ℕ
  pub current_player : ℕ

abbrev pub new_game : TicTacToe
new_game = record { board = replicate 9 b' '; current_player = b'X' }

-- What one line does: the game goes on, or it is over.
pub data Outcome : Type 0 where
  go_on over : TicTacToe → List Output → Outcome

abbrev pub other_player : ℕ → ℕ
other_player player = if player == b'X' then b'O' else b'X'

-- After a mark has been set.
unfoldable pub marked : TicTacToe → Outcome
unfolding check_ttt_win is_ttt_board_full
marked g =
    if check_ttt_win g.board g.current_player
    then over g (
        draw_ttt_board g.board
        ++ (print "🎉 Player "
            ∷ putchar g.current_player
            ∷ print " wins!\n"
            ∷ print "Type 'tictactoe' to play again!\n"
            ∷ []))
    else if is_ttt_board_full g.board
    then over g (
        draw_ttt_board g.board
        ++ (print "It's a tie! Good game!\n" ∷ print "Type 'tictactoe' to play again!\n" ∷ []))
    else go_on (record g { current_player = other_player g.current_player }) []

abbrev pub invalid : TicTacToe → Outcome
invalid g = go_on g (print "Invalid position! Use 1-9.\n" ∷ [])

-- A position from 1 to 9.
unfoldable pub mark_at : TicTacToe → ℕ → Outcome
unfolding marked
mark_at g position =
    if not (square g.board (position - 1) == b' ')
    then go_on g (print "Position already taken! Choose another.\n" ∷ [])
    else marked (record g { board = set g.board (position - 1) g.current_player })

unfoldable pub mark : TicTacToe → ℤ → Outcome
unfolding mark_at
mark g (negsuc n) = invalid g
mark g (pos n) = if ltb n 1 || ltb 9 n then invalid g else mark_at g n

abbrev pub quit_text : List ℕ
quit_text = b'q' ∷ b'u' ∷ b'i' ∷ b't' ∷ []

-- One round of the loop, with the line that was read.
unfoldable pub turn : TicTacToe → List ℕ → Option Outcome
unfolding mark string_to_int
turn g input =
    if is_zero (strcmp input quit_text)
    then some (over g (print "Thanks for playing!\n" ∷ []))
    else (do position ← string_to_int input; some (mark g position))

abbrev pub prompt : TicTacToe → List Output
prompt g =
    draw_ttt_board g.board
    ++ (print "Player " ∷ putchar g.current_player ∷ print "'s turn - Enter position (1-9): " ∷ [])

-- The outcome with what was shown before it.
abbrev pub shown_first : List Output → Outcome → Outcome
shown_first shown (go_on g more) = go_on g (shown ++ more)
shown_first shown (over g more) = over g (shown ++ more)

-- sizeof(input)
abbrev pub line_size : ℕ
line_size = 32

abbrev pub is_letter : ℕ → Bool
is_letter c = (leb b'a' c && leb c b'z') || (leb b'A' c && leb c b'Z')

-- One key, other than the newline, with what was typed kept last first, and what it shows.
unfoldable pub type_key : List ℕ → ℕ → List ℕ × List Output
type_key typed c =
    if c == 8
    then (drop_last_typed typed, if length typed == 0 then [] else putchar 8 ∷ [])
    else if leb b'1' c && (leb c b'9' && ltb (length typed) (line_size - 1))
    then (c ∷ typed, putchar c ∷ [])
    else if is_letter c && ltb (length typed) (line_size - 1)
    then (c ∷ typed, putchar c ∷ [])
    else (typed, [])

-- The lines that the keys make, each with what is shown while it is typed.
unfoldable pub typed_lines : List ℕ → List Output → List ℕ → List (List ℕ × List Output)
unfolding type_key
typed_lines typed shown [] = []
typed_lines typed shown (c ∷ keys) =
    let next = typed_lines [] [] keys in
    let rest = typed_lines (type_key typed c).0 (shown ++ (type_key typed c).1) keys in
    if c == 10 then (reverse typed, shown ++ (putchar 10 ∷ [])) ∷ next else rest

-- The loop of cmd_tictactoe over the lines; `go_on` if the game waits for the next one.
unfoldable pub play : TicTacToe → List (List ℕ × List Output) → Option Outcome
unfolding turn
play g [] = some (go_on g (prompt g))
play g ((input, echo) ∷ inputs) = do
  outcome ← turn g input
  elim outcome [
    | over g' shown ↦ some (over g' (prompt g ++ echo ++ shown))
    | go_on g' shown ↦ do rest ← play g' inputs; some (shown_first (prompt g ++ echo ++ shown) rest)
  ]

abbrev pub welcome : List Output
welcome =
    print "=== TIC-TAC-TOE GAME ===\n"
    ∷ print "Player X starts first.\n"
    ∷ print "Enter position (1-9) to place your mark:\n"
    ∷ print "Positions:\n"
    ∷ print " 1 | 2 | 3 \n"
    ∷ print "-----------\n"
    ∷ print " 4 | 5 | 6 \n"
    ∷ print "-----------\n"
    ∷ print " 7 | 8 | 9 \n"
    ∷ print "Type 'quit' to exit the game.\n"
    ∷ []

unfoldable pub cmd_tictactoe : List ℕ → Option Outcome
unfolding play typed_lines
cmd_tictactoe keys = do
  outcome ← play new_game (typed_lines [] [] keys)
  some (shown_first welcome outcome)
