-- ===== src/TicTacToe/Tests.antt =====
-- A game that X wins in the first row.
use os_from_zero.Base.{arith, ℕ, ◌<◌, ◌≡◌, ◌≢◌, ◌↔◌, true, some, List, [], ◌∷◌, length}
use os_from_zero.TicTacToe.{
  typed_lines, Outcome, square, check_ttt_win, is_ttt_board_full, cmd_tictactoe,
}
use os_from_zero.TicTacToe.Rules.{Wins, check_ttt_win_iff, is_ttt_board_full_iff}
use os_from_zero.TicTacToe.Turns.{Kept, AllShort, cmd_tictactoe-Kept}

abbrev first_row : List ℕ
first_row = b'X' ∷ b'X' ∷ b'X' ∷ b'O' ∷ b'O' ∷ b' ' ∷ b' ' ∷ b' ' ∷ b' ' ∷ []

check_ttt_win_iff_example : (check_ttt_win first_row b'X' ≡ true) ↔ Wins first_row b'X'
check_ttt_win_iff_example = check_ttt_win_iff first_row b'X'

is_ttt_board_full_iff_example :
    (is_ttt_board_full first_row ≡ true)
    ↔ ((i : ℕ) → i < length first_row → square first_row i ≢ b' ')
is_ttt_board_full_iff_example = is_ttt_board_full_iff first_row

-- The positions 1, 4, 2, 2, 5 and 3, one in each line.
abbrev keys : List ℕ
keys = b'1' ∷ 10 ∷ b'4' ∷ 10 ∷ b'2' ∷ 10 ∷ b'2' ∷ 10 ∷ b'5' ∷ 10 ∷ b'3' ∷ 10 ∷ []

keys-AllShort : AllShort (typed_lines [] [] keys)
unfolding typed_lines
keys-AllShort =
    (omega arith, (omega arith, (omega arith, (omega arith, (omega arith, (omega arith, tt))))))

cmd_tictactoe-Kept_example :
    (outcome : Outcome) × (cmd_tictactoe keys ≡ some outcome) × Kept outcome
cmd_tictactoe-Kept_example = cmd_tictactoe-Kept keys keys-AllShort
