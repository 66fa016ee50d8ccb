-- ===== src/Guess/Tests.antt =====
-- A game of seven empty lines.
use os_from_zero.Base.{ℕ, ◌≤◌, ◌≡◌, true, some, List, [], arith, length, replicate, Output}
use os_from_zero.Guess.{GuessEnd, guess_lines, cmd_guess_number}
use os_from_zero.Guess.Ends.{is_over, AllShort, cmd_guess_number-over}

abbrev seven_lines : List ℕ
seven_lines = replicate 7 10

enough_lines : 7 ≤ length (guess_lines [] [] seven_lines)
unfolding guess_lines
enough_lines = omega arith

lines-AllShort : AllShort (guess_lines [] [] seven_lines)
unfolding guess_lines
lines-AllShort = (
  omega arith,
  (omega arith, (omega arith, (omega arith, (omega arith, (omega arith, (omega arith, tt)))))),
)

cmd_guess_number-over_example :
    (end : GuessEnd) × (shown : List Output) × (cmd_guess_number 320 240 seven_lines
      ≡ some (end, shown))
    × (is_over end ≡ true)
cmd_guess_number-over_example =
    cmd_guess_number-over 320 240 seven_lines (omega arith) enough_lines lines-AllShort
