-- ===== src/RockPaperScissors/Tests.antt =====
-- A game of three lines.
use os_from_zero.Base.{ℕ, ◌<◌, ◌≤◌, ◌≡◌, some, List, [], arith, length, codes}
use os_from_zero.Guess.Ends.{AllShort}
use os_from_zero.RockPaperScissors.{Played, choice_key, choice_lines, cmd_rockpaperscissors}
use os_from_zero.RockPaperScissors.Play.{wins, cmd_rockpaperscissors-wins}

abbrev keys : List ℕ
keys = codes "1\n3\nquit\n"

three_lines : length (choice_lines [] [] keys) < 1000
unfolding choice_lines choice_key
three_lines = omega arith

lines-AllShort : AllShort (choice_lines [] [] keys)
unfolding choice_lines choice_key
lines-AllShort = (omega arith, (omega arith, (omega arith, tt)))

cmd_rockpaperscissors-wins_example :
    (p : Played) × (cmd_rockpaperscissors 320 240 keys ≡ some p)
    × (wins p.game ≤ length (choice_lines [] [] keys))
cmd_rockpaperscissors-wins_example =
    cmd_rockpaperscissors-wins 320 240 keys (omega arith) three_lines lines-AllShort
