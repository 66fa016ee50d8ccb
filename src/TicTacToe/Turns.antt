-- ===== src/TicTacToe/Turns.antt =====
-- The players take turns, whatever is typed.
use os_from_zero.Base.{
  ℕ, zero, suc, ◌-◌, ◌≡◌, ◌≢◌, refl, ap, sym, ◌∙◌, ◌⊎◌, inl, inr, some, List, [], ◌∷◌, arith, ◌==◌,
  ◌||◌, if_true, if_false, print, ◌++◌, ltb, if◌then◌else◌, set, length, length-set, Bool-cases,
  Output, ◌>>=◌, ◌≤◌,
}
use os_from_zero.Base.Int.{ℤ, pos, negsuc}
use os_from_zero.Strings.{strcmp}
use os_from_zero.Shell.{is_zero}
use os_from_zero.TicTacToe.Input.{string_to_int_fits}
use os_from_zero.TicTacToe.{
  typed_lines, quit_text, welcome, TicTacToe, Outcome, go_on, over, square, new_game, marked,
  mark_at, mark, turn, play, shown_first, prompt, cmd_tictactoe, check_ttt_win, is_ttt_board_full,
}

abbrev pub count : ℕ → List ℕ → ℕ
count c [] = 0
count c (d ∷ s) = if d == c then suc (count c s) else count c s

-- X has as many marks as O, or one more.
pub record IsFair (g : TicTacToe) : Type 0 where
  pub nine : length g.board ≡ 9
  pub marks :
      (count b'X' g.board ≡ count b'O' g.board) ⊎ (count b'X' g.board ≡ suc (count b'O' g.board))

-- It is the turn of the player who has fewer marks, of X if both have as many.
pub record IsTurn (g : TicTacToe) : Type 0 where
  pub nine : length g.board ≡ 9
  pub marks :
      ((g.current_player ≡ b'X') × (count b'X' g.board ≡ count b'O' g.board))
      ⊎ ((g.current_player ≡ b'O') × (count b'X' g.board ≡ suc (count b'O' g.board)))

abbrev pub Kept : Outcome → Type 0
Kept (go_on g shown) = IsTurn g
Kept (over g shown) = IsFair g

count-set_same :
    (c : ℕ) (board : List ℕ) (i : ℕ)
    → c ≢ b' '
    → square board i ≡ b' '
    → count c (set board i c) ≡ suc (count c board)
count-set_same c [] i ne e = ground arith
count-set_same c (d ∷ board) zero ne e = ground arith
count-set_same c (d ∷ board) (suc i) ne e = ground (arith, count-set_same c board i ne e)

count-set_other :
    (c p : ℕ) (board : List ℕ) (i : ℕ)
    → c ≢ b' '
    → p ≢ c
    → square board i ≡ b' '
    → count c (set board i p) ≡ count c board
count-set_other c p [] i ne other e = refl
count-set_other c p (d ∷ board) zero ne other e = ground arith
count-set_other c p (d ∷ board) (suc i) ne other e =
    ground (arith, count-set_other c p board i ne other e)

fair : (g : TicTacToe) → IsTurn g → IsFair g
fair g t = record { nine = t.nine; marks = ground (arith, t.marks) }

marked-Kept :
    (board : List ℕ) (player : ℕ)
    → length board ≡ 9
    → ((player ≡ b'X') × (count b'X' board ≡ suc (count b'O' board)))
      ⊎ ((player ≡ b'O') × (count b'X' board ≡ count b'O' board))
    → Kept (marked (record { board = board; current_player = player }))
unfolding marked
marked-Kept board player nine h = elim (Bool-cases (check_ttt_win board player)) [
  | inl won ↦ rw won (record { nine = nine; marks = ground arith })
  | inr e ↦ elim (Bool-cases (is_ttt_board_full board)) [
    | inl full ↦ rw (e, full) (record { nine = nine; marks = ground arith })
    | inr f ↦ rw (e, f) (record { nine = nine; marks = ground arith })
  ]
]

placed :
    (board : List ℕ) (player i : ℕ)
    → ((player ≡ b'X') × (count b'X' board ≡ count b'O' board))
      ⊎ ((player ≡ b'O') × (count b'X' board ≡ suc (count b'O' board)))
    → square board i ≡ b' '
    → ((player ≡ b'X') × (count b'X' (set board i player) ≡ suc (count b'O' (set board i player))))
      ⊎ ((player ≡ b'O') × (count b'X' (set board i player) ≡ count b'O' (set board i player)))
placed board player i (inl (p, e)) blank = inl (
  p,
  rw p (
      count-set_same b'X' board i (ground arith) blank
      ∙ (ap suc e
          ∙ ap suc (sym (count-set_other b'O' b'X' board i (ground arith) (ground arith) blank)))),
)
placed board player i (inr (p, e)) blank = inr (
  p,
  rw p (
      count-set_other b'X' b'O' board i (ground arith) (ground arith) blank
      ∙ (e ∙ sym (count-set_same b'O' board i (ground arith) blank))),
)

mark_at-Kept : (g : TicTacToe) (n : ℕ) → IsTurn g → Kept (mark_at g n)
unfolding mark_at
mark_at-Kept g n t = elim (Bool-cases (square g.board (n - 1) == b' ')) [
  | inr taken ↦ rw taken t
  | inl blank ↦ rw blank (
      marked-Kept (set g.board (n - 1) g.current_player) g.current_player
        (length-set g.board (n - 1) g.current_player ∙ t.nine)
        (placed g.board g.current_player (n - 1) t.marks (ground arith)))
]

mark-Kept : (g : TicTacToe) (position : ℤ) → IsTurn g → Kept (mark g position)
unfolding mark
mark-Kept g (negsuc n) t = t
mark-Kept g (pos n) t = elim (Bool-cases (ltb n 1 || ltb 9 n)) [
  | inl out ↦ rw out t
  | inr within ↦ rw within (mark_at-Kept g n t)
]

turn-Kept :
    (g : TicTacToe) (input : List ℕ)
    → IsTurn g
    → length input ≤ 9
    → (outcome : Outcome) × (turn g input ≡ some outcome) × Kept outcome
unfolding turn
turn-Kept g input t short = elim (Bool-cases (is_zero (strcmp input quit_text))) [
  | inl quits ↦ (over g (print "Thanks for playing!\n" ∷ []), if_true _ _ _ quits, fair g t)
  | inr plays ↦
      let (position, read) = string_to_int_fits input short in
      (
        mark g position,
        if_false _ _ _ plays ∙ ap (λ o. o >>= λ p. some (mark g p)) read,
        mark-Kept g position t,
      )
]

shown_first-Kept :
    (shown : List Output) (outcome : Outcome) → Kept outcome → Kept (shown_first shown outcome)
shown_first-Kept shown (go_on g more) h = h
shown_first-Kept shown (over g more) h = h

-- Every line has at most 9 characters.
abbrev pub AllShort : List (List ℕ × List Output) → Type 0
AllShort [] = Unit {0}
AllShort (line ∷ lines) = (length line.0 ≤ 9) × AllShort lines

-- What `play` makes of the outcome of a turn.
play_over :
    (g g' : TicTacToe) (input : List ℕ) (echo shown : List Output)
    (inputs : List (List ℕ × List Output))
    → turn g input ≡ some (over g' shown)
    → play g ((input, echo) ∷ inputs) ≡ some (over g' (prompt g ++ echo ++ shown))
unfolding play
play_over g g' input echo shown inputs ran = rw ran

play_on :
    (g g' : TicTacToe) (input : List ℕ) (echo shown : List Output)
    (inputs : List (List ℕ × List Output)) (rest : Outcome)
    → turn g input ≡ some (go_on g' shown)
    → play g' inputs ≡ some rest
    → play g ((input, echo) ∷ inputs) ≡ some (shown_first (prompt g ++ echo ++ shown) rest)
unfolding play
play_on g g' input echo shown inputs rest ran more = rw ran (rw more)

play-Kept :
    (g : TicTacToe) (inputs : List (List ℕ × List Output))
    → IsTurn g
    → AllShort inputs
    → (outcome : Outcome) × (play g inputs ≡ some outcome) × Kept outcome
unfolding play
play-Kept g [] t short = (go_on g (prompt g), refl, t)
play-Kept g ((input, echo) ∷ inputs) t short =
    after_turn (turn-Kept g input t short.0) (λ g' h. play-Kept g' inputs h short.1)
  where
    after_turn :
        (outcome : Outcome) × (turn g input ≡ some outcome) × Kept outcome
        → ((g' : TicTacToe)
            → IsTurn g'
            → (rest : Outcome) × (play g' inputs ≡ some rest) × Kept rest)
        → (outcome : Outcome) × (play g ((input, echo) ∷ inputs) ≡ some outcome) × Kept outcome
    after_turn (over g' shown, ran, h) again =
        (over g' (prompt g ++ echo ++ shown), play_over g g' input echo shown inputs ran, h)
    after_turn (go_on g' shown, ran, h) again =
        let (rest, more, kept) = again g' h in
        (
          shown_first (prompt g ++ echo ++ shown) rest,
          play_on g g' input echo shown inputs rest ran more,
          shown_first-Kept (prompt g ++ echo ++ shown) rest kept,
        )

-- Whatever keys are pressed, in lines of at most 9 characters, the game runs without a fault: while
-- it goes on it is the turn of the player with fewer marks, and when it is over X has as many
-- marks as O, or one more; the board has its nine squares.
pub cmd_tictactoe-Kept :
    (keys : List ℕ)
    → AllShort (typed_lines [] [] keys)
    → (outcome : Outcome) × (cmd_tictactoe keys ≡ some outcome) × Kept outcome
unfolding cmd_tictactoe
cmd_tictactoe-Kept keys short =
    let start : IsTurn new_game = record { nine = refl; marks = inl (refl, refl) } in
    let (final, ran, kept) = play-Kept new_game (typed_lines [] [] keys) start short in
    (
      shown_first welcome final,
      ap (λ o. o >>= λ outcome. some (shown_first welcome outcome)) ran,
      shown_first-Kept welcome final kept,
    )
