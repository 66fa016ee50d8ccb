-- ===== src/TicTacToe/Rules.antt =====
-- When a player has won, and when the board is full.
use os_from_zero.Base.{
  ℕ, zero, suc, ◌<◌, ◌≡◌, ◌≢◌, ◌↔◌, ◌⊎◌, Bool, true, false, List, [], ◌∷◌, arith, ◌||◌,
  if◌then◌else◌, length,
}
use os_from_zero.TicTacToe.{square, three, check_ttt_win, is_ttt_board_full}

-- The player's mark stands on three squares.
abbrev pub Owns : List ℕ → ℕ → ℕ → ℕ → ℕ → Type 0
Owns board player i j k =
    (square board i ≡ player) × (square board j ≡ player) × (square board k ≡ player)

-- A row, a column or a diagonal of the player.
abbrev pub Wins : List ℕ → ℕ → Type 0
Wins board player =
    Owns board player 0 1 2
    ⊎ (Owns board player 3 4 5
        ⊎ (Owns board player 6 7 8
            ⊎ (Owns board player 0 3 6
                ⊎ (Owns board player 1 4 7
                    ⊎ (Owns board player 2 5 8
                        ⊎ (Owns board player 0 4 8 ⊎ Owns board player 2 4 6))))))

three_iff :
    (board : List ℕ) (player i j k : ℕ)
    → (three board player i j k ≡ true) ↔ Owns board player i j k
three_iff board player i j k = (λ e. ground arith, λ h. ground arith)

-- The eight tests as one.
any_line :
    (a b c d e f g h : Bool)
    → ((if a || (b || c)
          then true
          else if d || (e || f)
          then true
          else if g
          then true
          else if h
          then true
          else false)
        ≡ true)
      ↔ ((a ≡ true)
          ⊎ ((b ≡ true)
              ⊎ ((c ≡ true)
                  ⊎ ((d ≡ true) ⊎ ((e ≡ true) ⊎ ((f ≡ true) ⊎ ((g ≡ true) ⊎ (h ≡ true))))))))
any_line a b c d e f g h = (λ t. ground arith, λ t. ground arith)

-- check_ttt_win holds exactly for a player who has a whole row, column or diagonal.
pub check_ttt_win_iff :
    (board : List ℕ) (player : ℕ) → (check_ttt_win board player ≡ true) ↔ Wins board player
unfolding check_ttt_win
check_ttt_win_iff board player =
    let lines =
      any_line (three board player 0 1 2) (three board player 3 4 5) (three board player 6 7 8)
        (three board player 0 3 6) (three board player 1 4 7) (three board player 2 5 8)
        (three board player 0 4 8) (three board player 2 4 6) in
    (
      λ e.
          let some_line = lines.0 e in
          ground (
            arith,
            three_iff board player 0 1 2,
            three_iff board player 3 4 5,
            three_iff board player 6 7 8,
            three_iff board player 0 3 6,
            three_iff board player 1 4 7,
            three_iff board player 2 5 8,
            three_iff board player 0 4 8,
            three_iff board player 2 4 6,
          ),
      λ w. lines.1 (
          ground (
            arith,
            three_iff board player 0 1 2,
            three_iff board player 3 4 5,
            three_iff board player 6 7 8,
            three_iff board player 0 3 6,
            three_iff board player 1 4 7,
            three_iff board player 2 5 8,
            three_iff board player 0 4 8,
            three_iff board player 2 4 6,
          )),
    )

full_step :
    (c : ℕ) (board : List ℕ)
    → (is_ttt_board_full board ≡ true → (i : ℕ) → i < length board → square board i ≢ b' ')
    → is_ttt_board_full (c ∷ board) ≡ true
    → (i : ℕ) → i < length (c ∷ board)
    → square (c ∷ board) i ≢ b' '
unfolding is_ttt_board_full
full_step c board h e zero lt = ground arith
full_step c board h e (suc i) lt = h (ground arith) i (omega arith)

-- is_ttt_board_full holds exactly if no square is blank.
pub is_ttt_board_full_iff :
    (board : List ℕ)
    → (is_ttt_board_full board ≡ true) ↔ ((i : ℕ) → i < length board → square board i ≢ b' ')
unfolding is_ttt_board_full
is_ttt_board_full_iff [] = (λ e i lt. ground arith, λ h. ground arith)
is_ttt_board_full_iff (c ∷ board) = (
  full_step c board (is_ttt_board_full_iff board).0,
  λ h.
      let first = h 0 (omega arith) in
      let rest = (is_ttt_board_full_iff board).1 (λ i lt. h (suc i) (omega arith)) in ground arith,
)
