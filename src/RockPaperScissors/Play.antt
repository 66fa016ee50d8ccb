-- ===== src/RockPaperScissors/Play.antt =====
-- A game runs without a fault while the scores have at most three digits.
use Prim.Native.String.{String}
use os_from_zero.Base.{
  ℕ, ◌+◌, ◌*◌, ◌^◌, ◌<◌, if◌then◌else◌, ◌≤◌, ◌≡◌, refl, ap, ◌∙◌, Bool, true, false, ◌||◌, some,
  List, [], ◌∷◌, ◌++◌, arith, ltb, length, ◌>>=◌, if_true, Bool-cases, inl, inr, Output, print,
}
use os_from_zero.Base.Int.{ℤ, pos, negsuc}
use os_from_zero.Strings.{strcmp}
use os_from_zero.Shell.{is_zero}
use os_from_zero.TicTacToe.{quit_text}
use os_from_zero.TicTacToe.Input.{string_to_int_fits}
use os_from_zero.Guess.{simple_random, shown_number}
use os_from_zero.Guess.Ends.{AllShort, shown_number_fits}
use os_from_zero.RockPaperScissors.{
  Game, Played, game_seed, choice_lines, score, round, answer, goodbye, shown_before, play_rounds,
  rps_welcome, cmd_rockpaperscissors, verdict,
}

-- `n` more rounds leave both scores below 1000.
record Room (g : Game) (n : ℕ) : Type 0 where
  player : g.player_wins + n < 1000
  computer : g.computer_wins + n < 1000

abbrev pub wins : Game → ℕ
wins g = g.player_wins + g.computer_wins

-- At most one of the scores grows, and by one.
record Scored (g g' : Game) : Type 0 where
  player : g'.player_wins ≤ g.player_wins + 1
  computer : g'.computer_wins ≤ g.computer_wins + 1
  one_more : wins g' ≤ wins g + 1
  kept : wins g ≤ wins g'

score_fits :
    (title : String) (g : Game) (n : ℕ)
    → Room g n
    → (text : List Output) × (score title g ≡ some text)
unfolding score
score_fits title g n room =
    let low = room.player in
    let low' = room.computer in
    let (a, p) = shown_number_fits g.player_wins (omega arith) in
    let (b, q) = shown_number_fits g.computer_wins (omega arith) in
    (
      print title ∷ a ∷ print " | Computer: " ∷ b ∷ print "\n" ∷ [],
      ap
            (λ o. o >>= λ x. shown_number g.computer_wins >>= λ y.
              some (print title ∷ x ∷ print " | Computer: " ∷ y ∷ print "\n" ∷ []))
            p
          ∙ ap
              (λ o. o >>= λ y. some (print title ∷ a ∷ print " | Computer: " ∷ y ∷ print "\n" ∷ []))
              q,
    )

same-Scored : (g : Game) → Scored g g
same-Scored g = record {
  player = omega arith;
  computer = omega arith;
  one_more = omega arith;
  kept = omega arith;
}

Scored-if :
    (g : Game) (b : Bool) (x y : Game × List Output)
    → Scored g x.0
    → Scored g y.0
    → Scored g (if b then x else y).0
Scored-if g true x y p q = p
Scored-if g false x y p q = q

module _ (g : Game) (seed : ℕ) where
  tied-Scored : Scored g (record g { seed = seed })
  tied-Scored = record {
    player = omega arith;
    computer = omega arith;
    one_more = omega arith;
    kept = omega arith;
  }

  won-Scored : Scored g (record g { seed = seed; player_wins = g.player_wins + 1 })
  won-Scored = record {
    player = omega arith;
    computer = omega arith;
    one_more = omega arith;
    kept = omega arith;
  }

  lost-Scored : Scored g (record g { seed = seed; computer_wins = g.computer_wins + 1 })
  lost-Scored = record {
    player = omega arith;
    computer = omega arith;
    one_more = omega arith;
    kept = omega arith;
  }

round-Scored : (n : ℕ) (g : Game) → Scored g (round n g).0
unfolding round
round-Scored n g =
    let seed = (simple_random g.seed).1 in
    Scored-if g _ _ _ (tied-Scored g seed)
      (Scored-if g _ _ _ (won-Scored g seed) (lost-Scored g seed))

answer-Scored : (z : ℤ) (g : Game) → Scored g (answer z g).0
unfolding answer
answer-Scored (negsuc n) g = same-Scored g
answer-Scored (pos n) g = Scored-if g (ltb n 1 || ltb 3 n) _ _ (same-Scored g) (round-Scored n g)

-- What the lines make of a game: it runs, and each line decides at most one round.
abbrev pub Plays : List (List ℕ × List Output) → Game → Type 0
Plays lines g =
    (p : Played) × (play_rounds lines g ≡ some p) × (wins p.game ≤ wins g + length lines)

goodbye_fits : (g : Game) (n : ℕ) → Room g n → (p : Played) × (goodbye g ≡ some p) × (p.game ≡ g)
unfolding goodbye
goodbye_fits g n room =
    let (final, run) = score_fits "Final Score - You: " g n room in
    (
      record {
        game = g;
        over = true;
        shown = final ++ (verdict g ∷ print "Thanks for playing!\n" ∷ []);
      },
      ap
          (λ o. o >>= λ f. some (record {
            game = g;
            over = true;
            shown = f ++ (verdict g ∷ print "Thanks for playing!\n" ∷ []);
          }))
          run,
      refl,
    )

play_rounds-Plays :
    (lines : List (List ℕ × List Output)) (g : Game)
    → Room g (length lines)
    → AllShort lines
    → Plays lines g
unfolding play_rounds
play_rounds-Plays [] g room short =
    let (shown, run) = score_fits "Score - You: " g 0 room in
    (
      record { game = g; over = false; shown = shown ++ (print "Enter your choice (1-3): " ∷ []) },
      rw run,
      omega arith,
    )
play_rounds-Plays ((input, echo) ∷ lines) g room short =
    let (shown, run) = score_fits "Score - You: " g (length ((input, echo) ∷ lines)) room in
    let front = shown ++ (print "Enter your choice (1-3): " ∷ echo) in
    elim (Bool-cases (is_zero (strcmp input quit_text))) [
      | inl leaves ↦
          let (p, gone, same) = goodbye_fits g _ room in
          (shown_before front p, rw (run, leaves, gone), rw same (omega arith))
      | inr plays ↦
          let (choice, read) = string_to_int_fits input short.0 in
          let scored = answer-Scored choice g in
          let low = room.player in
          let low' = room.computer in
          let up = scored.player in
          let up' = scored.computer in
          let more = scored.one_more in
          let (p, went, few) =
            play_rounds-Plays lines (answer choice g).0
              (record { player = omega arith; computer = omega arith }) short.1 in
          (shown_before (front ++ (answer choice g).1) p, rw (run, plays, read, went), omega arith)
    ]

-- Wherever the mouse is, while the product of its coordinates is small enough for the seed, and
-- whatever keys are pressed, in fewer than 1000 lines of at most 9 characters: the game runs without
-- a fault, and at most one round is won for each line.
pub cmd_rockpaperscissors-wins :
    (x y : ℕ) (keys : List ℕ)
    → x * y + 17 < 2 ^ 31
    → length (choice_lines [] [] keys) < 1000
    → AllShort (choice_lines [] [] keys)
    → (p : Played) × (cmd_rockpaperscissors x y keys ≡ some p)
      × (wins p.game ≤ length (choice_lines [] [] keys))
unfolding cmd_rockpaperscissors game_seed
cmd_rockpaperscissors-wins x y keys small few short =
    let lines = choice_lines [] [] keys in
    let start : Game = record { seed = x * y + 17; player_wins = 0; computer_wins = 0 } in
    let (p, run, won) =
      play_rounds-Plays lines start (record { player = omega arith; computer = omega arith })
        short in
    (
      shown_before rps_welcome p,
      ap
            (λ o. o >>= λ seed.
              play_rounds lines (record { seed = seed; player_wins = 0; computer_wins = 0 })
              >>= λ q. some (shown_before rps_welcome q))
            (if_true (ltb (x * y + 17) (2 ^ 31)) _ _ (ground (arith, small)))
          ∙ ap (λ o. o >>= λ q. some (shown_before rps_welcome q)) run,
      omega arith,
    )
