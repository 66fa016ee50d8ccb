-- ===== src/Logger/Percent.antt =====
-- Calls of logger_log that go behind the end of what they read or write.
use os_from_zero.Base.{
  ℕ, ◌≤◌, ◌≡◌, refl, ap, ◌∙◌, Option, none, List, [], ◌∷◌, ◌++◌, arith, ◌==◌, ltb, if_false,
}
use os_from_zero.Logger.{Logger, LogArg, one, Mode, first_pass, before}
use os_from_zero.Logger.Lines.{logger_log}
use os_from_zero.Logger.Room.{IsPlain}

first_pass_percent :
    (format : List ℕ) (args : List LogArg)
    → IsPlain format
    → first_pass Mode.outside (format ++ (b'%' ∷ [])) args ≡ none
unfolding first_pass
first_pass_percent [] args h = refl
first_pass_percent (c ∷ s) args h =
    if_false (c == b'%') _ _ (ground (arith, h.0))
    ∙ ap (before (one c ∷ [])) (first_pass_percent s args h.1)

-- A format that ends with its only '%' makes logger_log, at a level that is not filtered, read
-- behind the final 0 of the format.
pub logger_log-percent :
    (l : Logger) (level : ℕ) (m : Option (List ℕ)) (format : List ℕ) (args : List LogArg)
    → l.current_log_level ≤ level
    → IsPlain format
    → logger_log l level m (format ++ (b'%' ∷ [])) args ≡ none
unfolding logger_log
logger_log-percent l level m format args loud plain =
    if_false (ltb level l.current_log_level) _ _ (ground (arith, loud))
    ∙ rw (first_pass_percent format args plain)
