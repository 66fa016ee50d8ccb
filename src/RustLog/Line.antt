-- ===== src/RustLog/Line.antt =====
-- logger_log with the format "%s".
use os_from_zero.Base.{
  ℕ, ◌≤◌, ◌≡◌, ◌≢◌, refl, ap, sym, ◌∙◌, true, false, Option, none, some, List, [], ◌∷◌, ◌++◌, ◌==◌,
  arith, ltb, if_true, if_false, length, ◌>>=◌, codes, length-take, Bool-cases, inl, inr,
}
use os_from_zero.Filesystem.{FileSystem, read_file}
use os_from_zero.Filesystem.Store.{AllSized}
use os_from_zero.Logger.{
  Logger, LogArg, Piece, text, shown, next_text, Mode, first_pass, directive, before,
}
use os_from_zero.Logger.Lines.{
  put_text, put_pointed, stored, second_pass, end_line, log_line, log_file_path, write_log,
  logger_log, module_text, printed_header, append_line,
}
use os_from_zero.Logger.Room.{
  header_text, log_header_fits, end_line_lem, length-header_text, log_text, log_whole,
}
use os_from_zero.Logger.Append.{Appended, append_line_lem, logger_log_steps}

abbrev shown_text : Option (List ℕ) × List LogArg → Option (List Piece × List LogArg)
shown_text x = some (elim x.0 [ none ↦ shown (codes "(null)") ∷ [] | some t ↦ shown t ∷ [] ], x.1)

put_text_full : (s out : List ℕ) → ltb (length out) 511 ≡ false → put_text out s ≡ out
unfolding put_text
put_text_full [] out full = refl
put_text_full (c ∷ s) out full = if_false (ltb (length out) 511) _ _ full

module _ (at : ℕ) (s : List ℕ) (ne : at ≢ 0) where
  next_text-some : next_text (text at s ∷ []) ≡ some (some s, [])
  next_text-some = if_false (at == 0) _ _ (ground (arith, ne))

  stored-text : (out : List ℕ) → stored b's' (text at s ∷ []) out ≡ some (put_text out s, [])
  unfolding stored
  stored-text out = ap (λ o. o >>= λ r. some (put_pointed out r.0, r.1)) next_text-some

  second_pass_text :
      (out : List ℕ)
      → length out ≤ 511
      → second_pass false (codes "%s") (text at s ∷ []) out ≡ some (put_text out s)
  unfolding second_pass
  second_pass_text out h = elim (Bool-cases (ltb (length out) 511)) [
    | inl room ↦
        if_true (ltb (length out) 511) _ _ room
        ∙ ap (λ o. o >>= λ r. second_pass false [] r.1 r.0) (stored-text out)
    | inr full ↦ if_false (ltb (length out) 511) _ _ full ∙ ap some (sym (put_text_full s out full))
  ]

  first_pass_text : first_pass Mode.outside (codes "%s") (text at s ∷ []) ≡ some (shown s ∷ [])
  unfolding first_pass directive
  first_pass_text =
      ap
        (λ (o : Option (Option (List ℕ) × List LogArg)).
          (o >>= shown_text) >>= λ x. before x.0 (first_pass Mode.outside [] x.1))
        next_text-some

  log_line_text :
      (level : ℕ) (m : List ℕ)
      → length m ≤ 500
      → log_line level m (codes "%s") (text at s ∷ []) ≡ some (log_text level m s)
  unfolding log_line
  log_line_text level m short =
      let small : length (header_text level m) ≤ 511 =
        omega (arith, length-header_text level m, short) in
      ap (λ o. o >>= λ header. second_pass false (codes "%s") (text at s ∷ []) header >>= end_line)
        (log_header_fits level m short)
      ∙ (ap (λ o. o >>= end_line) (second_pass_text (header_text level m) small)
          ∙ end_line_lem (header_text level m) s small)

  -- A text that is logged by "%s": it is printed, and appended to the log file.
  pub logger_log-text :
      (l : Logger) (level : ℕ) (m : Option (List ℕ))
      → l.current_log_level ≤ level
      → l.log_file_initialized ≡ true
      → l.fs.initialized ≡ true
      → AllSized l.fs.files
      → length (module_text m) ≤ 500
      → (fs' : FileSystem) × (logger_log l level m (codes "%s") (text at s ∷ [])
          ≡ some (
            printed_header level (module_text m) ++ (shown s ∷ shown (codes "\n") ∷ []),
            record l { fs = fs' },
          ))
        × Appended l.fs fs' (log_text level (module_text m) s)
  unfolding write_log
  logger_log-text l level m loud ready on sized short =
      let (fs', run, done) =
        append_line_lem l.fs (log_text level (module_text m) s) _ on sized
          (omega (arith, length-take 511 (log_whole level (module_text m) s))) refl in
      (
        fs',
        logger_log_steps l level m (codes "%s") (text at s ∷ []) (shown s ∷ []) fs' loud
            first_pass_text
            (if_true l.log_file_initialized _ _ ready
              ∙ (ap (λ o. o >>= λ line. append_line l.fs line (read_file l.fs log_file_path))
                    (log_line_text level (module_text m) short)
                  ∙ run)),
        done,
      )
