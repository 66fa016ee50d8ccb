-- ===== src/RustLog/Log.antt =====
-- What a Rust library logs.
use os_from_zero.Base.{
  ℕ, ◌≤◌, ◌≡◌, ◌≢◌, ap, ◌∙◌, true, false, Option, some, List, [], ◌∷◌, ◌++◌, length, ◌>>=◌, codes,
}
use os_from_zero.Filesystem.{FileSystem}
use os_from_zero.Filesystem.Store.{AllSized}
use os_from_zero.Logger.{Logger, LogArg, text, shown}
use os_from_zero.Logger.Lines.{logger_log, module_text, printed_header}
use os_from_zero.Logger.Room.{log_text}
use os_from_zero.Logger.Append.{Appended}
use os_from_zero.RustLog.{log_level, fmt_room, logger_rust_log_fmt}
use os_from_zero.RustLog.Format.{format_text}
use os_from_zero.RustLog.Buffer.{fmt_text-Agrees}
use os_from_zero.RustLog.Line.{logger_log-text}

-- logger_rust_log_fmt at a level that is not filtered, with arguments that the format takes and a
-- module of at most 500 characters, when the text that the format stands for has at most 511
-- characters, once the logger and the file system are initialised and the buffers have their sizes:
-- it prints the header, that text and a newline; the line, cut to 511 characters, is appended to the
-- log file, and every other file reads as before; or no file changes, because the log would reach
-- 1024 bytes, or is not there and finds no free slot.
pub logger_rust_log_fmt-appends :
    (at : ℕ) (l : Logger) (level : ℕ) (m : Option (List ℕ)) (format : List ℕ) (args : List LogArg)
    (s : List ℕ)
    → at ≢ 0
    → format_text false format args ≡ some s
    → length s ≤ fmt_room
    → l.current_log_level ≤ log_level level
    → l.log_file_initialized ≡ true
    → l.fs.initialized ≡ true
    → AllSized l.fs.files
    → length (module_text m) ≤ 500
    → (fs' : FileSystem) × (logger_rust_log_fmt at l level m format args
        ≡ some (
          printed_header (log_level level) (module_text m) ++ (shown s ∷ shown (codes "\n") ∷ []),
          record l { fs = fs' },
        ))
      × Appended l.fs fs' (log_text (log_level level) (module_text m) s)
unfolding logger_rust_log_fmt
logger_rust_log_fmt-appends at l level m format args s ne whole small loud ready on sized short =
    let (fs', run, done) =
      logger_log-text at s ne l (log_level level) m loud ready on sized short in
    (
      fs',
      ap (λ o. o >>= λ b. logger_log l (log_level level) m (codes "%s") (text at b ∷ []))
            (fmt_text-Agrees false fmt_room format args s whole small)
          ∙ run,
      done,
    )
