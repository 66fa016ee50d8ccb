-- ===== src/RustLog/Tests.antt =====
-- A line of a Rust library on an empty disk.
use os_from_zero.Filesystem.Init.{blank_file, file_pool}
use os_from_zero.Filesystem.Store.{AllSized-replicate, blank_file-IsSized}
use os_from_zero.Base.{
  ℕ, ◌≤◌, ◌≡◌, refl, true, false, some, List, [], ◌∷◌, ◌++◌, arith, length, codes,
}
use os_from_zero.Filesystem.{FileSystem}
use os_from_zero.Logger.{Logger, LogArg, word, text, shown, decimal_digits, hex_digits, signed}
use os_from_zero.Logger.Lines.{module_text, printed_header}
use os_from_zero.Logger.Room.{log_text}
use os_from_zero.Logger.Append.{Appended}
use os_from_zero.RustLog.{log_level, logger_rust_log_fmt, fmt_text, fmt_directive}
use os_from_zero.RustLog.Format.{format_text, directive_text}
use os_from_zero.RustLog.Buffer.{length-fmt_text}
use os_from_zero.RustLog.Log.{logger_rust_log_fmt-appends}

abbrev logger : Logger
logger = record {
  current_log_level = 1;
  log_file_initialized = true;
  fs = record { files = file_pool; current_time = 0; initialized = true };
}

abbrev window_arguments : List LogArg
window_arguments = word 7 ∷ text 4096 (codes "clock") ∷ word 255 ∷ []

abbrev window_text : List ℕ
window_text = codes "window 7 of clock at 0xFF 100%"

window_format :
    format_text false (codes "window %d of %s at %x 100%%") window_arguments ≡ some window_text
unfolding format_text directive_text signed decimal_digits hex_digits
window_format = refl

logger_rust_log_fmt-appends_example :
    (fs' : FileSystem) × (logger_rust_log_fmt 8192 logger 2
        (some (codes "wm"))
        (codes "window %d of %s at %x 100%%")
        window_arguments
      ≡ some (
        printed_header (log_level 2) (module_text (some (codes "wm")))
            ++ (shown window_text ∷ shown (codes "\n") ∷ []),
        record logger { fs = fs' },
      ))
    × Appended logger.fs fs' (log_text (log_level 2) (module_text (some (codes "wm"))) window_text)
logger_rust_log_fmt-appends_example =
    logger_rust_log_fmt-appends 8192 logger 2 (some (codes "wm"))
      (codes "window %d of %s at %x 100%%") window_arguments window_text (ground arith)
      window_format (omega arith) (omega arith) refl refl
      (AllSized-replicate 16 blank_file blank_file-IsSized) (omega arith)

-- Three bytes are left.
cut_text : fmt_text false 3 (codes "a%sc") (text 4096 (codes "bcd") ∷ []) ≡ some (codes "abc")
unfolding fmt_text fmt_directive
cut_text = refl

length-fmt_text_example : length (codes "abc") ≤ 3
length-fmt_text_example =
    length-fmt_text false 3 (codes "a%sc") (text 4096 (codes "bcd") ∷ []) (codes "abc") cut_text
