-- ===== src/Logger/Lines.antt =====
-- The line of the log file and logger_log, of kernel/src/logger.c. A text is what stands before its
-- final 0.
use os_from_zero.Base.{
  ℕ, ◌+◌, ◌-◌, ◌%◌, ◌^◌, Bool, true, false, ◌||◌, Option, none, some, List, [], ◌∷◌, ◌++◌, ◌==◌,
  ltb, if◌then◌else◌, length, ◌>>=◌, codes,
}
use os_from_zero.Filesystem.{FileSystem, FileType, file_exists, create_file, read_file, write_file}
use os_from_zero.Logger.{
  uint_to_string, uint_to_hex_string, get_level_string, Logger, LogArg, Piece, shown, next_word,
  next_text, signed, first_pass, Mode,
}

-- sizeof(log_buffer)
abbrev pub log_size : ℕ
log_size = 512

-- `if (pos < sizeof(log_buffer) - 1) log_buffer[pos++] = c`, with the bytes written so far.
unfoldable pub put : List ℕ → ℕ → List ℕ
put out c = if ltb (length out) (log_size - 1) then out ++ (c ∷ []) else out

-- The loop that copies a text while there is room.
unfoldable pub put_text : List ℕ → List ℕ → List ℕ
put_text out [] = out
put_text out (c ∷ s) =
    let rest = put_text (out ++ (c ∷ [])) s in if ltb (length out) (log_size - 1) then rest else out

-- `log_buffer[pos++] = c` without a test: behind the end it is a fault.
unfoldable pub put_raw : List ℕ → List ℕ → Option (List ℕ)
put_raw out [] = some out
put_raw out (c ∷ s) =
    let rest = put_raw (out ++ (c ∷ [])) s in if ltb (length out) log_size then rest else none

abbrev pub put_signed : List ℕ → Bool × ℕ → List ℕ
put_signed out (negative, n) = put_text (if negative then put out b'-' else out) (uint_to_string n)

abbrev pub put_pointed : List ℕ → Option (List ℕ) → List ℕ
put_pointed out none = out
put_pointed out (some s) = put_text out s

-- The switch of the second pass.
unfoldable pub stored : ℕ → List LogArg → List ℕ → Option (List ℕ × List LogArg)
unfolding signed
stored c args out =
    if c == b's'
    then (do (s, args') ← next_text args; some (put_pointed out s, args'))
    else if c == b'd'
    then (do (w, args') ← next_word args; v ← signed 32 w; some (put_signed out v, args'))
    else if c == b'u'
    then (do (w, args') ← next_word args; some (put_text out (uint_to_string (w % 2 ^ 32)), args'))
    else if c == b'x' || (c == b'X' || c == b'p')
    then (do
      (w, args') ← next_word args
      some (put_text out (uint_to_hex_string (w % 2 ^ 32)), args'))
    else some (put (put out b'%') c, args)

-- The second pass, outside of a directive or after '%'.
unfoldable pub second_pass : Bool → List ℕ → List LogArg → List ℕ → Option (List ℕ)
unfolding stored put
second_pass false [] args out = some out
second_pass true [] args out = some (put out b'%')
second_pass false (c ∷ s) args out =
    let rest = second_pass (c == b'%') s args (if c == b'%' then out else put out c) in
    if ltb (length out) (log_size - 1) then rest else some out
second_pass true (c ∷ s) args out = do
  (out', args') ← stored c args out
  second_pass false s args' out'

-- The newline and the final 0, which is not counted.
unfoldable pub end_line : List ℕ → Option (List ℕ)
unfolding put
end_line out = if ltb (length (put out 10)) log_size then some (put out 10) else none

unfoldable pub log_header : ℕ → List ℕ → Option (List ℕ)
unfolding put_text put_raw
log_header level module_str = do
  start ← put_raw [] (b'[' ∷ [])
  named ← put_raw (put_text start (get_level_string level)) (codes "] [")
  put_raw (put_text named module_str) (codes "] ")

-- What log_buffer holds before its 0.
unfoldable pub log_line : ℕ → List ℕ → List ℕ → List LogArg → Option (List ℕ)
unfolding log_header second_pass end_line
log_line level module_str format args = do
  header ← log_header level module_str
  out ← second_pass false format args header
  end_line out

-- LOG_FILE_PATH
abbrev pub log_file_path : List ℕ
log_file_path = codes "system.log"

-- The end of logger_log, with the bytes that are in the file. What fs_write_file returns is not
-- looked at.
unfoldable pub append_line : FileSystem → List ℕ → Option (List ℕ) → Option FileSystem
append_line fs line none = do (done, fs') ← write_file fs log_file_path line (length line); some fs'
append_line fs line (some existing) =
    if ltb (length existing + length line) 1024
    then (do
      let total_size = length existing + length line
      (done, fs') ← write_file fs log_file_path (existing ++ line) total_size
      some fs')
    else some fs

unfoldable pub write_log : Logger → ℕ → List ℕ → List ℕ → List LogArg → Option FileSystem
unfolding log_line append_line
write_log l level module_str format args =
    if l.log_file_initialized
    then (do
      line ← log_line level module_str format args
      append_line l.fs line (read_file l.fs log_file_path))
    else some l.fs

-- `module ? module : "UNKNOWN"`
abbrev pub module_text : Option (List ℕ) → List ℕ
module_text none = codes "UNKNOWN"
module_text (some s) = s

abbrev pub printed_header : ℕ → List ℕ → List Piece
printed_header level module_str =
    shown (codes "[")
    ∷ shown (get_level_string level)
    ∷ shown (codes "] [")
    ∷ shown module_str
    ∷ shown (codes "] ")
    ∷ []

-- What is printed, and the new state.
unfoldable pub logger_log :
    Logger → ℕ → Option (List ℕ) → List ℕ → List LogArg → Option (List Piece × Logger)
unfolding first_pass write_log
logger_log l level module_name format args =
    if ltb level l.current_log_level then some ([], l) else (do
      pieces ← first_pass Mode.outside format args
      fs ← write_log l level (module_text module_name) format args
      some (
        printed_header level (module_text module_name) ++ (pieces ++ (shown (codes "\n") ∷ [])),
        record l { fs = fs },
      ))

-- The serial port is set up besides.
unfoldable pub logger_init : FileSystem → Logger
logger_init fs = record {
  current_log_level = 1;
  log_file_initialized = true;
  fs =
      if file_exists fs log_file_path
      then fs
      else (create_file fs log_file_path FileType.regular).1;
}

unfoldable pub logger_set_level : Logger → ℕ → Logger
logger_set_level l level = record l { current_log_level = level }

abbrev pub logger_get_level : Logger → ℕ
logger_get_level l = l.current_log_level

-- The three helpers print on the terminal only; a pointer is its number.
abbrev pub logger_print_hex : ℕ → List ℕ
logger_print_hex value = uint_to_hex_string value

abbrev pub logger_print_dec : ℕ → List ℕ
logger_print_dec value = uint_to_string value

abbrev pub logger_print_ptr : ℕ → List ℕ
logger_print_ptr ptr = uint_to_hex_string ptr
