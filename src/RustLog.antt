-- ===== src/RustLog.antt =====
-- kernel/src/logger_rust.c: what the Rust libraries log, over Logger. A format and a text are the
-- bytes before their 0; `none` is a missing argument, a number that is taken for a text, or the
-- overflow of an int.
pub mod Format
pub mod Text
pub mod Buffer
pub mod Line
pub mod Log
mod Tests
use os_from_zero.Base.{
  ℕ, zero, suc, ◌-◌, ◌%◌, ◌^◌, Bool, true, false, ◌||◌, Option, none, some, List, [], ◌∷◌, ◌++◌,
  ◌==◌, ltb, leb, if◌then◌else◌, length, take, ◌>>=◌, codes,
}
use os_from_zero.Logger.{
  Logger, LogArg, Piece, text, decimal_digits, hex_digits, signed, next_word, next_text,
}
use os_from_zero.Logger.Lines.{logger_log}

-- The switch on the level: LOG_DEBUG is 0 and LOG_INFO is 1.
abbrev pub log_level : ℕ → ℕ
log_level level =
    if level == 0
    then 0
    else if level == 1
    then 1
    else if level == 2
    then 2
    else if level == 3
    then 3
    else 1

-- The message is a pointer to a text.
unfoldable pub logger_rust_log :
    Logger → ℕ → Option (List ℕ) → LogArg → Option (List Piece × Logger)
unfolding logger_log
logger_rust_log l level module_name message =
    logger_log l (log_level level) module_name (codes "%s") (message ∷ [])

-- The digits that are built backwards in `temp`.
abbrev pub decimal_text : ℕ → List ℕ
unfolding decimal_digits
decimal_text n = if n == 0 then b'0' ∷ [] else decimal_digits 31 n []

abbrev pub hex_text : ℕ → List ℕ
unfolding hex_digits
hex_text n = if n == 0 then b'0' ∷ [] else hex_digits 31 n []

-- A text in front of what is written after it, while `room` bytes are left in the buffer.
abbrev pub fit : ℕ → List ℕ → List ℕ → List ℕ
fit room front back = take room front ++ take (room - length front) back

abbrev pub fit_signed : ℕ → Bool × ℕ → List ℕ
fit_signed room (negative, n) =
    if negative then fit room (b'-' ∷ []) (decimal_text n) else take room (decimal_text n)

-- "0x" is written only if there is room for both.
abbrev pub fit_hex : ℕ → ℕ → List ℕ
fit_hex room n = if leb 2 room then fit room (codes "0x") (hex_text n) else take room (hex_text n)

-- `str ? str : "(null)"`
abbrev pub or_null : Option (List ℕ) → List ℕ
or_null none = codes "(null)"
or_null (some s) = s

-- The switch: the bytes that it writes with `room` bytes left, and the arguments left.
unfoldable pub fmt_directive : ℕ → ℕ → List LogArg → Option (List ℕ × List LogArg)
unfolding signed
fmt_directive room c args =
    if c == b'd'
    then (do (w, args') ← next_word args; v ← signed 32 w; some (fit_signed room v, args'))
    else if c == b'u'
    then (do (w, args') ← next_word args; some (take room (decimal_text (w % 2 ^ 32)), args'))
    else if c == b'x' || c == b'X'
    then (do (w, args') ← next_word args; some (fit_hex room (w % 2 ^ 32), args'))
    else if c == b'p'
    then (do (w, args') ← next_word args; some (fit_hex room (w % 2 ^ 64), args'))
    else if c == b's'
    then (do (s, args') ← next_text args; some (take room (or_null s), args'))
    else if c == b'%'
    then some (take room (b'%' ∷ []), args)
    else some (fit room (b'%' ∷ []) (c ∷ []), args)

-- What is written in front of the rest.
abbrev pub written : List ℕ → Option (List ℕ) → Option (List ℕ)
written s none = none
written s (some t) = some (s ++ t)

-- The loop, outside of a directive or behind its '%': the bytes that it writes. It stops at the end
-- of the format, or outside of a directive when there is no room left.
unfoldable pub fmt_text : Bool → ℕ → List ℕ → List LogArg → Option (List ℕ)
unfolding fmt_directive
fmt_text false room [] args = some []
fmt_text true room [] args = some (take room (b'%' ∷ []))
fmt_text false room (c ∷ s) args =
    let rest = fmt_text (c == b'%') (if c == b'%' then room else room - 1) s args in
    if room == 0 then some [] else if c == b'%' then rest else written (c ∷ []) rest
fmt_text true room (c ∷ s) args = do
  (t, args') ← fmt_directive room c args
  written t (fmt_text false (room - length t) s args')

-- sizeof(buffer) - 1
abbrev pub fmt_room : ℕ
fmt_room = 511

-- `at` is the address of the buffer.
unfoldable pub logger_rust_log_fmt :
    ℕ → Logger → ℕ → Option (List ℕ) → List ℕ → List LogArg → Option (List Piece × Logger)
unfolding fmt_text logger_log
logger_rust_log_fmt at l level module_name format args = do
  buffer ← fmt_text false fmt_room format args
  logger_log l (log_level level) module_name (codes "%s") (text at buffer ∷ [])
