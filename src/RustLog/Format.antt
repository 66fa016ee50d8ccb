-- ===== src/RustLog/Format.antt =====
-- The text that a format of logger_rust_log_fmt stands for, however long it is.
use os_from_zero.Base.{
  ℕ, ◌%◌, ◌^◌, Bool, true, false, ◌||◌, Option, some, List, [], ◌∷◌, ◌++◌, ◌==◌, if◌then◌else◌,
  ◌>>=◌, codes,
}
use os_from_zero.Logger.{LogArg, signed, next_word, next_text}
use os_from_zero.RustLog.{decimal_text, hex_text, or_null, written}

abbrev pub signed_text : Bool × ℕ → List ℕ
signed_text (negative, n) = if negative then b'-' ∷ decimal_text n else decimal_text n

-- What the directive stands for, however long it is.
unfoldable pub directive_text : ℕ → List LogArg → Option (List ℕ × List LogArg)
unfolding signed
directive_text c args =
    if c == b'd'
    then (do (w, args') ← next_word args; v ← signed 32 w; some (signed_text v, args'))
    else if c == b'u'
    then (do (w, args') ← next_word args; some (decimal_text (w % 2 ^ 32), args'))
    else if c == b'x' || c == b'X'
    then (do (w, args') ← next_word args; some (codes "0x" ++ hex_text (w % 2 ^ 32), args'))
    else if c == b'p'
    then (do (w, args') ← next_word args; some (codes "0x" ++ hex_text (w % 2 ^ 64), args'))
    else if c == b's'
    then (do (s, args') ← next_text args; some (or_null s, args'))
    else if c == b'%'
    then some (b'%' ∷ [], args)
    else some (b'%' ∷ c ∷ [], args)

-- The text of a format and its arguments.
unfoldable pub format_text : Bool → List ℕ → List LogArg → Option (List ℕ)
unfolding directive_text
format_text false [] args = some []
format_text true [] args = some (b'%' ∷ [])
format_text false (c ∷ s) args =
    let rest = format_text (c == b'%') s args in if c == b'%' then rest else written (c ∷ []) rest
format_text true (c ∷ s) args = do
  (t, args') ← directive_text c args
  written t (format_text false s args')
