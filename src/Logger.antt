-- ===== src/Logger.antt =====
-- kernel/src/logger.c: numbers as text, the two passes over the format, and the log file. The
-- terminal and the serial port are what is printed on both.
mod Tests
pub mod Lines
pub mod Copy
pub mod Room
pub mod Append
pub mod Percent
pub mod Numbers
use os_from_zero.Base.{
  ℕ, zero, suc, ◌+◌, ◌-◌, ◌*◌, ◌/◌, ◌%◌, ◌^◌, ◌<◌, ◌&&◌, ◌||◌, Bool, true, false, not, Option, none,
  some, List, [], ◌∷◌, ◌++◌, ◌==◌, ltb, leb, if◌then◌else◌, length, take, get_or, ◌>>=◌, codes,
}
use os_from_zero.Filesystem.{FileSystem, FileType, file_exists, create_file, read_file, write_file}

-- The first loop of uint_to_string, with the rounds left; the digit found last is in front.
unfoldable pub decimal_digits : ℕ → ℕ → List ℕ → List ℕ
decimal_digits zero n out = out
decimal_digits (suc room) n out =
    let rest = decimal_digits room (n / 10) ((b'0' + n % 10) ∷ out) in if n == 0 then out else rest

abbrev pub hex_digit : ℕ → ℕ
hex_digit d = get_or (codes "0123456789ABCDEF") d 0

unfoldable pub hex_digits : ℕ → ℕ → List ℕ → List ℕ
hex_digits zero n out = out
hex_digits (suc room) n out =
    let rest = hex_digits room (n / 16) (hex_digit (n % 16) ∷ out) in if n == 0 then out else rest

-- sizeof(num_buf) and sizeof(hex_buf), which every call passes.
abbrev pub number_size : ℕ
number_size = 32

-- The text that is left in the buffer.
unfoldable pub uint_to_string : ℕ → List ℕ
unfolding decimal_digits
uint_to_string num =
    if num == 0 then b'0' ∷ [] else take (number_size - 1) (decimal_digits 31 num [])

unfoldable pub uint_to_hex_string : ℕ → List ℕ
unfolding hex_digits
uint_to_hex_string num =
    if num == 0 then b'0' ∷ [] else b'0' ∷ b'x' ∷ take (number_size - 3) (hex_digits 31 num [])

-- log_level_t: LOG_DEBUG is 0 and LOG_NONE is 4.
abbrev pub get_level_string : ℕ → List ℕ
get_level_string level =
    if level == 0
    then codes "DEBUG"
    else if level == 1
    then codes "INFO "
    else if level == 2
    then codes "WARN "
    else if level == 3
    then codes "ERROR"
    else codes "UNKN "

-- The static variables, and the file system that the log file is in.
pub record Logger : Type 0 where
  pub current_log_level : ℕ
  pub log_file_initialized : Bool
  pub fs : FileSystem

-- An argument after the format: a number, or a pointer to a text (0 is NULL).
pub data LogArg : Type 0 where
  word : ℕ → LogArg
  text : ℕ → List ℕ → LogArg

-- What is printed on the terminal and on the serial port: a text, whose newlines the serial port
-- gets with a carriage return, or a character.
pub data Piece : Type 0 where
  shown : List ℕ → Piece
  one : ℕ → Piece

abbrev pub word_of : LogArg → ℕ
word_of (word w) = w
word_of (text at s) = at

-- va_arg; no argument is left: a fault.
abbrev pub next_word : List LogArg → Option (ℕ × List LogArg)
next_word [] = none
next_word (a ∷ args) = some (word_of a, args)

-- The text at a pointer, `none` for NULL. A number that is no pointer is a fault.
abbrev pub next_text : List LogArg → Option (Option (List ℕ) × List LogArg)
next_text [] = none
next_text (word w ∷ args) = if w == 0 then some (none, args) else none
next_text (text at s ∷ args) = if at == 0 then some (none, args) else some (some s, args)

-- A signed number of `bits` bits: its sign and its size. The least one overflows in `-val`.
unfoldable pub signed : ℕ → ℕ → Option (Bool × ℕ)
signed bits w =
    if ltb (w % 2 ^ bits) (2 ^ (bits - 1))
    then some (false, w % 2 ^ bits)
    else if w % 2 ^ bits == 2 ^ (bits - 1)
    then none
    else some (true, 2 ^ bits - w % 2 ^ bits)

abbrev pub minus_sign : Bool → List Piece
minus_sign negative = if negative then shown (b'-' ∷ []) ∷ [] else []

abbrev pub shown_signed : Bool × ℕ → List Piece
shown_signed (negative, n) = minus_sign negative ++ (shown (uint_to_string n) ∷ [])

-- The cases that take a number of `bits` bits: d, u, x and X.
abbrev pub number_pieces : ℕ → ℕ → ℕ → Option (List Piece)
number_pieces bits c w =
    if c == b'd'
    then (do v ← signed bits w; some (shown_signed v))
    else if c == b'u'
    then some (shown (uint_to_string (w % 2 ^ bits)) ∷ [])
    else some (shown (uint_to_hex_string (w % 2 ^ bits)) ∷ [])

abbrev pub is_number : ℕ → Bool
is_number c = c == b'd' || (c == b'u' || (c == b'x' || c == b'X'))

-- The switch of the first pass, but for 'l': what is printed, and the arguments that are left.
unfoldable pub directive : ℕ → List LogArg → Option (List Piece × List LogArg)
unfolding signed uint_to_string uint_to_hex_string
directive c args =
    if c == b's'
    then (do
      (s, args') ← next_text args
      some (elim s [ none ↦ shown (codes "(null)") ∷ [] | some t ↦ shown t ∷ [] ], args'))
    else if is_number c
    then (do (w, args') ← next_word args; pieces ← number_pieces 32 c w; some (pieces, args'))
    else if c == b'p'
    then (do
      (w, args') ← next_word args
      some (shown (uint_to_hex_string (w % 2 ^ 64)) ∷ [], args'))
    else if c == b'%'
    then some (shown (b'%' ∷ []) ∷ [], args)
    else some (shown (b'%' ∷ []) ∷ one c ∷ [], args)

-- Where the first pass is: outside of a directive, after '%', after "%l".
pub data Mode : Type 0 where
  outside percent long : Mode

abbrev pub before : List Piece → Option (List Piece) → Option (List Piece)
before pieces none = none
before pieces (some more) = some (pieces ++ more)

-- The first pass. After a '%' at the end of the format it goes on behind the final 0: a fault.
-- After "%l" and another character, that character is read again.
unfoldable pub first_pass : Mode → List ℕ → List LogArg → Option (List Piece)
unfolding directive
first_pass outside [] args = some []
first_pass percent [] args = none
first_pass long [] args = some (shown (codes "%l") ∷ [])
first_pass outside (c ∷ s) args =
    let directed = first_pass percent s args in
    let rest = first_pass outside s args in if c == b'%' then directed else before (one c ∷ []) rest
first_pass percent (c ∷ s) args =
    let lengthened = first_pass long s args in
    let directed = (do
      (pieces, args') ← directive c args
      before pieces (first_pass outside s args')) in
    if c == b'l' then lengthened else directed
first_pass long (c ∷ s) args =
    let numbered = (do
      (w, args') ← next_word args
      pieces ← number_pieces 64 c w
      before pieces (first_pass outside s args')) in
    let directed = first_pass percent s args in
    let rest = first_pass outside s args in
    if is_number c
    then numbered
    else if c == b'%'
    then before (shown (codes "%l") ∷ []) directed
    else before (shown (codes "%l") ∷ one c ∷ []) rest
