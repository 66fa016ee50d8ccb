-- ===== src/Keyboard.antt =====
-- kernel/src/keyboard.c: read_key, which serves the keyboard and the mouse. One poll of the
-- controller is what its ports answer in that round of the loop. The calls of the window manager
-- keep no state of the driver, and are left out.
pub mod Keys
mod Tests
use os_from_zero.Base.{
  ℕ, ◌&&◌, Bool, true, false, not, Option, none, some, List, [], ◌∷◌, ◌++◌, ◌==◌, ltb,
  if◌then◌else◌, get_or, replicate, test_bit,
}
use os_from_zero.Mouse.{Mouse, mouse_handle_interrupt}

-- The rest of the 128 entries is 0.
abbrev pub scancode_to_ascii : List ℕ
scancode_to_ascii =
    0 ∷ 0 ∷ b'1' ∷ b'2' ∷ b'3' ∷ b'4' ∷ b'5' ∷ b'6' ∷ b'7' ∷ b'8' ∷ b'9' ∷ b'0' ∷ b'-' ∷ b'=' ∷ 8
    ∷ 9 ∷ b'q' ∷ b'w' ∷ b'e' ∷ b'r' ∷ b't' ∷ b'y' ∷ b'u' ∷ b'i' ∷ b'o' ∷ b'p' ∷ b'[' ∷ b']' ∷ 10 ∷ 0
    ∷ b'a' ∷ b's' ∷ b'd' ∷ b'f' ∷ b'g' ∷ b'h' ∷ b'j' ∷ b'k' ∷ b'l' ∷ b';' ∷ 39 ∷ b'`' ∷ 0 ∷ 92
    ∷ b'z' ∷ b'x' ∷ b'c' ∷ b'v' ∷ b'b' ∷ b'n' ∷ b'm' ∷ b',' ∷ b'.' ∷ b'/' ∷ 0 ∷ b'*' ∷ 0 ∷ b' ' ∷ []

-- The character of a key, 0 if it has none; codes from 128 on are releases.
unfoldable pub key_of : ℕ → ℕ
key_of scancode = if ltb scancode 128 then get_or scancode_to_ascii scancode 0 else 0

-- What the status port answers, what it answers to the mouse driver after that, and the data.
pub record Poll : Type 0 where
  pub status : ℕ
  pub mouse_statuses : List ℕ
  pub byte : ℕ

-- The loop of read_key over the polls; `none` while no key has come. The mouse takes its packets,
-- and the polls that are left are for the next call.
unfoldable pub read_key : Mouse → List Poll → Option (ℕ × Mouse × List Poll)
unfolding key_of
read_key m [] = none
read_key m (p ∷ polls) =
    let after_mouse = read_key (mouse_handle_interrupt m p.mouse_statuses p.byte) polls in
    let waiting = read_key m polls in
    if not (test_bit p.status 0)
    then waiting
    else if test_bit p.status 5
    then after_mouse
    else if key_of p.byte == 0
    then waiting
    else some (key_of p.byte, m, polls)
