-- ===== src/Decimal.antt =====
-- The loop that prints a number, which the kernel repeats in each of its files: `num_buf[i++] =
-- '0' + num % 10; num /= 10;` until the number is 0, then the buffer from its end to its start.
-- The buffer is a list with the byte written last in front, so the list reads as it is printed.
-- A write behind the end of the buffer is the fault `none`.
pub mod Value
pub mod Bound
pub mod More
mod Tests
use mathlib.Core.Option
use os_from_zero.Base.{
  ℕ, zero, suc, ◌+◌, ◌-◌, ◌*◌, ◌/◌, ◌%◌, ◌^◌, ◌<◌, Bool, true, ◌&&◌, Option, none, some, List, [],
  ◌∷◌, ◌==◌, ltb, leb, if◌then◌else◌, length,
}
use os_from_zero.Base.Int.{ℤ, pos, negsuc}

-- The loop, with `room` bytes left in the buffer.
unfoldable pub digit_loop : ℕ → ℕ → List ℕ → Option (List ℕ)
digit_loop zero n out = if n == 0 then some out else none
digit_loop (suc room) n out =
    let rest = digit_loop room (n / 10) ((b'0' + n % 10) ∷ out) in if n == 0 then some out else rest

-- With the case of 0 before it, for a buffer of `size` bytes.
unfoldable pub print_number : ℕ → ℕ → Option (List ℕ)
unfolding digit_loop
print_number size n = if n == 0 then some (b'0' ∷ []) else digit_loop size n []

-- `is_negative` adds the sign to `temp`.
abbrev pub add_sign : ℕ → Option (List ℕ) → Option (List ℕ)
add_sign size none = none
add_sign size (some s) = if ltb (length s) size then some (b'-' ∷ s) else none

-- The text that int_to_string builds in `temp`, of 12 bytes. `-value` overflows at the least int.
unfoldable pub int_text : ℤ → Option (List ℕ)
unfolding print_number
int_text (pos n) = print_number 12 n
int_text (negsuc n) = if ltb n (2 ^ 31 - 1) then add_sign 12 (digit_loop 12 (suc n) []) else none

-- The buffer receives the text and a 0; a write behind its end is a fault.
unfoldable pub write_text : List ℕ → List ℕ → Option (List ℕ)
write_text [] s = none
write_text (x ∷ buffer) [] = some (0 ∷ buffer)
write_text (x ∷ buffer) (c ∷ s) = Option.map (λ b. c ∷ b) (write_text buffer s)

unfoldable pub int_to_string : ℤ → List ℕ → Option (List ℕ)
unfolding int_text write_text
int_to_string value buffer = Option.bind (int_text value) (write_text buffer)

abbrev pub is_digit : ℕ → Bool
is_digit c = leb b'0' c && leb c b'9'
