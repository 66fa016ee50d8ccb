-- ===== src/Terminal.antt =====
-- kernel/src/terminal.c: the cursor and the pixels of the terminal. A pixel is written by its index
-- in the framebuffer; outside of it the write is a fault. terminal_print, which also serves the
-- mouse between two characters, is terminal_putchar for each of them.
mod Tests
pub mod Safe
use os_from_zero.Base.{
  ℕ, zero, suc, ◌+◌, ◌-◌, ◌*◌, ◌/◌, ◌%◌, ◌^◌, ◌&&◌, ◌||◌, Bool, not, Option, none, some, List, [],
  ◌∷◌, ◌==◌, ltb, if◌then◌else◌, get_or, ◌>>=◌, test_bit, for_up,
}
use os_from_zero.Font.{font_8x8}

-- The fields of limine_framebuffer that the terminal reads.
pub record Framebuffer : Type 0 where
  pub width : ℕ
  pub height : ℕ
  pub pitch : ℕ

abbrev pub Pixels : Type 0
Pixels = ℕ → ℕ

-- The pixels of g_framebuffer, and the cursor.
pub record Terminal : Type 0 where
  pub pixels : Pixels
  pub cursor_x : ℕ
  pub cursor_y : ℕ

abbrev pub char_width : ℕ
char_width = 16

abbrev pub char_height : ℕ
char_height = 16

abbrev pub text_color : ℕ
text_color = 0x003fb950

abbrev pub bg_color : ℕ
bg_color = 0x0d1117

-- `v < (int)w`, for a `v` that is not negative.
abbrev pub below_int : ℕ → ℕ → Bool
below_int v w = ltb (w % 2 ^ 32) (2 ^ 31) && ltb v (w % 2 ^ 32)

abbrev pub terminal_init : Pixels → Terminal
terminal_init pixels = record { pixels = pixels; cursor_x = 0; cursor_y = 0 }

module _ (fb : Framebuffer) where
  -- `fb_ptr[i] = color`
  unfoldable pub store_pixel : ℕ → ℕ → Pixels → Option Pixels
  store_pixel i color m =
      if ltb i (fb.pitch / 4 * fb.height) then some (λ j. if j == i then color else m j) else none

  -- One pixel, if it lies on the screen.
  unfoldable pub put_pixel : ℕ → ℕ → ℕ → Pixels → Option Pixels
  unfolding store_pixel
  put_pixel x y color m =
      if below_int x fb.width && below_int y fb.height
      then store_pixel (y * (fb.pitch / 4) + x) color m
      else some m

  -- The 2 by 2 block of one bit of a glyph.
  unfoldable pub draw_block : ℕ → ℕ → ℕ → Pixels → Option Pixels
  unfolding put_pixel for_up
  draw_block x y color =
      for_up 2 0 λ scale_y. for_up 2 0 λ scale_x. put_pixel (x + scale_x) (y + scale_y) color

  -- One bit of a row of a glyph, the first one in bit 7.
  unfoldable pub draw_bit : ℕ → ℕ → ℕ → ℕ → ℕ → Pixels → Option Pixels
  unfolding draw_block
  draw_bit bits x y color col m =
      if test_bit bits (7 - col) then draw_block (x + col * 2) y color m else some m

  unfoldable pub draw_char : ℕ → ℕ → ℕ → ℕ → Pixels → Option Pixels
  unfolding draw_bit font_8x8 for_up
  draw_char c x y color m =
      if ltb c 32 || ltb 126 c
      then some m
      else for_up 8 0
          (λ row. for_up 8 0 (draw_bit (get_or (get_or font_8x8 c []) row 0) x (y + row * 2) color))
          m

  unfoldable pub draw_string : List ℕ → ℕ → ℕ → ℕ → Pixels → Option Pixels
  unfolding draw_char
  draw_string [] x y color m = some m
  draw_string (c ∷ s) x y color m =
      let rest = (do m' ← draw_char c x y color m; draw_string s (x + char_width) y color m') in
      if c == 0 then some m else rest

  unfoldable pub clear_screen : Terminal → Option Terminal
  unfolding store_pixel for_up
  clear_screen t = do
    m ← for_up (fb.width * fb.height % 2 ^ 64) 0 (λ i. store_pixel i bg_color) t.pixels
    some (record { pixels = m; cursor_x = 0; cursor_y = 0 })

  -- The cursor goes to the start of the next line; at the bottom the screen is cleared.
  unfoldable pub next_line : Terminal → Option Terminal
  unfolding clear_screen
  next_line t =
      if below_int (t.cursor_y + char_height + char_height) fb.height
      then some (record t { cursor_x = 0; cursor_y = t.cursor_y + char_height })
      else clear_screen (record t { cursor_x = 0; cursor_y = t.cursor_y + char_height })

  -- The character at the cursor is cleared. A cursor left of the screen would be a fault.
  unfoldable pub backspace : Terminal → Option Terminal
  unfolding put_pixel for_up
  backspace t = if t.cursor_x == 0 then some t else if ltb t.cursor_x char_width then none else (do
    m ←
        for_up char_height t.cursor_y
          (λ y. for_up char_width (t.cursor_x - char_width) (λ x. put_pixel x y bg_color)) t.pixels
    some (record t { pixels = m; cursor_x = t.cursor_x - char_width }))

  unfoldable pub put_glyph : ℕ → Terminal → Option Terminal
  unfolding draw_char next_line
  put_glyph c t = do
    m ← draw_char c t.cursor_x t.cursor_y text_color t.pixels
    let moved = record t { pixels = m; cursor_x = t.cursor_x + char_width }
    if below_int (t.cursor_x + char_width + char_width) fb.width
        then some moved
        else next_line moved

  unfoldable pub terminal_putchar : ℕ → Terminal → Option Terminal
  unfolding next_line backspace put_glyph
  terminal_putchar c t =
      if c == 10 then next_line t else if c == 8 then backspace t else put_glyph c t

  -- The characters of a text after one another.
  unfoldable pub put_all : List ℕ → Terminal → Option Terminal
  unfolding terminal_putchar
  put_all [] t = some t
  put_all (c ∷ s) t = do t' ← terminal_putchar c t; put_all s t'

  -- Negative coordinates are left out by the type.
  unfoldable pub draw_pixel : ℕ → ℕ → ℕ → Pixels → Option Pixels
  unfolding put_pixel
  draw_pixel x y color m = put_pixel x y color m
