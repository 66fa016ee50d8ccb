-- ===== src/Terminal/Safe.antt =====
-- The terminal writes inside the framebuffer, whatever is printed.
use native.Mathlib.Nat.{mul-le-mul_right}
use os_from_zero.Base.{
  ℕ, ◌+◌, ◌-◌, ◌*◌, ◌/◌, ◌%◌, ◌^◌, ◌<◌, ◌≤◌, ◌≡◌, refl, ◌∙◌, ◌⊎◌, inl, inr, Bool, true, false, ◌&&◌,
  ◌||◌, some, Option, List, [], ◌∷◌, arith, ◌==◌, ltb, lt→ltb, Bool-cases, get_or, test_bit, for_up,
  for_up_inv, if_true, if_false,
}
use os_from_zero.Font.{font_8x8}
use os_from_zero.Terminal.{
  Framebuffer, Pixels, Terminal, char_width, char_height, text_color, bg_color, below_int,
  store_pixel, put_pixel, draw_block, draw_bit, draw_char, clear_screen, next_line, backspace,
  put_glyph, terminal_putchar, put_all,
}

-- A framebuffer whose lines hold its width, of a size that an `int` holds.
pub record IsMapped (fb : Framebuffer) : Type 0 where
  pub line : fb.width ≤ fb.pitch / 4
  pub narrow : fb.width < 2 ^ 31
  pub low : fb.height < 2 ^ 31

-- The cursor is on a multiple of 16, with room for a character right of it and below it, or at the
-- start.
pub record IsPlaced (fb : Framebuffer) (t : Terminal) : Type 0 where
  pub column : t.cursor_x % 16 ≡ 0
  pub across : (t.cursor_x ≡ 0) ⊎ (t.cursor_x + 16 < fb.width)
  pub down : (t.cursor_y ≡ 0) ⊎ (t.cursor_y + 16 < fb.height)

index_below : (x y w line h : ℕ) → x < w → w ≤ line → y < h → y * line + x < line * h
index_below x y w line h p q r = grind arith

below_int-lt : (v w : ℕ) → below_int v w ≡ true → w < 2 ^ 31 → v < w
below_int-lt v w e h = ground arith

area_le : (i w line h : ℕ) → w ≤ line → i < 0 + w * h % 2 ^ 64 → i < line * h
area_le i w line h le lt = omega (arith, mul-le-mul_right h le)

both : (a b : Bool) → (a && b) ≡ true → (a ≡ true) × (b ≡ true)
both a b e = ground arith

abbrev Runs : (Pixels → Option Pixels) → Type 0
Runs draw = (m : Pixels) → (m' : Pixels) × (draw m ≡ some m') × Unit {0}

module _ (fb : Framebuffer) (mapped : IsMapped fb) where
  store_pixel-Runs : (i color : ℕ) → i < fb.pitch / 4 * fb.height → Runs (store_pixel fb i color)
  unfolding store_pixel
  store_pixel-Runs i color h m = (_, if_true _ _ _ (lt→ltb i (fb.pitch / 4 * fb.height) h), tt)

  on_screen :
      (x y : ℕ)
      → (below_int x fb.width && below_int y fb.height) ≡ true
      → (x < fb.width) × (y < fb.height)
  on_screen x y on =
      let (p, q) = both _ _ on in
      (below_int-lt x fb.width p mapped.narrow, below_int-lt y fb.height q mapped.low)

  put_pixel-Runs : (x y color : ℕ) → Runs (put_pixel fb x y color)
  unfolding put_pixel
  put_pixel-Runs x y color m = elim (Bool-cases (below_int x fb.width && below_int y fb.height)) [
    | inl on ↦
        let (column, row) = on_screen x y on in
        let inside = index_below x y fb.width (fb.pitch / 4) fb.height column mapped.line row in
        let (m', run, _) = store_pixel-Runs (y * (fb.pitch / 4) + x) color inside m in
        (m', if_true _ _ _ on ∙ run, tt)
    | inr off ↦ (m, if_false _ _ _ off, tt)
  ]

  loop-Runs :
      (rounds from : ℕ) (body : ℕ → Pixels → Option Pixels)
      → ((i : ℕ) → Runs (body i))
      → Runs (for_up rounds from body)
  loop-Runs rounds from body each m =
      for_up_inv (λ _. Unit {0}) rounds from body m (λ i t _ _ _. each i t) tt

  draw_bit-Runs : (bits x y color col : ℕ) → Runs (draw_bit fb bits x y color col)
  unfolding draw_bit draw_block
  draw_bit-Runs bits x y color col m = elim (Bool-cases (test_bit bits (7 - col))) [
    | inl set_bit ↦
        let (m', run, _) =
          loop-Runs 2 0 _
            (λ scale_y.
              loop-Runs 2 0 _
                (λ scale_x. put_pixel-Runs (x + col * 2 + scale_x) (y + scale_y) color))
            m in
        (m', if_true _ _ _ set_bit ∙ run, tt)
    | inr clear ↦ (m, if_false _ _ _ clear, tt)
  ]

  draw_char-Runs : (c x y color : ℕ) → Runs (draw_char fb c x y color)
  unfolding draw_char draw_bit draw_block
  draw_char-Runs c x y color m = elim (Bool-cases (ltb c 32 || ltb 126 c)) [
    | inl other ↦ (m, if_true _ _ _ other, tt)
    | inr shown ↦
        let (m', run, _) =
          loop-Runs 8 0 _
            (λ row.
              loop-Runs 8 0 _
                (draw_bit-Runs (get_or (get_or font_8x8 c []) row 0) x (y + row * 2) color))
            m in
        (m', if_false _ _ _ shown ∙ run, tt)
  ]

  clear_screen-IsPlaced :
      (t : Terminal) → (t' : Terminal) × (clear_screen fb t ≡ some t') × IsPlaced fb t'
  unfolding clear_screen
  clear_screen-IsPlaced t =
      let (m, run, _) =
        for_up_inv (λ _. Unit {0}) (fb.width * fb.height % 2 ^ 64) 0
          (λ i. store_pixel fb i bg_color) t.pixels
          (λ i u ge lt _.
            store_pixel-Runs i bg_color (area_le i fb.width (fb.pitch / 4) fb.height mapped.line lt)
              u)
          tt in
      (
        record { pixels = m; cursor_x = 0; cursor_y = 0 },
        rw run,
        record { column = refl; across = inl refl; down = inl refl },
      )

  next_line-IsPlaced :
      (t : Terminal) → (t' : Terminal) × (next_line fb t ≡ some t') × IsPlaced fb t'
  unfolding next_line
  next_line-IsPlaced t =
      elim (Bool-cases (below_int (t.cursor_y + char_height + char_height) fb.height)) [
        | inl room ↦ (
          _,
          if_true _ _ _ room,
          record {
            column = refl;
            across = inl refl;
            down =
                inr
                  (below_int-lt (t.cursor_y + char_height + char_height) fb.height room mapped.low);
          },
        )
        | inr bottom ↦
            let (t', run, placed) =
              clear_screen-IsPlaced
                (record t { cursor_x = 0; cursor_y = t.cursor_y + char_height }) in
            (t', if_false _ _ _ bottom ∙ run, placed)
      ]

  backspace-IsPlaced :
      (t : Terminal) → IsPlaced fb t → (t' : Terminal) × (backspace fb t ≡ some t') × IsPlaced fb t'
  unfolding backspace
  backspace-IsPlaced t placed = elim (Bool-cases (t.cursor_x == 0)) [
    | inl home ↦ (t, if_true _ _ _ home, placed)
    | inr off ↦
        let room : ltb t.cursor_x char_width ≡ false = ground (arith, placed.column) in
        let (m, run, _) =
          loop-Runs char_height t.cursor_y _
            (λ y.
              loop-Runs char_width (t.cursor_x - char_width) _ (λ x. put_pixel-Runs x y bg_color))
            t.pixels in
        (
          record t { pixels = m; cursor_x = t.cursor_x - char_width },
          rw (off, room, run),
          record {
            column = ground (arith, placed.column);
            across = ground (arith, placed.across);
            down = placed.down;
          },
        )
  ]

  put_glyph-IsPlaced :
      (c : ℕ) (t : Terminal)
      → IsPlaced fb t
      → (t' : Terminal) × (put_glyph fb c t ≡ some t') × IsPlaced fb t'
  unfolding put_glyph
  put_glyph-IsPlaced c t placed =
      let (m, run, _) = draw_char-Runs c t.cursor_x t.cursor_y text_color t.pixels in
      let moved = record t { pixels = m; cursor_x = t.cursor_x + char_width } in
      elim (Bool-cases (below_int (t.cursor_x + char_width + char_width) fb.width)) [
        | inl room ↦ (
          moved,
          rw (run, room),
          record {
            column = ground (arith, placed.column);
            across =
                inr
                  (below_int-lt (t.cursor_x + char_width + char_width) fb.width room mapped.narrow);
            down = placed.down;
          },
        )
        | inr edge ↦
            let (t', more, done) = next_line-IsPlaced moved in (t', rw (run, edge) more, done)
      ]

  terminal_putchar-IsPlaced :
      (c : ℕ) (t : Terminal)
      → IsPlaced fb t
      → (t' : Terminal) × (terminal_putchar fb c t ≡ some t') × IsPlaced fb t'
  unfolding terminal_putchar
  terminal_putchar-IsPlaced c t placed = elim (Bool-cases (c == 10)) [
    | inl newline ↦
        let (t', run, done) = next_line-IsPlaced t in (t', if_true _ _ _ newline ∙ run, done)
    | inr other ↦ elim (Bool-cases (c == 8)) [
      | inl back ↦
          let (t', run, done) = backspace-IsPlaced t placed in (t', rw (other, back) run, done)
      | inr glyph ↦
          let (t', run, done) = put_glyph-IsPlaced c t placed in (t', rw (other, glyph) run, done)
    ]
  ]

  -- From a cursor in its place, any text is printed without a write outside of the framebuffer,
  -- and the cursor stays in its place.
  pub put_all-IsPlaced :
      (s : List ℕ) (t : Terminal)
      → IsPlaced fb t
      → (t' : Terminal) × (put_all fb s t ≡ some t') × IsPlaced fb t'
  unfolding put_all
  put_all-IsPlaced [] t placed = (t, refl, placed)
  put_all-IsPlaced (c ∷ s) t placed =
      let (t₁, first, kept) = terminal_putchar-IsPlaced c t placed in
      let (t', rest, done) = put_all-IsPlaced s t₁ kept in (t', rw first rest, done)
