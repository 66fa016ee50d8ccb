-- ===== src/Font.antt =====
-- kernel/src/font.c: the rows of the 8 by 8 glyphs. Characters that the table does not name are
-- zero.
use os_from_zero.Base.{ℕ, List, [], ◌∷◌}

abbrev blank : List ℕ
blank = 0 ∷ 0 ∷ 0 ∷ 0 ∷ 0 ∷ 0 ∷ 0 ∷ 0 ∷ []

unfoldable pub font_8x8 : List (List ℕ)
font_8x8 =
    blank
    ∷ blank
    ∷ blank
    ∷ blank
    ∷ blank
    ∷ blank
    ∷ blank
    ∷ blank
    ∷ blank
    ∷ blank
    ∷ blank
    ∷ blank
    ∷ blank
    ∷ blank
    ∷ blank
    ∷ blank
    ∷ blank
    ∷ blank
    ∷ blank
    ∷ blank
    ∷ blank
    ∷ blank
    ∷ blank
    ∷ blank
    ∷ blank
    ∷ blank
    ∷ blank
    ∷ blank
    ∷ blank
    ∷ blank
    ∷ blank
    ∷ blank
    ∷ blank
    ∷ (0x18 ∷ 0x18 ∷ 0x18 ∷ 0x18 ∷ 0x00 ∷ 0x18 ∷ 0x18 ∷ 0x00 ∷ [])
    ∷ blank
    ∷ blank
    ∷ blank
    ∷ blank
    ∷ blank
    ∷ blank
    ∷ blank
    ∷ blank
    ∷ blank
    ∷ blank
    ∷ blank
    ∷ blank
    ∷ blank
    ∷ blank
    ∷ (0x3C ∷ 0x66 ∷ 0x6E ∷ 0x76 ∷ 0x66 ∷ 0x66 ∷ 0x3C ∷ 0x00 ∷ [])
    ∷ (0x18 ∷ 0x18 ∷ 0x38 ∷ 0x18 ∷ 0x18 ∷ 0x18 ∷ 0x7E ∷ 0x00 ∷ [])
    ∷ (0x3C ∷ 0x66 ∷ 0x06 ∷ 0x0C ∷ 0x30 ∷ 0x60 ∷ 0x7E ∷ 0x00 ∷ [])
    ∷ (0x3C ∷ 0x66 ∷ 0x06 ∷ 0x1C ∷ 0x06 ∷ 0x66 ∷ 0x3C ∷ 0x00 ∷ [])
    ∷ (0x06 ∷ 0x0E ∷ 0x1E ∷ 0x66 ∷ 0x7F ∷ 0x06 ∷ 0x06 ∷ 0x00 ∷ [])
    ∷ (0x7E ∷ 0x60 ∷ 0x7C ∷ 0x06 ∷ 0x06 ∷ 0x66 ∷ 0x3C ∷ 0x00 ∷ [])
    ∷ (0x3C ∷ 0x66 ∷ 0x60 ∷ 0x7C ∷ 0x66 ∷ 0x66 ∷ 0x3C ∷ 0x00 ∷ [])
    ∷ (0x7E ∷ 0x66 ∷ 0x0C ∷ 0x18 ∷ 0x18 ∷ 0x18 ∷ 0x18 ∷ 0x00 ∷ [])
    ∷ (0x3C ∷ 0x66 ∷ 0x66 ∷ 0x3C ∷ 0x66 ∷ 0x66 ∷ 0x3C ∷ 0x00 ∷ [])
    ∷ (0x3C ∷ 0x66 ∷ 0x66 ∷ 0x3E ∷ 0x06 ∷ 0x66 ∷ 0x3C ∷ 0x00 ∷ [])
    ∷ (0x00 ∷ 0x00 ∷ 0x18 ∷ 0x00 ∷ 0x00 ∷ 0x18 ∷ 0x00 ∷ 0x00 ∷ [])
    ∷ blank
    ∷ blank
    ∷ blank
    ∷ (0x00 ∷ 0x30 ∷ 0x0C ∷ 0x03 ∷ 0x0C ∷ 0x30 ∷ 0x00 ∷ 0x00 ∷ [])
    ∷ (0x3C ∷ 0x66 ∷ 0x06 ∷ 0x0C ∷ 0x18 ∷ 0x00 ∷ 0x18 ∷ 0x00 ∷ [])
    ∷ blank
    ∷ (0x3C ∷ 0x66 ∷ 0x66 ∷ 0x7E ∷ 0x66 ∷ 0x66 ∷ 0x66 ∷ 0x00 ∷ [])
    ∷ (0x7C ∷ 0x66 ∷ 0x66 ∷ 0x7C ∷ 0x66 ∷ 0x66 ∷ 0x7C ∷ 0x00 ∷ [])
    ∷ (0x3C ∷ 0x66 ∷ 0x60 ∷ 0x60 ∷ 0x60 ∷ 0x66 ∷ 0x3C ∷ 0x00 ∷ [])
    ∷ (0x7C ∷ 0x66 ∷ 0x66 ∷ 0x66 ∷ 0x66 ∷ 0x66 ∷ 0x7C ∷ 0x00 ∷ [])
    ∷ (0x7E ∷ 0x60 ∷ 0x60 ∷ 0x7C ∷ 0x60 ∷ 0x60 ∷ 0x7E ∷ 0x00 ∷ [])
    ∷ (0x7E ∷ 0x60 ∷ 0x60 ∷ 0x7C ∷ 0x60 ∷ 0x60 ∷ 0x60 ∷ 0x00 ∷ [])
    ∷ (0x3C ∷ 0x66 ∷ 0x60 ∷ 0x6E ∷ 0x66 ∷ 0x66 ∷ 0x3C ∷ 0x00 ∷ [])
    ∷ (0x66 ∷ 0x66 ∷ 0x66 ∷ 0x7E ∷ 0x66 ∷ 0x66 ∷ 0x66 ∷ 0x00 ∷ [])
    ∷ (0x3C ∷ 0x18 ∷ 0x18 ∷ 0x18 ∷ 0x18 ∷ 0x18 ∷ 0x3C ∷ 0x00 ∷ [])
    ∷ (0x1E ∷ 0x0C ∷ 0x0C ∷ 0x0C ∷ 0x0C ∷ 0x6C ∷ 0x38 ∷ 0x00 ∷ [])
    ∷ (0x66 ∷ 0x6C ∷ 0x78 ∷ 0x70 ∷ 0x78 ∷ 0x6C ∷ 0x66 ∷ 0x00 ∷ [])
    ∷ (0x60 ∷ 0x60 ∷ 0x60 ∷ 0x60 ∷ 0x60 ∷ 0x60 ∷ 0x7E ∷ 0x00 ∷ [])
    ∷ (0x63 ∷ 0x77 ∷ 0x7F ∷ 0x6B ∷ 0x63 ∷ 0x63 ∷ 0x63 ∷ 0x00 ∷ [])
    ∷ (0x66 ∷ 0x76 ∷ 0x7E ∷ 0x7E ∷ 0x6E ∷ 0x66 ∷ 0x66 ∷ 0x00 ∷ [])
    ∷ (0x3C ∷ 0x66 ∷ 0x66 ∷ 0x66 ∷ 0x66 ∷ 0x66 ∷ 0x3C ∷ 0x00 ∷ [])
    ∷ (0x7C ∷ 0x66 ∷ 0x66 ∷ 0x7C ∷ 0x60 ∷ 0x60 ∷ 0x60 ∷ 0x00 ∷ [])
    ∷ (0x3C ∷ 0x66 ∷ 0x66 ∷ 0x66 ∷ 0x66 ∷ 0x3C ∷ 0x0E ∷ 0x00 ∷ [])
    ∷ (0x7C ∷ 0x66 ∷ 0x66 ∷ 0x7C ∷ 0x78 ∷ 0x6C ∷ 0x66 ∷ 0x00 ∷ [])
    ∷ (0x3C ∷ 0x66 ∷ 0x60 ∷ 0x3C ∷ 0x06 ∷ 0x66 ∷ 0x3C ∷ 0x00 ∷ [])
    ∷ (0x7E ∷ 0x18 ∷ 0x18 ∷ 0x18 ∷ 0x18 ∷ 0x18 ∷ 0x18 ∷ 0x00 ∷ [])
    ∷ (0x66 ∷ 0x66 ∷ 0x66 ∷ 0x66 ∷ 0x66 ∷ 0x66 ∷ 0x3C ∷ 0x00 ∷ [])
    ∷ (0x66 ∷ 0x66 ∷ 0x66 ∷ 0x66 ∷ 0x66 ∷ 0x3C ∷ 0x18 ∷ 0x00 ∷ [])
    ∷ (0x63 ∷ 0x63 ∷ 0x63 ∷ 0x6B ∷ 0x7F ∷ 0x77 ∷ 0x63 ∷ 0x00 ∷ [])
    ∷ (0x66 ∷ 0x66 ∷ 0x3C ∷ 0x18 ∷ 0x3C ∷ 0x66 ∷ 0x66 ∷ 0x00 ∷ [])
    ∷ (0x66 ∷ 0x66 ∷ 0x66 ∷ 0x3C ∷ 0x18 ∷ 0x18 ∷ 0x18 ∷ 0x00 ∷ [])
    ∷ (0x7E ∷ 0x06 ∷ 0x0C ∷ 0x18 ∷ 0x30 ∷ 0x60 ∷ 0x7E ∷ 0x00 ∷ [])
    ∷ blank
    ∷ blank
    ∷ blank
    ∷ blank
    ∷ blank
    ∷ blank
    ∷ (0x00 ∷ 0x00 ∷ 0x3C ∷ 0x06 ∷ 0x3E ∷ 0x66 ∷ 0x3E ∷ 0x00 ∷ [])
    ∷ (0x60 ∷ 0x60 ∷ 0x7C ∷ 0x66 ∷ 0x66 ∷ 0x66 ∷ 0x7C ∷ 0x00 ∷ [])
    ∷ (0x00 ∷ 0x00 ∷ 0x3C ∷ 0x60 ∷ 0x60 ∷ 0x60 ∷ 0x3C ∷ 0x00 ∷ [])
    ∷ (0x06 ∷ 0x06 ∷ 0x06 ∷ 0x3E ∷ 0x66 ∷ 0x66 ∷ 0x3E ∷ 0x00 ∷ [])
    ∷ (0x00 ∷ 0x00 ∷ 0x3C ∷ 0x66 ∷ 0x7E ∷ 0x60 ∷ 0x3C ∷ 0x00 ∷ [])
    ∷ (0x1C ∷ 0x36 ∷ 0x30 ∷ 0x7C ∷ 0x30 ∷ 0x30 ∷ 0x30 ∷ 0x00 ∷ [])
    ∷ (0x00 ∷ 0x00 ∷ 0x3E ∷ 0x66 ∷ 0x66 ∷ 0x3E ∷ 0x06 ∷ 0x7C ∷ [])
    ∷ (0x60 ∷ 0x60 ∷ 0x7C ∷ 0x66 ∷ 0x66 ∷ 0x66 ∷ 0x66 ∷ 0x00 ∷ [])
    ∷ (0x18 ∷ 0x00 ∷ 0x38 ∷ 0x18 ∷ 0x18 ∷ 0x18 ∷ 0x3C ∷ 0x00 ∷ [])
    ∷ (0x06 ∷ 0x00 ∷ 0x0E ∷ 0x06 ∷ 0x06 ∷ 0x06 ∷ 0x66 ∷ 0x3C ∷ [])
    ∷ (0x60 ∷ 0x60 ∷ 0x66 ∷ 0x6C ∷ 0x78 ∷ 0x6C ∷ 0x66 ∷ 0x00 ∷ [])
    ∷ (0x38 ∷ 0x18 ∷ 0x18 ∷ 0x18 ∷ 0x18 ∷ 0x18 ∷ 0x3C ∷ 0x00 ∷ [])
    ∷ (0x00 ∷ 0x00 ∷ 0x66 ∷ 0x7F ∷ 0x7F ∷ 0x6B ∷ 0x63 ∷ 0x00 ∷ [])
    ∷ (0x00 ∷ 0x00 ∷ 0x7C ∷ 0x66 ∷ 0x66 ∷ 0x66 ∷ 0x66 ∷ 0x00 ∷ [])
    ∷ (0x00 ∷ 0x00 ∷ 0x3C ∷ 0x66 ∷ 0x66 ∷ 0x66 ∷ 0x3C ∷ 0x00 ∷ [])
    ∷ (0x00 ∷ 0x00 ∷ 0x7C ∷ 0x66 ∷ 0x66 ∷ 0x7C ∷ 0x60 ∷ 0x60 ∷ [])
    ∷ (0x00 ∷ 0x00 ∷ 0x3E ∷ 0x66 ∷ 0x66 ∷ 0x3E ∷ 0x06 ∷ 0x06 ∷ [])
    ∷ (0x00 ∷ 0x00 ∷ 0x7C ∷ 0x66 ∷ 0x60 ∷ 0x60 ∷ 0x60 ∷ 0x00 ∷ [])
    ∷ (0x00 ∷ 0x00 ∷ 0x3E ∷ 0x60 ∷ 0x3C ∷ 0x06 ∷ 0x7C ∷ 0x00 ∷ [])
    ∷ (0x18 ∷ 0x18 ∷ 0x7E ∷ 0x18 ∷ 0x18 ∷ 0x18 ∷ 0x0E ∷ 0x00 ∷ [])
    ∷ (0x00 ∷ 0x00 ∷ 0x66 ∷ 0x66 ∷ 0x66 ∷ 0x66 ∷ 0x3E ∷ 0x00 ∷ [])
    ∷ (0x00 ∷ 0x00 ∷ 0x66 ∷ 0x66 ∷ 0x66 ∷ 0x3C ∷ 0x18 ∷ 0x00 ∷ [])
    ∷ (0x00 ∷ 0x00 ∷ 0x63 ∷ 0x6B ∷ 0x7F ∷ 0x3E ∷ 0x36 ∷ 0x00 ∷ [])
    ∷ (0x00 ∷ 0x00 ∷ 0x66 ∷ 0x3C ∷ 0x18 ∷ 0x3C ∷ 0x66 ∷ 0x00 ∷ [])
    ∷ (0x00 ∷ 0x00 ∷ 0x66 ∷ 0x66 ∷ 0x66 ∷ 0x3E ∷ 0x0C ∷ 0x78 ∷ [])
    ∷ (0x00 ∷ 0x00 ∷ 0x7E ∷ 0x0C ∷ 0x18 ∷ 0x30 ∷ 0x7E ∷ 0x00 ∷ [])
    ∷ blank
    ∷ blank
    ∷ blank
    ∷ blank
    ∷ []
