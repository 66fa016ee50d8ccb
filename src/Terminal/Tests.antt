-- ===== src/Terminal/Tests.antt =====
-- A text on a screen of 64 by 48 pixels.
use os_from_zero.Base.{ℕ, ◌≡◌, refl, some, List, [], ◌∷◌, arith, inl}
use os_from_zero.Terminal.{Framebuffer, Terminal, terminal_init, put_all}
use os_from_zero.Terminal.Safe.{IsPlaced, put_all-IsPlaced}

abbrev screen : Framebuffer
screen = record { width = 64; height = 48; pitch = 256 }

abbrev start : Terminal
start = terminal_init (λ i. 0)

-- Two lines, and a backspace.
abbrev two_lines : List ℕ
two_lines = b'o' ∷ b's' ∷ 10 ∷ b'0' ∷ 8 ∷ []

put_all-IsPlaced_example :
    (t' : Terminal) × (put_all screen two_lines start ≡ some t') × IsPlaced screen t'
put_all-IsPlaced_example =
    put_all-IsPlaced screen (record { line = omega arith; narrow = omega arith; low = omega arith })
      two_lines start (record { column = refl; across = inl refl; down = inl refl })
