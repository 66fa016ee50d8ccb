-- ===== src/Base/Display.antt =====
-- What the kernel writes to its terminal, as the sequence of its calls: `print` is terminal_print
-- of a literal, `print_text` terminal_print of a computed text, `putchar` is terminal_putchar.
use Prim.Native.Nat.{ℕ}
use Prim.Native.Char.{code}
use Prim.Native.String.{String}
use mathlib.Core.List.{List, [], ◌∷◌}

pub data Output : Type 0 where
  print : String → Output
  print_text : List ℕ → Output
  putchar : ℕ → Output

-- The code points of a text: its bytes, if it is ASCII.
abbrev pub codes : String → List ℕ
codes String.[] = []
codes (String.◌∷◌ c s) = code c ∷ codes s

-- `for (...) terminal_putchar(...)` over the characters of a buffer.
abbrev pub putchars : List ℕ → List Output
putchars [] = []
putchars (c ∷ s) = putchar c ∷ putchars s
