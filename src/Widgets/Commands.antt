-- ===== src/Widgets/Commands.antt =====
-- kernel/src/commands/widgets.c: the commands that create widgets and list them. What
-- wm_create_window answers for a position is an argument; the sounds are left out. A sum that no
-- `int` holds, and a text that its buffer does not take, are faults.
use Prim.Native.String.{String}
use os_from_zero.Base.{
  ℕ, zero, suc, ◌+◌, ◌-◌, ◌*◌, ◌^◌, ◌||◌, Bool, true, false, Option, none, some, List, [], ◌∷◌,
  ◌++◌, ◌==◌, ltb, if◌then◌else◌, replicate, take, ◌>>=◌, Output, print, print_text,
}
use os_from_zero.Base.Int.{ℤ, pos}
use os_from_zero.Strings.{strlen}
use os_from_zero.Decimal.{int_to_string, is_digit}
use os_from_zero.TicTacToe.{negated}
use os_from_zero.Widgets.{WidgetType, WidgetRef, WidgetEntry, Widgets, max_widgets}
use os_from_zero.Widgets.Pools.{
  create_ram_widget, create_cpu_widget, create_system_info_widget, rounds_of,
}

-- The loop of parse_int.
unfoldable pub parse_digits : List ℕ → ℕ → Option ℕ
parse_digits [] result = some result
parse_digits (c ∷ s) result =
    let next = result * 10 + (c - b'0') in
    let rest = parse_digits s next in
    if is_digit c then (if ltb next (2 ^ 31) then rest else none) else some result

unfoldable pub parse_int : List ℕ → Option ℤ
unfolding parse_digits
parse_int [] = some (pos 0)
parse_int (c ∷ s) =
    if c == b'-'
    then (do n ← parse_digits s 0; some (negated n))
    else (do n ← parse_digits (c ∷ s) 0; some (pos n))

abbrev pub is_blank : ℕ → Bool
is_blank c = c == b' ' || c == 9

unfoldable pub skip_whitespace : List ℕ → List ℕ
skip_whitespace [] = []
skip_whitespace (c ∷ s) = let rest = skip_whitespace s in if is_blank c then rest else c ∷ s

-- The loop of parse_word, with the bytes left in `word`: the word, and the string behind it.
unfoldable pub take_word : ℕ → List ℕ → List ℕ × List ℕ
take_word zero s = ([], s)
take_word (suc room) [] = ([], [])
take_word (suc room) (c ∷ s) =
    let (word, rest) = take_word room s in
    if c == 0 || is_blank c then ([], c ∷ s) else (c ∷ word, rest)

-- sizeof(word) - 1
abbrev pub word_room : ℕ
word_room = 31

unfoldable pub parse_word : List ℕ → List ℕ × List ℕ
unfolding skip_whitespace take_word
parse_word str = take_word word_room (skip_whitespace str)

-- The second coordinate, behind the first one.
unfoldable pub position_from : ℤ → ℤ → List ℕ → Option (ℤ × ℤ)
unfolding parse_int parse_word
position_from x y str =
    let word = (parse_word str).0 in
    if strlen word == 0 then some (x, y) else (do y' ← parse_int word; some (x, y'))

-- The optional position, with the default one.
unfoldable pub position : ℤ → ℤ → Option (List ℕ) → Option (ℤ × ℤ)
unfolding position_from
position x y none = some (x, y)
position x y (some args) =
    let (word, rest) = parse_word args in
    if strlen args == 0
    then some (x, y)
    else if strlen word == 0
    then some (x, y)
    else (do x' ← parse_int word; position_from x' y rest)

-- A number in a buffer of 16 bytes.
unfoldable pub number_text : ℤ → Option Output
unfolding int_to_string
number_text n = do s ← int_to_string n (replicate 16 0); some (print_text s)

-- What is printed for the result of a create function.
unfoldable pub creation_text :
    String → List Output → Output → ℤ × ℤ → Option WidgetRef → Option (List Output)
unfolding number_text
creation_text title lines failed at none = some (failed ∷ [])
creation_text title lines failed (x, y) (some widget) = do
  xs ← number_text x
  ys ← number_text y
  some ((print title ∷ xs ∷ print ", " ∷ ys ∷ print ")\n" ∷ []) ++ lines)

-- The three commands, with the create function, the default position and the texts.
unfoldable pub create_command :
    (Option ℕ → Widgets → Option (Option WidgetRef × Widgets))
    → Option (ℤ × ℤ)
    → String
    → List Output
    → Output
    → (ℤ → ℤ → Option ℕ)
    → Widgets
    → Option (List Output × Widgets)
unfolding creation_text
create_command create found title lines failed wm_create_window s = do
  at ← found
  (widget, s') ← create (wm_create_window at.0 at.1) s
  shown ← creation_text title lines failed at widget
  some (shown, s')

unfoldable pub cmd_ram_widget :
    (ℤ → ℤ → Option ℕ) → Option (List ℕ) → Widgets → Option (List Output × Widgets)
unfolding create_command position
cmd_ram_widget wm_create_window args s =
    create_command create_ram_widget (position (pos 50) (pos 50) args)
      "RAM monitoring widget created at position ("
      (print "The widget shows detailed memory information:\n"
        ∷ print "- Total, used, and free memory amounts\n"
        ∷ print "- Color-coded usage percentage (OK/MED/HIGH)\n"
        ∷ print "- Real-time progress bar and mini graph\n"
        ∷ print "- Live update indicator (green blinking dot)\n"
        ∷ [])
      (print "Failed to create RAM widget: Out of memory or too many widgets\n") wm_create_window s

unfoldable pub cmd_cpu_widget :
    (ℤ → ℤ → Option ℕ) → Option (List ℕ) → Widgets → Option (List Output × Widgets)
unfolding create_command position
cmd_cpu_widget wm_create_window args s =
    create_command create_cpu_widget (position (pos 270) (pos 50) args)
      "CPU monitoring widget created at position ("
      (print "The widget shows detailed CPU information:\n"
        ∷ print "- Current and average CPU usage percentages\n"
        ∷ print "- CPU frequency and load status (IDLE/LIGHT/BUSY/HIGH)\n"
        ∷ print "- Color-coded progress bar and mini graph\n"
        ∷ print "- Live update indicator (blue blinking dot)\n"
        ∷ [])
      (print "Failed to create CPU widget: Out of memory or too many widgets\n") wm_create_window s

unfoldable pub cmd_system_widget :
    (ℤ → ℤ → Option ℕ) → Option (List ℕ) → Widgets → Option (List Output × Widgets)
unfolding create_command position
cmd_system_widget wm_create_window args s =
    create_command create_system_info_widget (position (pos 50) (pos 190) args)
      "System information widget created at position ("
      (print "The widget shows comprehensive system info:\n"
        ∷ print "- OS version, architecture, and status\n"
        ∷ print "- Real-time memory summary with usage percentage\n"
        ∷ print "- CPU details with current load status\n"
        ∷ print "- Live uptime counter and system status\n"
        ∷ print "- Orange blinking dot indicates live updates\n"
        ∷ [])
      (print "Failed to create system info widget: Out of memory or too many widgets\n")
      wm_create_window s

abbrev pub kind_text : WidgetType → Output
kind_text WidgetType.ram_monitor = print "RAM Monitor"
kind_text WidgetType.cpu_monitor = print "CPU Monitor"
kind_text WidgetType.system_info = print "System Info"

-- The loop of cmd_widget_list over the entries, with the widgets counted so far: the count and the
-- lines.
unfoldable pub widget_lines : List WidgetEntry → ℕ → Option (ℕ × List Output)
unfolding number_text
widget_lines [] count = some (count, [])
widget_lines (e ∷ es) count =
    let (next, shows) = if e.active then (count + 1, true) else (count, false) in
    do
      (total, lines) ← widget_lines es next
      if shows
          then (do
            number ← number_text (pos next)
            some (
              total,
              (print "Widget " ∷ number ∷ print ": " ∷ kind_text e.kind ∷ print "\n" ∷ []) ++ lines,
            ))
          else some (total, lines)

abbrev pub list_end : ℕ → Option (List Output)
list_end count =
    if count == 0
    then some (
        print "No widgets are currently active.\n"
        ∷ print "Try: 'ramwidget', 'cpuwidget', or 'syswidget' to create widgets\n"
        ∷ [])
    else (do
      total ← number_text (pos count)
      most ← number_text (pos max_widgets)
      some (print "\nTotal widgets: " ∷ total ∷ print "/" ∷ most ∷ print "\n" ∷ []))

unfoldable pub cmd_widget_list : Widgets → Option (List Output)
unfolding widget_lines
cmd_widget_list s = do
  (count, lines) ← widget_lines (take (rounds_of s.widget_count) s.registry) 0
  end ← list_end count
  some
      ((print "Active System Widgets:\n" ∷ print "======================\n" ∷ []) ++ (lines ++ end))
