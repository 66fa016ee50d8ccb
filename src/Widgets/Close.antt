-- ===== src/Widgets/Close.antt =====
-- cmd_widget_close on the widgets that are registered.
use os_from_zero.Base.{ℕ, Output, print, print_text, Option, some, List, [], ◌∷◌, ◌++◌}
use os_from_zero.Widgets.{WidgetRef, Widgets}
use os_from_zero.Widgets.Registry.{NotIn}

-- The widgets in the reverse of their order, the last one first.
abbrev pub reversed : List WidgetRef → List WidgetRef
reversed [] = []
reversed (r ∷ rs) = reversed rs ++ (r ∷ [])

-- Each widget differs from those behind it.
abbrev pub DistinctBack : List WidgetRef → Type 0
DistinctBack [] = Unit {0}
DistinctBack (r ∷ rs) = NotIn r (reversed rs) × DistinctBack rs

abbrev told : List ℕ → Option (List Output)
told digits = some (print "Closed " ∷ print_text digits ∷ print " widget(s)\n" ∷ [])
