-- ===== src/Widgets/Tests.antt =====
-- Registries of two and of ten widgets.
use os_from_zero.Decimal.{int_text}
use os_from_zero.Base.{
  ℕ, List, some, ◌≡◌, ◌++◌, replicate, arith, ◌<◌, refl, true, false, none, [], ◌∷◌, map, length,
}
use os_from_zero.Base.Int.{pos, negsuc}
use os_from_zero.Widgets.Commands.{position}
use os_from_zero.Widgets.Position.{position-int_text}
use os_from_zero.Widgets.{
  WidgetType, WidgetRef, WidgetEntry, Pool, Widgets, max_widgets, register_widget,
  unregister_widget,
}
use os_from_zero.Widgets.Pools.{widgets_shutdown}
use os_from_zero.Widgets.Registry.{entry_of, Shows}
use os_from_zero.Widgets.Shutdown.{HalfShut, widgets_shutdown-skips}
use os_from_zero.Widgets.Refine.{IsRegistry, register_widget_lem, unregister_widget-removes}

abbrev ram_0 : WidgetRef
ram_0 = record { kind = WidgetType.ram_monitor; slot = 0 }

abbrev cpu_0 : WidgetRef
cpu_0 = record { kind = WidgetType.cpu_monitor; slot = 0 }

abbrev system_0 : WidgetRef
system_0 = record { kind = WidgetType.system_info; slot = 0 }

abbrev pair : List WidgetRef
pair = ram_0 ∷ cpu_0 ∷ []

abbrev no_entry : WidgetEntry
no_entry = record { kind = WidgetType.ram_monitor; widget_data = none; active = false }

abbrev pool : Pool
pool = record {
  widgets = replicate 5 (record { window = some 7; update_counter = 0; history_index = 0 });
  used = replicate 5 true;
}

abbrev two : Widgets
two = record {
  registry = map entry_of pair ++ replicate 8 no_entry;
  widget_count = pos 2;
  ram = pool;
  cpu = pool;
  system = pool;
}

pair-Shows : Shows two.registry pair
pair-Shows = record {
  rest = replicate 8 no_entry;
  split = refl;
  idle = (refl, (refl, (refl, (refl, (refl, (refl, (refl, (refl, tt))))))));
}

pair-IsRegistry : IsRegistry two pair
pair-IsRegistry = record { room = refl; count = refl; listed = pair-Shows }

-- The widgets of a full registry, without the first and the last.
abbrev middle : List WidgetRef
middle =
    cpu_0
    ∷ system_0
    ∷ record { kind = WidgetType.ram_monitor; slot = 1 }
    ∷ record { kind = WidgetType.cpu_monitor; slot = 1 }
    ∷ record { kind = WidgetType.system_info; slot = 1 }
    ∷ record { kind = WidgetType.ram_monitor; slot = 2 }
    ∷ record { kind = WidgetType.cpu_monitor; slot = 2 }
    ∷ record { kind = WidgetType.system_info; slot = 2 }
    ∷ []

abbrev last_ref : WidgetRef
last_ref = record { kind = WidgetType.ram_monitor; slot = 3 }

abbrev ten : Widgets
ten = record {
  registry = map entry_of (ram_0 ∷ (middle ++ (last_ref ∷ [])));
  widget_count = pos 10;
  ram = pool;
  cpu = pool;
  system = pool;
}

ten-IsRegistry : IsRegistry ten (ram_0 ∷ (middle ++ (last_ref ∷ [])))
ten-IsRegistry = record {
  room = refl;
  count = refl;
  listed = record { rest = []; split = refl; idle = tt };
}

widgets_shutdown-skips_example : HalfShut pair two (widgets_shutdown two)
widgets_shutdown-skips_example =
    widgets_shutdown-skips pair two refl (omega arith) pair-Shows ((refl, tt), (tt, tt))

register_widget_lem_example :
    (length pair < max_widgets
      → (s' : Widgets) × (register_widget system_0.kind system_0 two ≡ some (true, s'))
        × IsRegistry s' (pair ++ (system_0 ∷ [])))
    × (length pair ≡ max_widgets → register_widget system_0.kind system_0 two ≡ some (false, two))
register_widget_lem_example = register_widget_lem pair system_0 two pair-IsRegistry

unregister_widget-removes_example : IsRegistry (unregister_widget ram_0 two) ([] ++ (cpu_0 ∷ []))
unregister_widget-removes_example =
    unregister_widget-removes [] (cpu_0 ∷ []) ram_0 two pair-IsRegistry tt (omega arith)

-- "270 -30"
position-int_text_example :
    (xs : List ℕ) × (ys : List ℕ) × (int_text (pos 270) ≡ some xs)
    × (int_text (negsuc 29) ≡ some ys)
    × (position (pos 50) (pos 50) (some (xs ++ (replicate 1 b' ' ++ ys)))
        ≡ some (pos 270, negsuc 29))
position-int_text_example =
    position-int_text (pos 270) (negsuc 29) (pos 50) (pos 50) 0 (omega arith) (omega arith)
