-- ===== src/Widgets.antt =====
-- kernel/src/widgets/system_widgets.c and system_widgets.h: the registry of widgets and their pools.
-- A widget is known by its kind and its slot in the pool of that kind. The window that
-- wm_create_window returns is an argument, and the windows that are closed are results. Drawing,
-- and the history of floating-point numbers, are left out.
mod Tests
pub mod Pools
pub mod Registry
pub mod Close
pub mod Commands
pub mod Position
pub mod Release
pub mod Rounds
pub mod Shutdown
pub mod Refine
use mathlib.Core.Option
use os_from_zero.Base.{
  ℕ, zero, suc, ◌+◌, ◌%◌, ◌^◌, ◌&&◌, Bool, true, false, not, Option, none, some, List, [], ◌∷◌,
  ◌++◌, map, ◌==◌, ltb, add32, ◌>>=◌, if◌then◌else◌, set, get_elem?, take, fold_up, Output, print,
  print_text,
}
use os_from_zero.Decimal.{int_text}
use os_from_zero.Base.Int.{ℤ, pos, negsuc, ◌-ℤ◌, ltb_ℤ}

pub data WidgetType : Type 0 where
  ram_monitor cpu_monitor system_info : WidgetType

-- A pointer into one of the pools.
pub record WidgetRef : Type 0 where
  pub kind : WidgetType
  pub slot : ℕ

-- widget_entry_t; `none` is NULL.
pub record WidgetEntry : Type 0 where
  pub kind : WidgetType
  pub widget_data : Option WidgetRef
  pub active : Bool

-- ram_widget_t, cpu_widget_t and system_info_widget_t; the last has no history_index.
pub record Widget : Type 0 where
  pub window : Option ℕ
  pub update_counter : ℕ
  pub history_index : ℕ

-- A pool with its array of flags.
pub record Pool : Type 0 where
  pub widgets : List Widget
  pub used : List Bool

pub record Widgets : Type 0 where
  pub registry : List WidgetEntry
  pub widget_count : ℤ
  pub ram : Pool
  pub cpu : Pool
  pub system : Pool

abbrev pub max_widgets : ℕ
max_widgets = 10

abbrev pub refresh_rate : ℕ
refresh_rate = 3

abbrev pub history_size : ℕ
history_size = 50

abbrev pub kind_index : WidgetType → ℕ
kind_index WidgetType.ram_monitor = 0
kind_index WidgetType.cpu_monitor = 1
kind_index WidgetType.system_info = 2

-- The pointers are equal.
abbrev pub same_ref : WidgetRef → WidgetRef → Bool
same_ref a b = kind_index a.kind == kind_index b.kind && a.slot == b.slot

abbrev pub points_to : Option WidgetRef → WidgetRef → Bool
points_to none r = false
points_to (some a) r = same_ref a r

-- The test of the loop of unregister_widget.
abbrev pub is_entry_of : WidgetRef → WidgetEntry → Bool
is_entry_of r e = e.active && points_to e.widget_data r

abbrev pub pool_of : WidgetType → Widgets → Pool
pool_of WidgetType.ram_monitor s = s.ram
pool_of WidgetType.cpu_monitor s = s.cpu
pool_of WidgetType.system_info s = s.system

abbrev pub with_pool : WidgetType → Pool → Widgets → Widgets
with_pool WidgetType.ram_monitor p s = record s { ram = p }
with_pool WidgetType.cpu_monitor p s = record s { cpu = p }
with_pool WidgetType.system_info p s = record s { system = p }

abbrev pub cleared_widget : Widget
cleared_widget = record { window = none; update_counter = 0; history_index = 0 }

-- The flags of the pools are not reset.
abbrev pub reset_pool : Pool → Pool
reset_pool p = record p { widgets = map (λ w. cleared_widget) p.widgets }

abbrev pub reset_entry : WidgetEntry → WidgetEntry
reset_entry e = record e { active = false; widget_data = none }

unfoldable pub widgets_init : Widgets → Widgets
widgets_init s = record {
  registry = map reset_entry s.registry;
  widget_count = pos 0;
  ram = reset_pool s.ram;
  cpu = reset_pool s.cpu;
  system = reset_pool s.system;
}

-- An entry at index `n`, if there is room.
abbrev pub register_at : ℕ → WidgetType → WidgetRef → Widgets → Bool × Widgets
register_at n kind r s =
    if ltb n max_widgets
    then (
      true,
      record s {
        registry = set s.registry n (record { kind = kind; widget_data = some r; active = true });
        widget_count = pos (n + 1);
      },
    )
    else (false, s)

-- An index below 0 would be a fault.
abbrev pub register_counted : ℤ → WidgetType → WidgetRef → Widgets → Option (Bool × Widgets)
register_counted (pos n) kind r s = some (register_at n kind r s)
register_counted (negsuc n) kind r s = none

unfoldable pub register_widget : WidgetType → WidgetRef → Widgets → Option (Bool × Widgets)
register_widget kind r s = register_counted s.widget_count kind r s

-- The loop that compacts the registry, from the entry that was cleared; the last entry stays.
unfoldable pub compact : List WidgetEntry → List WidgetEntry
compact [] = []
compact (e ∷ []) = e ∷ []
compact (e ∷ f ∷ es) = f ∷ compact (f ∷ es)

-- `none` if the widget is not registered.
unfoldable pub unregister_from : WidgetRef → List WidgetEntry → Option (List WidgetEntry)
unfolding compact
unregister_from r [] = none
unregister_from r (e ∷ es) =
    let rest = Option.map (λ t. e ∷ t) (unregister_from r es) in
    if is_entry_of r e then some (compact (reset_entry e ∷ es)) else rest

unfoldable pub unregister_widget : WidgetRef → Widgets → Widgets
unfolding unregister_from
unregister_widget r s = elim (unregister_from r s.registry) [
  | none ↦ s
  | some entries ↦ record s { registry = entries; widget_count = s.widget_count -ℤ pos 1 }
]
