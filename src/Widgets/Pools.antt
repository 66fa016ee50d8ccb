-- ===== src/Widgets/Pools.antt =====
-- The pools of kernel/src/widgets/system_widgets.c: creating, destroying and updating widgets, and
-- cmd_widget_close of kernel/src/commands/widgets.c.
use os_from_zero.Base.{
  ℕ, zero, suc, ◌+◌, ◌%◌, Bool, true, false, not, Option, none, some, List, [], ◌∷◌, ◌++◌, ◌==◌,
  ltb, add32, ◌>>=◌, if◌then◌else◌, set, get_elem?, take, fold_up, Output, print, print_text,
}
use os_from_zero.Decimal.{int_text}
use os_from_zero.Base.Int.{ℤ, pos, negsuc}
use os_from_zero.Widgets.{
  WidgetType, WidgetRef, WidgetEntry, Widget, Pool, Widgets, max_widgets, refresh_rate,
  history_size, pool_of, with_pool, register_widget, unregister_widget,
}

-- The first slot that is not used.
unfoldable pub free_slot : List Bool → ℕ → Option ℕ
free_slot [] i = none
free_slot (u ∷ us) i = if not u then some i else free_slot us (i + 1)

abbrev pub opened_widget : ℕ → Widget
opened_widget w = record { window = some w; update_counter = 0; history_index = 0 }

-- The slot after wm_create_window has failed.
abbrev pub closed_slot : ℕ → Pool → Pool
closed_slot slot p = record {
  widgets = elim (get_elem? p.widgets slot) [
    | none ↦ p.widgets
    | some w ↦ set p.widgets slot (record w { window = none })
  ];
  used = set p.used slot false;
}

abbrev pub opened_slot : ℕ → ℕ → Pool → Pool
opened_slot slot w p = record {
  widgets = set p.widgets slot (opened_widget w);
  used = set p.used slot true;
}

abbrev pub register_opened : WidgetType → ℕ → Widgets → Option (Option WidgetRef × Widgets)
register_opened kind slot s = do
  let r : WidgetRef = record { kind = kind; slot = slot }
  (done, s') ← register_widget kind r s
  some (some r, s')

-- A widget of the kind, with what wm_create_window answers; `none` is the NULL that is returned.
-- What register_widget returns is not looked at.
unfoldable pub create_widget : WidgetType → Option ℕ → Widgets → Option (Option WidgetRef × Widgets)
unfolding free_slot register_widget
create_widget kind window s =
    let p = pool_of kind s in
    elim (free_slot p.used 0) [
      | none ↦ some (none, s)
      | some slot ↦ elim window [
        | none ↦ some (none, with_pool kind (closed_slot slot p) s)
        | some w ↦ register_opened kind slot (with_pool kind (opened_slot slot w p) s)
      ]
    ]

abbrev pub create_ram_widget : Option ℕ → Widgets → Option (Option WidgetRef × Widgets)
create_ram_widget = create_widget WidgetType.ram_monitor

abbrev pub create_cpu_widget : Option ℕ → Widgets → Option (Option WidgetRef × Widgets)
create_cpu_widget = create_widget WidgetType.cpu_monitor

abbrev pub create_system_info_widget : Option ℕ → Widgets → Option (Option WidgetRef × Widgets)
create_system_info_widget = create_widget WidgetType.system_info

-- The pool after its widget is destroyed, and the window that is closed.
abbrev pub release_slot : ℕ → Pool → List ℕ × Pool
release_slot slot p = elim (get_elem? p.widgets slot) [
  | none ↦ ([], p)
  | some w ↦ (
    elim w.window [ none ↦ [] | some opened ↦ opened ∷ [] ],
    record {
      widgets = set p.widgets slot (record w { window = none });
      used = set p.used slot false;
    },
  )
]

unfoldable pub destroy_widget : WidgetRef → Widgets → List ℕ × Widgets
unfolding unregister_widget
destroy_widget r s =
    let s' = unregister_widget r s in
    let (closed, p) = release_slot r.slot (pool_of r.kind s') in (closed, with_pool r.kind p s')

-- The pointer of an entry is cast to the type of its kind; NULL is returned from at once.
abbrev pub destroy_entry : WidgetEntry → Widgets → List ℕ × Widgets
destroy_entry e s = elim e.widget_data [ none ↦ ([], s) | some r ↦ destroy_widget r s ]

-- One round of widgets_shutdown, with the windows closed so far.
unfoldable pub shutdown_at : ℕ → List ℕ × Widgets → List ℕ × Widgets
unfolding destroy_widget
shutdown_at i (closed, s) = elim (get_elem? s.registry i) [
  | none ↦ (closed, s)
  | some e ↦
      if e.active then (let (more, s') = destroy_entry e s in (closed ++ more, s')) else (closed, s)
]

unfoldable pub widgets_shutdown : Widgets → List ℕ × Widgets
unfolding shutdown_at fold_up
widgets_shutdown s =
    let (closed, s') = fold_up max_widgets 0 shutdown_at ([], s) in
    (closed, record s' { widget_count = pos 0 })

-- The next place in the history; the system widget has none.
abbrev pub next_history : WidgetType → ℕ → ℕ
next_history WidgetType.ram_monitor i = (i + 1) % history_size
next_history WidgetType.cpu_monitor i = (i + 1) % history_size
next_history WidgetType.system_info i = i

-- update_ram_widget, update_cpu_widget and update_system_info_widget, on the widget.
unfoldable pub updated : WidgetType → Widget → Widget
updated kind w = elim w.window [
  | none ↦ w
  | some opened ↦
      let counter = add32 w.update_counter 1 in
      if counter % refresh_rate == 0
      then record w { update_counter = counter; history_index = next_history kind w.history_index }
      else record w { update_counter = counter }
]

unfoldable pub update_slot : WidgetType → ℕ → Pool → Pool
unfolding updated
update_slot kind slot p = elim (get_elem? p.widgets slot) [
  | none ↦ p
  | some w ↦ record p { widgets = set p.widgets slot (updated kind w) }
]

abbrev pub update_widget : WidgetRef → Widgets → Widgets
update_widget r s = with_pool r.kind (update_slot r.kind r.slot (pool_of r.kind s)) s

unfoldable pub update_entries : List WidgetEntry → Widgets → Widgets
unfolding update_slot
update_entries [] s = s
update_entries (e ∷ es) s =
    let s' : Widgets = elim e.widget_data [ none ↦ s | some r ↦ update_widget r s ] in
    update_entries es (if e.active then s' else s)

-- The loop over the first `widget_count` entries, which it does not change.
unfoldable pub update_all_widgets : Widgets → Widgets
unfolding update_entries
update_all_widgets s = elim s.widget_count [
  | pos n ↦ update_entries (take n s.registry) s
  | negsuc n ↦ s
]

-- The loop of cmd_widget_close over the first `n` entries, from the last one down, with the number
-- of widgets and the windows closed so far.
unfoldable pub close_down : ℕ → ℕ → List ℕ → Widgets → ℕ × List ℕ × Widgets
unfolding destroy_widget
close_down zero count closed s = (count, closed, s)
close_down (suc i) count closed s = elim (get_elem? s.registry i) [
  | none ↦ close_down i count closed s
  | some e ↦
      if e.active
      then (let (more, s') = destroy_entry e s in close_down i (count + 1) (closed ++ more) s')
      else close_down i count closed s
]

abbrev pub close_report : ℕ → Option (List Output)
close_report n =
    if ltb 0 n
    then (do
      count ← int_text (pos n)
      some (print "Closed " ∷ print_text count ∷ print " widget(s)\n" ∷ []))
    else some (print "No widgets to close\n" ∷ [])

abbrev pub rounds_of : ℤ → ℕ
rounds_of (pos n) = n
rounds_of (negsuc n) = 0

abbrev pub closing : ℕ × List ℕ × Widgets → Option (List Output × List ℕ × Widgets)
closing (count, closed, s) = close_report count >>= λ shown. some (shown, closed, s)

-- The command, with what it prints and the windows that are closed.
unfoldable pub cmd_widget_close : Widgets → Option (List Output × List ℕ × Widgets)
unfolding close_down
cmd_widget_close s = closing (close_down (rounds_of s.widget_count) 0 [] s)

-- The functions of each kind.
abbrev pub destroy_ram_widget : ℕ → Widgets → List ℕ × Widgets
destroy_ram_widget slot s = destroy_widget (record { kind = WidgetType.ram_monitor; slot = slot }) s

abbrev pub destroy_cpu_widget : ℕ → Widgets → List ℕ × Widgets
destroy_cpu_widget slot s = destroy_widget (record { kind = WidgetType.cpu_monitor; slot = slot }) s

abbrev pub destroy_system_info_widget : ℕ → Widgets → List ℕ × Widgets
destroy_system_info_widget slot s =
    destroy_widget (record { kind = WidgetType.system_info; slot = slot }) s

abbrev pub update_ram_widget : ℕ → Widgets → Widgets
update_ram_widget slot s = update_widget (record { kind = WidgetType.ram_monitor; slot = slot }) s

abbrev pub update_cpu_widget : ℕ → Widgets → Widgets
update_cpu_widget slot s = update_widget (record { kind = WidgetType.cpu_monitor; slot = slot }) s

abbrev pub update_system_info_widget : ℕ → Widgets → Widgets
update_system_info_widget slot s =
    update_widget (record { kind = WidgetType.system_info; slot = slot }) s
