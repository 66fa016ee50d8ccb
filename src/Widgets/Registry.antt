-- ===== src/Widgets/Registry.antt =====
-- The registry of widgets, and the widgets that it lists.
use mathlib.Core.Option
use os_from_zero.Base.{
  ◌≡◌, refl, ap, ◌∙◌, true, false, some, List, [], ◌∷◌, ◌++◌, map, arith, if_true, if_false, length,
  get_elem?,
}
use os_from_zero.Base.Int.{pos, ◌-ℤ◌}
use os_from_zero.Widgets.{
  WidgetType, WidgetRef, WidgetEntry, Pool, Widgets, same_ref, with_pool, reset_entry, compact,
  unregister_from, unregister_widget,
}
use os_from_zero.Widgets.Pools.{destroy_widget}

-- The entry of a widget.
abbrev pub entry_of : WidgetRef → WidgetEntry
entry_of r = record { kind = r.kind; widget_data = some r; active = true }

abbrev pub AllInactive : List WidgetEntry → Type 0
AllInactive [] = Unit {0}
AllInactive (e ∷ es) = (e.active ≡ false) × AllInactive es

-- The registry lists the widgets, in their order, and nothing behind them.
pub record Shows (es : List WidgetEntry) (rs : List WidgetRef) : Type 0 where
  pub rest : List WidgetEntry
  pub split : es ≡ map entry_of rs ++ rest
  pub idle : AllInactive rest

-- No widget of the list is `r`.
abbrev pub NotIn : WidgetRef → List WidgetRef → Type 0
NotIn r [] = Unit {0}
NotIn r (q ∷ rs) = (same_ref q r ≡ false) × NotIn r rs

-- `r` is no widget of the list.
abbrev pub Apart : WidgetRef → List WidgetRef → Type 0
Apart r [] = Unit {0}
Apart r (q ∷ rs) = (same_ref r q ≡ false) × Apart r rs

abbrev pub Distinct : List WidgetRef → Type 0
Distinct [] = Unit {0}
Distinct (r ∷ rs) = Apart r rs × Distinct rs

pub compact-AllInactive : (es : List WidgetEntry) → AllInactive es → AllInactive (compact es)
unfolding compact
compact-AllInactive [] h = tt
compact-AllInactive (e ∷ []) h = h
compact-AllInactive (e ∷ f ∷ es) h = (h.1.0, compact-AllInactive (f ∷ es) h.1)

-- Compacting moves the entries behind the cleared one forward.
pub compact-append :
    (x t : WidgetEntry) (ys ts : List WidgetEntry)
    → compact (x ∷ (ys ++ (t ∷ ts))) ≡ ys ++ (t ∷ compact (t ∷ ts))
unfolding compact
compact-append x t [] ts = refl
compact-append x t (y ∷ ys) ts = ap (λ es. y ∷ es) (compact-append y t ys ts)

same_ref_refl : (r : WidgetRef) → same_ref r r ≡ true
same_ref_refl r = ground arith

pub unregister_from-here :
    (r : WidgetRef) (kept : List WidgetRef) (ys : List WidgetEntry)
    → NotIn r kept
    → unregister_from r (map entry_of kept ++ (entry_of r ∷ ys))
      ≡ some (map entry_of kept ++ compact (reset_entry (entry_of r) ∷ ys))
unfolding unregister_from
unregister_from-here r [] ys h = if_true (same_ref r r) _ _ (same_ref_refl r)
unregister_from-here r (k ∷ kept) ys h =
    if_false (same_ref k r) _ _ h.0
    ∙ ap (Option.map (λ t. entry_of k ∷ t)) (unregister_from-here r kept ys h.1)

with_pool_lem :
    (kind : WidgetType) (p : Pool) (s : Widgets)
    → ((with_pool kind p s).registry ≡ s.registry)
      × ((with_pool kind p s).widget_count ≡ s.widget_count)
with_pool_lem WidgetType.ram_monitor p s = (refl, refl)
with_pool_lem WidgetType.cpu_monitor p s = (refl, refl)
with_pool_lem WidgetType.system_info p s = (refl, refl)

pub unregister_widget_lem :
    (r : WidgetRef) (kept : List WidgetRef) (ys : List WidgetEntry) (s : Widgets)
    → s.registry ≡ map entry_of kept ++ (entry_of r ∷ ys)
    → NotIn r kept
    → ((unregister_widget r s).registry
        ≡ map entry_of kept ++ compact (reset_entry (entry_of r) ∷ ys))
      × ((unregister_widget r s).widget_count ≡ s.widget_count -ℤ pos 1)
unfolding unregister_widget
unregister_widget_lem r kept ys s e h =
    let found = ap (unregister_from r) e ∙ unregister_from-here r kept ys h in
    (rw (found, unregister_widget), rw (found, unregister_widget))

-- Destroying a widget takes its entry out of the registry.
pub destroy_widget_lem :
    (r : WidgetRef) (kept : List WidgetRef) (ys : List WidgetEntry) (s : Widgets)
    → s.registry ≡ map entry_of kept ++ (entry_of r ∷ ys)
    → NotIn r kept
    → ((destroy_widget r s).1.registry
        ≡ map entry_of kept ++ compact (reset_entry (entry_of r) ∷ ys))
      × ((destroy_widget r s).1.widget_count ≡ s.widget_count -ℤ pos 1)
unfolding destroy_widget
destroy_widget_lem r kept ys s e h =
    let (entries, count) = unregister_widget_lem r kept ys s e h in
    let (same, as_many) = with_pool_lem r.kind _ (unregister_widget r s) in
    (same ∙ entries, as_many ∙ count)

pub get_entry :
    (kept : List WidgetRef) (e : WidgetEntry) (ys : List WidgetEntry)
    → get_elem? (map entry_of kept ++ (e ∷ ys)) (length kept) ≡ some e
get_entry [] e ys = refl
get_entry (k ∷ kept) e ys = get_entry kept e ys

pub last_entry :
    (rs : List WidgetRef) (r : WidgetRef) (rest : List WidgetEntry)
    → map entry_of (rs ++ (r ∷ [])) ++ rest ≡ map entry_of rs ++ (entry_of r ∷ rest)
last_entry [] r rest = refl
last_entry (k ∷ rs) r rest = ap (λ es. entry_of k ∷ es) (last_entry rs r rest)
