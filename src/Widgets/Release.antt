-- ===== src/Widgets/Release.antt =====
-- The slots of the pools behind the widgets that are destroyed one after another.
use mathlib.Core.Option
use os_from_zero.Base.{
  ℕ, zero, suc, ◌≡◌, ◌≢◌, refl, ap, ◌∙◌, Bool, true, false, ◌||◌, Option, none, some, List, [], ◌∷◌,
  ◌++◌, arith, ◌==◌, if◌then◌else◌, get_elem?, set, Bool-cases, inl, inr, if_false, Option-cases,
  get_elem?-set_of_some, get_elem?-set_ne, ==_iff,
}
use os_from_zero.Base.Int.{ℤ, pos, ◌-ℤ◌}
use os_from_zero.Widgets.{
  WidgetType, WidgetRef, WidgetEntry, Widget, Pool, Widgets, kind_index, same_ref, pool_of,
  with_pool, unregister_from, unregister_widget,
}
use os_from_zero.Widgets.Pools.{release_slot, destroy_widget}
use os_from_zero.Widgets.Registry.{Apart, Distinct}

-- A slot: its widget, and whether it is in use.
abbrev pub slot_in : ℕ → Pool → Option Widget × Option Bool
slot_in i p = (get_elem? p.widgets i, get_elem? p.used i)

abbrev pub slot_of : WidgetRef → Widgets → Option Widget × Option Bool
slot_of r s = slot_in r.slot (pool_of r.kind s)

-- A slot that is out of use, and whose widget has no window.
abbrev pub freed : Option Widget × Option Bool → Option Widget × Option Bool
freed (none, used) = (none, used)
freed (some w, used) = (some (record w { window = none }), Option.map (λ u. false) used)

abbrev pub window_in : Option Widget × Option Bool → List ℕ
window_in (none, used) = []
window_in (some w, used) = elim w.window [ none ↦ [] | some opened ↦ opened ∷ [] ]

-- The windows of the widgets, in their order.
abbrev pub windows : List WidgetRef → Widgets → List ℕ
windows [] s = []
windows (r ∷ rs) s = window_in (slot_of r s) ++ windows rs s

abbrev pub is_among : WidgetRef → List WidgetRef → Bool
is_among q [] = false
is_among q (r ∷ rs) = same_ref r q || is_among q rs

get_elem?-set-map :
    (us : List Bool) (i : ℕ)
    → get_elem? (set us i false) i ≡ Option.map (λ u. false) (get_elem? us i)
get_elem?-set-map [] i = refl
get_elem?-set-map (u ∷ us) zero = refl
get_elem?-set-map (u ∷ us) (suc i) = get_elem?-set-map us i

release_slot_self : (i : ℕ) (p : Pool) → slot_in i (release_slot i p).1 ≡ freed (slot_in i p)
release_slot_self i p = elim (Option-cases (get_elem? p.widgets i)) [
  | inl e ↦ rw (e, release_slot) (ap (λ o. (o, get_elem? p.used i)) e)
  | inr (w, e) ↦ rw (
    e,
    release_slot,
    get_elem?-set_of_some p.widgets i (record w { window = none }) w e,
    get_elem?-set-map p.used i,
  )
]

release_slot-window : (i : ℕ) (p : Pool) → (release_slot i p).0 ≡ window_in (slot_in i p)
release_slot-window i p = elim (Option-cases (get_elem? p.widgets i)) [
  | inl e ↦ rw (e, release_slot)
  | inr (w, e) ↦ rw (e, release_slot)
]

release_slot_other : (i j : ℕ) (p : Pool) → i ≢ j → slot_in j (release_slot i p).1 ≡ slot_in j p
release_slot_other i j p ne = elim (Option-cases (get_elem? p.widgets i)) [
  | inl e ↦ rw (e, release_slot)
  | inr (w, e) ↦ rw (
    e,
    release_slot,
    get_elem?-set_ne p.widgets (record w { window = none }) ne,
    get_elem?-set_ne p.used false ne,
  )
]

pool_of-with_pool :
    (kind k : WidgetType) (p : Pool) (s : Widgets)
    → pool_of k (with_pool kind p s) ≡ (if kind_index kind == kind_index k then p else pool_of k s)
pool_of-with_pool WidgetType.ram_monitor WidgetType.ram_monitor p s = refl
pool_of-with_pool WidgetType.ram_monitor WidgetType.cpu_monitor p s = refl
pool_of-with_pool WidgetType.ram_monitor WidgetType.system_info p s = refl
pool_of-with_pool WidgetType.cpu_monitor WidgetType.ram_monitor p s = refl
pool_of-with_pool WidgetType.cpu_monitor WidgetType.cpu_monitor p s = refl
pool_of-with_pool WidgetType.cpu_monitor WidgetType.system_info p s = refl
pool_of-with_pool WidgetType.system_info WidgetType.ram_monitor p s = refl
pool_of-with_pool WidgetType.system_info WidgetType.cpu_monitor p s = refl
pool_of-with_pool WidgetType.system_info WidgetType.system_info p s = refl

kind_index-injective : (a b : WidgetType) → kind_index a ≡ kind_index b → a ≡ b
kind_index-injective WidgetType.ram_monitor WidgetType.ram_monitor h = refl
kind_index-injective WidgetType.ram_monitor WidgetType.cpu_monitor h = absurd (omega (arith, h))
kind_index-injective WidgetType.ram_monitor WidgetType.system_info h = absurd (omega (arith, h))
kind_index-injective WidgetType.cpu_monitor WidgetType.ram_monitor h = absurd (omega (arith, h))
kind_index-injective WidgetType.cpu_monitor WidgetType.cpu_monitor h = refl
kind_index-injective WidgetType.cpu_monitor WidgetType.system_info h = absurd (omega (arith, h))
kind_index-injective WidgetType.system_info WidgetType.ram_monitor h = absurd (omega (arith, h))
kind_index-injective WidgetType.system_info WidgetType.cpu_monitor h = absurd (omega (arith, h))
kind_index-injective WidgetType.system_info WidgetType.system_info h = refl

with_registry :
    (k : WidgetType) (es : List WidgetEntry) (n : ℤ) (s : Widgets)
    → pool_of k (record s { registry = es; widget_count = n }) ≡ pool_of k s
with_registry WidgetType.ram_monitor es n s = refl
with_registry WidgetType.cpu_monitor es n s = refl
with_registry WidgetType.system_info es n s = refl

pool_of-unregister_widget :
    (r : WidgetRef) (k : WidgetType) (s : Widgets) → pool_of k (unregister_widget r s) ≡ pool_of k s
unfolding unregister_widget
pool_of-unregister_widget r k s = elim (Option-cases (unregister_from r s.registry)) [
  | inl e ↦ rw (e, unregister_widget)
  | inr (es, e) ↦ rw (e, unregister_widget) (with_registry k es (s.widget_count -ℤ pos 1) s)
]

-- The pools behind one widget that is destroyed.
pool_of-destroy_widget :
    (r : WidgetRef) (k : WidgetType) (s : Widgets)
    → pool_of k (destroy_widget r s).1 ≡ (
        if kind_index r.kind == kind_index k
        then (release_slot r.slot (pool_of r.kind s)).1
        else pool_of k s)
unfolding destroy_widget
pool_of-destroy_widget r k s =
    let s' = unregister_widget r s in
    pool_of-with_pool r.kind k (release_slot r.slot (pool_of r.kind s')).1 s'
    ∙ rw (pool_of-unregister_widget r r.kind s, pool_of-unregister_widget r k s)

destroy_widget-window :
    (r : WidgetRef) (s : Widgets) → (destroy_widget r s).0 ≡ window_in (slot_of r s)
unfolding destroy_widget
destroy_widget-window r s =
    release_slot-window r.slot (pool_of r.kind (unregister_widget r s))
    ∙ ap (λ p. window_in (slot_in r.slot p)) (pool_of-unregister_widget r r.kind s)

destroy_widget-slot :
    (r q : WidgetRef) (s : Widgets)
    → slot_of q (destroy_widget r s).1 ≡ (if same_ref r q then freed (slot_of q s) else slot_of q s)
destroy_widget-slot r q s =
    ap (slot_in q.slot) (pool_of-destroy_widget r q.kind s)
    ∙ elim (Bool-cases (kind_index r.kind == kind_index q.kind)) [
      | inr e ↦ rw e
      | inl e ↦
          let kind = kind_index-injective r.kind q.kind ((==_iff _ _).0 e) in
          elim (Bool-cases (r.slot == q.slot)) [
            | inl same ↦
                rw (e, same, kind, (==_iff r.slot q.slot).0 same)
                  (release_slot_self q.slot (pool_of q.kind s))
            | inr differ ↦
                rw (e, differ, kind)
                  (release_slot_other r.slot q.slot (pool_of q.kind s) (ground (arith, differ)))
          ]
    ]

-- Destroying widgets one after another, with the windows that are closed.
abbrev pub destroy_all : List WidgetRef → Widgets → List ℕ × Widgets
destroy_all [] s = ([], s)
destroy_all (r ∷ rs) s =
    let (closed, s') = destroy_widget r s in
    let (more, s'') = destroy_all rs s' in (closed ++ more, s'')

windows-Apart :
    (r : WidgetRef) (rs : List WidgetRef) (s : Widgets)
    → Apart r rs
    → windows rs (destroy_widget r s).1 ≡ windows rs s
windows-Apart r [] s h = refl
windows-Apart r (q ∷ rs) s h =
    ap (λ o. window_in o ++ windows rs (destroy_widget r s).1)
      (destroy_widget-slot r q s ∙ if_false (same_ref r q) _ _ h.0)
    ∙ ap (λ ws. window_in (slot_of q s) ++ ws) (windows-Apart r rs s h.1)

-- Different widgets that are destroyed one after another: their windows are closed, in this order.
pub destroy_all-windows :
    (rs : List WidgetRef) (s : Widgets) → Distinct rs → (destroy_all rs s).0 ≡ windows rs s
destroy_all-windows [] s d = refl
destroy_all-windows (r ∷ rs) s d =
    ap (λ ws. ws ++ (destroy_all rs (destroy_widget r s).1).0) (destroy_widget-window r s)
    ∙ ap (λ ws. window_in (slot_of r s) ++ ws)
        (destroy_all-windows rs (destroy_widget r s).1 d.1 ∙ windows-Apart r rs s d.0)

freed_twice : (o : Option Widget × Option Bool) → freed (freed o) ≡ freed o
freed_twice (none, used) = refl
freed_twice (some w, none) = refl
freed_twice (some w, some u) = refl

-- Their slots are freed, and no other slot changes.
pub destroy_all-slot :
    (q : WidgetRef) (rs : List WidgetRef) (s : Widgets)
    → slot_of q (destroy_all rs s).1 ≡ (if is_among q rs then freed (slot_of q s) else slot_of q s)
destroy_all-slot q [] s = refl
destroy_all-slot q (r ∷ rs) s =
    destroy_all-slot q rs (destroy_widget r s).1
    ∙ (ap (λ o. if is_among q rs then freed o else o) (destroy_widget-slot r q s)
        ∙ twice (is_among q rs) (same_ref r q) (slot_of q s))
  where
    twice :
        (a b : Bool) (o : Option Widget × Option Bool)
        → (if a then freed (if b then freed o else o) else (if b then freed o else o))
          ≡ (if b || a then freed o else o)
    twice true true o = freed_twice o
    twice true false o = refl
    twice false true o = refl
    twice false false o = refl
