-- ===== src/Widgets/Shutdown.antt =====
-- widgets_shutdown on the widgets that are registered.
use mathlib.Core.Path.{subst}
use os_from_zero.Base.{
  ℕ, zero, suc, ◌+◌, ◌<◌, ◌≤◌, ◌≡◌, refl, ap, sym, ◌∙◌, List, [], ◌∷◌, ◌++◌, map, arith, length,
  append_assoc, append-nil, length-append, length-map, fold_up, if◌then◌else◌,
}
use os_from_zero.Base.Int.{ℤ, pos}
use os_from_zero.Widgets.{
  WidgetType, WidgetRef, WidgetEntry, Widgets, pool_of, compact, max_widgets,
}
use os_from_zero.Widgets.Pools.{destroy_widget, shutdown_at, widgets_shutdown}
use os_from_zero.Widgets.Rounds.{Distinct-drop, quiet, shorter, one_round}
use os_from_zero.Widgets.Release.{
  slot_in, slot_of, freed, windows, is_among, destroy_all, destroy_all-windows, destroy_all-slot,
}
use os_from_zero.Widgets.Registry.{
  entry_of, AllInactive, Shows, Apart, Distinct, compact-AllInactive, last_entry,
}

-- The second widget, the fourth, and so on.
abbrev pub every_other : List WidgetRef → List WidgetRef
every_other [] = []
every_other (r ∷ []) = []
every_other (r ∷ q ∷ rs) = q ∷ every_other rs

-- The first widget, the third, and so on.
abbrev pub first_ones : List WidgetRef → List WidgetRef
first_ones [] = []
first_ones (r ∷ []) = r ∷ []
first_ones (r ∷ q ∷ rs) = r ∷ first_ones rs

Apart-first_ones : (r : WidgetRef) (rs : List WidgetRef) → Apart r rs → Apart r (first_ones rs)
Apart-first_ones r [] h = tt
Apart-first_ones r (q ∷ []) h = h
Apart-first_ones r (q ∷ k ∷ rs) h = (h.0, Apart-first_ones r rs h.1.1)

Distinct-first_ones : (rs : List WidgetRef) → Distinct rs → Distinct (first_ones rs)
Distinct-first_ones [] d = tt
Distinct-first_ones (r ∷ []) d = d
Distinct-first_ones (r ∷ q ∷ rs) d = (Apart-first_ones r rs d.0.1, Distinct-first_ones rs d.1.1)

shut :
    (rs : List WidgetRef) (rounds : ℕ) (kept : List WidgetRef) (t : WidgetEntry)
    (ts : List WidgetEntry) (closed : List ℕ) (s : Widgets)
    → s.registry ≡ map entry_of kept ++ (map entry_of rs ++ (t ∷ ts))
    → AllInactive (t ∷ ts)
    → Distinct (kept ++ rs)
    → length rs ≤ rounds
    → Shows
        (fold_up rounds (length kept) shutdown_at (closed, s)).1.registry
        (kept ++ every_other rs)
shut [] rounds kept t ts closed s split idle d le = record {
  rest = t ∷ ts;
  split =
      ap (λ (c : List ℕ × Widgets). c.1.registry)
        (quiet rounds (length kept) kept (t ∷ ts) closed s split idle (omega arith))
      ∙ (split ∙ ap (λ ks. map entry_of ks ++ (t ∷ ts)) (sym (append-nil kept)));
  idle = idle;
}
shut (r ∷ rs) zero kept t ts closed s split idle d le = absurd (omega (arith, le))
shut (r ∷ []) (suc rounds) kept t ts closed s split idle d le =
    let again = shorter kept r [] t ts s split d in
    let still : AllInactive (t ∷ compact (t ∷ ts)) = (idle.0, compact-AllInactive (t ∷ ts) idle) in
    record {
      rest = t ∷ compact (t ∷ ts);
      split =
          ap (λ (c : List ℕ × Widgets). c.1.registry)
            (one_round kept r [] t ts s split d rounds closed
              ∙ quiet rounds (length kept + 1) kept (t ∷ compact (t ∷ ts)) _ _ again still
                  (omega arith))
          ∙ (again ∙ ap (λ ks. map entry_of ks ++ (t ∷ compact (t ∷ ts))) (sym (append-nil kept)));
      idle = still;
    }
shut (r ∷ q ∷ rs) (suc rounds) kept t ts closed s split idle d le =
    let again = shorter kept r (q ∷ rs) t ts s split d in
    let still : AllInactive (t ∷ compact (t ∷ ts)) = (idle.0, compact-AllInactive (t ∷ ts) idle) in
    let passed = again ∙ sym (last_entry kept q (map entry_of rs ++ (t ∷ compact (t ∷ ts)))) in
    let done =
      shut rs rounds (kept ++ (q ∷ [])) t (compact (t ∷ ts)) (closed ++ (destroy_widget r s).0)
        (destroy_widget r s).1 passed still
        (subst Distinct (sym (append_assoc kept (q ∷ []) rs)) (Distinct-drop kept r (q ∷ rs) d))
        (omega (arith, le)) in
    let more : List ℕ × Widgets = (closed ++ (destroy_widget r s).0, (destroy_widget r s).1) in
    let place = ap (λ n. fold_up rounds n shutdown_at more) (sym (length-append kept (q ∷ []))) in
    subst (λ (c : List ℕ × Widgets). Shows c.1.registry (kept ++ (q ∷ every_other rs)))
      (sym (one_round kept r (q ∷ rs) t ts s split d rounds closed ∙ place))
      (subst (Shows _) (append_assoc kept (q ∷ []) (every_other rs)) done)

-- The same rounds: the widgets that they destroy.
shut_run :
    (rs : List WidgetRef) (rounds : ℕ) (kept : List WidgetRef) (t : WidgetEntry)
    (ts : List WidgetEntry) (closed : List ℕ) (s : Widgets)
    → s.registry ≡ map entry_of kept ++ (map entry_of rs ++ (t ∷ ts))
    → AllInactive (t ∷ ts)
    → Distinct (kept ++ rs)
    → length rs ≤ rounds
    → fold_up rounds (length kept) shutdown_at (closed, s)
      ≡ (closed ++ (destroy_all (first_ones rs) s).0, (destroy_all (first_ones rs) s).1)
shut_run [] rounds kept t ts closed s split idle d le =
    quiet rounds (length kept) kept (t ∷ ts) closed s split idle (omega arith)
    ∙ ap (λ c. (c, s)) (sym (append-nil closed))
shut_run (r ∷ rs) zero kept t ts closed s split idle d le = absurd (omega (arith, le))
shut_run (r ∷ []) (suc rounds) kept t ts closed s split idle d le =
    let still : AllInactive (t ∷ compact (t ∷ ts)) = (idle.0, compact-AllInactive (t ∷ ts) idle) in
    one_round kept r [] t ts s split d rounds closed
    ∙ (quiet rounds (length kept + 1) kept (t ∷ compact (t ∷ ts)) _ _
          (shorter kept r [] t ts s split d) still (omega arith)
        ∙ ap (λ c. (closed ++ c, (destroy_widget r s).1)) (sym (append-nil (destroy_widget r s).0)))
shut_run (r ∷ q ∷ rs) (suc rounds) kept t ts closed s split idle d le =
    let still : AllInactive (t ∷ compact (t ∷ ts)) = (idle.0, compact-AllInactive (t ∷ ts) idle) in
    let passed =
      shorter kept r (q ∷ rs) t ts s split d
      ∙ sym (last_entry kept q (map entry_of rs ++ (t ∷ compact (t ∷ ts)))) in
    let more : List ℕ × Widgets = (closed ++ (destroy_widget r s).0, (destroy_widget r s).1) in
    let others = destroy_all (first_ones rs) (destroy_widget r s).1 in
    one_round kept r (q ∷ rs) t ts s split d rounds closed
    ∙ (ap (λ n. fold_up rounds n shutdown_at more) (sym (length-append kept (q ∷ [])))
        ∙ (shut_run rs rounds (kept ++ (q ∷ [])) t (compact (t ∷ ts))
              (closed ++ (destroy_widget r s).0) (destroy_widget r s).1 passed still
              (subst Distinct (sym (append_assoc kept (q ∷ []) rs))
                (Distinct-drop kept r (q ∷ rs) d))
              (omega (arith, le))
            ∙ ap (λ c. (c, others.1)) (append_assoc closed (destroy_widget r s).0 others.0)))

shut_all :
    (rs : List WidgetRef) (rest : List WidgetEntry) (s : Widgets)
    → s.registry ≡ map entry_of rs ++ rest
    → AllInactive rest
    → Distinct rs
    → length rs < max_widgets
    → length s.registry ≡ max_widgets
    → Shows (fold_up max_widgets 0 shutdown_at ([], s)).1.registry (every_other rs)
      × (fold_up max_widgets 0 shutdown_at ([], s) ≡ destroy_all (first_ones rs) s)
shut_all rs [] s split idle d few room = absurd (
    omega (
      arith,
      few,
      room,
      ap length split,
      length-append (map entry_of rs) [],
      length-map rs entry_of,
    ))
shut_all rs (t ∷ ts) s split idle d few room = (
  shut rs max_widgets [] t ts [] s split idle d (omega (arith, few)),
  shut_run rs max_widgets [] t ts [] s split idle d (omega (arith, few)),
)

set_count :
    (q : WidgetRef) (s : Widgets) (n : ℤ) → slot_of q (record s { widget_count = n }) ≡ slot_of q s
set_count q s n = pools q.kind
  where
    pools :
        (k : WidgetType)
        → slot_in q.slot (pool_of k (record s { widget_count = n })) ≡ slot_in q.slot (pool_of k s)
    pools WidgetType.ram_monitor = refl
    pools WidgetType.cpu_monitor = refl
    pools WidgetType.system_info = refl

-- What widgets_shutdown leaves of the widgets `rs` of the state `s`: the windows that are closed,
-- and the state.
pub record HalfShut (rs : List WidgetRef) (s : Widgets) (c : List ℕ × Widgets) : Type 0 where
  pub closed : c.0 ≡ windows (first_ones rs) s
  pub slots :
      (q : WidgetRef)
      → slot_of q c.1 ≡ (if is_among q (first_ones rs) then freed (slot_of q s) else slot_of q s)
  pub left : Shows c.1.registry (every_other rs)
  pub count : c.1.widget_count ≡ pos 0

-- widgets_shutdown, when the registry lists fewer than ten widgets, all different: only the first,
-- the third and so on are destroyed. Their windows are closed and their slots are out of use, and
-- no other slot changes. The second, the fourth and so on stay in the registry, as each removal
-- moves them forward past the loop, while the count is set to 0.
pub widgets_shutdown-skips :
    (rs : List WidgetRef) (s : Widgets)
    → length s.registry ≡ max_widgets
    → length rs < max_widgets
    → Shows s.registry rs
    → Distinct rs
    → HalfShut rs s (widgets_shutdown s)
unfolding widgets_shutdown
widgets_shutdown-skips rs s room few listed d =
    let (shows, run) = shut_all rs listed.rest s listed.split listed.idle d few room in
    record {
      closed =
          ap (λ (c : List ℕ × Widgets). c.0) run
          ∙ destroy_all-windows (first_ones rs) s (Distinct-first_ones rs d);
      slots = λ q.
          set_count q (fold_up max_widgets 0 shutdown_at ([], s)).1 (pos 0)
          ∙ (ap (λ (c : List ℕ × Widgets). slot_of q c.1) run
              ∙ destroy_all-slot q (first_ones rs) s);
      left = shows;
      count = refl;
    }
