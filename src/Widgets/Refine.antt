-- ===== src/Widgets/Refine.antt =====
-- The registry as a list of widgets: registering appends one, unregistering removes it.
use mathlib.Core.Path.{subst}
use os_from_zero.Base.{
  ℕ, suc, ◌+◌, ◌<◌, ◌≤◌, ◌≡◌, refl, ap, sym, ◌∙◌, true, false, some, List, [], ◌∷◌, ◌++◌, map,
  arith, ltb, if_true, if_false, length, set, length-append, length-map, length-set,
}
use os_from_zero.Base.Int.{pos, ◌-ℤ◌}
use os_from_zero.Widgets.{
  WidgetRef, WidgetEntry, Widgets, max_widgets, reset_entry, compact, register_counted,
  register_widget, unregister_widget,
}
use os_from_zero.Widgets.Registry.{
  entry_of, AllInactive, Shows, NotIn, compact-AllInactive, compact-append, unregister_widget_lem,
  last_entry,
}

-- The registry lists the widgets, and counts them.
pub record IsRegistry (s : Widgets) (rs : List WidgetRef) : Type 0 where
  pub room : length s.registry ≡ max_widgets
  pub count : s.widget_count ≡ pos (length rs)
  pub listed : Shows s.registry rs

set_first :
    (rs : List WidgetRef) (e t : WidgetEntry) (ts : List WidgetEntry)
    → set (map entry_of rs ++ (t ∷ ts)) (length rs) e ≡ map entry_of rs ++ (e ∷ ts)
set_first [] e t ts = refl
set_first (r ∷ rs) e t ts = ap (λ es. entry_of r ∷ es) (set_first rs e t ts)

length-compact : (es : List WidgetEntry) → length (compact es) ≡ length es
unfolding compact
length-compact [] = refl
length-compact (e ∷ []) = refl
length-compact (e ∷ f ∷ es) = ap suc (length-compact (f ∷ es))

appended :
    (rs : List WidgetRef) (r : WidgetRef) (rest : List WidgetEntry) (es : List WidgetEntry)
    → es ≡ map entry_of rs ++ rest
    → AllInactive rest
    → length rs < length es
    → Shows (set es (length rs) (entry_of r)) (rs ++ (r ∷ []))
appended rs r [] es split idle lt =
    absurd (
      omega
        (arith, ap length split, length-append (map entry_of rs) [], length-map rs entry_of, lt))
appended rs r (t ∷ ts) es split idle lt = record {
  rest = ts;
  split =
      ap (λ x. set x (length rs) (entry_of r)) split
      ∙ (set_first rs (entry_of r) t ts ∙ sym (last_entry rs r ts));
  idle = idle.1;
}

register_run :
    (r : WidgetRef) (n : ℕ) (s : Widgets)
    → s.widget_count ≡ pos n
    → n < max_widgets
    → register_widget r.kind r s
      ≡ some
          (true, record s { registry = set s.registry n (entry_of r); widget_count = pos (n + 1) })
unfolding register_widget
register_run r n s count lt =
    ap (λ k. register_counted k r.kind r s) count
    ∙ ap some (if_true (ltb n max_widgets) _ _ (ground (arith, lt)))

register_full :
    (r : WidgetRef) (n : ℕ) (s : Widgets)
    → s.widget_count ≡ pos n
    → max_widgets ≤ n
    → register_widget r.kind r s ≡ some (false, s)
unfolding register_widget
register_full r n s count ge =
    ap (λ k. register_counted k r.kind r s) count
    ∙ ap some (if_false (ltb n max_widgets) _ _ (ground (arith, ge)))

-- register_widget, on a registry that lists and counts its widgets: with fewer than ten of them
-- the new one is listed behind the others; with ten, it is refused and nothing changes.
pub register_widget_lem :
    (rs : List WidgetRef) (r : WidgetRef) (s : Widgets)
    → IsRegistry s rs
    → (length rs < max_widgets
        → (s' : Widgets) × (register_widget r.kind r s ≡ some (true, s'))
          × IsRegistry s' (rs ++ (r ∷ [])))
      × (length rs ≡ max_widgets → register_widget r.kind r s ≡ some (false, s))
register_widget_lem rs r s i = (
  λ lt. (
    _,
    register_run r (length rs) s i.count lt,
    record {
      room = length-set s.registry (length rs) (entry_of r) ∙ i.room;
      count = ap pos (sym (length-append rs (r ∷ [])));
      listed =
          appended rs r i.listed.rest s.registry i.listed.split i.listed.idle
            (omega (arith, i.room, lt));
    },
  ),
  λ full. register_full r (length rs) s i.count (omega (arith, full)),
)

minus_one : (n m : ℕ) → n ≡ suc m → pos n -ℤ pos 1 ≡ pos m
unfolding ◌-ℤ◌
minus_one n m e = ground (arith, e)

one_less :
    (kept rs : List WidgetRef) (r : WidgetRef)
    → length (kept ++ (r ∷ rs)) ≡ suc (length (kept ++ rs))
one_less kept rs r = omega (arith, length-append kept (r ∷ rs), length-append kept rs)

split_two :
    (kept rs : List WidgetRef) (rest : List WidgetEntry)
    → map entry_of (kept ++ rs) ++ rest ≡ map entry_of kept ++ (map entry_of rs ++ rest)
split_two [] rs rest = refl
split_two (k ∷ kept) rs rest = ap (λ es. entry_of k ∷ es) (split_two kept rs rest)

module _ (kept rs : List WidgetRef) (r : WidgetRef) (s : Widgets)
    (i : IsRegistry s (kept ++ (r ∷ rs))) (new : NotIn r kept) where
  abbrev after : List WidgetEntry
  after = compact (reset_entry (entry_of r) ∷ (map entry_of rs ++ i.listed.rest))

  removed :
      ((unregister_widget r s).registry ≡ map entry_of kept ++ after)
      × ((unregister_widget r s).widget_count ≡ s.widget_count -ℤ pos 1)
  removed =
      unregister_widget_lem r kept (map entry_of rs ++ i.listed.rest) s
        (i.listed.split ∙ split_two kept (r ∷ rs) i.listed.rest) new

  fewer : (unregister_widget r s).widget_count ≡ pos (length (kept ++ rs))
  fewer =
      removed.1
      ∙ (ap (λ k. k -ℤ pos 1) i.count
          ∙ minus_one (length (kept ++ (r ∷ rs))) (length (kept ++ rs)) (one_less kept rs r))

  same_room : length (unregister_widget r s).registry ≡ max_widgets
  same_room =
      let ys = map entry_of rs ++ i.listed.rest in
      omega (
        arith,
        ap length removed.0,
        length-append (map entry_of kept) after,
        length-compact (reset_entry (entry_of r) ∷ ys),
        ap length (i.listed.split ∙ split_two kept (r ∷ rs) i.listed.rest),
        length-append (map entry_of kept) (entry_of r ∷ ys),
        i.room,
      )

  listed_after :
      (rest : List WidgetEntry)
      → i.listed.rest ≡ rest
      → length (kept ++ (r ∷ rs)) < max_widgets
      → Shows (unregister_widget r s).registry (kept ++ rs)
  listed_after [] e few = absurd (
      omega (
        arith,
        few,
        i.room,
        ap length (i.listed.split ∙ ap (λ es. map entry_of (kept ++ (r ∷ rs)) ++ es) e),
        length-append (map entry_of (kept ++ (r ∷ rs))) [],
        length-map (kept ++ (r ∷ rs)) entry_of,
      ))
  listed_after (t ∷ ts) e few = record {
    rest = t ∷ compact (t ∷ ts);
    split =
        removed.0
        ∙ (ap
              (λ es.
                map entry_of kept ++ compact (reset_entry (entry_of r) ∷ (map entry_of rs ++ es)))
              e
            ∙ (ap (λ es. map entry_of kept ++ es)
                  (compact-append (reset_entry (entry_of r)) t (map entry_of rs) ts)
                ∙ sym (split_two kept rs (t ∷ compact (t ∷ ts)))));
    idle =
        let idle : AllInactive (t ∷ ts) = subst AllInactive e i.listed.idle in
        (idle.0, compact-AllInactive (t ∷ ts) idle);
  }

-- unregister_widget of a widget that is listed, in a registry of fewer than ten: the others are
-- listed and counted, in their order.
pub unregister_widget-removes :
    (kept rs : List WidgetRef) (r : WidgetRef) (s : Widgets)
    → IsRegistry s (kept ++ (r ∷ rs))
    → NotIn r kept
    → length (kept ++ (r ∷ rs)) < max_widgets
    → IsRegistry (unregister_widget r s) (kept ++ rs)
unregister_widget-removes kept rs r s i new few = record {
  room = same_room kept rs r s i new;
  count = fewer kept rs r s i new;
  listed = listed_after kept rs r s i new i.listed.rest refl few;
}

no_rest : (n : ℕ) (rest : List WidgetEntry) → n + length rest ≡ n → rest ≡ []
no_rest n [] h = refl
no_rest n (e ∷ rest) h = absurd (omega (arith, h))

last_twice :
    (rs : List WidgetRef) (r z : WidgetRef)
    → compact (reset_entry (entry_of r) ∷ (map entry_of (rs ++ (z ∷ [])) ++ []))
      ≡ map entry_of (rs ++ (z ∷ [])) ++ (entry_of z ∷ [])
unfolding compact
last_twice rs r z =
    ap (λ es. compact (reset_entry (entry_of r) ∷ es)) (last_entry rs z [])
    ∙ (compact-append (reset_entry (entry_of r)) (entry_of z) (map entry_of rs) []
        ∙ sym (last_entry rs z (entry_of z ∷ [])))

-- With ten widgets in the registry, unregistering one that is not the last leaves the last one in
-- it twice: the count is nine, but the tenth entry stays active.
pub unregister_widget-full :
    (kept rs : List WidgetRef) (r z : WidgetRef) (s : Widgets)
    → IsRegistry s (kept ++ (r ∷ (rs ++ (z ∷ []))))
    → NotIn r kept
    → length (kept ++ (r ∷ (rs ++ (z ∷ [])))) ≡ max_widgets
    → ((unregister_widget r s).registry
        ≡ map entry_of (kept ++ (rs ++ (z ∷ []))) ++ (entry_of z ∷ []))
      × ((unregister_widget r s).widget_count ≡ pos 9)
unregister_widget-full kept rs r z s i new full =
    let rz = rs ++ (z ∷ []) in
    let none_left = no_rest max_widgets i.listed.rest (
      omega (
        arith,
        full,
        i.room,
        ap length i.listed.split,
        length-append (map entry_of (kept ++ (r ∷ rz))) i.listed.rest,
        length-map (kept ++ (r ∷ rz)) entry_of,
      )) in
    (
      (removed kept rz r s i new).0
          ∙ (ap
                (λ es.
                  map entry_of kept ++ compact (reset_entry (entry_of r) ∷ (map entry_of rz ++ es)))
                none_left
              ∙ (ap (λ es. map entry_of kept ++ es) (last_twice rs r z)
                  ∙ sym (split_two kept rz (entry_of z ∷ [])))),
      fewer kept rz r s i new ∙ ap pos (omega (arith, full, one_less kept rz r)),
    )
