-- ===== src/Widgets/Rounds.antt =====
-- The rounds of the loop of widgets_shutdown.
use os_from_zero.Base.{
  ℕ, zero, suc, ◌+◌, ◌≤◌, ◌≡◌, refl, ap, ◌∙◌, ◌⊎◌, inl, inr, false, none, some, List, [], ◌∷◌, ◌++◌,
  map, arith, length, get_elem?, fold_up,
}
use os_from_zero.Widgets.{WidgetRef, WidgetEntry, Widgets, same_ref, reset_entry, compact}
use os_from_zero.Widgets.Pools.{destroy_widget, shutdown_at}
use os_from_zero.Widgets.Registry.{
  entry_of, AllInactive, NotIn, Apart, Distinct, compact-append, destroy_widget_lem, get_entry,
}

before :
    (kept : List WidgetRef) (r : WidgetRef) (rs : List WidgetRef)
    → Distinct (kept ++ (r ∷ rs))
    → NotIn r kept
before [] r rs d = tt
before (k ∷ kept) r rs d = (apart kept d.0, before kept r rs d.1)
  where
    apart : (xs : List WidgetRef) → Apart k (xs ++ (r ∷ rs)) → same_ref k r ≡ false
    apart [] h = h.0
    apart (x ∷ xs) h = apart xs h.1

Apart-drop :
    (k r : WidgetRef) (xs rs : List WidgetRef) → Apart k (xs ++ (r ∷ rs)) → Apart k (xs ++ rs)
Apart-drop k r [] rs h = h.1
Apart-drop k r (x ∷ xs) rs h = (h.0, Apart-drop k r xs rs h.1)

pub Distinct-drop :
    (kept : List WidgetRef) (r : WidgetRef) (rs : List WidgetRef)
    → Distinct (kept ++ (r ∷ rs))
    → Distinct (kept ++ rs)
Distinct-drop [] r rs d = d.1
Distinct-drop (k ∷ kept) r rs d = (Apart-drop k r kept rs d.0, Distinct-drop kept r rs d.1)

get_idle :
    (kept : List WidgetRef) (rest : List WidgetEntry) (i : ℕ)
    → AllInactive rest
    → length kept ≤ i
    → (get_elem? (map entry_of kept ++ rest) i ≡ none)
      ⊎ ((e : WidgetEntry) × (get_elem? (map entry_of kept ++ rest) i ≡ some e)
          × (e.active ≡ false))
get_idle [] [] i h le = inl refl
get_idle [] (e ∷ rest) zero h le = inr (e, refl, h.0)
get_idle [] (e ∷ rest) (suc i) h le = get_idle [] rest i h.1 (omega arith)
get_idle (k ∷ kept) rest zero h le = absurd (omega (arith, le))
get_idle (k ∷ kept) rest (suc i) h le = get_idle kept rest i h (omega (arith, le))

shutdown_at_idle :
    (kept : List WidgetRef) (rest : List WidgetEntry) (i : ℕ) (closed : List ℕ) (s : Widgets)
    → s.registry ≡ map entry_of kept ++ rest
    → AllInactive rest
    → length kept ≤ i
    → shutdown_at i (closed, s) ≡ (closed, s)
unfolding shutdown_at
shutdown_at_idle kept rest i closed s e idle le = elim (get_idle kept rest i idle le) [
  | inl absent ↦ rw (ap (λ es. get_elem? es i) e ∙ absent, shutdown_at)
  | inr (x, found, off) ↦ rw (ap (λ es. get_elem? es i) e ∙ found, off, shutdown_at)
]

pub quiet :
    (rounds from : ℕ) (kept : List WidgetRef) (rest : List WidgetEntry) (closed : List ℕ)
    (s : Widgets)
    → s.registry ≡ map entry_of kept ++ rest
    → AllInactive rest
    → length kept ≤ from
    → fold_up rounds from shutdown_at (closed, s) ≡ (closed, s)
unfolding fold_up
quiet zero from kept rest closed s e idle le = refl
quiet (suc rounds) from kept rest closed s e idle le =
    ap (fold_up rounds (from + 1) shutdown_at) (shutdown_at_idle kept rest from closed s e idle le)
    ∙ quiet rounds (from + 1) kept rest closed s e idle (omega (arith, le))

shutdown_at_found :
    (i : ℕ) (closed : List ℕ) (r : WidgetRef) (s : Widgets)
    → get_elem? s.registry i ≡ some (entry_of r)
    → shutdown_at i (closed, s) ≡ (closed ++ (destroy_widget r s).0, (destroy_widget r s).1)
unfolding shutdown_at
shutdown_at_found i closed r s found = rw (found, shutdown_at)

-- One round that destroys a widget: what the registry is then.
module _ (kept : List WidgetRef) (r : WidgetRef) (rs : List WidgetRef) (t : WidgetEntry)
    (ts : List WidgetEntry) (s : Widgets)
    (split : s.registry ≡ map entry_of kept ++ (entry_of r ∷ (map entry_of rs ++ (t ∷ ts))))
    (d : Distinct (kept ++ (r ∷ rs))) where
  pub shorter :
      (destroy_widget r s).1.registry
      ≡ map entry_of kept ++ (map entry_of rs ++ (t ∷ compact (t ∷ ts)))
  shorter =
      (destroy_widget_lem r kept (map entry_of rs ++ (t ∷ ts)) s split (before kept r rs d)).0
      ∙ ap (λ es. map entry_of kept ++ es)
          (compact-append (reset_entry (entry_of r)) t (map entry_of rs) ts)

  pub one_round :
      (rounds : ℕ) (closed : List ℕ)
      → fold_up (suc rounds) (length kept) shutdown_at (closed, s)
        ≡ fold_up rounds
            (length kept + 1)
            shutdown_at
            (closed ++ (destroy_widget r s).0, (destroy_widget r s).1)
  unfolding fold_up
  one_round rounds closed = ap (fold_up rounds (length kept + 1) shutdown_at) (
      shutdown_at_found (length kept) closed r s
        (ap (λ es. get_elem? es (length kept)) split ∙ get_entry kept (entry_of r) _))
