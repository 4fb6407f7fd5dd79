-- ===== src/Wal/Publisher/Trimmed.antt =====
-- The removals at the end of a push, which the listeners of the publisher do not hear.
use atframe_utils.Base.{
  ℕ, zero, suc, ◌-◌, ◌≡◌, refl, ap, sym, ◌∙◌, arith, Bool, true, false, List, [], ◌∷◌, ◌++◌, map,
  append-nil, append_assoc, if-split, if◌then◌else◌, ltb, length, length-map, drop,
}
use atframe_utils.Wal.Types.{
  Event, listeners_added, listeners_assigned, log_added, log_removed, Object,
}
use atframe_utils.Wal.Object.{note_removed, pop_front_internal}
use atframe_utils.Wal.Object.Push.{trim, auto_gc}
use atframe_utils.Wal.Object.Bounds.{map-drop}
use atframe_utils.Wal.Publisher.{
  PublisherConfigure, Publisher, PublisherVtable, on_add_log, on_assign_logs, hear,
}

-- The last of some keys, all of them for a limit of 0.
abbrev pub newest : ℕ → List ℕ → List ℕ
newest limit keys = if ltb 0 limit then drop (length keys - limit) keys else keys

pub map-newest :
    {L : Type 0} (key : L → ℕ) (limit : ℕ) (xs : List L)
    → map key (if ltb 0 limit then drop (length xs - limit) xs else xs) ≡ newest limit (map key xs)
map-newest key limit xs = limited (ltb 0 limit)
  where
    limited :
        (b : Bool)
        → map key (if b then drop (length xs - limit) xs else xs)
          ≡ (if b then drop (length (map key xs) - limit) (map key xs) else map key xs)
    limited true =
        map-drop key (length xs - limit) xs
        ∙ ap (λ n. drop (n - limit) (map key xs)) (sym (length-map key xs))
    limited false = refl

module _ {L P C : Type 0} (vt : PublisherVtable L P C) (conf : PublisherConfigure) where
  pub hear-append :
      (xs ys : List (Event L)) (p : Publisher L P C)
      → hear vt conf (xs ++ ys) p ≡ hear vt conf ys (hear vt conf xs p)
  unfolding hear
  hear-append [] ys p = refl
  hear-append (listeners_added log ∷ xs) ys p = hear-append xs ys (on_add_log vt conf log p)
  hear-append (listeners_assigned ∷ xs) ys p = hear-append xs ys (on_assign_logs vt p)
  hear-append (log_added log ∷ xs) ys p = hear-append xs ys p
  hear-append (log_removed log ∷ xs) ys p = hear-append xs ys p

  -- The second object has further events, which the publisher does not hear.
  abbrev pub Unheard : Object L P C → Object L P C → Type 0
  Unheard o o' =
      (es : List (Event L)) × (o'.events ≡ o.events ++ es)
      × ((p : Publisher L P C) → hear vt conf es p ≡ p)

  same-Unheard : (o : Object L P C) → Unheard o o
  unfolding hear
  same-Unheard o = ([], sym (append-nil o.events), λ p. refl)

  Unheard-trans : (a b c : Object L P C) → Unheard a b → Unheard b c → Unheard a c
  Unheard-trans a b c (xs, e, h) (ys, d, k) = (
    xs ++ ys,
    d ∙ ap (λ es. es ++ ys) e ∙ append_assoc a.events xs ys,
    λ p. hear-append xs ys p ∙ k (hear vt conf xs p) ∙ h p,
  )

  note_removed-events :
      (log : L) (o : Object L P C) → (note_removed vt.object log o).events ≡ o.events
  unfolding note_removed
  note_removed-events log o = ground arith

  -- What the removal of the oldest log adds to the events.
  removal : List L → List (Event L)
  removal [] = []
  removal (log ∷ rest) = if vt.object.on_log_removed then log_removed log ∷ [] else []

  removal-unheard : (logs : List L) (p : Publisher L P C) → hear vt conf (removal logs) p ≡ p
  unfolding removal hear
  removal-unheard [] p = refl
  removal-unheard (log ∷ rest) p =
      if-split (λ (es : List (Event L)). hear vt conf es p ≡ p) vt.object.on_log_removed (λ _. refl)
        (λ _. refl)

  pop_front_internal-events :
      (o : Object L P C) → (pop_front_internal vt.object o).events ≡ o.events ++ removal o.logs
  unfolding pop_front_internal note_removed removal
  pop_front_internal-events o = ground (arith, append-nil o.events)

  trim-Unheard : (fuel limit : ℕ) (o : Object L P C) → Unheard o (trim fuel vt.object limit o)
  unfolding trim
  trim-Unheard zero limit o = same-Unheard o
  trim-Unheard (suc fuel) limit o =
      let popped = pop_front_internal vt.object o in
      if-split (λ (o' : Object L P C). Unheard o o') (ltb limit (length o.logs))
        (λ _.
          Unheard-trans o popped (trim fuel vt.object limit popped)
            (removal o.logs, pop_front_internal-events o, removal-unheard o.logs)
            (trim-Unheard fuel limit popped))
        (λ _. same-Unheard o)

  pub auto_gc-Unheard : (o : Object L P C) → Unheard o (auto_gc vt.object conf.object o)
  unfolding auto_gc
  auto_gc-Unheard o =
      if-split (λ (o' : Object L P C). Unheard o o') (ltb 0 conf.object.max_log_size)
        (λ _. trim-Unheard (length o.logs) conf.object.max_log_size o) (λ _. same-Unheard o)
