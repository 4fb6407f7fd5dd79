-- ===== src/Wal/Object/Removed.antt =====
-- The key that a log records of what it removed.
use atframe_utils.Base.{
  ℕ, zero, suc, ◌-◌, ◌≤◌, ◌≡◌, refl, ap, ◌∙◌, not, ◌||◌, Option, none, some, List, [], ◌∷◌, map,
  arith, Bool-cases, inl, inr, length, ◌==◌, take, tail, All,
}
use atframe_utils.Wal.Types.{Configure, Object, Vtable}
use atframe_utils.Wal.Object.{last_removed_after, note_removed, pop_front_internal}
use atframe_utils.Wal.Object.Bounds.{pop_front_internal-logs}
use atframe_utils.Wal.Object.Gc.{GcSettings, gc_settings, gc_removes, gc_loop, gc}

-- The recorded key stands at `k` or above.
abbrev pub Covers : Option ℕ → ℕ → Type 0
Covers none k = ⊥
Covers (some m) k = k ≤ m

Covers-new : (k : ℕ) (r : Option ℕ) → Covers (last_removed_after k r) k
Covers-new k none = omega arith
Covers-new k (some m) = ground arith

Covers-old : (k j : ℕ) (r : Option ℕ) → Covers r j → Covers (last_removed_after k r) j
Covers-old k j none h = absurd h
Covers-old k j (some m) h = ground arith

module _ {ℓ} {L P C : Type ℓ} (vt : Vtable L P C) (key : L → ℕ)
    (keyed : vt.get_log_key ≡ some key) where
  pop_front_internal-removed :
      (o : Object L P C) (x : L) (rest : List L)
      → o.logs ≡ x ∷ rest
      → (pop_front_internal vt o).global_last_removed
        ≡ last_removed_after (key x) o.global_last_removed
  unfolding pop_front_internal note_removed
  pop_front_internal-removed o x rest e = ground (arith, keyed)

  pop_front_internal-empty :
      (o : Object L P C)
      → o.logs ≡ []
      → (pop_front_internal vt o).global_last_removed ≡ o.global_last_removed
  unfolding pop_front_internal
  pop_front_internal-empty o e = ground arith

  pop_front_internal-old :
      (o : Object L P C) (j : ℕ)
      → Covers o.global_last_removed j
      → Covers (pop_front_internal vt o).global_last_removed j
  pop_front_internal-old o j h = by_logs o.logs refl
    where
      by_logs : (xs : List L) → o.logs ≡ xs → Covers (pop_front_internal vt o).global_last_removed j
      by_logs [] e = rw (pop_front_internal-empty o e) h
      by_logs (x ∷ xs) e =
          rw (pop_front_internal-removed o x xs e) (Covers-old (key x) j o.global_last_removed h)

  module _ (s : GcSettings) (now : ℕ) (hold : Option ℕ) where
    gc_loop-Covers :
        (fuel left : ℕ) (o : Object L P C) (xs : List L)
        → o.logs ≡ xs
        → let (n, o') = gc_loop fuel vt s now hold left o in
          All (Covers o'.global_last_removed) (map key (take n xs))
          × ((j : ℕ) → Covers o.global_last_removed j → Covers o'.global_last_removed j)
    unfolding gc_loop
    gc_loop-Covers zero left o xs e = (tt, λ j h. h)
    gc_loop-Covers (suc fuel) left o xs e =
        elim (Bool-cases (left == 0 || not (gc_removes vt s now hold o.logs))) [
          | inl stop ↦ rw stop (tt, λ j h. h)
          | inr go ↦ rw go (
              by_logs xs e (
                gc_loop-Covers fuel (left - 1) (pop_front_internal vt o) (tail xs)
                  ((pop_front_internal-logs vt o).0 ∙ ap tail e)))
        ]
      where
        by_logs :
            (ys : List L)
            → o.logs ≡ ys
            → (let (n, o') = gc_loop fuel vt s now hold (left - 1) (pop_front_internal vt o) in
                All (Covers o'.global_last_removed) (map key (take n (tail ys)))
                × ((j : ℕ)
                    → Covers (pop_front_internal vt o).global_last_removed j
                    → Covers o'.global_last_removed j))
            → let (n, o') = gc_loop fuel vt s now hold (left - 1) (pop_front_internal vt o) in
              All (Covers o'.global_last_removed) (map key (take (suc n) ys))
              × ((j : ℕ) → Covers o.global_last_removed j → Covers o'.global_last_removed j)
        by_logs [] f ih = (tt, λ j h. ih.1 j (pop_front_internal-old o j h))
        by_logs (y ∷ ys) f ih = (
          (
            ih.1 (key y) (
                rw (pop_front_internal-removed o y ys f)
                  (Covers-new (key y) o.global_last_removed)),
            ih.0,
          ),
          λ j h. ih.1 j (pop_front_internal-old o j h),
        )

  -- After `gc` the recorded key is no lower than the key of any removed log.
  pub gc-Covers :
      (conf : Configure) (now : ℕ) (hold : Option ℕ) (max_count : ℕ) (o : Object L P C)
      → let (n, o') = gc vt conf now hold max_count o in
        All (Covers o'.global_last_removed) (map key (take n o.logs))
  unfolding gc
  gc-Covers conf now hold max_count o =
      (gc_loop-Covers (gc_settings conf) now hold (length o.logs) max_count o o.logs refl).0
