-- ===== src/Timer/Due.antt =====
-- Where a timer stands when the tick advances.
use atframe_utils.Base.{
  ℕ, ◌+◌, ◌-◌, ◌*◌, ◌/◌, ◌%◌, ◌<◌, ◌≤◌, ◌≡◌, ◌≢◌, ◌⊎◌, ◌∙◌, ap, inl, inr, sym, subst, arith, dec_lt,
}
use atframe_utils.Timer.{lvl_gran, calc_wheel_index, max_tick_distance}
use atframe_utils.Timer.Level.{
  IsPlacedAt, Fits, lvl_gran-pos, lvl_gran-le, div_next, div_same, div_turn,
  calc_wheel_index-IsPlacedAt,
}

-- The slot of the level begins with this tick, and the timer belongs to its span.
pub record IsDueAt (t idx e lvl : ℕ) : Type 0 where
  pub level : lvl < 8
  pub slot : idx ≡ lvl * 64 + t / lvl_gran lvl % 64
  pub starts : t % lvl_gran lvl ≡ 0
  pub from : t ≤ e
  pub to : e < t + lvl_gran lvl

-- With the next tick a placed timer stays placed, or its slot has come.
pub next_tick :
    (last idx e lvl : ℕ)
    → IsPlacedAt last idx e lvl
    → IsPlacedAt (last + 1) idx e lvl ⊎ IsDueAt (last + 1) idx e lvl
next_tick last idx e lvl p = by_slot (div_next g last e (lvl_gran-pos lvl) p.ahead)
  where
    g : ℕ
    g = lvl_gran lvl

    by_slot :
        ((last + 1) / g < e / g) ⊎ ((last + 1) / g ≡ e / g) × ((last + 1) % g ≡ 0)
        → IsPlacedAt (last + 1) idx e lvl ⊎ IsDueAt (last + 1) idx e lvl
    by_slot (inl lt) =
        inl
          (record { level = p.level; slot = p.slot; ahead = lt; within = omega (arith, p.within) })
    by_slot (inr (same, z)) =
        let (lo, hi) = div_same g (last + 1) e (lvl_gran-pos lvl) z same in
        inr (record {
          level = p.level;
          slot = p.slot ∙ ap (λ q. lvl * 64 + q % 64) (sym same);
          starts = z;
          from = lo;
          to = hi;
        })

-- In the slot that begins with this tick no timer is a turn ahead.
pub IsPlacedAt-ne-slot :
    (t idx e lvl : ℕ)
    → IsPlacedAt t idx e lvl
    → t % lvl_gran lvl ≡ 0
    → idx ≢ lvl * 64 + t / lvl_gran lvl % 64
IsPlacedAt-ne-slot t idx e lvl p z eq =
    let turn = div_turn (lvl_gran lvl) t e (lvl_gran-pos lvl) z p.within in
    omega (arith, p.slot, p.ahead, turn, eq)

-- A timer whose span is shorter than a slot of a level goes to a lower level.
pub calc_wheel_index-lt :
    (e t lvl : ℕ)
    → t < e
    → e < t + lvl_gran lvl
    → e - t ≤ max_tick_distance
    → calc_wheel_index e t < lvl * 64
calc_wheel_index-lt e t lvl h to d =
    let (k, p, f) = calc_wheel_index-IsPlacedAt e t h d in
    elim (dec_lt k lvl) [
      | yes below ↦ omega (arith, p.slot)
      | no not_below ↦ absurd (too_far k f (lvl_gran-le lvl k (omega arith)))
    ]
  where
    too_far : (k : ℕ) → Fits (e - t) k → lvl_gran lvl ≤ lvl_gran k → ⊥
    too_far k f le = by_level f.above
      where
        by_level : (k ≡ 0) ⊎ (8 * lvl_gran k ≤ e - t) → ⊥
        by_level (inl z) =
            unfold lvl_gran in omega (arith, subst (λ n. lvl_gran lvl ≤ lvl_gran n) z le)
        by_level (inr far) = omega (arith, lvl_gran-pos k)
