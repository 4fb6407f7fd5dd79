-- ===== src/Timer/Tick.antt =====
-- `tick`: the slots of a tick, and the ticks of a call.
use atframe_utils.Base.{
  if-split, ℕ, zero, suc, ◌+◌, ◌-◌, ◌*◌, ◌/◌, ◌%◌, ◌<◌, ◌≡◌, inl, inr, refl, sym, subst, arith,
  dec_lt, Bool, true, false, not, ◌&&◌, List, [], ◌∷◌, All, All-mono, length, is_empty, ◌==◌,
  ==_iff, max,
}
use atframe_utils.Timer.{
  lvl_gran, Timer, Wheel, Status, collect_from, collect_expired_timers, drain_slots, tick_from,
  tick,
}
use atframe_utils.Timer.Level.{lvl_gran-pos, div_turns, div_starts}
use atframe_utils.Timer.Due.{IsDueAt, next_tick}
use atframe_utils.Timer.Slots.{IsPlaced, IsSorted, IsOnTime, IsDrained, drained}

-- Every timer's slot is right for its timeout, and every callback was called in the tick of its
-- timer's timeout.
pub record IsTimely (w : Wheel) : Type 0 where
  pub placed : (j : ℕ) → All (IsPlaced w.last_tick j) (w.timer_base j)
  pub on_time : All IsOnTime w.fired

-- A slot that is not one of the level, or whose level or list is left out, has no timers due there.
less_due :
    (start : ℕ → List Timer) (t lvl j : ℕ) (x : Timer)
    → (IsDueAt t j x.timeout lvl → is_empty (start j) ≡ false → ⊥)
    → IsSorted start t (suc lvl) j x
    → IsSorted start t lvl j x
less_due start t lvl j x none (inl p) = inl p
less_due start t lvl j x none (inr (k, lt, due, ne)) = elim (dec_lt k lvl) [
  | yes below ↦ inr (k, below, due, ne)
  | no above ↦ absurd (none (subst (IsDueAt t j x.timeout) (omega arith) due) ne)
]

module _ (start : ℕ → List Timer) (t lvl : ℕ) (w : Wheel) (rest : List ℕ)
    (coarser : IsDrained start t (suc lvl) (drain_slots rest w)) where
  -- The slot of the level.
  idx : ℕ
  idx = t / lvl_gran lvl % 64 + lvl * 64

  with_level : lvl < 8 → IsDrained start t lvl (drain_slots (idx ∷ rest) w)
  unfolding drain_slots idx
  with_level lt =
      let w' = drain_slots rest w in
      drained start t lvl idx lt (omega arith) (length (w'.timer_base idx)) w'
        (record {
          now = coarser.now;
          others = λ j. λ n.
              All-mono _ _ (w'.timer_base j)
                (λ x. less_due start t lvl j x (λ due. λ ne. n (omega (arith, due.slot))))
                (coarser.slots j);
          own = coarser.slots idx;
          on_time = coarser.on_time;
        })
        (omega arith)

  without_level :
      (active : Bool)
      → (t % lvl_gran lvl ≡ 0 → active ≡ true)
      → active && not (is_empty (start idx)) ≡ false
      → IsDrained start t lvl (drain_slots rest w)
  unfolding idx
  without_level active a e =
      let w' = drain_slots rest w in
      record {
        now = coarser.now;
        slots = λ j.
            All-mono _ _ (w'.timer_base j) (λ x. less_due start t lvl j x (not_due j x))
              (coarser.slots j);
        on_time = coarser.on_time;
      }
    where
      not_due : (j : ℕ) (x : Timer) → IsDueAt t j x.timeout lvl → is_empty (start j) ≡ false → ⊥
      not_due j x due ne =
          let same : j ≡ idx = omega (arith, due.slot) in
          let full = subst (λ n. is_empty (start n) ≡ false) same ne in
          let on = a due.starts in ground (arith, e, full, on)

-- The slots that `collect_expired_timers` gives are all that timers are due in.
collected :
    (t left lvl : ℕ) (active : Bool) (w : Wheel) (start : ℕ → List Timer)
    → lvl + left ≡ 8
    → (t % lvl_gran lvl ≡ 0 → active ≡ true)
    → IsDrained start t 8 w
    → IsDrained start t lvl (drain_slots (collect_from left lvl active (t / lvl_gran lvl) start) w)
unfolding collect_from idx drain_slots
collected t zero lvl active w start s a d = subst (λ n. IsDrained start t n w) (omega arith) d
collected t (suc left) lvl active w start s a d =
    let g = lvl_gran lvl in
    let turns : t / lvl_gran (suc lvl) ≡ t / g / 8 =
      unfold lvl_gran in div_turns (lvl_gran lvl) t in
    let starts : t % lvl_gran (suc lvl) ≡ 0 → t / g % 8 ≡ 0 =
      unfold lvl_gran in div_starts (lvl_gran lvl) t (lvl_gran-pos lvl) in
    let coarser =
      subst
        (λ n.
          IsDrained start t (suc lvl)
            (drain_slots (collect_from left (suc lvl) (t / g % 8 == 0) n start) w))
        turns
        (collected t left (suc lvl) (t / g % 8 == 0) w start (omega arith)
          (λ z. (==_iff (t / g % 8) 0).1 (starts z)) d) in
    if-split (λ slots. IsDrained start t lvl (drain_slots slots w))
      (active && not (is_empty (start (t / g % 64 + lvl * 64))))
      (λ e. with_level start t lvl w _ coarser (omega arith))
      (λ e. without_level start t lvl w _ coarser active a e)

-- The timers of a slot when the next tick begins.
turned :
    (start : ℕ → List Timer) (last j : ℕ) (xs : List Timer)
    → (is_empty xs ≡ false → is_empty (start j) ≡ false)
    → All (IsPlaced last j) xs
    → All (IsSorted start (last + 1) 8 j) xs
turned start last j [] ne all = tt
turned start last j (x ∷ xs) ne all = (first all.0, turned start last j xs (λ e. ne refl) all.1)
  where
    first : IsPlaced last j x → IsSorted start (last + 1) 8 j x
    first (k, p) = elim (next_tick last j x.timeout k p) [
      | inl still ↦ inl (k, still)
      | inr due ↦ inr (k, due.level, due, ne refl)
    ]

finest : (t : ℕ) → t / lvl_gran 0 ≡ t
unfolding lvl_gran
finest t = omega arith

-- One tick.
next-IsTimely :
    (w : Wheel)
    → IsTimely w
    → let w' = record w { last_tick = w.last_tick + 1 } in
      IsTimely (drain_slots (collect_expired_timers w'.last_tick w'.timer_base) w')
      × ((drain_slots (collect_expired_timers w'.last_tick w'.timer_base) w').last_tick
          ≡ w.last_tick + 1)
next-IsTimely w h =
    let w' = record w { last_tick = w.last_tick + 1 } in
    let d =
      collected (w.last_tick + 1) 8 0 true w' w.timer_base (omega arith) (λ z. refl)
        (record {
          now = refl;
          slots = λ j. turned w.timer_base w.last_tick j (w.timer_base j) (λ e. e) (h.placed j);
          on_time = h.on_time;
        }) in
    let d' : IsDrained w.timer_base (w.last_tick + 1) 0
        (drain_slots (collect_expired_timers w'.last_tick w'.timer_base) w') =
      subst
        (λ n.
          IsDrained w.timer_base (w.last_tick + 1) 0
            (drain_slots (collect_from 8 0 true n w.timer_base) w'))
        (finest (w.last_tick + 1)) d in
    (
      record {
        placed = λ j. All-mono _ _ _ (λ x. still j x d'.now) (d'.slots j);
        on_time = d'.on_time;
      },
      d'.now,
    )
  where
    still :
        (j : ℕ) (x : Timer) {n : ℕ}
        → n ≡ w.last_tick + 1
        → IsSorted w.timer_base (w.last_tick + 1) 0 j x
        → IsPlaced n j x
    still j x e (inl p) = subst (λ n. IsPlaced n j x) (sym e) p
    still j x e (inr (k, lt, due, ne)) = absurd (omega (arith, lt))

tick_from-IsTimely :
    (n : ℕ) (w : Wheel)
    → IsTimely w
    → IsTimely (tick_from n w) × ((tick_from n w).last_tick ≡ w.last_tick + n)
unfolding tick_from
tick_from-IsTimely zero w h = (h, omega arith)
tick_from-IsTimely (suc n) w h =
    let w' = record w { last_tick = w.last_tick + 1 } in
    let (h', now) = next-IsTimely w h in
    let (h'', later) =
      tick_from-IsTimely n (drain_slots (collect_expired_timers w'.last_tick w'.timer_base) w')
        h' in
    (h'', omega (arith, now, later))

-- `tick` of an initialized wheel.
pub tick-ticked :
    (expires : ℕ) (w : Wheel)
    → w.initialized ≡ true
    → (tick expires w).2 ≡ tick_from (expires - w.last_tick) w
unfolding tick
tick-ticked expires w i =
    if-split (λ (r : Status × ℕ × Wheel). r.2 ≡ tick_from (expires - w.last_tick) w)
      (not w.initialized) (λ n. ground (arith, i, n)) (λ n. refl)

-- A tick of an initialized wheel goes to `expires` unless the time is already there; it keeps every
-- timer in a slot that is still to come, and calls every callback in exactly the tick of its timer's
-- timeout.
pub tick-IsTimely :
    (expires : ℕ) (w : Wheel)
    → w.initialized ≡ true
    → IsTimely w
    → IsTimely (tick expires w).2 × ((tick expires w).2.last_tick ≡ max w.last_tick expires)
tick-IsTimely expires w i h =
    let (h', now) = tick_from-IsTimely (expires - w.last_tick) w h in
    rw (tick-ticked expires w i) (h', omega (arith, now))
