-- ===== src/Timer/Slots.antt =====
-- The loop of `tick` over one slot.
use atframe_utils.Base.{
  if-split, ℕ, zero, suc, ◌+◌, ◌-◌, ◌*◌, ◌/◌, ◌%◌, ◌<◌, ◌≤◌, ◌≡◌, ◌≢◌, ◌⊎◌, ◌∙◌, inl, inr, refl,
  sym, subst, arith, false, List, [], ◌∷◌, ◌++◌, All, All-append, length, is_empty, ltb, ◌==◌,
  ltb→lt, ltb→le, Bool-cases, ==_iff,
}
use atframe_utils.Timer.{
  lvl_gran, calc_wheel_index, max_tick_distance, Timer, Fired, Wheel, insert_timer, remove_first,
  fire, drain_slot,
}
use atframe_utils.Timer.Level.{
  IsPlacedAt, lvl_gran-pos, lvl_gran-le, calc_wheel_index-IsPlacedAt, div_lt,
}
use atframe_utils.Timer.Due.{IsDueAt, IsPlacedAt-ne-slot, calc_wheel_index-lt}
use atframe_utils.Timer.Moves.{
  list_cases, drain_slot-nonempty, put_slot-same, fire-timer_base, insert_timer-ne_slot,
  put_slot-All,
}

-- A timer's slot is right for its timeout.
abbrev pub IsPlaced : ℕ → ℕ → Timer → Type 0
IsPlaced last idx x = (k : ℕ) × IsPlacedAt last idx x.timeout k

-- A timer is placed, or it is due in this tick at a level below `lvl` and its slot was not empty.
abbrev pub IsSorted : (ℕ → List Timer) → ℕ → ℕ → ℕ → Timer → Type 0
IsSorted start t lvl idx x =
    IsPlaced t idx x
    ⊎ ((k : ℕ) × (k < lvl) × IsDueAt t idx x.timeout k × (is_empty (start idx) ≡ false))

-- Every call of a callback is made in the tick of the timer's timeout.
abbrev pub IsOnTime : Fired → Type 0
IsOnTime f = f.tick_time ≡ f.timer.timeout

-- The state after the slots from level `lvl` on are emptied.
pub record IsDrained (start : ℕ → List Timer) (t lvl : ℕ) (w : Wheel) : Type 0 where
  pub now : w.last_tick ≡ t
  pub slots : (j : ℕ) → All (IsSorted start t lvl j) (w.timer_base j)
  pub on_time : All IsOnTime w.fired

module _ (start : ℕ → List Timer) (t lvl idx : ℕ) (level : lvl < 8)
    (here : idx ≡ lvl * 64 + t / lvl_gran lvl % 64) where
  -- The state of the loop: only in its own slot are timers due at its level.
  pub record IsRound (w : Wheel) : Type 0 where
    pub now : w.last_tick ≡ t
    pub others : (j : ℕ) → j ≢ idx → All (IsSorted start t lvl j) (w.timer_base j)
    pub own : All (IsSorted start t (suc lvl) idx) (w.timer_base idx)
    pub on_time : All IsOnTime w.fired

  -- The slot's level is that of its index.
  own_level : (e k : ℕ) → IsPlacedAt t idx e k → k ≡ lvl
  own_level e k p = omega (arith, p.slot)

  own_due_level : (e k : ℕ) → IsDueAt t idx e k → k ≡ lvl
  own_due_level e k p = omega (arith, p.slot)

  -- How far ahead a timer of the slot can be.
  in_range : (x : Timer) → IsSorted start t (suc lvl) idx x → x.timeout - t ≤ max_tick_distance
  unfolding max_tick_distance
  in_range x (inl (k, p)) =
      omega (arith, p.within, lvl_gran-le k 7 (omega (arith, p.level)), lvl_gran-pos k)
  in_range x (inr (k, lt, d, ne)) =
      omega (arith, d.to, lvl_gran-le k 7 (omega (arith, d.level)), lvl_gran-pos k)

  -- A timer that is not moved on: the slot does not begin with this tick, and its timers wait.
  stays_later :
      (x : Timer)
      → IsSorted start t (suc lvl) idx x
      → t < x.timeout
      → calc_wheel_index x.timeout t ≡ idx
      → t % lvl_gran lvl ≢ 0
  stays_later x (inl (k, p)) h eq = λ z.
      IsPlacedAt-ne-slot t idx x.timeout lvl
        (subst (IsPlacedAt t idx x.timeout) (own_level x.timeout k p) p) z here
  stays_later x (inr (k, lt, d, ne)) h eq = λ z.
      let same = own_due_level x.timeout k d in
      let d' = subst (IsDueAt t idx x.timeout) same d in
      absurd (
        omega (
          arith,
          calc_wheel_index-lt x.timeout t lvl h d'.to (in_range x (inr (k, lt, d, ne))),
          here,
          eq,
        ))

  settle_slot :
      (xs : List Timer)
      → t % lvl_gran lvl ≢ 0
      → All (IsSorted start t (suc lvl) idx) xs
      → All (IsSorted start t lvl idx) xs
  settle_slot [] ne all = tt
  settle_slot (x ∷ xs) ne all = (settle all.0, settle_slot xs ne all.1)
    where
      settle : IsSorted start t (suc lvl) idx x → IsSorted start t lvl idx x
      settle (inl p) = inl p
      settle (inr (k, lt, d, e)) =
          absurd (ne (subst (λ n. t % lvl_gran n ≡ 0) (own_due_level x.timeout k d) d.starts))

  -- A timer whose time has come is due now.
  due_now : (x : Timer) → IsSorted start t (suc lvl) idx x → x.timeout ≤ t → t ≡ x.timeout
  due_now x (inl (k, p)) h = absurd (ahead_of k p)
    where
      ahead_of : (k : ℕ) → IsPlacedAt t idx x.timeout k → ⊥
      ahead_of k p = div_lt (lvl_gran k) t x.timeout (lvl_gran-pos k) p.ahead h
  due_now x (inr (k, lt, d, ne)) h = omega (arith, d.from)

  finish :
      (w : Wheel)
      → IsRound w
      → All (IsSorted start t lvl idx) (w.timer_base idx)
      → IsDrained start t lvl w
  finish w r own = record { now = r.now; slots = slots; on_time = r.on_time }
    where
      slots : (j : ℕ) → All (IsSorted start t lvl j) (w.timer_base j)
      slots j = elim (Bool-cases (j == idx)) [
        | inl e ↦
            subst (λ i. All (IsSorted start t lvl i) (w.timer_base i)) (sym ((==_iff j idx).0 e))
              own
        | inr n ↦ r.others j (λ q. ground (arith, q, n))
      ]

  remove_first-IsRound :
      (w : Wheel) (x : Timer) (rest : List Timer)
      → w.timer_base idx ≡ x ∷ rest
      → IsRound w
      → IsRound (remove_first idx rest w)
  remove_first-IsRound w x rest e r = record {
    now = r.now;
    others = λ j. λ n.
        put_slot-All (IsSorted start t lvl) w.timer_base idx rest j (λ q. absurd (n q))
          (λ q. r.others j n);
    own =
        let all = subst (All (IsSorted start t (suc lvl) idx)) e r.own in
        put_slot-All (IsSorted start t (suc lvl)) w.timer_base idx rest idx (λ q. all.1)
          (λ q. absurd (q refl));
    on_time = r.on_time;
  }

  fire-IsRound : (w : Wheel) (x : Timer) → t ≡ x.timeout → IsRound w → IsRound (fire x w)
  unfolding fire
  fire-IsRound w x e r = elim (Bool-cases x.disabled) [
    | inl d ↦ rw d r
    | inr d ↦ rw d (record {
      now = r.now;
      others = r.others;
      own = r.own;
      on_time = All-append IsOnTime w.fired _ r.on_time (r.now ∙ e, tt);
    })
  ]

  insert_timer-IsRound :
      (w : Wheel) (x : Timer)
      → t < x.timeout
      → IsSorted start t (suc lvl) idx x
      → calc_wheel_index x.timeout t ≢ idx
      → IsRound w
      → IsRound (insert_timer x w)
  unfolding insert_timer
  insert_timer-IsRound w x h p n r = rw r.now (record {
    now = refl;
    others = λ j. λ m.
        put_slot-All (IsSorted start t lvl) w.timer_base i ts j
          (λ q.
            All-append (IsSorted start t lvl i) (w.timer_base i) _ (r.others i (λ e. m (q ∙ e)))
              (placed, tt))
          (λ q. r.others j m);
    own =
        put_slot-All (IsSorted start t (suc lvl)) w.timer_base i ts idx (λ q. absurd (n (sym q)))
          (λ q. r.own);
    on_time = r.on_time;
  })
    where
      i : ℕ
      i = calc_wheel_index x.timeout t

      ts : List Timer
      ts = w.timer_base i ++ record x { removed = false } ∷ []

      placed : IsSorted start t lvl i (record x { removed = false })
      placed =
          let (k, at, fits) = calc_wheel_index-IsPlacedAt x.timeout t h (in_range x p) in
          inl (k, at)

  pub drained :
      (fuel : ℕ) (w : Wheel)
      → IsRound w
      → length (w.timer_base idx) ≤ fuel
      → IsDrained start t lvl (drain_slot fuel idx w)
  unfolding drain_slot
  drained zero w r le = elim (list_cases (w.timer_base idx)) [
    | inl e ↦ finish w r (subst (All (IsSorted start t lvl idx)) (sym e) tt)
    | inr (x, rest, e) ↦ absurd (omega (arith, subst (λ xs. length xs ≤ 0) e le))
  ]
  drained (suc fuel) w r le = elim (list_cases (w.timer_base idx)) [
    | inl e ↦ rw (e, drain_slot) (finish w r (subst (All (IsSorted start t lvl idx)) (sym e) tt))
    | inr (x, rest, e) ↦
        let w' = remove_first idx rest w in
        let r' = remove_first-IsRound w x rest e r in
        let le' : length (w'.timer_base idx) ≤ fuel =
          rw (put_slot-same w.timer_base idx rest)
            (omega (arith, subst (λ xs. length xs ≤ suc fuel) e le)) in
        let p : IsSorted start t (suc lvl) idx x =
          (subst (All (IsSorted start t (suc lvl) idx)) e r.own).0 in
        rw (drain_slot-nonempty fuel idx w x rest e) (
          if-split (IsDrained start t lvl) x.removed (λ removed. drained fuel w' r' le')
            (λ kept.
              if-split (IsDrained start t lvl) (ltb w.last_tick x.timeout)
                (λ later.
                  let h : t < x.timeout =
                    subst (λ n. n < x.timeout) r.now (ltb→lt w.last_tick x.timeout later) in
                  if-split (IsDrained start t lvl) (calc_wheel_index x.timeout w.last_tick == idx)
                    (λ stays.
                      let same =
                        subst (λ n. calc_wheel_index x.timeout n ≡ idx) r.now
                          ((==_iff (calc_wheel_index x.timeout w.last_tick) idx).0 stays) in
                      finish w r (settle_slot (w.timer_base idx) (stays_later x p h same) r.own))
                    (λ moves.
                      let ne =
                        subst (λ n. (calc_wheel_index x.timeout n == idx) ≡ false) r.now moves in
                      drained fuel (insert_timer x w')
                        (insert_timer-IsRound w' x h p (λ q. ground (arith, q, ne)) r')
                        (subst (λ xs. length xs ≤ fuel) (sym (insert_timer-ne_slot x w' idx moves))
                          le')))
                (λ due.
                  let h : x.timeout ≤ t =
                    subst (λ n. x.timeout ≤ n) r.now (ltb→le w.last_tick x.timeout due) in
                  drained fuel (fire x w') (fire-IsRound w' x (due_now x p h) r')
                    (subst (λ base. length (base idx) ≤ fuel) (sym (fire-timer_base x w')) le'))))
  ]
