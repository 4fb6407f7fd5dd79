-- ===== src/Timer/Fires.antt =====
-- What a caller of the timers can rely on.
use atframe_utils.Base.{
  if-split, ℕ, ◌+◌, ◌-◌, ◌<◌, ◌≤◌, ◌≡◌, ap, inl, inr, refl, sym, subst, arith, dec_lt, Bool, true,
  false, not, All-append, ltb, ltb→le, ltb→lt, ◌==◌, Bool-cases, if◌then◌else◌,
}
use atframe_utils.Timer.{
  lvl_gran, max_tick_distance, Timer, Wheel, Status, success, calc_wheel_index, insert_timer,
  next_sequence, add_timer, tick,
}
use atframe_utils.Timer.Level.{lvl_gran-pos, div_lt, calc_wheel_index-IsPlacedAt}
use atframe_utils.Timer.Slots.{IsPlaced, IsOnTime}
use atframe_utils.Timer.Moves.{put_slot-All}
use atframe_utils.Timer.Tick.{IsTimely, tick-ticked, tick-IsTimely}
use atframe_utils.Timer.Kept.{Has, All-at, call_at, IsHeld, insert_timer-IsHeld, tick_from-IsHeld}

IsPlaced-later : (last j : ℕ) (x : Timer) → IsPlaced last j x → last < x.timeout
IsPlaced-later last j x (k, p) = elim (dec_lt last x.timeout) [
  | yes h ↦ h
  | no n ↦ absurd (div_lt (lvl_gran k) last x.timeout (lvl_gran-pos k) p.ahead (omega arith))
]

module _ (w : Wheel) (timely : IsTimely w) (x : Timer) (later : w.last_tick < x.timeout)
    (near : x.timeout - w.last_tick ≤ max_tick_distance) where
  insert_timer-IsTimely : IsTimely (insert_timer x w)
  unfolding insert_timer
  insert_timer-IsTimely =
      let i = calc_wheel_index x.timeout w.last_tick in
      let (k, at, fits) = calc_wheel_index-IsPlacedAt x.timeout w.last_tick later near in
      record {
        placed = λ j.
            put_slot-All (IsPlaced w.last_tick) w.timer_base i _ j
              (λ q.
                All-append (IsPlaced w.last_tick i) (w.timer_base i) _ (timely.placed i)
                  ((k, at), tt))
              (λ q. timely.placed j);
        on_time = timely.on_time;
      }

insert_timer-initialized :
    (x : Timer) (w : Wheel) → w.initialized ≡ true → (insert_timer x w).initialized ≡ true
unfolding insert_timer
insert_timer-initialized x w i = i

-- The timer that `add_timer` makes.
abbrev pub new_timer : ℕ → Wheel → Timer
new_timer delta w = record {
  sequence = next_sequence w.seq_alloc;
  timeout = w.last_tick + (if delta == 0 then 1 else delta);
  disabled = false;
  removed = false;
}

-- How far away the timer is.
distance :
    (delta : ℕ)
    → delta ≤ max_tick_distance
    → (0 < (if delta == 0 then 1 else delta))
      × ((if delta == 0 then 1 else delta) ≤ max_tick_distance)
unfolding max_tick_distance lvl_gran
distance delta d = elim (Bool-cases (delta == 0)) [
  | inl z ↦ rw z (omega arith, omega arith)
  | inr n ↦ rw n (ground (arith, n), d)
]

-- On every branch.
pub add_timer-IsTimely :
    (delta : ℕ) (has_fn : Bool) (w : Wheel) → IsTimely w → IsTimely (add_timer delta has_fn w).1
unfolding add_timer
add_timer-IsTimely delta has_fn w h =
    if-split OnWheel (not w.initialized) (λ _. h)
      (λ _.
        if-split OnWheel (ltb max_tick_distance delta) (λ _. h)
          (λ near. if-split OnWheel (not has_fn) (λ _. h) (λ _. added near)))
  where
    OnWheel : Status × Wheel → Type 0
    OnWheel r = IsTimely r.1

    added :
        ltb max_tick_distance delta ≡ false
        → IsTimely
            (insert_timer (new_timer delta w) (record w { seq_alloc = next_sequence w.seq_alloc }))
    added near =
        let (pos, fits) = distance delta (ltb→le max_tick_distance delta near) in
        insert_timer-IsTimely (record w { seq_alloc = next_sequence w.seq_alloc })
          (record { placed = h.placed; on_time = h.on_time }) (new_timer delta w)
          (omega (arith, pos)) (omega (arith, fits))

-- What is held is called when its time has come.
held-fires :
    (expires : ℕ) (w : Wheel) (x : Timer) (kept : x.removed ≡ false) (enabled : x.disabled ≡ false)
    → w.initialized ≡ true
    → IsTimely w
    → IsHeld x kept enabled w
    → x.timeout ≤ expires
    → Has (call_at x.timeout x) (tick expires w).2.fired
held-fires expires w x kept enabled i h held due =
    let (h', now) = tick-IsTimely expires w i h in
    let out = tick_from-IsHeld x kept enabled (expires - w.last_tick) w held in
    elim (subst (IsHeld x kept enabled) (sym (tick-ticked expires w i)) out) [
      | inl (k, waits) ↦
          let later =
            IsPlaced-later (tick expires w).2.last_tick k x
              (All-at (IsPlaced _ k) x _ (h'.placed k) waits) in
          absurd (omega (arith, later, now, due))
      | inr (n, called) ↦
          subst (λ m. Has (call_at m x) (tick expires w).2.fired)
            (All-at IsOnTime (call_at n x) _ h'.on_time called) called
    ]

-- In an initialized wheel whose timers are in their slots, a tick to the timeout of a timer or later
-- calls a timer that is neither disabled nor removed, and gives it exactly its timeout as the time.
pub tick-fires :
    (expires : ℕ) (w : Wheel) (x : Timer) (j : ℕ)
    → w.initialized ≡ true
    → IsTimely w
    → x.removed ≡ false
    → x.disabled ≡ false
    → Has x (w.timer_base j)
    → x.timeout ≤ expires
    → Has (call_at x.timeout x) (tick expires w).2.fired
tick-fires expires w x j i h kept enabled held due =
    held-fires expires w x kept enabled i h (inl (j, held)) due

-- In the range of the wheel, `add_timer` with a callback makes a timer.
add_timer-added :
    (delta : ℕ) (w : Wheel)
    → w.initialized ≡ true
    → delta ≤ max_tick_distance
    → add_timer delta true w ≡ (
      success,
      insert_timer (new_timer delta w) (record w { seq_alloc = next_sequence w.seq_alloc }),
    )
unfolding add_timer
add_timer-added delta w i near =
    let P : Status × Wheel → Type 0 = λ r. r ≡ (
      success,
      insert_timer (new_timer delta w) (record w { seq_alloc = next_sequence w.seq_alloc }),
    ) in
    if-split P (not w.initialized) (λ n. ground (arith, i, n))
      (λ _.
        if-split P (ltb max_tick_distance delta)
          (λ far. absurd (omega (arith, near, ltb→lt max_tick_distance delta far))) (λ _. refl))

-- `add_timer` with a callback and a delay in the range of the wheel succeeds in an initialized wheel
-- whose timers are in their slots, and a later tick calls the new timer with exactly the time that is
-- the delay after the last tick, where a delay of 0 counts as 1.
pub add_timer-fires :
    (delta expires : ℕ) (w : Wheel)
    → w.initialized ≡ true
    → IsTimely w
    → delta ≤ max_tick_distance
    → w.last_tick + (if delta == 0 then 1 else delta) ≤ expires
    → let x = new_timer delta w in
      ((add_timer delta true w).0 ≡ success)
      × Has (call_at x.timeout x) (tick expires (add_timer delta true w).1).2.fired
add_timer-fires delta expires w i h near due =
    let x = new_timer delta w in
    let w' = record w { seq_alloc = next_sequence w.seq_alloc } in
    let added = add_timer-added delta w i near in
    let init' =
      subst (λ (r : Status × Wheel). r.1.initialized ≡ true) (sym added)
        (insert_timer-initialized x w' i) in
    let held =
      subst (λ (r : Status × Wheel). IsHeld x refl refl r.1) (sym added)
        (insert_timer-IsHeld x refl refl x w' (inl refl)) in
    (
      ap (λ (r : Status × Wheel). r.0) added,
      held-fires expires (add_timer delta true w).1 x refl refl init'
          (add_timer-IsTimely delta true w h) held due,
    )
