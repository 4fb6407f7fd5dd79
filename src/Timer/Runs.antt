-- ===== src/Timer/Runs.antt =====
-- Sequences of calls of a timer wheel, from its constructor on.
use atframe_utils.Base.{
  if-split, ℕ, zero, suc, ◌+◌, ◌-◌, length, ◌==◌, ◌≡◌, ◌⊎◌, inl, inr, refl, arith, Bool, true, not,
  List, [], ◌∷◌, ltb,
}
use atframe_utils.Timer.{
  calc_wheel_index, remove_first, fire, drain_slot, drain_slots, collect_expired_timers,
  max_tick_distance, Timer, Wheel, Status, new_wheel, init, insert_timer, add_timer, tick_from,
  tick,
}
use atframe_utils.Timer.Moves.{list_cases, drain_slot-nonempty}
use atframe_utils.Timer.Tick.{IsTimely, tick-IsTimely, tick-ticked}
use atframe_utils.Timer.Fires.{add_timer-IsTimely}

pub data WheelCall : Type 0 where
  call_init : ℕ → WheelCall
  call_add : ℕ → Bool → WheelCall
  call_tick : ℕ → WheelCall

unfoldable pub run_calls : List WheelCall → Wheel → Wheel
run_calls [] w = w
run_calls (call_init t ∷ calls) w = run_calls calls (init t w).1
run_calls (call_add delta has_fn ∷ calls) w = run_calls calls (add_timer delta has_fn w).1
run_calls (call_tick expires ∷ calls) w = run_calls calls (tick expires w).2

-- A wheel before `init`, or a timely one after it.
abbrev IsReached : Wheel → Type 0
IsReached w = (w ≡ new_wheel) ⊎ ((w.initialized ≡ true) × IsTimely w)

init-IsReached : (t : ℕ) (w : Wheel) → IsReached w → IsReached (init t w).1
unfolding init
init-IsReached t w (inl e) = rw e (inr (refl, record { placed = λ j. tt; on_time = tt }))
init-IsReached t w (inr (i, h)) =
    if-split (λ (r : Status × Wheel). IsReached r.1) w.initialized (λ _. inr (i, h))
      (λ n. ground (arith, i, n))

add_timer-initialized :
    (delta : ℕ) (has_fn : Bool) (w : Wheel)
    → w.initialized ≡ true
    → (add_timer delta has_fn w).1.initialized ≡ true
unfolding add_timer insert_timer
add_timer-initialized delta has_fn w i =
    if-split P (not w.initialized) (λ _. i)
      (λ _.
        if-split P (ltb max_tick_distance delta) (λ _. i)
          (λ _. if-split P (not has_fn) (λ _. i) (λ _. i)))
  where
    P : Status × Wheel → Type 0
    P r = r.1.initialized ≡ true

add_timer-IsReached :
    (delta : ℕ) (has_fn : Bool) (w : Wheel) → IsReached w → IsReached (add_timer delta has_fn w).1
unfolding add_timer
add_timer-IsReached delta has_fn w (inl e) = inl (rw e refl)
add_timer-IsReached delta has_fn w (inr (i, h)) =
    inr (add_timer-initialized delta has_fn w i, add_timer-IsTimely delta has_fn w h)

fire-initialized : (x : Timer) (w : Wheel) → w.initialized ≡ true → (fire x w).initialized ≡ true
unfolding fire
fire-initialized x w i = if-split (λ (v : Wheel). v.initialized ≡ true) x.disabled (λ _. i) (λ _. i)

insert_timer-initialized :
    (x : Timer) (w : Wheel) → w.initialized ≡ true → (insert_timer x w).initialized ≡ true
unfolding insert_timer
insert_timer-initialized x w i = i

drain_slot-initialized :
    (fuel idx : ℕ) (w : Wheel) → w.initialized ≡ true → (drain_slot fuel idx w).initialized ≡ true
unfolding drain_slot
drain_slot-initialized zero idx w i = i
drain_slot-initialized (suc fuel) idx w i = elim (list_cases (w.timer_base idx)) [
  | inl e ↦ rw (e, drain_slot) i
  | inr (y, rest, e) ↦
      let w' = remove_first idx rest w in
      let P : Wheel → Type 0 = λ v. v.initialized ≡ true in
      rw (drain_slot-nonempty fuel idx w y rest e) (
        if-split P y.removed (λ _. drain_slot-initialized fuel idx w' i)
          (λ _.
            if-split P (ltb w.last_tick y.timeout)
              (λ _.
                if-split P (calc_wheel_index y.timeout w.last_tick == idx) (λ _. i)
                  (λ _.
                    drain_slot-initialized fuel idx (insert_timer y w')
                      (insert_timer-initialized y w' i)))
              (λ _. drain_slot-initialized fuel idx (fire y w') (fire-initialized y w' i))))
]

drain_slots-initialized :
    (slots : List ℕ) (w : Wheel) → w.initialized ≡ true → (drain_slots slots w).initialized ≡ true
unfolding drain_slots
drain_slots-initialized [] w i = i
drain_slots-initialized (idx ∷ slots) w i =
    let w' = drain_slots slots w in
    drain_slot-initialized (length (w'.timer_base idx)) idx w' (drain_slots-initialized slots w i)

tick_from-initialized :
    (n : ℕ) (w : Wheel) → w.initialized ≡ true → (tick_from n w).initialized ≡ true
unfolding tick_from
tick_from-initialized zero w i = i
tick_from-initialized (suc n) w i =
    let w' = record w { last_tick = w.last_tick + 1 } in
    let slots = collect_expired_timers w'.last_tick w'.timer_base in
    tick_from-initialized n (drain_slots slots w') (drain_slots-initialized slots w' i)

tick-initialized :
    (expires : ℕ) (w : Wheel) → w.initialized ≡ true → (tick expires w).2.initialized ≡ true
tick-initialized expires w i =
    rw (tick-ticked expires w i) (tick_from-initialized (expires - w.last_tick) w i)

tick-IsReached : (expires : ℕ) (w : Wheel) → IsReached w → IsReached (tick expires w).2
unfolding tick
tick-IsReached expires w (inl e) = inl (rw e refl)
tick-IsReached expires w (inr (i, h)) =
    inr (tick-initialized expires w i, (tick-IsTimely expires w i h).0)

IsReached-IsTimely : (w : Wheel) → IsReached w → IsTimely w
IsReached-IsTimely w (inl e) = rw e (record { placed = λ j. tt; on_time = tt })
IsReached-IsTimely w (inr (i, h)) = h

run_calls-IsReached :
    (calls : List WheelCall) (w : Wheel) → IsReached w → IsReached (run_calls calls w)
unfolding run_calls
run_calls-IsReached [] w h = h
run_calls-IsReached (call_init t ∷ calls) w h =
    run_calls-IsReached calls (init t w).1 (init-IsReached t w h)
run_calls-IsReached (call_add delta has_fn ∷ calls) w h =
    run_calls-IsReached calls (add_timer delta has_fn w).1 (add_timer-IsReached delta has_fn w h)
run_calls-IsReached (call_tick expires ∷ calls) w h =
    run_calls-IsReached calls (tick expires w).2 (tick-IsReached expires w h)

-- After any sequence of calls of `init`, `add_timer` and `tick` of a new wheel, every timer is in a
-- slot that is still to come, right for its timeout, and every callback was called in exactly the
-- tick of its timer's timeout.
pub run_calls-IsTimely : (calls : List WheelCall) → IsTimely (run_calls calls new_wheel)
run_calls-IsTimely calls =
    IsReached-IsTimely (run_calls calls new_wheel) (run_calls-IsReached calls new_wheel (inl refl))
