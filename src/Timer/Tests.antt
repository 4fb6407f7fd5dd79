-- ===== src/Timer/Tests.antt =====
-- Runs of the timer wheel, and its theorems at them.
use atframe_utils.Base.{ℕ, ◌-◌, ◌≤◌, ◌≡◌, refl, arith, inl, true, [], ◌∷◌}
use atframe_utils.Timer.{
  lvl_gran, max_tick_distance, calc_index, wheel_index_from, calc_wheel_index, Timer, Wheel,
  success, timeout_extended, new_wheel, init, insert_timer, add_timer, collect_from, fire,
  drain_slot, drain_slots, tick_from, tick,
}
use atframe_utils.Timer.Level.{IsPlacedAt, Fits, calc_wheel_index-IsPlacedAt}
use atframe_utils.Timer.Tick.{IsTimely}
use atframe_utils.Timer.Kept.{Has, call_at}
use atframe_utils.Timer.Runs.{call_add, call_init, call_tick, run_calls, run_calls-IsTimely}
use atframe_utils.Timer.Fires.{new_timer, add_timer-IsTimely, tick-fires, add_timer-fires}

-- A wheel that starts at tick 10.
abbrev started : Wheel
started = record {
  initialized = true;
  last_tick = 10;
  timer_base = λ _. [];
  seq_alloc = 0;
  size = 0;
  fired = [];
}

init-started : init 10 new_wheel ≡ (success, started)
unfolding init
init-started = refl

-- One timer in 2 ticks and one in 70, of the second level.
abbrev loaded : Wheel
loaded = (add_timer 2 true (add_timer 70 true started).1).1

program : Unit {0}
unfolding lvl_gran max_tick_distance calc_index wheel_index_from calc_wheel_index insert_timer
    add_timer collect_from fire drain_slot drain_slots tick_from tick
program = tt

calc_wheel_index_80 : calc_wheel_index 80 10 ≡ 74
unfolding program
calc_wheel_index_80 = refl

tick_11 : (tick 11 loaded).1 ≡ 0
unfolding program
tick_11 = refl

tick_12 : (tick 12 loaded).1 ≡ 1
unfolding program
tick_12 = refl

tick_80 : (tick 80 loaded).1 ≡ 2
unfolding program
tick_80 = refl

add_timer_too_far : (add_timer 200000000 true started).0 ≡ timeout_extended
unfolding program
add_timer_too_far = refl

started-IsTimely : IsTimely started
started-IsTimely = record { placed = λ j. tt; on_time = tt }

loaded-IsTimely : IsTimely loaded
loaded-IsTimely =
    add_timer-IsTimely 2 true (add_timer 70 true started).1
      (add_timer-IsTimely 70 true started started-IsTimely)

loaded_initialized : loaded.initialized ≡ true
unfolding program
loaded_initialized = refl

in_range : 80 - 10 ≤ max_tick_distance
unfolding program
in_range = omega arith

calc_wheel_index-IsPlacedAt_example :
    (k : ℕ) × IsPlacedAt 10 (calc_wheel_index 80 10) 80 k × Fits (80 - 10) k
calc_wheel_index-IsPlacedAt_example = calc_wheel_index-IsPlacedAt 80 10 (omega arith) in_range

-- The second of the two timers.
abbrev soon : Timer
soon = new_timer 2 (add_timer 70 true started).1

soon_waits : Has soon (loaded.timer_base 12)
unfolding program
soon_waits = inl refl

soon_due : soon.timeout ≤ 80
unfolding program
soon_due = omega arith

tick-fires_example : Has (call_at soon.timeout soon) (tick 80 loaded).2.fired
tick-fires_example =
    tick-fires 80 loaded soon 12 loaded_initialized loaded-IsTimely refl refl soon_waits soon_due

near : 70 ≤ max_tick_distance
unfolding program
near = omega arith

add_timer-fires_example :
    let x = new_timer 70 started in
    ((add_timer 70 true started).0 ≡ success)
    × Has (call_at x.timeout x) (tick 100 (add_timer 70 true started).1).2.fired
add_timer-fires_example = add_timer-fires 70 100 started refl started-IsTimely near (omega arith)

run_calls-IsTimely_example :
    IsTimely
      (run_calls (call_add 5 true ∷ call_init 10 ∷ call_add 70 true ∷ call_tick 300 ∷ []) new_wheel)
run_calls-IsTimely_example =
    run_calls-IsTimely (call_add 5 true ∷ call_init 10 ∷ call_add 70 true ∷ call_tick 300 ∷ [])
