-- ===== src/Timer.antt =====
-- jiffies_timer.h with its default levels: 8 levels of 64 slots, each level 8 times as coarse as
-- the one below it. Ticks are numbers. A timer's callback is recorded as fired; it does not call
-- the timer wheel.
pub mod Level
pub mod Due
pub mod Moves
pub mod Slots
pub mod Tick
pub mod Kept
pub mod Fires
pub mod Runs
mod Tests
use atframe_utils.Base.{
  ℕ, zero, suc, ◌+◌, ◌-◌, ◌*◌, ◌/◌, ◌%◌, ◌^◌, Bool, true, false, not, ◌&&◌, ◌||◌, Option, none,
  some, List, [], ◌∷◌, ◌++◌, ltb, leb, ◌==◌, if◌then◌else◌, length, is_empty,
}

abbrev pub lvl_depth : ℕ
lvl_depth = 8

abbrev pub lvl_size : ℕ
lvl_size = 64

abbrev pub wheel_size : ℕ
wheel_size = 512

-- `LVL_GRAN`: how many ticks a slot of a level takes.
unfoldable pub lvl_gran : ℕ → ℕ
lvl_gran zero = 1
lvl_gran (suc n) = 8 * lvl_gran n

-- `LVL_START` of level n + 1: the least distance that does not fit into level n.
abbrev pub lvl_limit : ℕ → ℕ
lvl_limit n = 64 * lvl_gran n

-- `get_max_tick_distance`
unfoldable pub max_tick_distance : ℕ
max_tick_distance = lvl_limit 7 - 1

-- `calc_index`
unfoldable pub calc_index : ℕ → ℕ → ℕ
calc_index expires lvl = lvl * lvl_size + expires / lvl_gran lvl % lvl_size

-- The loop of `calc_wheel_index`, with the number of levels left; without one that fits the index
-- is out of the wheel.
unfoldable pub wheel_index_from : ℕ → ℕ → ℕ → ℕ → ℕ
wheel_index_from zero lvl expires delta = wheel_size
wheel_index_from (suc left) lvl expires delta =
    let coarser = wheel_index_from left (suc lvl) expires delta in
    if ltb delta (lvl_limit lvl) then calc_index expires lvl else coarser

-- `calc_wheel_index`
unfoldable pub calc_wheel_index : ℕ → ℕ → ℕ
calc_wheel_index expires clk = wheel_index_from lvl_depth 0 expires (expires - clk)

-- `timer_type`
pub record Timer : Type 0 where
  pub sequence : ℕ
  pub timeout : ℕ
  pub disabled : Bool
  pub removed : Bool

-- A call of a timer's callback, with the tick that it is given.
pub record Fired : Type 0 where
  pub tick_time : ℕ
  pub timer : Timer

-- The state of `jiffies_timer`.
pub record Wheel : Type 0 where
  pub initialized : Bool
  pub last_tick : ℕ
  pub timer_base : ℕ → List Timer
  pub seq_alloc : ℕ
  pub size : ℕ
  pub fired : List Fired

-- `error_type_t`
pub data Status : Type 0 where
  success not_inited already_inited timeout_extended : Status

-- `jiffies_timer()`
abbrev pub new_wheel : Wheel
new_wheel = record {
  initialized = false;
  last_tick = 0;
  timer_base = λ _. [];
  seq_alloc = 0;
  size = 0;
  fired = [];
}

-- `init`
unfoldable pub init : ℕ → Wheel → Status × Wheel
init init_tick w =
    if w.initialized
    then (already_inited, w)
    else (success, record w { initialized = true; last_tick = init_tick; seq_alloc = 0; size = 0 })

-- A write of one slot of `timer_base_`.
abbrev pub put_slot : (ℕ → List Timer) → ℕ → List Timer → ℕ → List Timer
put_slot base idx ts j = if j == idx then ts else base j

-- `insert_timer` of a timer that is in no slot.
unfoldable pub insert_timer : Timer → Wheel → Wheel
insert_timer t w =
    let idx = calc_wheel_index t.timeout w.last_tick in
    record w {
      timer_base =
          put_slot w.timer_base idx (w.timer_base idx ++ record t { removed = false } ∷ []);
      size = w.size + 1;
    }

-- `++seq_alloc_` until it is not 0, on 32 bits.
abbrev pub next_sequence : ℕ → ℕ
next_sequence n = let s = (n + 1) % 2 ^ 32 in if s == 0 then 1 else s

-- `internal_add_timer` with the flag whether the callback is set.
unfoldable pub add_timer : ℕ → Bool → Wheel → Status × Wheel
add_timer delta has_fn w =
    if not w.initialized
    then (not_inited, w)
    else (if ltb max_tick_distance delta
        then (timeout_extended, w)
        else (if not has_fn
            then (success, w)
            else (let s = next_sequence w.seq_alloc in
                let t : Timer = record {
                  sequence = s;
                  timeout = w.last_tick + (if delta == 0 then 1 else delta);
                  disabled = false;
                  removed = false;
                } in
                (success, insert_timer t (record w { seq_alloc = s })))))

-- `collect_expired_timers`: the slots of the active levels that hold timers, the finest first.
unfoldable pub collect_from : ℕ → ℕ → Bool → ℕ → (ℕ → List Timer) → List ℕ
collect_from zero lvl active tick base = []
collect_from (suc left) lvl active tick base =
    let idx = tick % lvl_size + lvl * lvl_size in
    let rest = collect_from left (suc lvl) (tick % 8 == 0) (tick / 8) base in
    if active && not (is_empty (base idx)) then idx ∷ rest else rest

abbrev pub collect_expired_timers : ℕ → (ℕ → List Timer) → List ℕ
collect_expired_timers tick base = collect_from lvl_depth 0 true tick base

-- `remove_timer` of the first timer of a slot, whose rest is given.
abbrev pub remove_first : ℕ → List Timer → Wheel → Wheel
remove_first idx rest w = record w {
  timer_base = put_slot w.timer_base idx rest;
  size = w.size - 1;
}

-- The end of a round of `tick`: a timer that is due is fired, unless it is disabled.
unfoldable pub fire : Timer → Wheel → Wheel
fire t w = if t.disabled then w else record w {
  fired = w.fired ++ record { tick_time = w.last_tick; timer = record t { removed = true } } ∷ [];
}

-- The loop of `tick` over one slot, with the number of its timers as fuel.
unfoldable pub drain_slot : ℕ → ℕ → Wheel → Wheel
drain_slot zero idx w = w
drain_slot (suc fuel) idx w = elim (w.timer_base idx) [
  | [] ↦ w
  | t ∷ rest ↦
      let removed = drain_slot fuel idx (remove_first idx rest w) in
      let moved = drain_slot fuel idx (insert_timer t (remove_first idx rest w)) in
      let due = drain_slot fuel idx (fire t (remove_first idx rest w)) in
      if t.removed
      then removed
      else (if ltb w.last_tick t.timeout
          then (if calc_wheel_index t.timeout w.last_tick == idx then w else moved)
          else due)
]

-- The slots of one tick, the coarsest level first.
unfoldable pub drain_slots : List ℕ → Wheel → Wheel
drain_slots [] w = w
drain_slots (idx ∷ slots) w =
    let w' = drain_slots slots w in drain_slot (length (w'.timer_base idx)) idx w'

-- `tick`, with the number of ticks to go.
unfoldable pub tick_from : ℕ → Wheel → Wheel
tick_from zero w = w
tick_from (suc n) w =
    let w' = record w { last_tick = w.last_tick + 1 } in
    tick_from n (drain_slots (collect_expired_timers w'.last_tick w'.timer_base) w')

-- `tick`: the status or the number of timers that were fired, and the wheel.
unfoldable pub tick : ℕ → Wheel → Status × ℕ × Wheel
tick expires w =
    let w' = tick_from (expires - w.last_tick) w in
    if not w.initialized
    then (not_inited, 0, w)
    else (success, length w'.fired - length w.fired, w')
